-- ===== src/Transport/Frame.antt =====
-- The framing of pkg/transport/tcp.go: a 4-byte big-endian length, then the payload.
pub mod Rounds
pub mod Stream
pub mod Reads
pub mod Examples
use go_simple_protocol_runti.Common.{
  ℕ, zero, suc, ◌+◌, ◌*◌, ◌/◌, ◌%◌, ◌^◌, ◌<◌, List, [], ◌∷◌, ◌++◌, length, take, drop, ltb,
  if◌then◌else◌, Bool, true, false, Option, none, some,
}
use mathlib.Core.List.{reverse}
use go_simple_protocol_runti.Errors.{Result, ok, err, message}
use go_simple_protocol_runti.Wire.Words.{le_bytes, le_value}

abbrev pub max_frame_size : ℕ
max_frame_size = 16 * 1024 * 1024

-- binary.BigEndian.PutUint32 and Uint32.
unfoldable pub put_uint32 : ℕ → List ℕ
put_uint32 v = reverse (le_bytes 4 v)

unfoldable pub uint32 : List ℕ → ℕ
uint32 bs = le_value (reverse (take 4 bs))

unfoldable pub encode_frame : List ℕ → Result (List ℕ)
encode_frame payload =
    if ltb 0xffff_ffff (length payload)
    then err (message "payload too large")
    else ok (put_uint32 (length payload % 2 ^ 32) ++ payload)

-- What a call of `decode_frames` leaves: the frames and the bytes still in the buffer, or an error.
-- `stuck` is no Go value: the loop ran out of fuel.
pub data Decoded : Type 0 where
  frames : List (List ℕ) → List ℕ → Decoded
  failed : Decoded
  stuck : Decoded

abbrev pub prepend : List (List ℕ) → Decoded → Decoded
prepend fs (frames gs rest) = frames (fs ++ gs) rest
prepend fs failed = failed
prepend fs stuck = stuck

-- One round of the loop: `none` when the buffer holds no whole frame, so that the loop returns.
pub data Round : Type 0 where
  wait : Round
  too_long : Round
  frame : List ℕ → List ℕ → Round

unfoldable pub decode_round : List ℕ → Round
decode_round buf =
    if ltb (length buf) 4
    then wait
    else if ltb max_frame_size (uint32 buf)
    then too_long
    else if ltb (length buf) ((4 + uint32 buf) % 2 ^ 32)
    then wait
    else frame (take (uint32 buf) (drop 4 buf)) (drop (uint32 buf) (drop 4 buf))

-- The loop, with the frames that it has appended so far.
unfoldable pub decode_loop : ℕ → List ℕ → List (List ℕ) → Decoded
decode_loop zero buf out = stuck
decode_loop (suc fuel) buf out = elim (decode_round buf) [
  | wait ↦ frames out buf
  | too_long ↦ failed
  | frame payload rest ↦ decode_loop fuel rest (out ++ payload ∷ [])
]

-- A round that goes on takes four bytes at least, so the length of the buffer bounds the rounds.
unfoldable pub decode_frames : List ℕ → Decoded
decode_frames buf = decode_loop (suc (length buf)) buf []

-- The reads of one connection (connectionHandler over readFrames): each chunk goes behind the bytes
-- kept from the reads before, and the frames that are whole are delivered. The result is what was
-- delivered and the bytes kept, `none` once an oversized length has ended the connection.
unfoldable pub receive : List ℕ → List (List ℕ) → List (List ℕ) × Option (List ℕ)
receive kept [] = ([], some kept)
receive kept (chunk ∷ chunks) = elim (decode_frames (kept ++ chunk)) [
  | frames fs rest ↦ (fs ++ (receive rest chunks).0, (receive rest chunks).1)
  | failed ↦ ([], none)
  | stuck ↦ ([], none)
]
