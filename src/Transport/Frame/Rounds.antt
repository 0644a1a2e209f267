-- ===== src/Transport/Frame/Rounds.antt =====
-- One round of decodeFrames of pkg/transport/tcp.go: what it reads and what it consumes.
use mathlib.Core.List.{reverse, reverse-reverse}
use go_simple_protocol_runti.Common.{
  ℕ, ◌+◌, ◌^◌, ◌≤◌, ◌<◌, ◌≡◌, refl, ap, List, ◌++◌, length, take, drop, arith, length-append,
  take-append_le, drop-append_le, length-drop, take-length_append, drop-length_append,
  length-take_le,
}
use go_simple_protocol_runti.Wire.Words.{le_bytes, le_value, le_value-le_bytes}
use go_simple_protocol_runti.Transport.Frame.{
  max_frame_size, put_uint32, uint32, too_long, frame, decode_round,
}

length-put_uint32 : (v : ℕ) → length (put_uint32 v) ≡ 4
unfolding put_uint32 le_bytes
length-put_uint32 v = refl

take_header : (v : ℕ) (xs : List ℕ) → take 4 (put_uint32 v ++ xs) ≡ put_uint32 v
unfolding put_uint32 le_bytes
take_header v xs = refl

drop_header : (v : ℕ) (xs : List ℕ) → drop 4 (put_uint32 v ++ xs) ≡ xs
unfolding put_uint32 le_bytes
drop_header v xs = refl

uint32-put_uint32 : (v : ℕ) (xs : List ℕ) → v < 2 ^ 32 → uint32 (put_uint32 v ++ xs) ≡ v
unfolding uint32
uint32-put_uint32 v xs h =
    rw take_header
      (unfold put_uint32 in rw (reverse-reverse (le_bytes 4 v)) (le_value-le_bytes 4 v h))

uint32-append : (buf more : List ℕ) → 4 ≤ length buf → uint32 (buf ++ more) ≡ uint32 buf
unfolding uint32
uint32-append buf more h = ap (λ (bs : List ℕ). le_value (reverse bs)) (take-append_le 4 buf more h)

-- A round on a frame's encoding takes that frame and leaves what follows.
pub decode_round-encode :
    (payload rest : List ℕ)
    → length payload ≤ max_frame_size
    → decode_round (put_uint32 (length payload) ++ (payload ++ rest)) ≡ frame payload rest
unfolding decode_round
decode_round-encode payload rest small =
    rw
      (
        uint32-put_uint32 (length payload) (payload ++ rest) (omega arith),
        drop_header (length payload) (payload ++ rest),
        take-length_append payload rest,
        drop-length_append payload rest,
      )
      (ground (
        arith,
        length-append (put_uint32 (length payload)) (payload ++ rest),
        length-put_uint32 (length payload),
        length-append payload rest,
      ))

-- The tests that a round which takes a frame has passed.
decode_round-tests :
    (buf payload rest : List ℕ)
    → decode_round buf ≡ frame payload rest
    → (uint32 buf ≤ max_frame_size)
      × (4 + uint32 buf ≤ length buf)
      × (payload ≡ take (uint32 buf) (drop 4 buf))
      × (rest ≡ drop (uint32 buf) (drop 4 buf))
unfolding decode_round
decode_round-tests buf payload rest e = ground arith

pub decode_round-frame :
    (buf payload rest : List ℕ)
    → decode_round buf ≡ frame payload rest
    → (length rest + 4 ≤ length buf) × (length payload ≤ max_frame_size)
decode_round-frame buf payload rest e =
    let (small, whole, front, back) = decode_round-tests buf payload rest e in
    let body = length-drop 4 buf in
    (
      rw (back, length-drop (uint32 buf) (drop 4 buf)) (omega (arith, body)),
      rw (front, length-take_le (uint32 buf) (drop 4 buf) (omega (arith, body))) small,
    )

pub decode_round-append_frame :
    (buf more payload rest : List ℕ)
    → decode_round buf ≡ frame payload rest
    → decode_round (buf ++ more) ≡ frame payload (rest ++ more)
unfolding decode_round
decode_round-append_frame buf more payload rest e =
    let (small, whole, front, back) = decode_round-tests buf payload rest e in
    let body = length-drop 4 buf in
    rw
      (
        uint32-append buf more (omega arith),
        drop-append_le 4 buf more (omega arith),
        take-append_le (uint32 buf) (drop 4 buf) more (omega (arith, body)),
        drop-append_le (uint32 buf) (drop 4 buf) more (omega (arith, body)),
      )
      (ground (arith, length-append buf more))

pub decode_round-append_too_long :
    (buf more : List ℕ) → decode_round buf ≡ too_long → decode_round (buf ++ more) ≡ too_long
unfolding decode_round
decode_round-append_too_long buf more e =
    ground (arith, length-append buf more, uint32-append buf more)

-- A length above the limit is refused as soon as it is read.
pub decode_round-oversized :
    (n : ℕ) (xs : List ℕ)
    → max_frame_size < n
    → n < 2 ^ 32
    → decode_round (put_uint32 n ++ xs) ≡ too_long
unfolding decode_round
decode_round-oversized n xs large word =
    rw (uint32-put_uint32 n xs word)
      (ground (arith, length-append (put_uint32 n) xs, length-put_uint32 n))
