-- ===== src/Wire.antt =====
-- pkg/wire/wire.go. An io.Writer is the bytes.Buffer that every caller in the repository passes: the
-- list of the bytes written, to which a write appends and never fails. An io.Reader is the list of
-- the bytes not yet read; after an error no caller reads on, so a failed read returns no rest.
-- The fixed-width numbers of encoding/binary and io.ReadFull are written out here.
pub mod Words
pub mod RoundTrip
pub mod Examples
use go_simple_protocol_runti.Common.{
  ℕ, zero, ◌%◌, ◌^◌, List, [], ◌∷◌, ◌++◌, length, take, drop, ltb, ◌==◌, nat_eq, if◌then◌else◌,
}
use go_simple_protocol_runti.Wire.Words.{le_bytes, le_value}
use go_simple_protocol_runti.Errors.{Result, ok, err, ◌>>=◌, sentinel, eof, unexpected_eof, or_wrap}

-- io.ReadFull(r, buf) with a buffer of n bytes.
unfoldable pub read_full : ℕ → List ℕ → Result (List ℕ × List ℕ)
read_full n r =
    if n == 0
    then ok ([], r)
    else if length r == 0
    then err (sentinel eof)
    else if ltb (length r) n
    then err (sentinel unexpected_eof)
    else ok (take n r, drop n r)

unfoldable pub read_uint : ℕ → List ℕ → Result (ℕ × List ℕ)
read_uint k r = do (bs, rest) ← read_full k r; ok (le_value bs, rest)

unfoldable pub write_uint16 : List ℕ → ℕ → List ℕ
write_uint16 w v = w ++ le_bytes 2 v

unfoldable pub read_uint16 : List ℕ → Result (ℕ × List ℕ)
read_uint16 r = read_uint 2 r

unfoldable pub write_uint32 : List ℕ → ℕ → List ℕ
write_uint32 w v = w ++ le_bytes 4 v

unfoldable pub read_uint32 : List ℕ → Result (ℕ × List ℕ)
read_uint32 r = read_uint 4 r

unfoldable pub write_uint64 : List ℕ → ℕ → List ℕ
write_uint64 w v = w ++ le_bytes 8 v

unfoldable pub read_uint64 : List ℕ → Result (ℕ × List ℕ)
read_uint64 r = read_uint 8 r

-- The length prefix is `uint32(len(b))`.
unfoldable pub write_bytes : List ℕ → List ℕ → List ℕ
write_bytes w b =
    let w' = write_uint32 w (length b % 2 ^ 32) in if length b == 0 then w' else w' ++ b

unfoldable pub read_bytes : List ℕ → Result (List ℕ × List ℕ)
read_bytes r = do
  (n, r') ← read_uint32 r
  if n == 0 then ok ([], r') else or_wrap "ReadBytes" (read_full n r')

unfoldable pub write_string : List ℕ → List ℕ → List ℕ
write_string w s = write_bytes w s

unfoldable pub read_string : List ℕ → Result (List ℕ × List ℕ)
read_string r = read_bytes r
