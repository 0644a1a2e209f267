-- ===== src/Wire/RoundTrip.antt =====
-- Reads of pkg/wire/wire.go against its writes.
use go_simple_protocol_runti.Common.{
  ℕ, ◌%◌, ◌^◌, ◌<◌, ◌≡◌, refl, sym, ap, ◌∙◌, List, [], ◌∷◌, ◌++◌, length, All, ◌==◌, nat_eq,
  if◌then◌else◌, arith, length-append, take-length_append, drop-length_append, take-append-drop,
  length-take_le, All-split, subst,
}
use Prim.Native.String.{String}
use mathlib.Core.List.{append-nil, append_assoc}
use go_simple_protocol_runti.Errors.{Result, ok, err, or_wrap, >>=-eq-ok}
use go_simple_protocol_runti.Wire.Words.{
  IsByte, le_bytes, le_value, length-le_bytes, le_value-le_bytes, le_bytes-le_value,
  le_value_bounds,
}
use go_simple_protocol_runti.Wire.{
  read_full, read_uint, write_uint32, read_uint32, write_bytes, read_bytes,
}

pub read_full-append :
    (n : ℕ) (bs rest : List ℕ) → length bs ≡ n → read_full n (bs ++ rest) ≡ ok (bs, rest)
unfolding read_full
read_full-append n [] rest h = ground arith
read_full-append n (b ∷ bs) rest h = rw (← h) (
    ground (
      arith,
      length-append bs rest,
      take-length_append (b ∷ bs) rest,
      drop-length_append (b ∷ bs) rest,
    ))

pub read_full-eq-ok :
    (n : ℕ) (r bs rest : List ℕ)
    → read_full n r ≡ ok (bs, rest)
    → (r ≡ bs ++ rest) × (length bs ≡ n)
unfolding read_full
read_full-eq-ok n r bs rest e = ground (arith, take-append-drop n r, length-take_le n r)

pub read_uint-append :
    (k v : ℕ) (rest : List ℕ) → v < 256 ^ k → read_uint k (le_bytes k v ++ rest) ≡ ok (v, rest)
unfolding read_uint
read_uint-append k v rest h =
    rw (read_full-append k (le_bytes k v) rest (length-le_bytes k v), le_value-le_bytes k v h)

pub read_uint-eq-ok :
    (k v : ℕ) (r rest : List ℕ)
    → All IsByte r
    → read_uint k r ≡ ok (v, rest)
    → (r ≡ le_bytes k v ++ rest) × (v < 256 ^ k) × All IsByte rest
unfolding read_uint
read_uint-eq-ok k v r rest bytes e =
    let (p, full, value) = >>=-eq-ok (read_full k r) _ e in
    let (split, size) = read_full-eq-ok k r p.0 p.1 full in
    let (front, back) = All-split IsByte p.0 p.1 (subst (All IsByte) split bytes) in
    let same = le_bytes-le_value p.0 front in
    let bound = le_value_bounds p.0 front in
    let number : le_value p.0 ≡ v = ground arith in
    let left : p.1 ≡ rest = ground arith in
    (
      split ∙ ap (λ (bs : List ℕ). bs ++ p.1) (sym same) ∙ rw (size, number, left),
      rw (← number) (subst (λ (n : ℕ). le_value p.0 < 256 ^ n) size bound),
      subst (All IsByte) left back,
    )

low_word : (n : ℕ) → n < 2 ^ 32 → n % 2 ^ 32 ≡ n
low_word n h = omega arith

-- The format: the length as a uint32, then the bytes.
pub write_bytes_lem :
    (w b : List ℕ) → length b < 2 ^ 32 → write_bytes w b ≡ w ++ (le_bytes 4 (length b) ++ b)
unfolding write_bytes write_uint32
write_bytes_lem w [] h = rw append-nil
write_bytes_lem w (x ∷ b) h =
    rw (low_word (length (x ∷ b)) h)
      (ground (arith, append_assoc w (le_bytes 4 (length (x ∷ b))) (x ∷ b)))

body_append :
    (b rest : List ℕ)
    → (if length b == 0
        then ok ([], b ++ rest)
        else or_wrap "ReadBytes" (read_full (length b) (b ++ rest)))
      ≡ ok (b, rest)
body_append [] rest = refl
body_append (x ∷ b) rest = rw (read_full-append (length (x ∷ b)) (x ∷ b) rest refl) (ground arith)

pub wrapped {ℓ} : {A : Type ℓ} (m : String) (x : Result A) (a : A) → or_wrap m x ≡ ok a → x ≡ ok a
wrapped m (ok b) a e = e
wrapped m (err x) a e = cc

read_body :
    (n : ℕ) (r b rest : List ℕ)
    → (if n == 0 then ok ([], r) else or_wrap "ReadBytes" (read_full n r)) ≡ ok (b, rest)
    → (r ≡ b ++ rest) × (length b ≡ n)
read_body n r b rest e =
    ground (arith, wrapped "ReadBytes" (read_full n r) (b, rest), read_full-eq-ok n r b rest)

-- `read_bytes` returns the bytes that `write_bytes` wrote, when they are fewer than 2^32, and leaves what
-- follows them.
pub read_bytes-write_bytes :
    (b rest : List ℕ) → length b < 2 ^ 32 → read_bytes (write_bytes [] b ++ rest) ≡ ok (b, rest)
unfolding read_bytes read_uint32
read_bytes-write_bytes b rest h =
    rw
      (
        write_bytes_lem [] b h,
        append_assoc (le_bytes 4 (length b)) b rest,
        read_uint-append 4 (length b) (b ++ rest) h,
      )
      (body_append b rest)

-- What `read_bytes` accepts is what `write_bytes` writes: no other byte string decodes.
pub read_bytes-eq-ok :
    (r b rest : List ℕ)
    → All IsByte r
    → read_bytes r ≡ ok (b, rest)
    → (r ≡ write_bytes [] b ++ rest) × (length b < 2 ^ 32)
unfolding read_bytes read_uint32
read_bytes-eq-ok r b rest bytes e =
    let (p, prefix, body) = >>=-eq-ok (read_uint 4 r) _ e in
    let (split, bound, _) = read_uint-eq-ok 4 p.0 r p.1 bytes prefix in
    let (rest_split, size) = read_body p.0 p.1 b rest body in
    let fits : length b < 2 ^ 32 = rw size bound in
    (
      rw (write_bytes_lem [] b fits, append_assoc (le_bytes 4 (length b)) b rest, size)
          (split ∙ ap (◌++◌ (le_bytes 4 p.0)) rest_split),
      fits,
    )
