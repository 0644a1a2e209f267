-- ===== src/Transport/Host/RoundTrip.antt =====
-- WriteHost and ReadHost of pkg/transport/host.go, one after the other.
use mathlib.Core.List.{append_assoc}
use go_simple_protocol_runti.Common.{
  ℕ, ◌%◌, ◌^◌, ◌≤◌, ◌≡◌, sym, ap, ◌∙◌, List, [], ◌∷◌, ◌++◌, length, All, inl, inr, arith, false,
  All-split, subst,
}
use go_simple_protocol_runti.Common.Int.{pos, uint16, uint16_bounds, uint16-pos}
use go_simple_protocol_runti.Errors.{
  Error, ok, err, >>=-eq-ok, Result-cases, errors_is, version_mismatch,
}
use go_simple_protocol_runti.Wire.Words.{IsByte, le_bytes}
use go_simple_protocol_runti.Wire.{read_full, read_uint, write_uint16, read_uint16}
use go_simple_protocol_runti.Wire.RoundTrip.{
  read_full-append, read_uint-append, read_full-eq-ok, read_uint-eq-ok, wrapped,
}
use go_simple_protocol_runti.Transport.Host.{Host, new_host, write_host, read_host, read_host_name}

-- The bytes of a host: the length of its name, the name, the port.
pub encoding : Host → List ℕ
encoding h = le_bytes 2 (length h.ip) ++ (h.ip ++ le_bytes 2 (uint16 h.port))

small_length : (n : ℕ) → n ≤ 0xffff → n % 2 ^ 16 ≡ n
small_length n h = omega arith

pub write_host-encoding :
    (w : List ℕ) (h : Host) → length h.ip ≤ 0xffff → write_host w h ≡ ok (w ++ encoding h)
unfolding write_host encoding write_uint16
write_host-encoding w h small = ground (
  arith,
  small_length (length h.ip),
  append_assoc w (le_bytes 2 (length h.ip)) h.ip,
  append_assoc w (le_bytes 2 (length h.ip) ++ h.ip) (le_bytes 2 (uint16 h.port)),
  append_assoc (le_bytes 2 (length h.ip)) h.ip (le_bytes 2 (uint16 h.port)),
)

read_host_name-append : (ip rest : List ℕ) → read_host_name (length ip) (ip ++ rest) ≡ ok (ip, rest)
unfolding read_host_name
read_host_name-append [] rest = ground arith
read_host_name-append (x ∷ ip) rest =
    ground (arith, read_full-append (length (x ∷ ip)) (x ∷ ip) rest)

-- A host whose name has at most 65535 bytes is read back from its encoding, with what follows left
-- over; only the low 16 bits of the port come back.
pub read_host-encoding :
    (h : Host) (rest : List ℕ)
    → length h.ip ≤ 0xffff
    → read_host (encoding h ++ rest) ≡ ok (new_host (pos (uint16 h.port)) h.ip, rest)
unfolding read_host encoding read_uint16
read_host-encoding h rest small = rw (
  append_assoc (le_bytes 2 (length h.ip)) (h.ip ++ le_bytes 2 (uint16 h.port)) rest,
  append_assoc h.ip (le_bytes 2 (uint16 h.port)) rest,
  read_uint-append 2 (length h.ip) (h.ip ++ (le_bytes 2 (uint16 h.port) ++ rest)) (omega arith),
  read_host_name-append h.ip (le_bytes 2 (uint16 h.port) ++ rest),
  read_uint-append 2 (uint16 h.port) rest (uint16_bounds h.port),
)

read_host_name-eq-ok :
    (n : ℕ) (r ip rest : List ℕ)
    → read_host_name n r ≡ ok (ip, rest)
    → (r ≡ ip ++ rest) × (length ip ≡ n)
unfolding read_host_name
read_host_name-eq-ok n r ip rest e =
    ground (arith, wrapped "ReadHost" (read_full n r) (ip, rest), read_full-eq-ok n r ip rest)

-- The three reads that a successful `read_host` made.
read_host-steps :
    (r : List ℕ) (h : Host) (rest : List ℕ)
    → read_host r ≡ ok (h, rest)
    → (n : ℕ) × (r₁ : List ℕ) × (r₂ : List ℕ) × (p : ℕ) × (read_uint 2 r ≡ ok (n, r₁))
      × (read_host_name n r₁ ≡ ok (h.ip, r₂))
      × (read_uint 2 r₂ ≡ ok (p, rest))
      × (h ≡ new_host (pos p) h.ip)
unfolding read_host read_uint16
read_host-steps r h rest e =
    let (a, e₁, f₁) = >>=-eq-ok (read_uint 2 r) _ e in
    let (b, e₂, f₂) = >>=-eq-ok (read_host_name a.0 a.1) _ f₁ in
    let (c, e₃, f₃) = >>=-eq-ok (read_uint 2 b.1) _ f₂ in
    let same : new_host (pos c.0) b.0 ≡ h = ground arith in
    let name : b.0 ≡ h.ip = ap (λ (x : Host). x.ip) same in
    (
      a.0,
      a.1,
      b.1,
      c.0,
      e₁,
      e₂ ∙ ap ok (ap (λ (x : List ℕ). (x, b.1)) name),
      e₃ ∙ ground arith,
      sym same ∙ ap (new_host (pos c.0)) name,
    )

-- What `read_host` accepts is the encoding of the host that it returns, and its port is a uint16.
read_host-eq-ok :
    (r : List ℕ) (h : Host) (rest : List ℕ)
    → All IsByte r
    → read_host r ≡ ok (h, rest)
    → (r ≡ encoding h ++ rest) × (length h.ip ≤ 0xffff) × (h.port ≡ pos (uint16 h.port))
unfolding encoding
read_host-eq-ok r h rest bytes e =
    let (n, r₁, r₂, p, e₁, e₂, e₃, same) = read_host-steps r h rest e in
    let (s₁, b₁, t₁) = read_uint-eq-ok 2 n r r₁ bytes e₁ in
    let (s₂, size) = read_host_name-eq-ok n r₁ h.ip r₂ e₂ in
    let t₂ = All-split IsByte h.ip r₂ (subst (All IsByte) s₂ t₁) in
    let (s₃, b₃, t₃) = read_uint-eq-ok 2 p r₂ rest t₂.1 e₃ in
    let port : h.port ≡ pos p = ap (λ (x : Host). x.port) same in
    let low : uint16 h.port ≡ p = rw port (uint16-pos p b₃) in
    (
      rw
          (
            size,
            low,
            append_assoc (le_bytes 2 n) (h.ip ++ le_bytes 2 p) rest,
            append_assoc h.ip (le_bytes 2 p) rest,
          )
          (s₁ ∙ ap (◌++◌ (le_bytes 2 n)) (s₂ ∙ ap (◌++◌ h.ip) s₃)),
      rw size (omega arith),
      rw low port,
    )

read_full-ne-mismatch :
    (n : ℕ) (r : List ℕ) (e : Error) → read_full n r ≡ err e → errors_is version_mismatch e ≡ false
unfolding read_full errors_is
read_full-ne-mismatch n r e h = ground arith

read_uint-ne-mismatch :
    (n : ℕ) (r : List ℕ) (e : Error) → read_uint n r ≡ err e → errors_is version_mismatch e ≡ false
unfolding read_uint
read_uint-ne-mismatch n r e h = ground (arith, read_full-ne-mismatch n r e)

read_host_name-ne-mismatch :
    (n : ℕ) (r : List ℕ) (e : Error)
    → read_host_name n r ≡ err e
    → errors_is version_mismatch e ≡ false
unfolding read_host_name errors_is
read_host_name-ne-mismatch n r e h = elim (Result-cases (read_full n r)) [
  | inl (a, good) ↦ ground arith
  | inr (x, bad) ↦ ground (arith, read_full-ne-mismatch n r x bad)
]

-- A host that is cut short is never reported as a version mismatch.
pub read_host-ne-mismatch :
    (r : List ℕ) (e : Error) → read_host r ≡ err e → errors_is version_mismatch e ≡ false
unfolding read_host read_uint16
read_host-ne-mismatch r e h = elim (Result-cases (read_uint 2 r)) [
  | inr (x, bad) ↦ ground (arith, read_uint-ne-mismatch 2 r x bad)
  | inl (a, good) ↦ elim (Result-cases (read_host_name a.0 a.1)) [
    | inr (x, bad) ↦ ground (arith, read_host_name-ne-mismatch a.0 a.1 x bad)
    | inl (b, fine) ↦ ground (arith, read_uint-ne-mismatch 2 b.1 e)
  ]
]
