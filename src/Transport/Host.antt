-- ===== src/Transport/Host.antt =====
-- pkg/transport/host.go and the identity test of address.go. A Go string is the list of its bytes.
pub mod RoundTrip
use go_simple_protocol_runti.Common.{
  ℕ, ◌%◌, ◌^◌, ◌≡◌, ◌↔◌, List, [], ◌++◌, length, Bool, true, false, ◌&&◌, Option, none, some, ltb,
  if◌then◌else◌, Eq, ◌==◌, nat_eq, list_beq, list_beq_iff, arith,
}
use go_simple_protocol_runti.Common.Int.{ℤ, pos, negsuc, int_beq, int_beq_iff, uint16}
use go_simple_protocol_runti.Errors.{Result, ok, err, ◌>>=◌, message, or_wrap}
use go_simple_protocol_runti.Wire.{read_full, write_uint16, read_uint16}

pub record Host : Type 0 where
  pub port : ℤ
  pub ip : List ℕ

-- `==` on the comparable struct.
abbrev pub host_beq : Host → Host → Bool
host_beq a b = int_beq a.port b.port && list_beq a.ip b.ip

pub host_beq_iff : (a b : Host) → (host_beq a b ≡ true) ↔ (a ≡ b)
host_beq_iff a b = ground (arith, int_beq_iff a.port b.port, list_beq_iff a.ip b.ip)

instance abbrev pub host_eq : Eq Host
host_eq = record { beq = host_beq; beq_iff = host_beq_iff }

abbrev pub new_host : ℤ → List ℕ → Host
new_host port ip = record { port = port; ip = ip }

-- `Host{}`
abbrev pub zero_host : Host
zero_host = new_host (pos 0) []

unfoldable pub write_host : List ℕ → Host → Result (List ℕ)
write_host w h =
    if ltb 0xffff (length h.ip)
    then err (message "WriteHost: host string too long")
    else ok (write_uint16 (write_uint16 w (length h.ip % 2 ^ 16) ++ h.ip) (uint16 h.port))

unfoldable pub read_host_name : ℕ → List ℕ → Result (List ℕ × List ℕ)
read_host_name host_len r =
    if ltb 0 host_len then or_wrap "ReadHost" (read_full host_len r) else ok ([], r)

unfoldable pub read_host : List ℕ → Result (Host × List ℕ)
unfolding read_host_name
read_host r = do
  (host_len, r₁) ← read_uint16 r
  (ip, r₂) ← read_host_name host_len r₁
  (port, r₃) ← read_uint16 r₂
  ok (new_host (pos port) ip, r₃)

-- The dynamic values behind the Address interface: a Host, a *Host (nil or not), or another type.
pub data Address : Type 0 where
  host : Host → Address
  host_pointer : Option Host → Address
  foreign : Address

-- Host.Equal; `none` is the nil interface.
unfoldable pub equal : Host → Option Address → Bool
equal h none = false
equal h (some (host o)) = h == o
equal h (some (host_pointer none)) = false
equal h (some (host_pointer (some o))) = h == o
equal h (some foreign) = false
