-- ===== src/Common/Int.antt =====
-- Go's signed `int`, and its conversion to `uint16`.
use Prim.Native.Nat.{ℕ, ◌-◌, ◌%◌, ◌^◌, ◌<◌}
use mathlib.Core.Path.{◌≡◌}
use mathlib.Core.Logic.{◌↔◌}
use mathlib.Core.Bool.{Bool, true, false}
use native.Mathlib.Omega.{arith}
use go_simple_protocol_runti.Common.Tests.{Eq, nat_beq}

-- `negsuc n` is -(n + 1).
pub data ℤ : Type 0 where
  pos : ℕ → ℤ
  negsuc : ℕ → ℤ

abbrev pub int_beq : ℤ → ℤ → Bool
int_beq (pos a) (pos b) = nat_beq a b
int_beq (pos a) (negsuc b) = false
int_beq (negsuc a) (pos b) = false
int_beq (negsuc a) (negsuc b) = nat_beq a b

pub int_beq_iff : (a b : ℤ) → (int_beq a b ≡ true) ↔ (a ≡ b)
int_beq_iff (pos a) (pos b) = ground arith
int_beq_iff (pos a) (negsuc b) = ground arith
int_beq_iff (negsuc a) (pos b) = ground arith
int_beq_iff (negsuc a) (negsuc b) = ground arith

instance abbrev pub int_eq : Eq ℤ
int_eq = record { beq = int_beq; beq_iff = int_beq_iff }

-- `uint16(z)`: the low 16 bits of the two's complement form.
unfoldable pub uint16 : ℤ → ℕ
uint16 (pos n) = n % 2 ^ 16
uint16 (negsuc n) = 65535 - n % 2 ^ 16

pub uint16_bounds : (z : ℤ) → uint16 z < 2 ^ 16
unfolding uint16
uint16_bounds (pos n) = omega arith
uint16_bounds (negsuc n) = omega arith

pub uint16-pos : (n : ℕ) → n < 2 ^ 16 → uint16 (pos n) ≡ n
unfolding uint16
uint16-pos n h = omega arith
