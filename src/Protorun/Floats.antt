-- ===== src/Protorun/Floats.antt =====
-- float64 and what the program uses of it, as a parameter, with the comparisons of its own constants.
use go_simple_protocol_runti.Common.{Bool, false, ◌≡◌}
use go_simple_protocol_runti.Common.Int.{ℤ, pos}

pub record Floats : Type 1 where
  pub Float : Type 0
  pub of_int : ℤ → Float
  -- time.Duration(d)
  pub truncate : Float → ℤ
  pub add : Float → Float → Float
  pub sub : Float → Float → Float
  pub mul : Float → Float → Float
  pub div : Float → Float → Float
  pub pow : Float → Float → Float
  pub lt : Float → Float → Bool
  pub le : Float → Float → Bool
  pub two-le-one : le (of_int (pos 2)) (of_int (pos 1)) ≡ false
  pub zero-lt-zero : lt (of_int (pos 0)) (of_int (pos 0)) ≡ false
  pub one-lt-zero : lt (of_int (pos 1)) (of_int (pos 0)) ≡ false
  pub one-lt-one : lt (of_int (pos 1)) (of_int (pos 1)) ≡ false
