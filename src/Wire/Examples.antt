-- ===== src/Wire/Examples.antt =====
-- Runs of pkg/wire on concrete bytes.
use go_simple_protocol_runti.Common.{ℕ, ◌≡◌, List, [], ◌∷◌, ◌++◌, arith}
use go_simple_protocol_runti.Errors.{ok}
use go_simple_protocol_runti.Wire.{read_bytes, write_bytes}
use go_simple_protocol_runti.Wire.RoundTrip.{read_bytes-write_bytes}

abbrev body : List ℕ
body = 104 ∷ 105 ∷ []

abbrev trailing : List ℕ
trailing = 7 ∷ []

read_bytes-write_bytes_example : read_bytes (write_bytes [] body ++ trailing) ≡ ok (body, trailing)
read_bytes-write_bytes_example = read_bytes-write_bytes body trailing (omega arith)
