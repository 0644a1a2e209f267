-- ===== src/PingPong/Examples.antt =====
-- A rally of cmd/pingpong/protocol/ping.go.
use go_simple_protocol_runti.Common.{◌+◌, ◌≡◌, refl, List, [], ◌∷◌, Bool, true, false, arith}
use go_simple_protocol_runti.Common.Int.{pos}
use go_simple_protocol_runti.Transport.Host.{Host, new_host}
use go_simple_protocol_runti.PingPong.{Protocol, Table, Move, connects, arrive, run_moves}
use go_simple_protocol_runti.PingPong.Rally.{IsQuiet, balls, all_serves, rallies_go_on}

abbrev host_of : Bool → Host
host_of true = new_host (pos 5001) []
host_of false = new_host (pos 5002) []

abbrev node : Bool → Protocol
node true = record { peer = host_of false; seq = 0; sent = [] }
node false = record { peer = host_of true; seq = 0; sent = [] }

abbrev table : Table
table = record { host_of = host_of; node = node; flight = [] }

abbrev moves : List Move
moves =
    connects true (host_of false)
    ∷ arrive 0
    ∷ connects false (host_of true)
    ∷ arrive 1
    ∷ arrive 0
    ∷ []

nothing_sent : IsQuiet table
nothing_sent true = (refl, ground arith)
nothing_sent false = (refl, ground arith)

rallies_go_on_example :
    balls true (run_moves moves table).flight
    ≡ all_serves true moves table + balls true table.flight
rallies_go_on_example = rallies_go_on moves true table nothing_sent
