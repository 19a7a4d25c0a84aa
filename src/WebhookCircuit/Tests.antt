-- ===== src/WebhookCircuit/Tests.antt =====
-- Runs on concrete circuits.
use astroid_api.Common.{◌≡◌, refl, true, none, some, List, [], ◌∷◌, arith}
use astroid_api.WebhookCircuit.{
  opened, half_open, Row, WebhookConfig, CircuitFailure, before_attempt, increment_failures,
  new_row, record_failure, record_success,
}
use astroid_api.WebhookCircuit.Consistency.{IsCoherent, AllCoherent, operations_coherent}
use astroid_api.WebhookCircuit.Decisions.{quiet}
use astroid_api.WebhookCircuit.Probes.{overtaken, lost_probe_twice}
use astroid_api.WebhookCircuit.Failures.{Call, increment, try_open}

abbrev config : WebhookConfig
config = record { circuit_enabled = true; circuit_failure_threshold = 2; circuit_cooldown_ms = 100 }

abbrev timeout : CircuitFailure
timeout = record { code = "TIMEOUT"; reason = "no answer" }

-- Opened at 50, until 150.
abbrev tripped : Row
tripped = record (increment_failures timeout 50 (increment_failures timeout 40 new_row)) {
  status = opened;
  opened_at = some 50;
  cooldown_ends_at = some 150;
}

-- Its probe at 150 was lost.
abbrev probed : Row
probed = record tripped { status = half_open; opened_at = none; cooldown_ends_at = some 250 }

tripped-IsCoherent : IsCoherent tripped
tripped-IsCoherent = ground arith

probed-IsCoherent : IsCoherent probed
probed-IsCoherent = ground arith

operations_coherent_example :
    AllCoherent (before_attempt quiet config 200 (some tripped)).1
    × AllCoherent (record_failure quiet config 200 timeout (some tripped)).1
    × AllCoherent (record_success quiet config 200 (some tripped)).0
operations_coherent_example =
    operations_coherent quiet config 200 timeout (some tripped) (λ k w h. h) tripped-IsCoherent

lost_probe_twice_example :
    ((before_attempt quiet config 260 (some probed)).0.allowed ≡ true)
    × ((before_attempt (overtaken config 260) config 261 (some probed)).0.allowed ≡ true)
lost_probe_twice_example =
    lost_probe_twice config 260 261 250 probed refl refl refl (omega arith) (omega arith)

-- Two workers count and then both try to open.
abbrev burst : List Call
burst = increment timeout 60 ∷ increment timeout 61 ∷ try_open 60 160 ∷ try_open 61 161 ∷ []
