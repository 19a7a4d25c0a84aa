-- ===== src/WebhookCircuit/Probes.antt =====
-- Two workers that decide about the same endpoint at once.
use astroid_api.Common.{ℕ, zero, suc, ◌≤◌, ◌≡◌, true, false, some, arith}
use astroid_api.WebhookCircuit.{opened, half_open, Row, WebhookConfig, Environment, before_attempt}
use astroid_api.WebhookCircuit.Decisions.{quiet}

-- Another worker's whole decision runs between this worker's load and its conditional update.
abbrev pub overtaken : WebhookConfig → ℕ → Environment
overtaken c now zero w = w
overtaken c now (suc zero) w = (before_attempt quiet c now w).1
overtaken c now (suc (suc k)) w = w

-- When two workers both read an open circuit whose cooldown is over, and one decides in full before
-- the other updates, only the first may probe.
pub open_probe_once :
    (c : WebhookConfig) (first second ends : ℕ) (r : Row)
    → c.circuit_enabled ≡ true
    → r.status ≡ opened
    → r.cooldown_ends_at ≡ some ends
    → ends ≤ first
    → ends ≤ second
    → ((before_attempt quiet c first (some r)).0.allowed ≡ true)
      × ((before_attempt (overtaken c first) c second (some r)).0.allowed ≡ false)
unfolding before_attempt
open_probe_once c first second ends r on s at p q = ground arith

-- When two workers both read a half-open circuit whose lease is over, and one decides in full before
-- the other updates, both are allowed to probe: the second update does not compare the lease.
pub lost_probe_twice :
    (c : WebhookConfig) (first second ends : ℕ) (r : Row)
    → c.circuit_enabled ≡ true
    → r.status ≡ half_open
    → r.cooldown_ends_at ≡ some ends
    → ends ≤ first
    → ends ≤ second
    → ((before_attempt quiet c first (some r)).0.allowed ≡ true)
      × ((before_attempt (overtaken c first) c second (some r)).0.allowed ≡ true)
unfolding before_attempt
lost_probe_twice c first second ends r on s at p q = ground arith
