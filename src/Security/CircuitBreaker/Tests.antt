-- ===== src/Security/CircuitBreaker/Tests.antt =====
-- The breaker at concrete inputs: two failures within 100 ms trip it for 50 ms.
use safari_pilot.Security.CircuitBreaker.{
  CircuitBreaker, new, get, empty_state, ◌∷◌, some, assert_closed, get_state, closed,
  record_failure, half_open, open_circuit,
}
use safari_pilot.Prelude.{
  some, ◌∷◌, [], ℕ, ◌≡◌, if◌then◌else◌, List, ◌≤◌, arith, ◌+◌, leb, all, refl, not, true,
}
use safari_pilot.Prelude.Dict.{get}
use safari_pilot.Security.CircuitBreaker.Trip.{record_failures, circuit_trips}
use safari_pilot.Errors.{err, ok, circuit_breaker_open}
use safari_pilot.Security.CircuitBreaker.Probe.{Event, is_outcome, run, probe_until_outcome}

abbrev fresh : CircuitBreaker
unfolding new
fresh = new (some 2) (some 100) (some 50)

circuit_trips_example :
    ((now : ℕ) → (get_state "a.org" now (record_failures "a.org" (10 ∷ []) fresh)).0 ≡ closed)
    × ((now : ℕ)
        → (get_state "a.org" now
            (record_failure "a.org" 20 (record_failures "a.org" (10 ∷ []) fresh))).0
          ≡ (if leb (20 + fresh.cooldown_ms) now then half_open else open_circuit))
unfolding new get
circuit_trips_example = circuit_trips "a.org" 10 [] 20 fresh refl tt (omega arith) refl

abbrev tripped : CircuitBreaker
tripped = record fresh {
  states =
      ("a.org", record empty_state { failures = 2; first_failure_at = 10; opened_at = some 20 })
      ∷ [];
}

probe_until_outcome_example :
    ((assert_closed "a.org" 80 tripped).0 ≡ ok tt)
    × ((events : List Event) (later : ℕ)
        → all (λ e. not (is_outcome "a.org" e)) events ≡ true
        → 80 ≤ later
        → (assert_closed "a.org" later (run events (assert_closed "a.org" 80 tripped).1)).0
          ≡ err (circuit_breaker_open "a.org" 0))
unfolding new get
probe_until_outcome_example = probe_until_outcome "a.org" 80 20 tripped refl (omega arith) refl

abbrev shaky : CircuitBreaker
shaky = record fresh { engine_failures = ("extension", 1 ∷ 2 ∷ 3 ∷ 4 ∷ []) ∷ [] }

abbrev over : CircuitBreaker
over = record shaky { engine_tripped_until = ("extension", 500) ∷ [] }
