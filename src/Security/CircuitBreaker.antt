-- ===== src/Security/CircuitBreaker.antt =====
-- src/security/circuit-breaker.ts: the breaker per domain, with its three states, and the breaker
-- per engine. Each method reads the clock once here, as `now`; differences of times are written
-- as sums, since `-` on ℕ stops at 0.
pub mod States
pub mod Trip
pub mod Probe
pub mod Engine
mod Tests
use safari_pilot.Errors.{Result, ok, err, circuit_breaker_open}
use safari_pilot.Prelude.{
  Bool, Option, String, none, ℕ, true, ◌+◌, ltb, if◌then◌else◌, some, List, false, or_default, [],
  ◌==◌, not, eqb, string_eq, ◌&&◌, ◌||◌, leb, ◌-◌, ◌/◌, filter, ◌++◌, ◌∷◌, length,
}
use safari_pilot.Prelude.Dict.{Dict, delete, set, get, has}

pub data CircuitState : Type 0 where
  closed open_circuit half_open : CircuitState

pub record DomainState : Type 0 where
  pub failures : ℕ
  pub first_failure_at : ℕ
  pub opened_at : Option ℕ
  pub probe_allowed : Bool
  pub probe_in_flight : Bool

abbrev pub empty_state : DomainState
empty_state = record {
  failures = 0;
  first_failure_at = 0;
  opened_at = none;
  probe_allowed = false;
  probe_in_flight = false;
}

pub record CircuitBreaker : Type 0 where
  pub states : Dict String DomainState
  pub failure_threshold : ℕ
  pub window_ms : ℕ
  pub cooldown_ms : ℕ
  pub engine_failures : Dict String (List ℕ)
  pub engine_tripped_until : Dict String ℕ

abbrev pub engine_error_threshold : ℕ
engine_error_threshold = 5

abbrev pub engine_window_ms : ℕ
engine_window_ms = 120000

abbrev pub engine_cooldown_ms : ℕ
engine_cooldown_ms = 120000

unfoldable pub new : Option ℕ → Option ℕ → Option ℕ → CircuitBreaker
new failure_threshold window_ms cooldown_ms = record {
  states = [];
  failure_threshold = or_default failure_threshold 5;
  window_ms = or_default window_ms 60000;
  cooldown_ms = or_default cooldown_ms 120000;
  engine_failures = [];
  engine_tripped_until = [];
}

-- What the map holds for the domain, or the empty state.
abbrev pub state_of : String → CircuitBreaker → DomainState
state_of domain b = or_default (get domain b.states) empty_state

-- `getState_`: reading a domain that is not there adds it.
unfoldable pub touch_state : String → CircuitBreaker → CircuitBreaker
touch_state domain b =
    if has domain b.states then b else record b { states = set domain empty_state b.states }

abbrev store : String → DomainState → CircuitBreaker → CircuitBreaker
store domain s b = record b { states = set domain s b.states }

unfoldable pub record_success : String → CircuitBreaker → CircuitBreaker
record_success domain b = record b { states = delete domain b.states }

-- The run of failures is forgotten when it began more than `window_ms` ago.
abbrev pub forget_old_run : ℕ → ℕ → DomainState → DomainState
forget_old_run window now s =
    if ltb 0 s.failures && ltb (s.first_failure_at + window) now
    then record s { failures = 0; first_failure_at = 0 }
    else s

abbrev pub count_failure : ℕ → ℕ → DomainState → DomainState
count_failure threshold now s =
    let first = if eqb s.failures 0 then now else s.first_failure_at in
    let t = record s { failures = s.failures + 1; first_failure_at = first } in
    if leb threshold t.failures then record t { opened_at = some now; probe_allowed = false } else t

-- What `recordFailure` makes of the state of the domain.
unfoldable pub fail_state : ℕ → ℕ → ℕ → DomainState → DomainState
fail_state threshold window now s =
    if s.probe_in_flight
    then record {
      failures = threshold;
      first_failure_at = now;
      opened_at = some now;
      probe_allowed = false;
      probe_in_flight = false;
    }
    else count_failure threshold now (forget_old_run window now s)

unfoldable pub record_failure : String → ℕ → CircuitBreaker → CircuitBreaker
record_failure domain now b =
    let c = touch_state domain b in
    store domain (fail_state c.failure_threshold c.window_ms now (state_of domain c)) c

-- `getState` on what the map holds: `now - openedAt >= cooldownMs` is half-open.
unfoldable pub circuit_state : ℕ → ℕ → DomainState → CircuitState
circuit_state cooldown now s = elim s.opened_at [
  | none ↦ closed
  | some opened ↦ if leb (opened + cooldown) now then half_open else open_circuit
]

unfoldable pub get_state : String → ℕ → CircuitBreaker → CircuitState × CircuitBreaker
get_state domain now b =
    let c = touch_state domain b in (circuit_state c.cooldown_ms now (state_of domain c), c)

abbrev is_open_circuit : CircuitState → Bool
is_open_circuit open_circuit = true
is_open_circuit _ = false

unfoldable pub is_open : String → ℕ → CircuitBreaker → Bool × CircuitBreaker
is_open domain now b = let (s, c) = get_state domain now b in (is_open_circuit s, c)

-- `Math.ceil(remaining / 1000)` with `remaining = cooldownMs - (now - openedAt)`.
abbrev pub cooldown_seconds : ℕ → ℕ → DomainState → ℕ
cooldown_seconds cooldown now s = (cooldown + or_default s.opened_at 0 - now + 999) / 1000

-- The two guards of `assertClosed`, by the state of the circuit.
unfoldable pub admit :
    CircuitState → String → ℕ → CircuitBreaker → Result (Unit {0}) × CircuitBreaker
admit closed domain now c = (ok tt, c)
admit open_circuit domain now c =
    (err (circuit_breaker_open domain (cooldown_seconds c.cooldown_ms now (state_of domain c))), c)
admit half_open domain now c =
    let s = state_of domain c in
    if s.probe_allowed
    then (err (circuit_breaker_open domain 0), c)
    else (ok tt, store domain (record s { probe_allowed = true; probe_in_flight = true }) c)

unfoldable pub assert_closed : String → ℕ → CircuitBreaker → Result (Unit {0}) × CircuitBreaker
assert_closed domain now b = let (circuit, c) = get_state domain now b in admit circuit domain now c

-- Only the codes of the extension's lifecycle count for an engine.
unfoldable pub is_triggering : String → Bool
is_triggering code =
    code == "EXTENSION_TIMEOUT" || code == "EXTENSION_UNCERTAIN" || code == "EXTENSION_DISCONNECTED"

abbrev pub is_recent : ℕ → ℕ → Bool
is_recent now t = ltb now (t + engine_window_ms)

abbrev pub engine_failures_of : String → CircuitBreaker → List ℕ
engine_failures_of engine b = or_default (get engine b.engine_failures) []

unfoldable pub record_engine_failure : String → String → ℕ → CircuitBreaker → CircuitBreaker
record_engine_failure engine code now b =
    if not (is_triggering code)
    then b
    else let recent = filter (is_recent now) (engine_failures_of engine b) ++ now ∷ [] in
      let c = record b { engine_failures = set engine recent b.engine_failures } in
      if leb engine_error_threshold (length recent)
      then record c {
        engine_tripped_until = set engine (now + engine_cooldown_ms) c.engine_tripped_until;
      }
      else c

-- When the cooldown is over, the trip and the failures of the engine are dropped.
unfoldable pub is_engine_tripped : String → ℕ → CircuitBreaker → Bool × CircuitBreaker
is_engine_tripped engine now b = elim (get engine b.engine_tripped_until) [
  | none ↦ (false, b)
  | some until ↦
      if leb until now
      then (
        false,
        record b {
          engine_tripped_until = delete engine b.engine_tripped_until;
          engine_failures = delete engine b.engine_failures;
        },
      )
      else (true, b)
]
