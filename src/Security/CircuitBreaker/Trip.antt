-- ===== src/Security/CircuitBreaker/Trip.antt =====
-- When the breaker of a domain trips.
use safari_pilot.Security.CircuitBreaker.{
  CircuitBreaker, circuit_state, get_state, String, ℕ, fail_state, DomainState, record_failure,
  state_of, closed, empty_state, half_open, open_circuit,
}
use safari_pilot.Prelude.{
  String, ℕ, List, ◌∷◌, ◌≡◌, ◌+◌, ◌≤◌, ◌<◌, some, none, arith, false, [], if◌then◌else◌, leb, refl,
  All, length, ◌∙◌, ap, sym,
}
use safari_pilot.Security.CircuitBreaker.States.{
  record_failure_keeps, state_of-record_failure_self, get_state_lem,
}

-- A run of failures.
unfoldable pub record_failures : String → List ℕ → CircuitBreaker → CircuitBreaker
record_failures d [] b = b
record_failures d (t ∷ times) b = record_failures d times (record_failure d t b)

-- A closed circuit that has counted `n` failures since `first`.
record Counts (n first : ℕ) (s : DomainState) : Type 0 where
  failures : s.failures ≡ n
  since : 0 < n → s.first_failure_at ≡ first
  opened_at : s.opened_at ≡ none
  no_probe : s.probe_in_flight ≡ false

closed_of_none :
    (cooldown now : ℕ) (s : DomainState)
    → s.opened_at ≡ none
    → circuit_state cooldown now s ≡ closed
unfolding circuit_state
closed_of_none cooldown now s h = ground arith

opened_of_some :
    (cooldown now : ℕ) {opened : ℕ} (s : DomainState)
    → s.opened_at ≡ some opened
    → circuit_state cooldown now s
      ≡ (if leb (opened + cooldown) now then half_open else open_circuit)
unfolding circuit_state
opened_of_some cooldown now s h = ground arith

fail_state-Counts :
    (threshold window n first t : ℕ) (s : DomainState)
    → Counts n first s
    → n + 1 < threshold
    → t ≤ first + window
    → (n ≡ 0 → t ≡ first)
    → Counts (n + 1) first (fail_state threshold window t s)
unfolding fail_state
fail_state-Counts threshold window n first t s c below near start = ground (arith, start)

fail_state-trips :
    (threshold window n first t : ℕ) (s : DomainState)
    → Counts n first s
    → n + 1 ≡ threshold
    → t ≤ first + window
    → (fail_state threshold window t s).opened_at ≡ some t
unfolding fail_state
fail_state-trips threshold window n first t s c reached near = ground arith

record_failures_keeps :
    (d : String) (times : List ℕ) (b : CircuitBreaker)
    → ((record_failures d times b).failure_threshold ≡ b.failure_threshold)
      × ((record_failures d times b).window_ms ≡ b.window_ms)
      × ((record_failures d times b).cooldown_ms ≡ b.cooldown_ms)
unfolding record_failures
record_failures_keeps d [] b = (refl, refl, refl)
record_failures_keeps d (t ∷ times) b =
    ground (arith, record_failures_keeps d times (record_failure d t b), record_failure_keeps d b t)

record_failures-Counts :
    (d : String) (first : ℕ) (times : List ℕ) (b : CircuitBreaker) (n : ℕ)
    → Counts n first (state_of d b)
    → 0 < n
    → All (λ t. t ≤ first + b.window_ms) times
    → n + length times < b.failure_threshold
    → Counts (n + length times) first (state_of d (record_failures d times b))
unfolding record_failures
record_failures-Counts d first [] b n c pos near below =
    let still : n + 0 ≡ n = omega arith in rw still c
record_failures-Counts d first (t ∷ times) b n c pos near below =
    let (threshold, window, _) = record_failure_keeps d b t in
    let step : Counts (n + 1) first (state_of d (record_failure d t b)) =
      rw (state_of-record_failure_self d b t) (
        fail_state-Counts b.failure_threshold b.window_ms n first t (state_of d b) c (omega arith)
          near.0 (λ e. absurd (omega arith))) in
    let regroup : n + 1 + length times ≡ n + length (t ∷ times) = omega arith in
    rw regroup at (
      record_failures-Counts d first times (record_failure d t b) (n + 1) step (omega arith)
        (rw window near.1) (omega arith))

Counts-empty : (first : ℕ) → Counts 0 first empty_state
Counts-empty first = record {
  failures = refl;
  since = λ h. absurd (omega arith);
  opened_at = refl;
  no_probe = refl;
}

Counts-run :
    (d : String) (first : ℕ) (times : List ℕ) (b : CircuitBreaker)
    → state_of d b ≡ empty_state
    → All (λ t. t ≤ first + b.window_ms) times
    → length (first ∷ times) < b.failure_threshold
    → Counts (length (first ∷ times)) first (state_of d (record_failures d (first ∷ times) b))
unfolding record_failures
Counts-run d first times b fresh near below =
    let (threshold, window, _) = record_failure_keeps d b first in
    let one : Counts 1 first (state_of d (record_failure d first b)) =
      rw (state_of-record_failure_self d b first, fresh)
        (fail_state-Counts b.failure_threshold b.window_ms 0 first first empty_state
          (Counts-empty first) (omega arith) (omega arith) (λ e. refl)) in
    let regroup : 1 + length times ≡ length (first ∷ times) = omega arith in
    rw regroup at (
      record_failures-Counts d first times (record_failure d first b) 1 one (omega arith)
        (rw window near) (omega arith))

-- A domain with nothing recorded fails at `first` and then at `times`, all within the window of
-- `first`. While these are fewer than the threshold, the circuit is closed at every time. The
-- failure that reaches the threshold, at `t` within the window, opens it: it is open before
-- `t + cooldown_ms` and half-open from then on.
pub circuit_trips :
    (d : String) (first : ℕ) (times : List ℕ) (t : ℕ) (b : CircuitBreaker)
    → state_of d b ≡ empty_state
    → All (λ t'. t' ≤ first + b.window_ms) times
    → t ≤ first + b.window_ms
    → length (first ∷ times) + 1 ≡ b.failure_threshold
    → ((now : ℕ) → (get_state d now (record_failures d (first ∷ times) b)).0 ≡ closed)
      × ((now : ℕ)
          → (get_state d now (record_failure d t (record_failures d (first ∷ times) b))).0
            ≡ (if leb (t + b.cooldown_ms) now then half_open else open_circuit))
circuit_trips d first times t b fresh near close reached =
    let c = record_failures d (first ∷ times) b in
    let counts = Counts-run d first times b fresh near (omega arith) in
    let keeps = record_failures_keeps d (first ∷ times) b in
    let late = record_failure d t c in
    let cooldown : late.cooldown_ms ≡ b.cooldown_ms = (record_failure_keeps d c t).2 ∙ keeps.2 in
    let opened : (state_of d late).opened_at ≡ some t =
      ap (λ s. s.opened_at) (state_of-record_failure_self d c t)
      ∙ fail_state-trips c.failure_threshold c.window_ms (length (first ∷ times)) first t
          (state_of d c) counts (reached ∙ sym keeps.0) (rw keeps.1 close) in
    (
      λ now.
          get_state_lem d c now ∙ closed_of_none c.cooldown_ms now (state_of d c) counts.opened_at,
      λ now.
          get_state_lem d late now
          ∙ opened_of_some late.cooldown_ms now (state_of d late) opened
          ∙ ap (λ k. if leb (t + k) now then half_open else open_circuit) cooldown,
    )
