-- ===== src/Security/CircuitBreaker/States.antt =====
-- What each method of the breaker does to the state of each domain.
use safari_pilot.Security.CircuitBreaker.{
  CircuitBreaker, circuit_state, get_state, String, record_failure, record_success, touch_state,
  state_of, fail_state, empty_state,
}
use safari_pilot.Prelude.{String, ℕ, ◌≡◌, if◌then◌else◌, arith, ==_refl, ◌==◌, string_eq, eq_iff}
use safari_pilot.Prelude.Dict.{get-set, get-delete}

module _ (d : String) (b : CircuitBreaker) where
  pub state_of-touch : (j : String) → state_of j (touch_state d b) ≡ state_of j b
  unfolding touch_state
  state_of-touch j = ground (arith, get-set d j empty_state b.states, eq_iff d j)

  pub touch_keeps :
      ((touch_state d b).failure_threshold ≡ b.failure_threshold)
      × ((touch_state d b).window_ms ≡ b.window_ms)
      × ((touch_state d b).cooldown_ms ≡ b.cooldown_ms)
      × ((touch_state d b).engine_failures ≡ b.engine_failures)
      × ((touch_state d b).engine_tripped_until ≡ b.engine_tripped_until)
  unfolding touch_state
  touch_keeps = ground arith

  pub get_state_lem :
      (now : ℕ) → (get_state d now b).0 ≡ circuit_state b.cooldown_ms now (state_of d b)
  unfolding get_state
  get_state_lem now = ground (arith, state_of-touch d, touch_keeps)

  pub state_of-record_success :
      (j : String)
      → state_of j (record_success d b) ≡ (if d == j then empty_state else state_of j b)
  unfolding record_success
  state_of-record_success j = ground (arith, get-delete d j b.states)

  pub state_of-record_failure :
      (now : ℕ) (j : String)
      → state_of j (record_failure d now b) ≡ (
          if d == j
          then fail_state b.failure_threshold b.window_ms now (state_of d b)
          else state_of j b)
  unfolding record_failure
  state_of-record_failure now j = ground (
    arith,
    touch_keeps,
    state_of-touch d,
    state_of-touch j,
    get-set d j (fail_state b.failure_threshold b.window_ms now (state_of d b))
        (touch_state d b).states,
  )

  pub record_failure_keeps :
      (now : ℕ)
      → ((record_failure d now b).failure_threshold ≡ b.failure_threshold)
        × ((record_failure d now b).window_ms ≡ b.window_ms)
        × ((record_failure d now b).cooldown_ms ≡ b.cooldown_ms)
  unfolding record_failure
  record_failure_keeps now = ground (arith, touch_keeps)

  pub state_of-record_failure_self :
      (now : ℕ)
      → state_of d (record_failure d now b)
        ≡ fail_state b.failure_threshold b.window_ms now (state_of d b)
  state_of-record_failure_self now = ground (arith, state_of-record_failure now d, ==_refl d)
