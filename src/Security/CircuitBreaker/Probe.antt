-- ===== src/Security/CircuitBreaker/Probe.antt =====
-- The half-open state: one probe, and what ends it.
use safari_pilot.Security.CircuitBreaker.{
  CircuitBreaker, circuit_state, get_state, String, assert_closed, admit, state_of, touch_state,
  closed, DomainState, CircuitState, record_success, record_failure, half_open, open_circuit,
  fail_state,
}
use safari_pilot.Prelude.{
  String, ℕ, ◌≡◌, some, arith, ◌≤◌, ◌<◌, refl, ◌+◌, ◌*◌, ◌-◌, if◌then◌else◌, ◌/◌, true, ◌==◌, ◌&&◌,
  List, false, not, Bool, all, ◌∷◌, string_eq, leb, [], ==_refl, ◌∙◌, eq_iff,
}
use safari_pilot.Errors.{ok, err, circuit_breaker_open}
use safari_pilot.Security.CircuitBreaker.States.{
  state_of-touch, touch_keeps, state_of-record_success, state_of-record_failure,
  record_failure_keeps, get_state_lem, state_of-record_failure_self,
}
use safari_pilot.Prelude.Dict.{get-set}

-- After the touch the guards of `assert_closed` read the state that was there before.
pub assert_closed_lem :
    (d : String) (now : ℕ) (b : CircuitBreaker)
    → assert_closed d now b
      ≡ admit (circuit_state b.cooldown_ms now (state_of d b)) d now (touch_state d b)
unfolding assert_closed get_state
assert_closed_lem d now b = ground (arith, state_of-touch d b d, touch_keeps d b)

-- A closed circuit lets every call through.
pub assert_closed_closed :
    (d : String) (now : ℕ) (b : CircuitBreaker)
    → circuit_state b.cooldown_ms now (state_of d b) ≡ closed
    → ((assert_closed d now b).0 ≡ ok tt)
      × ((j : String) → state_of j (assert_closed d now b).1 ≡ state_of j b)
unfolding admit
assert_closed_closed d now b h = rw (assert_closed_lem d now b, h) (refl, state_of-touch d b)

-- An open circuit refuses every call until the cooldown is over, with the whole seconds that are
-- left, rounded up and at least one, and the state of no domain changes.
assert_closed_open :
    (d : String) (now opened : ℕ) (b : CircuitBreaker)
    → (state_of d b).opened_at ≡ some opened
    → now < opened + b.cooldown_ms
    → (seconds : ℕ) × ((assert_closed d now b).0 ≡ err (circuit_breaker_open d seconds))
      × (1 ≤ seconds)
      × (now + seconds * 1000 < opened + b.cooldown_ms + 1000)
      × (opened + b.cooldown_ms ≤ now + seconds * 1000)
      × ((j : String) → state_of j (assert_closed d now b).1 ≡ state_of j b)
unfolding admit circuit_state
assert_closed_open d now opened b h before =
    let seconds = (b.cooldown_ms + opened - now + 999) / 1000 in
    (
      seconds,
      rw (assert_closed_lem d now b) (ground (arith, touch_keeps d b, state_of-touch d b d)),
      omega arith,
      omega arith,
      omega arith,
      λ j. rw (assert_closed_lem d now b) (ground (arith, state_of-touch d b j)),
    )

pub assert_closed_keeps :
    (d : String) (now : ℕ) (b : CircuitBreaker)
    → ((assert_closed d now b).1.cooldown_ms ≡ b.cooldown_ms)
      × ((assert_closed d now b).1.failure_threshold ≡ b.failure_threshold)
      × ((assert_closed d now b).1.window_ms ≡ b.window_ms)
unfolding assert_closed get_state admit
assert_closed_keeps d now b = ground (arith, touch_keeps d b)

-- The state of a domain in which the probe is out.
abbrev pub with_probe : DomainState → DomainState
with_probe s = record s { probe_allowed = true; probe_in_flight = true }

abbrev is_half_open : CircuitState → Bool
is_half_open half_open = true
is_half_open _ = false

state_of-admit :
    (circuit : CircuitState) (d : String) (now : ℕ) (b : CircuitBreaker) (j : String)
    → state_of j (admit circuit d now (touch_state d b)).1 ≡ (
        if d == j && is_half_open circuit && not (state_of d b).probe_allowed
        then with_probe (state_of d b)
        else state_of j b)
unfolding admit
state_of-admit closed d now b j = ground (arith, state_of-touch d b j)
state_of-admit open_circuit d now b j = ground (arith, state_of-touch d b j)
state_of-admit half_open d now b j = ground (
  arith,
  state_of-touch d b j,
  state_of-touch d b d,
  get-set d j (with_probe (state_of d b)) (touch_state d b).states,
)

-- The whole of what `assert_closed` does to the states.
pub state_of-assert_closed :
    (d : String) (now : ℕ) (b : CircuitBreaker) (j : String)
    → state_of j (assert_closed d now b).1 ≡ (
        if d == j
          && is_half_open (circuit_state b.cooldown_ms now (state_of d b))
          && not (state_of d b).probe_allowed
        then with_probe (state_of d b)
        else state_of j b)
state_of-assert_closed d now b j =
    rw (assert_closed_lem d now b)
      (state_of-admit (circuit_state b.cooldown_ms now (state_of d b)) d now b j)

-- What lies in wait for the domain `d` while the outcome of its probe is not recorded.
pub data Event : Type 0 where
  succeeded : String → Event
  failed : String → ℕ → Event
  asserted : String → ℕ → Event

unfoldable pub step : Event → CircuitBreaker → CircuitBreaker
step (succeeded d) b = record_success d b
step (failed d now) b = record_failure d now b
step (asserted d now) b = (assert_closed d now b).1

unfoldable pub run : List Event → CircuitBreaker → CircuitBreaker
unfolding step
run [] b = b
run (e ∷ events) b = run events (step e b)

-- The event records an outcome for `d`.
abbrev pub is_outcome : String → Event → Bool
is_outcome d (succeeded j) = j == d
is_outcome d (failed j _) = j == d
is_outcome d (asserted j _) = false

-- The circuit is tripped and its probe is out.
pub record HasProbe (opened : ℕ) (s : DomainState) : Type 0 where
  pub since : s.opened_at ≡ some opened
  pub is_out : s.probe_allowed ≡ true

step-HasProbe :
    (d : String) (opened : ℕ) (e : Event) (b : CircuitBreaker)
    → is_outcome d e ≡ false
    → HasProbe opened (state_of d b)
    → HasProbe opened (state_of d (step e b)) × ((step e b).cooldown_ms ≡ b.cooldown_ms)
unfolding step record_success
step-HasProbe d opened (succeeded j) b other p =
    (ground (arith, state_of-record_success j b d, p.since, p.is_out), refl)
step-HasProbe d opened (failed j now) b other p = (
  ground (arith, state_of-record_failure j b now d, p.since, p.is_out),
  (record_failure_keeps j b now).2,
)
step-HasProbe d opened (asserted j now) b other p = (
  ground (arith, state_of-assert_closed j now b d, p.since, p.is_out, eq_iff j d),
  (assert_closed_keeps j now b).0,
)

run-HasProbe :
    (d : String) (opened : ℕ) (events : List Event) (b : CircuitBreaker)
    → all (λ e. not (is_outcome d e)) events ≡ true
    → HasProbe opened (state_of d b)
    → HasProbe opened (state_of d (run events b)) × ((run events b).cooldown_ms ≡ b.cooldown_ms)
unfolding run
run-HasProbe d opened [] b none_of p = (p, refl)
run-HasProbe d opened (e ∷ events) b none_of p =
    let (q, same) = step-HasProbe d opened e b (ground arith) p in
    let (rest, kept) = run-HasProbe d opened events (step e b) (ground arith) q in
    (rest, kept ∙ same)

pub assert_closed-HasProbe :
    (d : String) (now opened : ℕ) (b : CircuitBreaker)
    → HasProbe opened (state_of d b)
    → opened + b.cooldown_ms ≤ now
    → (assert_closed d now b).0 ≡ err (circuit_breaker_open d 0)
unfolding admit circuit_state
assert_closed-HasProbe d now opened b p over =
    rw (assert_closed_lem d now b)
      (ground (arith, touch_keeps d b, state_of-touch d b d, p.since, p.is_out))

pub probe_issued :
    (d : String) (now opened : ℕ) (b : CircuitBreaker)
    → (state_of d b).opened_at ≡ some opened
    → opened + b.cooldown_ms ≤ now
    → (state_of d b).probe_allowed ≡ false
    → state_of d (assert_closed d now b).1 ≡ with_probe (state_of d b)
unfolding circuit_state
probe_issued d now opened b since over idle =
    ground (arith, state_of-assert_closed d now b d, ==_refl d)

-- The first call after the cooldown is let through as the probe. From then on every call for the
-- domain is refused, with 0 seconds to wait, at whatever time and whatever happens to other
-- domains, as long as no success and no failure is recorded for this one.
pub probe_until_outcome :
    (d : String) (now opened : ℕ) (b : CircuitBreaker)
    → (state_of d b).opened_at ≡ some opened
    → opened + b.cooldown_ms ≤ now
    → (state_of d b).probe_allowed ≡ false
    → ((assert_closed d now b).0 ≡ ok tt)
      × ((events : List Event) (later : ℕ)
          → all (λ e. not (is_outcome d e)) events ≡ true
          → now ≤ later
          → (assert_closed d later (run events (assert_closed d now b).1)).0
            ≡ err (circuit_breaker_open d 0))
unfolding admit circuit_state
probe_until_outcome d now opened b since over idle =
    let c = (assert_closed d now b).1 in
    let p : HasProbe opened (state_of d c) =
      rw (probe_issued d now opened b since over idle) (record { since = since; is_out = refl }) in
    (
      rw (assert_closed_lem d now b) (ground (arith, touch_keeps d b, state_of-touch d b d)),
      λ events later none_of after.
          let (q, same) = run-HasProbe d opened events c none_of p in
          assert_closed-HasProbe d later opened (run events c) q
            (omega (arith, same, (assert_closed_keeps d now b).0)),
    )

-- What ends the probe: a success closes the circuit, and a failure opens it again for a whole
-- cooldown, however few failures were counted.
probe_outcome :
    (d : String) (now opened t : ℕ) (b : CircuitBreaker)
    → (state_of d b).opened_at ≡ some opened
    → opened + b.cooldown_ms ≤ now
    → (state_of d b).probe_allowed ≡ false
    → ((later : ℕ) → (get_state d later (record_success d (assert_closed d now b).1)).0 ≡ closed)
      × ((later : ℕ)
          → (get_state d later (record_failure d t (assert_closed d now b).1)).0
            ≡ (if leb (t + b.cooldown_ms) later then half_open else open_circuit))
unfolding circuit_state fail_state
probe_outcome d now opened t b since over idle =
    let c = (assert_closed d now b).1 in
    (
      λ later. ground (
        arith,
        get_state_lem d (record_success d c) later,
        state_of-record_success d c d,
        ==_refl d,
      ),
      λ later. ground (
        arith,
        get_state_lem d (record_failure d t c) later,
        state_of-record_failure_self d c t,
        probe_issued d now opened b since over idle,
        record_failure_keeps d c t,
        assert_closed_keeps d now b,
      ),
    )
