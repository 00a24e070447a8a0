-- ===== src/Security/CircuitBreaker/Engine.antt =====
-- The breaker of an engine: what trips it, and for how long.
use safari_pilot.Security.CircuitBreaker.{
  CircuitBreaker, record_engine_failure, is_engine_tripped, String, get, is_triggering, is_recent,
  engine_failures_of,
}
use safari_pilot.Prelude.{
  String, ℕ, ◌==◌, List, filter, ◌≡◌, true, false, some, ◌≤◌, arith, if◌then◌else◌, string_eq, ltb,
  length, ◌+◌, length-append, ◌∷◌, [], none,
}
use safari_pilot.Prelude.Dict.{get, get-set_ne, get-set_self, get-delete_self}

abbrev pub recent : String → ℕ → CircuitBreaker → List ℕ
recent engine now b = filter (is_recent now) (engine_failures_of engine b)

-- An error code that is not one of the three lifecycle codes changes nothing.
pub ignores_other_codes :
    (engine code : String) (now : ℕ) (b : CircuitBreaker)
    → is_triggering code ≡ false
    → record_engine_failure engine code now b ≡ b
unfolding record_engine_failure
ignores_other_codes engine code now b h = ground arith

-- A lifecycle failure is counted with those of the last 120 seconds. If fewer than four are
-- there, whether the engine is tripped does not change at any time; if at least four are there,
-- the engine is tripped, exactly until 120 seconds after this failure.
engine_trip_exact :
    (engine code : String) (now t : ℕ) (b : CircuitBreaker)
    → is_triggering code ≡ true
    → (is_engine_tripped engine t (record_engine_failure engine code now b)).0 ≡ (
        if ltb (length (recent engine now b)) 4
        then (is_engine_tripped engine t b).0
        else ltb t (now + 120000))
unfolding record_engine_failure is_engine_tripped
engine_trip_exact engine code now t b h = ground (
  arith,
  length-append (recent engine now b) (now ∷ []),
  get-set_self engine (now + 120000) b.engine_tripped_until,
)

-- What one engine records does not touch the others.
pub engine_isolated :
    (engine code other : String) (now t : ℕ) (b : CircuitBreaker)
    → (engine == other) ≡ false
    → (is_engine_tripped other t (record_engine_failure engine code now b)).0
      ≡ (is_engine_tripped other t b).0
unfolding record_engine_failure is_engine_tripped
engine_isolated engine code other now t b h =
    ground (arith, get-set_ne engine other (now + 120000) b.engine_tripped_until h)

healed :
    (engine : String) (now until : ℕ) (b : CircuitBreaker)
    → get engine b.engine_tripped_until ≡ some until
    → until ≤ now
    → ((is_engine_tripped engine now b).0 ≡ false)
      × (get engine (is_engine_tripped engine now b).1.engine_tripped_until ≡ none)
      × (get engine (is_engine_tripped engine now b).1.engine_failures ≡ none)
unfolding is_engine_tripped
healed engine now until b tripped over =
    ground (
      arith,
      get-delete_self engine b.engine_tripped_until,
      get-delete_self engine b.engine_failures,
    )

first_failure :
    (engine code : String) (later t : ℕ) (c : CircuitBreaker)
    → get engine c.engine_tripped_until ≡ none
    → get engine c.engine_failures ≡ none
    → (is_engine_tripped engine t (record_engine_failure engine code later c)).0 ≡ false
unfolding record_engine_failure is_engine_tripped
first_failure engine code later t c calm empty = ground arith

-- Reading a trip that is over heals the engine: it stays untripped, and its next failure is
-- counted alone.
engine_heals :
    (engine code : String) (now later t : ℕ) (b : CircuitBreaker) (until : ℕ)
    → get engine b.engine_tripped_until ≡ some until
    → until ≤ now
    → ((is_engine_tripped engine now b).0 ≡ false)
      × ((is_engine_tripped engine t
            (record_engine_failure engine code later (is_engine_tripped engine now b).1)).0
          ≡ false)
engine_heals engine code now later t b until tripped over =
    let c = (is_engine_tripped engine now b).1 in
    let (untripped, calm, empty) = healed engine now until b tripped over in
    (untripped, first_failure engine code later t c calm empty)
