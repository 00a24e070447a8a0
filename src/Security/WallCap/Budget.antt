-- ===== src/Security/WallCap/Budget.antt =====
-- The budget of a session.
use safari_pilot.Security.WallCap.{
  WallCapEnforcer, assert_within_cap, from_env, remaining_ms, new, parse_int, positive_cap,
}
use safari_pilot.Prelude.{
  Option, ℕ, String, ◌≡◌, some, ◌<◌, ◌≤◌, ◌⊎◌, none, inr, if◌then◌else◌, ltb, refl, ◌+◌, ◌-◌, arith,
  inl, suc, zero,
}
use safari_pilot.Errors.{ok, err, wall_cap_exceeded}
use safari_pilot.Text.{codes}

-- With a cap, at any time from the start on: the call is refused exactly when the elapsed time
-- passes the cap, and what remains and what has elapsed add up to the cap until then. Once a call
-- is refused, every later call is.
cap_exact :
    (w : WallCapEnforcer) (cap now later : ℕ)
    → w.max_ms ≡ some cap
    → w.started_at ≤ now
    → now ≤ later
    → (assert_within_cap none now w ≡ (
        if ltb (w.started_at + cap) now
        then err (wall_cap_exceeded cap (now - w.started_at))
        else ok tt))
      × (remaining_ms none now w ≡ some (w.started_at + cap - now))
      × (assert_within_cap none later w ≡ ok tt → assert_within_cap none now w ≡ ok tt)
unfolding assert_within_cap remaining_ms
cap_exact w cap now later capped started after =
    (ground (arith, capped), ground (arith, capped), ground (arith, capped))

capped_or_free :
    (p : Option ℕ) (start now : ℕ) (override : Option ℕ)
    → ((cap : ℕ) × (0 < cap) × ((new (positive_cap p) start).max_ms ≡ some cap))
      ⊎ (assert_within_cap override now (new (positive_cap p) start) ≡ ok tt)
unfolding positive_cap new assert_within_cap
capped_or_free none start now override = inr refl
capped_or_free (some zero) start now override = inr refl
capped_or_free (some (suc n)) start now override = inl (suc n, omega arith, ground arith)

-- A session that is started from the environment either has a positive cap, or it never refuses
-- a call, whatever the time.
from_env-exact :
    (raw : Option String) (start now : ℕ) (override : Option ℕ)
    → ((cap : ℕ) × (0 < cap) × ((from_env raw start).max_ms ≡ some cap))
      ⊎ (assert_within_cap override now (from_env raw start) ≡ ok tt)
unfolding from_env new assert_within_cap
from_env-exact none start now override = inr refl
from_env-exact (some raw) start now override =
    capped_or_free (parse_int (codes raw)) start now override
