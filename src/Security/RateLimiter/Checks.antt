-- ===== src/Security/RateLimiter/Checks.antt =====
-- What a caller sees of the limiter: `check_limit` against `record_action`, and the waiting time.
use safari_pilot.Prelude.{
  ℕ, String, ◌≡◌, false, filter, arith, ◌==◌, ==_refl, string_eq, ltb, ◌≤◌, length, ◌<◌, ◌++◌, ◌∷◌,
  [], ◌+◌, true, refl, List, length-filter-le, ◌∙◌, lt→ltb, ◌-◌,
}
use safari_pilot.Prelude.Dict.{get-set, get-delete, get-set_self, get-set_ne}
use safari_pilot.Security.RateLimiter.{
  RateLimiter, entries, is_live, prune, limit_for, record_action, check_limit, err, ok,
  rate_limited, reset_after,
}

module _ (d : String) (now : ℕ) (r : RateLimiter) where
  pub entries-prune : entries d (prune d now r).1 ≡ (prune d now r).0
  unfolding prune
  entries-prune = ground (
    arith,
    get-delete d d r.windows,
    get-set d d (filter (is_live r.window_ms now) (entries d r)) r.windows,
    ==_refl d,
  )

  pub entries-prune_ne : (j : String) → (d == j) ≡ false → entries j (prune d now r).1 ≡ entries j r
  unfolding prune
  entries-prune_ne j h = ground (
    arith,
    get-delete d j r.windows,
    get-set d j (filter (is_live r.window_ms now) (entries d r)) r.windows,
  )

  pub prune_lem : (prune d now r).0 ≡ filter (is_live r.window_ms now) (entries d r)
  unfolding prune
  prune_lem = refl

  pub prune_keeps :
      ((prune d now r).1.window_ms ≡ r.window_ms)
      × ((prune d now r).1.domain_limits ≡ r.domain_limits)
      × ((prune d now r).1.global_limit ≡ r.global_limit)
  unfolding prune
  prune_keeps = ground arith

  pub limit_for-prune : (j : String) → limit_for j (prune d now r).1 ≡ limit_for j r
  unfolding limit_for
  limit_for-prune j = cc (prune_keeps.1, prune_keeps.2)

  pub allowed-check_limit :
      (check_limit d now r).0.allowed
      ≡ ltb (length (filter (is_live r.window_ms now) (entries d r))) (limit_for d r)
  unfolding check_limit
  allowed-check_limit = ground (arith, prune_lem, limit_for-prune d)

  pub record_action-pushes :
      length (filter (is_live r.window_ms now) (entries d r)) < limit_for d r
      → ((record_action d now r).0 ≡ ok tt)
        × (entries d (record_action d now r).1
            ≡ filter (is_live r.window_ms now) (entries d r) ++ now ∷ [])
  unfolding record_action
  record_action-pushes h = ground (
    arith,
    h,
    limit_for-prune d,
    entries-prune,
    prune_lem,
    get-set_self d ((prune d now r).0 ++ now ∷ []) (prune d now r).1.windows,
  )

  pub record_action-refuses :
      limit_for d r ≤ length (filter (is_live r.window_ms now) (entries d r))
      → ((record_action d now r).0 ≡ err (rate_limited d (limit_for d r)))
        × ((record_action d now r).1 ≡ (prune d now r).1)
  unfolding record_action
  record_action-refuses h = ground (arith, limit_for-prune d, prune_lem)

  -- An action of one domain leaves the stored entries of every other domain as they were.
  pub record_action-others :
      (j : String) → (d == j) ≡ false → entries j (record_action d now r).1 ≡ entries j r
  unfolding record_action
  record_action-others j h = ground (
    arith,
    entries-prune_ne j h,
    get-set_ne d j ((prune d now r).0 ++ now ∷ []) (prune d now r).1.windows h,
  )

  pub record_action-limit : (j : String) → limit_for j (record_action d now r).1 ≡ limit_for j r
  unfolding record_action limit_for
  record_action-limit j = ground (arith, prune_keeps)

  pub record_action-window : (record_action d now r).1.window_ms ≡ r.window_ms
  unfolding record_action
  record_action-window = ground (arith, prune_keeps)

  pub check_limit-state : (check_limit d now r).1 ≡ (prune d now r).1
  unfolding check_limit
  check_limit-state = refl

  pub reset_ms-check_limit :
      (check_limit d now r).0.reset_ms
      ≡ reset_after r.window_ms now (filter (is_live r.window_ms now) (entries d r))
  unfolding check_limit
  reset_ms-check_limit = rw (prune_lem, prune_keeps.0)

-- An action that the check allows is recorded without an error, at the same or at a later time:
-- the throw of `record_action` cannot happen right after a successful check.
record_after_check :
    (d : String) (now later : ℕ) (r : RateLimiter)
    → (check_limit d now r).0.allowed ≡ true
    → (record_action d later (check_limit d now r).1).0 ≡ ok tt
record_after_check d now later r allowed =
    let s = (prune d now r).1 in
    rw (check_limit-state d now r) (
      (record_action-pushes d later s (
        ground (
          arith,
          allowed-check_limit d now r,
          prune_keeps d now r,
          limit_for-prune d now r d,
          entries-prune d now r,
          prune_lem d now r,
          length-filter-le (is_live s.window_ms later) (entries d s),
        ))).0)

-- Waiting until the oldest entry dies leaves room.
room_after_reset :
    (window now limit : ℕ) (live : List ℕ)
    → length live ≤ limit
    → 0 < limit
    → length (filter (is_live window (now + reset_after window now live)) live) < limit
room_after_reset window now limit [] fits positive = positive
room_after_reset window now limit (oldest ∷ rest) fits positive =
    ground (arith, length-filter-le (is_live window (now + (oldest + window - now))) rest)

-- A caller that waits for `reset_ms` is allowed, if the limit is positive and no more entries are
-- stored than the limit.
allowed_after_reset :
    (d : String) (now : ℕ) (r : RateLimiter)
    → length (entries d r) ≤ limit_for d r
    → 0 < limit_for d r
    → (check_limit d (now + (check_limit d now r).0.reset_ms) (check_limit d now r).1).0.allowed
      ≡ true
allowed_after_reset d now r fits positive =
    let s = (prune d now r).1 in
    let live = filter (is_live r.window_ms now) (entries d r) in
    rw (check_limit-state d now r) (
      allowed-check_limit d (now + (check_limit d now r).0.reset_ms) s
      ∙ lt→ltb _ _ (
          rw
            (
              (prune_keeps d now r).0,
              entries-prune d now r,
              prune_lem d now r,
              limit_for-prune d now r d,
              reset_ms-check_limit d now r,
            )
            (room_after_reset r.window_ms now (limit_for d r) live
              (omega (arith, length-filter-le (is_live r.window_ms now) (entries d r))) positive)))
