-- ===== src/Security/RateLimiter.antt =====
-- src/security/rate-limiter.ts: the sliding-window limiter, one list of timestamps per domain.
-- `Date.now()` is the argument `now`. The source keeps `ts > now - windowMs`; `-` on ℕ stops at 0,
-- so the test is written `now < ts + window_ms`.
pub mod Window
pub mod Checks
mod Tests
use safari_pilot.Prelude.{
  ℕ, zero, ◌+◌, ◌-◌, String, Bool, Option, none, some, List, [], ◌∷◌, ◌++◌, length, filter, ltb,
  leb, or_default, if◌then◌else◌, string_eq, true, false,
}
use safari_pilot.Prelude.Dict.{Dict, get, set, delete}
use safari_pilot.Errors.{Result, ok, err, rate_limited}

abbrev pub default_window_ms : ℕ
default_window_ms = 60000

abbrev pub default_global_limit : ℕ
default_global_limit = 120

pub record CheckResult : Type 0 where
  pub allowed : Bool
  pub remaining : ℕ
  pub reset_ms : ℕ

pub record RateLimiter : Type 0 where
  pub windows : Dict String (List ℕ)
  pub domain_limits : Dict String ℕ
  pub window_ms : ℕ
  pub global_limit : ℕ

unfoldable pub new : Option ℕ → Option ℕ → RateLimiter
new window_ms global_limit = record {
  windows = [];
  domain_limits = [];
  window_ms = or_default window_ms default_window_ms;
  global_limit = or_default global_limit default_global_limit;
}

unfoldable pub set_domain_limit : String → ℕ → RateLimiter → RateLimiter
set_domain_limit domain limit r = record r { domain_limits = set domain limit r.domain_limits }

unfoldable pub limit_for : String → RateLimiter → ℕ
limit_for domain r = or_default (get domain r.domain_limits) r.global_limit

abbrev pub entries : String → RateLimiter → List ℕ
entries domain r = or_default (get domain r.windows) []

-- `ts > now - windowMs`
abbrev pub is_live : ℕ → ℕ → ℕ → Bool
is_live window now ts = ltb now (ts + window)

abbrev is_empty : List ℕ → Bool
is_empty [] = true
is_empty (x ∷ xs) = false

-- The live entries, and the limiter with the dead ones dropped.
unfoldable pub prune : String → ℕ → RateLimiter → List ℕ × RateLimiter
prune domain now r =
    let pruned = filter (is_live r.window_ms now) (entries domain r) in
    (
      pruned,
      if is_empty pruned
          then record r { windows = delete domain r.windows }
          else record r { windows = set domain pruned r.windows },
    )

abbrev reset_after : ℕ → ℕ → List ℕ → ℕ
reset_after window now [] = 0
reset_after window now (oldest ∷ rest) = oldest + window - now

unfoldable pub check_limit : String → ℕ → RateLimiter → CheckResult × RateLimiter
check_limit domain now r =
    let (live, r') = prune domain now r in
    let limit = limit_for domain r' in
    let count = length live in
    (
      record {
        allowed = ltb count limit;
        remaining = limit - count;
        reset_ms = reset_after r'.window_ms now live;
      },
      r',
    )

-- The map has lost its dead entries also when the action is refused.
unfoldable pub record_action : String → ℕ → RateLimiter → Result (Unit {0}) × RateLimiter
record_action domain now r =
    let (live, r') = prune domain now r in
    let limit = limit_for domain r' in
    if leb limit (length live)
    then (err (rate_limited domain limit), r')
    else (ok tt, record r' { windows = set domain (live ++ now ∷ []) r'.windows })

unfoldable pub get_count : String → ℕ → RateLimiter → ℕ × RateLimiter
get_count domain now r = let (live, r') = prune domain now r in (length live, r')
