-- ===== src/Security/RateLimiter/Tests.antt =====
-- The limiter at concrete inputs: a limit of two actions in ten milliseconds.
use safari_pilot.Security.RateLimiter.{
  RateLimiter, new, set_domain_limit, check_limit, length, record_action, limit_for, ◌∷◌, some,
  List, prune, get,
}
use safari_pilot.Prelude.{List, length, some, ◌∷◌, ◌≡◌, String, [], ◌≤◌, ℕ, refl, false, arith}
use safari_pilot.Security.RateLimiter.Window.{run, in_window, run-le-limit_for}
use safari_pilot.Prelude.Dict.{get, set, delete}

abbrev limiter : RateLimiter
unfolding new set_domain_limit
limiter = set_domain_limit "b.org" 1 (new (some 10) (some 2))

abbrev calls : List (String × ℕ)
calls = ("a.org", 1) ∷ ("b.org", 2) ∷ ("a.org", 4) ∷ ("a.org", 5) ∷ ("a.org", 12) ∷ []

run_accepts : (run "a.org" calls limiter []).1 ≡ 1 ∷ 4 ∷ 12 ∷ []
unfolding run record_action prune limit_for get set delete new set_domain_limit
run_accepts = refl

run-le-limit_for_example :
    length (in_window 10 12 (run "a.org" calls limiter []).1) ≤ limit_for "a.org" limiter
unfolding new set_domain_limit
run-le-limit_for_example = run-le-limit_for "a.org" calls limiter refl (omega arith) 12

abbrev busy : RateLimiter
busy = record limiter { windows = ("a.org", 1 ∷ 4 ∷ []) ∷ [] }

refused : (check_limit "a.org" 5 busy).0 ≡ record { allowed = false; remaining = 0; reset_ms = 6 }
unfolding check_limit prune limit_for get set delete new set_domain_limit
refused = refl
