-- ===== src/Security/WallCap/Tests.antt =====
-- The cap at concrete inputs: 50 ms from 100 on.
use safari_pilot.Prelude.{refl, some, ◌≡◌}
use safari_pilot.Security.WallCap.{new, from_env, positive_cap, WallCapEnforcer, parse_int}

abbrev session : WallCapEnforcer
unfolding new
session = new (some 50) 100

reads_a_number : from_env (some "250ms") 7 ≡ record { max_ms = some 250; started_at = 7 }
unfolding from_env new positive_cap parse_int
reads_a_number = refl
