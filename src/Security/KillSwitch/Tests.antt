-- ===== src/Security/KillSwitch/Tests.antt =====
-- The switch at concrete errors: three errors within two seconds.
use safari_pilot.Prelude.{refl, List, ℕ, true, [], some, none, String, ◌≡◌, ◌∷◌, arith}
use safari_pilot.Security.KillSwitch.{new, Threshold}
use safari_pilot.Security.KillSwitch.AutoActivation.{activates_exactly, floods, record_errors}
use safari_pilot.Security.AuditLog.{AuditLog}

abbrev limit : Threshold
limit = record { max_errors = 3; window_seconds = 2 }

abbrev times : List (ℕ × String)
times = (100, "a") ∷ (2000, "b") ∷ (3900, "c") ∷ (4000, "d") ∷ []

abbrev log : AuditLog
log = record { entries = []; max_entries = 5; log_path = none }

activates_exactly_example :
    (record_errors times (new true (some limit)) log).0.is_active ≡ floods limit [] times
activates_exactly_example =
    activates_exactly limit true times log
      (omega arith, (omega arith, (omega arith, (omega arith, tt))))

is_flooded : floods limit [] times ≡ true
unfolding floods
is_flooded = refl
