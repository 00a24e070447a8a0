-- ===== src/Security/KillSwitch.antt =====
-- src/security/kill-switch.ts: the emergency stop. The audit log is the object that the server
-- shares with it, so a method takes it and gives it back. `now` is `Date.now()`, `at` the same
-- instant as a text.
pub mod AutoActivation
mod Tests
use safari_pilot.Errors.{Result, err, kill_switch_active, ok}
use safari_pilot.Security.AuditLog.{AuditLog, AuditEntry, succeeded}
use safari_pilot.Prelude.{
  Bool, String, if◌then◌else◌, ℕ, Option, ◌*◌, false, true, List, none, ◌∷◌, some, ◌++◌, or_default,
  ltb, [], ◌+◌, leb, ◌&&◌, length,
}
use safari_pilot.Params.{Params, str}
use safari_pilot.Text.{join, decimal}
use safari_pilot.Engines.{applescript}
use safari_pilot.Security.AuditLog

pub record Threshold : Type 0 where
  pub max_errors : ℕ
  pub window_seconds : ℕ

pub record KillSwitch : Type 0 where
  pub is_active : Bool
  pub reason : Option String
  pub activated_at : Option String
  pub is_audited : Bool
  pub threshold : Option Threshold
  pub error_window : List ℕ

unfoldable pub new : Bool → Option Threshold → KillSwitch
new is_audited threshold = record {
  is_active = false;
  reason = none;
  activated_at = none;
  is_audited = is_audited;
  threshold = threshold;
  error_window = [];
}

-- The entry that the switch writes.
abbrev log_entry : String → Params → AuditEntry
log_entry at params = record {
  timestamp = at;
  tool = "kill_switch";
  tab_url = "";
  engine = applescript;
  params = params;
  result = succeeded;
  elapsed_ms = 0;
  session = "kill-switch";
}

abbrev append_if : Bool → AuditEntry → AuditLog → AuditLog
append_if audited entry log = if audited then AuditLog.append entry log else log

unfoldable pub activate : String → String → KillSwitch → AuditLog → KillSwitch × AuditLog
activate reason at k log = (
  record k { is_active = true; reason = some reason; activated_at = some at },
  append_if k.is_audited (log_entry at (("action", str "activate") ∷ ("reason", str reason) ∷ []))
      log,
)

unfoldable pub deactivate : String → KillSwitch → AuditLog → KillSwitch × AuditLog
deactivate at k log = (
  record k { is_active = false; reason = none; activated_at = none; error_window = [] },
  append_if (k.is_active && k.is_audited) (log_entry at (("action", str "deactivate") ∷ [])) log,
)

pub record ActivationState : Type 0 where
  pub active : Bool
  pub reason : Option String
  pub activated_at : Option String

unfoldable pub get_activation : KillSwitch → ActivationState
get_activation k =
    if k.is_active
    then record { active = true; reason = k.reason; activated_at = k.activated_at }
    else record { active = false; reason = none; activated_at = none }

unfoldable pub check_before_action : KillSwitch → Result (Unit {0})
check_before_action k =
    if k.is_active
    then err (kill_switch_active (or_default k.reason "kill switch activated"))
    else ok tt

-- The eviction loop: `shift` while the first error is before the window, `at < now - seconds * 1000`.
unfoldable pub evict : ℕ → ℕ → List ℕ → List ℕ
evict span now [] = []
evict span now (at ∷ window) =
    let rest = evict span now window in if ltb (at + span) now then rest else at ∷ window

abbrev auto_reason : ℕ → ℕ → String
auto_reason count seconds =
    join "Auto-activated: "
      (join (decimal count) (join " errors in " (join (decimal seconds) "s window")))

unfoldable pub count_error : Threshold → ℕ → String → KillSwitch → AuditLog → KillSwitch × AuditLog
count_error limit now at k log =
    let window = evict (limit.window_seconds * 1000) now k.error_window ++ now ∷ [] in
    let k' = record k { error_window = window } in
    if leb limit.max_errors (length window)
    then activate (auto_reason (length window) limit.window_seconds) at k' log
    else (k', log)

unfoldable pub record_error : ℕ → String → KillSwitch → AuditLog → KillSwitch × AuditLog
record_error now at k log = elim k.threshold [
  | none ↦ (k, log)
  | some limit ↦ count_error limit now at k log
]
