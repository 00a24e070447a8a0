-- ===== src/Security/AuditLog.antt =====
-- src/security/audit-log.ts: the log of the tool calls, with some parameters redacted and a bound.
-- `new Date().toISOString()` is the argument `timestamp`.
pub mod Redaction
mod Tests
use safari_pilot.Params.{Params, Value, str}
use safari_pilot.Prelude.{
  List, Option, String, [], ℕ, ◌++◌, some, ◌∷◌, if◌then◌else◌, or_default, Bool, filter, ◌==◌,
  string_eq, ltb, eqb, ◌&&◌, length, ◌||◌, take_last, none,
}
use safari_pilot.Engines.{Engine}
use safari_pilot.Prelude.Dict.{get, has, set}
use safari_pilot.Text.{char_count, join, take_chars}

pub data Outcome : Type 0 where
  succeeded failed : Outcome

pub record AuditEntry : Type 0 where
  pub timestamp : String
  pub tool : String
  pub tab_url : String
  pub engine : Engine
  pub params : Params
  pub result : Outcome
  pub elapsed_ms : ℕ
  pub session : String

pub record AuditLog : Type 0 where
  pub entries : List AuditEntry
  pub max_entries : ℕ
  pub log_path : Option String

abbrev pub script_max_len : ℕ
script_max_len = 200

abbrev pub redacted : Value
redacted = str "[REDACTED]"

unfoldable pub new : Option ℕ → Option String → AuditLog
new max_entries log_path = record {
  entries = [];
  max_entries = or_default max_entries 10000;
  log_path = log_path;
}

unfoldable pub redacts_value : String → Bool
redacts_value tool =
    tool == "safari_fill" || tool == "safari_set_cookie" || tool == "safari_clipboard_write"

unfoldable pub truncates_script : String → Bool
truncates_script tool = tool == "safari_evaluate"

abbrev pub truncate : String → String
truncate script =
    if ltb script_max_len (char_count script)
    then join (take_chars script_max_len script) "..."
    else script

abbrev pub redact_value : String → Params → Params
redact_value tool params =
    if redacts_value tool && has "value" params then set "value" redacted params else params

-- The second step of `redactParams`, by the value of `script`.
abbrev pub truncate_script : String → Option Value → Params → Params
truncate_script tool (some (str script)) params =
    if truncates_script tool && ltb script_max_len (char_count script)
    then set "script" (str (truncate script)) params
    else params
truncate_script tool _ params = params

unfoldable pub redact_params : String → Params → Params
redact_params tool params =
    let safe = redact_value tool params in truncate_script tool (get "script" safe) safe

-- `entries.slice(-max)`, where `slice(-0)` is the whole array.
abbrev pub slice_last {ℓ} : {A : Type ℓ} → ℕ → List A → List A
slice_last n xs = if eqb n 0 then xs else take_last n xs

-- `record`: `timestamp` is added and `params` is redacted.
unfoldable pub append : AuditEntry → AuditLog → AuditLog
append entry log =
    let safe = record entry { params = redact_params entry.tool entry.params } in
    let entries = log.entries ++ safe ∷ [] in
    record log {
      entries =
          if ltb log.max_entries (length entries)
          then slice_last log.max_entries entries
          else entries;
    }

unfoldable pub get_entries : Option ℕ → AuditLog → List AuditEntry
get_entries none log = log.entries
get_entries (some limit) log = if ltb 0 limit then take_last limit log.entries else log.entries

unfoldable pub get_entries_for_session : String → AuditLog → List AuditEntry
get_entries_for_session session log = filter (λ e. e.session == session) log.entries

unfoldable pub clear : AuditLog → AuditLog
clear log = record log { entries = [] }
