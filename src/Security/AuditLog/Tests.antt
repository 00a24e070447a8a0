-- ===== src/Security/AuditLog/Tests.antt =====
-- The log at concrete entries.
use safari_pilot.Prelude.{refl, List, String, some, ◌≡◌, none, ◌∷◌, [], string_eq, ◌++◌}
use safari_pilot.Security.AuditLog.{
  new, redact_params, AuditLog, redacts_value, truncates_script, AuditEntry, succeeded, redacted,
  append,
}
use safari_pilot.Security.AuditLog.Redaction.{append-redacted, stored_value}
use safari_pilot.Params.{Params, str}
use safari_pilot.Prelude.Dict.{get, set}
use safari_pilot.Engines.{applescript}

abbrev secret : Params
secret = ("selector", str "#p") ∷ ("value", str "hunter2") ∷ []

is_redacted : get "value" (redact_params "safari_fill" secret) ≡ some redacted
unfolding redact_params redacts_value truncates_script get set
is_redacted = refl

abbrev entry : String → AuditEntry
entry tool = record {
  timestamp = "t";
  tool = tool;
  tab_url = "https://a.org";
  engine = applescript;
  params = secret;
  result = succeeded;
  elapsed_ms = 1;
  session = "s";
}

abbrev calls : List AuditEntry
calls = entry "safari_fill" ∷ entry "safari_click" ∷ entry "safari_fill" ∷ []

abbrev small_log : AuditLog
unfolding new
small_log = new (some 2) none

-- The text for the clipboard, appended to a log that is full.
abbrev clipboard : AuditEntry
clipboard = record (entry "safari_clipboard_write") { params = ("text", str "hunter2") ∷ [] }

append-redacted_example :
    (earlier : List AuditEntry) × (stored : AuditEntry) × ((append clipboard small_log).entries
      ≡ earlier ++ stored ∷ [])
    × (stored ≡ record clipboard { params = stored.params })
    × (get "text" stored.params
        ≡ stored_value "safari_clipboard_write" "text" (get "text" clipboard.params))
append-redacted_example = append-redacted clipboard small_log "text" refl
