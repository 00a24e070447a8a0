-- ===== src/Security/AuditLog/Redaction.antt =====
-- What the log keeps of the calls (src/security/audit-log.ts).
use mathlib.Core.List.{append-nil, append_assoc, map}
use safari_pilot.Security.AuditLog.{
  AuditLog, AuditEntry, redact_params, List, append, ◌∷◌, redacts_value, Params, get, redacted,
  redact_value, truncate_script, truncate, truncates_script,
}
use safari_pilot.Prelude.{
  ◌<◌, [], ◌≡◌, take_last, String, ◌++◌, if◌then◌else◌, some, none, length, ◌==◌, ◌≤◌, false, arith,
  eq_iff, string_eq, length-append, ◌∙◌, Option, refl, Bool-cases, ◌&&◌, ℕ, ltb, ◌-◌, any, drop,
  inl, sym, eqb, inr, Option-cases, ap,
}
use safari_pilot.Prelude.Last.{length-take_last-le, take_last-push, take_last_of_le, drop-append}
use safari_pilot.Prelude.Dict.{get-set_self, get-set_ne}
use safari_pilot.Params.{Value, str}

-- What the audit log stores of an entry.
abbrev pub safe_entry : AuditEntry → AuditEntry
safe_entry entry = record entry { params = redact_params entry.tool entry.params }

get-truncate_script :
    (tool : String) (script : Option Value) (params : Params) (key : String)
    → ("script" == key) ≡ false
    → get key (truncate_script tool script params) ≡ get key params
get-truncate_script tool (some (str s)) params key h =
    ground (arith, get-set_ne "script" key (str (truncate s)) params h)
get-truncate_script tool _ params key h = refl

-- The tools whose parameter `value` is a secret.
abbrev pub value_tools : List String
value_tools = "safari_fill" ∷ "safari_set_cookie" ∷ "safari_clipboard_write" ∷ []

-- What a stored entry holds under a key.
abbrev pub stored_value : String → String → Option Value → Option Value
stored_value tool key (some v) =
    if key == "value" && any (λ t. tool == t) value_tools then some redacted else some v
stored_value tool key none = none

truncate_script-other :
    (tool : String) (script : Option Value) (params : Params)
    → (tool == "safari_evaluate") ≡ false
    → truncate_script tool script params ≡ params
unfolding truncates_script
truncate_script-other tool (some (str s)) params h = rw h refl
truncate_script-other tool _ params h = refl

get-redact_value :
    (tool key : String) (params : Params)
    → get key (redact_value tool params) ≡ stored_value tool key (get key params)
unfolding redacts_value
get-redact_value tool key params = elim (Bool-cases (key == "value")) [
  | inl e ↦
      rw ((eq_iff key "value").0 e)
        (ground (arith, get-set_self "value" redacted params, Option-cases (get "value" params)))
  | inr e ↦ ground (
    arith,
    e,
    get-set_ne "value" key redacted params,
    eq_iff key "value",
    eq_iff "value" key,
    Option-cases (get key params),
  )
]

get-redact_params :
    (tool key : String) (params : Params)
    → (tool == "safari_evaluate" && key == "script") ≡ false
    → get key (redact_params tool params) ≡ stored_value tool key (get key params)
unfolding redact_params
get-redact_params tool key params h =
    let safe = redact_value tool params in
    elim (Bool-cases (tool == "safari_evaluate")) [
      | inl e ↦
          get-truncate_script tool (get "script" safe) safe key
            (ground (arith, h, e, eq_iff key "script", eq_iff "script" key))
          ∙ get-redact_value tool key params
      | inr e ↦
          ap (get key) (truncate_script-other tool (get "script" safe) safe e)
          ∙ get-redact_value tool key params
    ]

last_of_take_last {ℓ} :
    {A : Type ℓ}
    → (n : ℕ) (xs : List A) (x : A) → 0 < n
    → (earlier : List A) × (take_last n (xs ++ x ∷ []) ≡ earlier ++ x ∷ [])
last_of_take_last n xs x h =
    let k = length (xs ++ x ∷ []) - n in
    (drop k xs, sym (drop-append k xs (x ∷ []) (omega (arith, length-append xs (x ∷ [])))))

append-last :
    (entry : AuditEntry) (log : AuditLog)
    → (earlier : List AuditEntry) × ((append entry log).entries ≡ earlier ++ safe_entry entry ∷ [])
unfolding append
append-last entry log =
    elim (Bool-cases (ltb log.max_entries (length (log.entries ++ safe_entry entry ∷ [])))) [
      | inl full ↦ elim (Bool-cases (eqb log.max_entries 0)) [
        | inl z ↦ (log.entries, rw (full, z) refl)
        | inr more ↦
            let (earlier, e) =
              last_of_take_last log.max_entries log.entries (safe_entry entry)
                (ground (arith, more)) in
            (earlier, rw (full, more) e)
      ]
      | inr room ↦ (log.entries, rw room refl)
    ]

-- What the log stores of a call. Whatever the bound of the log, the last entry after an entry was
-- appended is that entry, changed in its parameters only: `value` is replaced by the mark for the
-- three tools whose `value` is a secret, and every other parameter is stored as it was given,
-- except for the script of safari_evaluate, which is not covered here. So the text that
-- safari_clipboard_write gets, in its parameter `text`, is stored as it was.
pub append-redacted :
    (entry : AuditEntry) (log : AuditLog) (key : String)
    → (entry.tool == "safari_evaluate" && key == "script") ≡ false
    → (earlier : List AuditEntry) × (stored : AuditEntry) × ((append entry log).entries
        ≡ earlier ++ stored ∷ [])
      × (stored ≡ record entry { params = stored.params })
      × (get key stored.params ≡ stored_value entry.tool key (get key entry.params))
append-redacted entry log key h =
    let (earlier, e) = append-last entry log in
    (earlier, safe_entry entry, e, refl, get-redact_params entry.tool key entry.params h)

append-take_last :
    (entry : AuditEntry) (log : AuditLog) (h : List AuditEntry)
    → 0 < log.max_entries
    → log.entries ≡ take_last log.max_entries h
    → (append entry log).entries ≡ take_last log.max_entries (h ++ safe_entry entry ∷ [])
unfolding append
append-take_last entry log h pos e =
    let short : length log.entries ≤ log.max_entries =
      rw e (length-take_last-le log.max_entries h) in
    rw (← take_last-push log.max_entries h (safe_entry entry), ← e)
      (ground (
        arith,
        length-append log.entries (safe_entry entry ∷ []),
        take_last_of_le log.max_entries (log.entries ++ safe_entry entry ∷ []),
      ))

unfoldable pub append_all : List AuditEntry → AuditLog → AuditLog
append_all [] log = log
append_all (entry ∷ entries) log = append_all entries (append entry log)

append_all-take_last :
    (entries : List AuditEntry) (log : AuditLog) (h : List AuditEntry)
    → 0 < log.max_entries
    → log.entries ≡ take_last log.max_entries h
    → (append_all entries log).entries ≡ take_last log.max_entries (h ++ map safe_entry entries)
unfolding append_all append
append_all-take_last [] log h pos e = rw append-nil e
append_all-take_last (entry ∷ entries) log h pos e =
    rw (← append_assoc h (safe_entry entry ∷ []) (map safe_entry entries)) (
      append_all-take_last entries (append entry log) (h ++ safe_entry entry ∷ []) pos
        (append-take_last entry log h pos e))

-- A log with a positive bound, empty at first, holds after any calls exactly the most recent
-- entries, redacted, in order, and never more than the bound.
append_all-recent :
    (entries : List AuditEntry) (log : AuditLog)
    → 0 < log.max_entries
    → log.entries ≡ []
    → ((append_all entries log).entries ≡ take_last log.max_entries (map safe_entry entries))
      × (length (append_all entries log).entries ≤ log.max_entries)
append_all-recent entries log pos fresh =
    let exact = append_all-take_last entries log [] pos (rw fresh (ground arith)) in
    (exact, rw exact (length-take_last-le log.max_entries (map safe_entry entries)))
