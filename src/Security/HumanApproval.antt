-- ===== src/Security/HumanApproval.antt =====
-- src/security/human-approval.ts: the actions that a human has to approve.
pub mod Patterns
pub use Patterns.{Category}
use safari_pilot.Errors.{Result, err, human_approval_required, ok}
use safari_pilot.Params.{Params, bool}
use safari_pilot.Prelude.{
  List, String, ℕ, Option, if◌then◌else◌, Bool, false, ◌==◌, none, true, ◌∷◌, some, ◌||◌,
  or_default, string_eq, [], not,
}
use safari_pilot.Regex.{Regex}
use safari_pilot.Security.HumanApproval.Patterns.{
  financial_field_names, matches_any, account_settings_patterns, tool_action, financial,
  account_settings, oauth_url_patterns, oauth, sensitive_form_fields, download_extensions, download,
  financial_url_patterns, form_submission,
}
use safari_pilot.Text.{codes, join}

pub data ApprovalResult : Type 0 where
  not_required : ApprovalResult
  required : Category → String → ApprovalResult

-- `Object.keys(params).find(...)`
unfoldable pub find_field : List Regex → Params → Option String
find_field patterns [] = none
find_field patterns ((name, value) ∷ params) =
    let rest = find_field patterns params in
    if matches_any (codes name) patterns then some name else rest

abbrev pub is_download_action : String → Bool
is_download_action action = action == "download" || action == "safari_wait_for_download"

abbrev pub is_form_action : String → Bool
is_form_action action =
    action == "submit" || action == "post" || action == "safari_fill" || action == "safari_click"

-- Checks 5 and 6.
unfoldable pub check_settings_and_forms : String → List ℕ → Params → ApprovalResult
check_settings_and_forms action url params =
    if matches_any url account_settings_patterns
    then required account_settings "URL matches a sensitive account settings or deletion path"
    else if not (is_form_action action)
    then not_required
    else elim (find_field sensitive_form_fields params) [
      | none ↦ not_required
      | some field ↦
          required form_submission
            (join "Form submission contains sensitive field: \"" (join field "\""))
    ]

-- Checks 3 and 4.
unfoldable pub check_fields_and_downloads : String → List ℕ → Params → ApprovalResult
check_fields_and_downloads action url params = elim (find_field financial_field_names params) [
  | some field ↦
      required financial (join "Request contains sensitive financial field: \"" (join field "\""))
  | none ↦
      if is_download_action action || matches_any url download_extensions
      then required download "Action involves downloading a file"
      else check_settings_and_forms action url params
]

-- Checks 0 to 2, and the rest. The server always passes `params`.
unfoldable pub requires_approval : String → String → Params → ApprovalResult
requires_approval action url params =
    if action == "safari_register_selector"
    then required tool_action
        "Custom selector engine registration is a JS injection surface — body is wrapped in new Function() in page context"
    else if matches_any (codes url) oauth_url_patterns
    then required oauth "URL matches an OAuth/SSO authentication flow"
    else if matches_any (codes url) financial_url_patterns
    then required financial "URL matches a financial payment or checkout flow"
    else check_fields_and_downloads action (codes url) params

abbrev pub is_required : ApprovalResult → Bool
is_required not_required = false
is_required (required category reason) = true

unfoldable pub assert_approved :
    (String → Option String) → String → String → Params → Result (Unit {0})
assert_approved hostname_of action url params =
    if is_required (requires_approval action url params)
    then err (human_approval_required action (or_default (hostname_of url) url))
    else ok tt
