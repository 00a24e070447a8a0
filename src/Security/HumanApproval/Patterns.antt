-- ===== src/Security/HumanApproval/Patterns.antt =====
-- The pattern tables of src/security/human-approval.ts.
use mathlib.Core.List.{flat_map}
use safari_pilot.Regex.{Regex, Atom, opt, whole, containing, literal, prefix, test, star}
use safari_pilot.Prelude.{
  List, String, ℕ, false, ◌∷◌, Bool, any, [], not, ◌++◌, ◌==◌, true, ◌||◌, nat_eq,
}
use safari_pilot.Text.{join}

pub data Category : Type 0 where
  tool_action oauth financial download account_settings form_submission : Category

-- `[_-]?`
abbrev separator : Atom
separator = opt (λ c. c == b'_' || c == b'-')

abbrev spaced : String → String → List Atom
spaced a b = literal a ++ separator ∷ literal b

unfoldable pub oauth_url_patterns : List Regex
oauth_url_patterns =
    containing "accounts.google.com/o/oauth"
    ∷ containing "login.microsoftonline.com"
    ∷ containing "github.com/login/oauth"
    ∷ containing "auth0.com"
    ∷ containing "okta.com"
    ∷ containing "login.live.com"
    ∷ containing "appleid.apple.com"
    ∷ containing "facebook.com/dialog/oauth"
    ∷ []

unfoldable pub financial_url_patterns : List Regex
financial_url_patterns =
    containing "paypal.com/checkout"
    ∷ containing "paypal.com/pay"
    ∷ containing "stripe.com/pay"
    ∷ containing "checkout.stripe.com"
    ∷ containing "pay.amazon.com"
    ∷ containing "venmo.com/pay"
    ∷ []

unfoldable pub financial_field_names : List Regex
financial_field_names =
    whole (spaced "card" "number")
    ∷ whole (literal "cvv")
    ∷ whole (literal "cvc")
    ∷ whole (spaced "account" "number")
    ∷ whole (spaced "routing" "number")
    ∷ whole (spaced "bank" "account")
    ∷ whole (spaced "credit" "card")
    ∷ []

-- `.`: all but the line terminators.
abbrev dot : ℕ → Bool
dot c = not (c == 10 || c == 13 || c == 0x2028 || c == 0x2029)

-- `/\.ext(\?.*)?$/i`, one expression without the group and one with it.
abbrev extension : String → List Regex
extension ext =
    record { at_start = false; atoms = literal (join "." ext); at_end = true }
    ∷ record {
      at_start = false;
      atoms = literal (join "." (join ext "?")) ++ star dot ∷ [];
      at_end = true;
    }
    ∷ []

unfoldable pub download_extensions : List Regex
download_extensions = flat_map extension (
    "exe" ∷ "dmg" ∷ "pkg" ∷ "zip" ∷ "tar" ∷ "gz" ∷ "rar" ∷ "deb" ∷ "rpm" ∷ "msi" ∷ "app" ∷ "apk"
    ∷ [])

unfoldable pub account_settings_patterns : List Regex
account_settings_patterns =
    containing "/settings/security"
    ∷ containing "/account/delete"
    ∷ containing "/password/change"
    ∷ containing "/password/reset"
    ∷ record { at_start = false; atoms = spaced "/delete" "account"; at_end = false }
    ∷ containing "/security/two-factor"
    ∷ []

unfoldable pub sensitive_form_fields : List Regex
sensitive_form_fields =
    whole (literal "password")
    ∷ whole (literal "passwd")
    ∷ whole (literal "pass")
    ∷ whole (literal "ssn")
    ∷ prefix (spaced "social" "security")
    ∷ prefix (spaced "credit" "card")
    ∷ prefix (spaced "card" "number")
    ∷ whole (literal "cvv")
    ∷ whole (literal "cvc")
    ∷ []

unfoldable pub matches_any : List ℕ → List Regex → Bool
matches_any value patterns = any (λ p. test p value) patterns
