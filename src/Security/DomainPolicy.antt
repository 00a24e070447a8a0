-- ===== src/Security/DomainPolicy.antt =====
-- src/security/domain-policy.ts: trust rules per domain pattern. `new URL(url).hostname` is the
-- parameter `hostname_of`, `none` where the constructor throws. A pattern holds no `?`, the one
-- operator of regular expressions that `globToRegex` does not escape.
pub mod Rules
mod Tests
use safari_pilot.Regex.{Regex, Atom, whole, to_lower, test, one, star, same_letter}
use safari_pilot.Prelude.{
  Bool, List, Option, String, false, true, ℕ, if◌then◌else◌, none, ◌∷◌, not, or_default, map, any,
  [], some, string_eq, ◌==◌, ◌&&◌, nat_eq,
}
use safari_pilot.Prelude.Dict.{Dict, delete, get, has, set}
use safari_pilot.Text.{codes}

pub data TrustLevel : Type 0 where
  trusted untrusted unknown : TrustLevel

pub record PolicyRule : Type 0 where
  pub trust : TrustLevel
  pub private_window : Bool
  pub max_actions_per_minute : ℕ

pub record EvaluateResult : Type 0 where
  pub rule : PolicyRule
  pub blocked : Bool

abbrev pub default_max_actions : ℕ
default_max_actions = 60

abbrev pub base_default_policy : PolicyRule
base_default_policy = record {
  trust = unknown;
  private_window = false;
  max_actions_per_minute = default_max_actions;
}

abbrev pub sensitive_patterns : List String
sensitive_patterns =
    "*.bank.*" ∷ "*.banking.*" ∷ "paypal.com" ∷ "*.paypal.com" ∷ "stripe.com" ∷ "*.stripe.com"
    ∷ "venmo.com" ∷ "*.venmo.com" ∷ "chase.com" ∷ "*.chase.com" ∷ "wellsfargo.com"
    ∷ "*.wellsfargo.com" ∷ "bankofamerica.com" ∷ "*.bankofamerica.com" ∷ "citibank.com"
    ∷ "*.citibank.com" ∷ []

abbrev pub sensitive_policy : PolicyRule
sensitive_policy = record { trust = untrusted; private_window = true; max_actions_per_minute = 30 }

-- `[^.]`
abbrev pub not_dot : ℕ → Bool
not_dot c = not (c == b'.')

-- `*` becomes `[^.]+`, and any other character stands for itself.
unfoldable pub glob_atoms : List ℕ → List Atom
glob_atoms [] = []
glob_atoms (c ∷ cs) =
    let rest = glob_atoms cs in
    if c == b'*' then one not_dot ∷ star not_dot ∷ rest else one (same_letter c) ∷ rest

unfoldable pub glob_to_regex : List ℕ → Regex
glob_to_regex pattern = whole (glob_atoms pattern)

unfoldable pub equal_codes : List ℕ → List ℕ → Bool
equal_codes [] [] = true
equal_codes (x ∷ xs) (y ∷ ys) = x == y && equal_codes xs ys
equal_codes _ _ = false

unfoldable pub matches_domain : List ℕ → List ℕ → Bool
unfolding glob_to_regex glob_atoms equal_codes
matches_domain pattern hostname =
    if any (λ c. c == b'*') pattern
    then test (glob_to_regex pattern) hostname
    else equal_codes (map to_lower pattern) hostname

unfoldable pub extract_hostname : (String → Option String) → String → List ℕ
extract_hostname hostname_of url = map to_lower (codes (or_default (hostname_of url) url))

pub record DomainPolicy : Type 0 where
  pub rules : Dict String PolicyRule
  pub default_policy : PolicyRule
  pub blocked_patterns : List String

abbrev pub set_if_new : String → PolicyRule → Dict String PolicyRule → Dict String PolicyRule
set_if_new domain rule rules = if has domain rules then rules else set domain rule rules

unfoldable pub add_rules :
    PolicyRule → List String → Dict String PolicyRule → Dict String PolicyRule
add_rules rule [] rules = rules
add_rules rule (domain ∷ domains) rules = add_rules rule domains (set_if_new domain rule rules)

unfoldable pub sensitive_rules : List String → Dict String PolicyRule → Dict String PolicyRule
sensitive_rules [] rules = rules
sensitive_rules (pattern ∷ patterns) rules =
    sensitive_rules patterns (set pattern sensitive_policy rules)

abbrev plain_rule : TrustLevel → ℕ → PolicyRule
plain_rule trust max_actions = record {
  trust = trust;
  private_window = false;
  max_actions_per_minute = max_actions;
}

-- The sensitive patterns first, then the blocked and the trusted domains of the configuration,
-- none of which replaces a rule that is there.
unfoldable pub new : List String → List String → Option ℕ → DomainPolicy
new blocked trusted_domains default_max =
    let max_actions = or_default default_max default_max_actions in
    record {
      rules = add_rules (plain_rule trusted max_actions) trusted_domains (
          add_rules (plain_rule untrusted max_actions) blocked
            (sensitive_rules sensitive_patterns []));
      default_policy = record base_default_policy { max_actions_per_minute = max_actions };
      blocked_patterns = blocked;
    }

-- `Partial<PolicyRule>`
pub record PartialRule : Type 0 where
  pub trust : Option TrustLevel
  pub private_window : Option Bool
  pub max_actions_per_minute : Option ℕ

unfoldable pub add_rule : String → PartialRule → DomainPolicy → DomainPolicy
add_rule domain policy p =
    let existing = or_default (get domain p.rules) p.default_policy in
    record p {
      rules =
          set domain
            (record {
              trust = or_default policy.trust existing.trust;
              private_window = or_default policy.private_window existing.private_window;
              max_actions_per_minute =
                  or_default policy.max_actions_per_minute existing.max_actions_per_minute;
            })
            p.rules;
    }

unfoldable pub remove_rule : String → DomainPolicy → DomainPolicy
remove_rule domain p = record p { rules = delete domain p.rules }

-- The loop over the rules in insertion order: the first pattern that matches, with its rule.
unfoldable pub first_match : List ℕ → Dict String PolicyRule → Option (String × PolicyRule)
first_match hostname [] = none
first_match hostname ((pattern, rule) ∷ rules) =
    let later = first_match hostname rules in
    if matches_domain (codes pattern) hostname then some (pattern, rule) else later

unfoldable pub evaluate : (String → Option String) → String → DomainPolicy → EvaluateResult
evaluate hostname_of url p = elim (first_match (extract_hostname hostname_of url) p.rules) [
  | none ↦ record { rule = p.default_policy; blocked = false }
  | some (pattern, rule) ↦ record {
    rule = rule;
    blocked = any (λ b. b == pattern) p.blocked_patterns;
  }
]
