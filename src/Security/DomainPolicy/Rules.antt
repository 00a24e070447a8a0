-- ===== src/Security/DomainPolicy/Rules.antt =====
-- Which rule a URL gets: src/security/domain-policy.ts, `evaluate` after the constructor.
use safari_pilot.Prelude.{
  List, ℕ, String, ◌≡◌, some, ◌∷◌, false, [], arith, string_eq, none, true, any, if◌then◌else◌,
  ◌==◌, eq_iff, Bool-cases, refl, inl, inr, All, Option, or_default, ◌∙◌, ap,
}
use safari_pilot.Security.DomainPolicy.{
  add_rules, first_match, PolicyRule, set_if_new, matches_domain, evaluate, sensitive_rules,
  sensitive_patterns, new, extract_hostname, sensitive_policy, DomainPolicy, untrusted,
  default_max_actions, plain_rule, trusted,
}
use safari_pilot.Prelude.Dict.{set, get, Dict, has}
use safari_pilot.Text.{codes}

first_match-set :
    (hostname : List ℕ) (domain : String) (rule : PolicyRule) (rules : Dict String PolicyRule)
    → (found : String × PolicyRule) → first_match hostname rules ≡ some found
    → has domain rules ≡ false
    → first_match hostname (set domain rule rules) ≡ some found
unfolding first_match set get
first_match-set hostname domain rule [] found e fresh = absurd (ground arith)
first_match-set hostname domain rule ((pattern, r) ∷ rest) found e fresh =
    ground (arith, first_match-set hostname domain rule rest found)

-- A rule that is added last, or not at all, does not come before a rule that matches.
first_match-set_if_new :
    (hostname : List ℕ) (domain : String) (rule : PolicyRule) (rules : Dict String PolicyRule)
    → (found : String × PolicyRule) → first_match hostname rules ≡ some found
    → first_match hostname (set_if_new domain rule rules) ≡ some found
first_match-set_if_new hostname domain rule rules found h =
    ground (arith, h, first_match-set hostname domain rule rules found)

first_match-add_rules :
    (hostname : List ℕ) (rule : PolicyRule) (domains : List String)
    → (rules : Dict String PolicyRule) (found : String × PolicyRule)
    → first_match hostname rules ≡ some found
    → first_match hostname (add_rules rule domains rules) ≡ some found
unfolding add_rules
first_match-add_rules hostname rule [] rules found h = h
first_match-add_rules hostname rule (domain ∷ domains) rules found h =
    first_match-add_rules hostname rule domains _ found
      (first_match-set_if_new hostname domain rule rules found h)

first_match-set-none :
    (hostname : List ℕ) (domain : String) (rule : PolicyRule) (rules : Dict String PolicyRule)
    → first_match hostname rules ≡ none
    → first_match hostname (set domain rule rules)
      ≡ (if matches_domain (codes domain) hostname then some (domain, rule) else none)
unfolding first_match set
first_match-set-none hostname domain rule [] e = refl
first_match-set-none hostname domain rule ((pattern, r) ∷ rest) e =
    ground (arith, first_match-set-none hostname domain rule rest, eq_iff pattern domain)

first_match-has :
    (hostname : List ℕ) (domain : String) (rules : Dict String PolicyRule)
    → first_match hostname rules ≡ none
    → has domain rules ≡ true
    → matches_domain (codes domain) hostname ≡ false
unfolding first_match get
first_match-has hostname domain [] e there = absurd (ground arith)
first_match-has hostname domain ((pattern, r) ∷ rest) e there =
    ground (arith, first_match-has hostname domain rest, eq_iff pattern domain)

first_match-set_if_new-none :
    (hostname : List ℕ) (domain : String) (rule : PolicyRule) (rules : Dict String PolicyRule)
    → first_match hostname rules ≡ none
    → first_match hostname (set_if_new domain rule rules)
      ≡ (if matches_domain (codes domain) hostname then some (domain, rule) else none)
first_match-set_if_new-none hostname domain rule rules e = ground (
  arith,
  e,
  first_match-set-none hostname domain rule rules e,
  first_match-has hostname domain rules e,
)

-- The first of the added domains that matches decides, when no rule before them does.
first_match-added :
    (hostname : List ℕ) (rule : PolicyRule) (domains : List String)
    → (rules : Dict String PolicyRule) → first_match hostname rules ≡ none
    → any (λ d. matches_domain (codes d) hostname) domains ≡ true
    → (d : String) × (first_match hostname (add_rules rule domains rules) ≡ some (d, rule))
      × (any (λ b. b == d) domains ≡ true)
unfolding add_rules
first_match-added hostname rule [] rules e h = absurd (ground arith)
first_match-added hostname rule (domain ∷ domains) rules e h =
    let added = first_match-set_if_new-none hostname domain rule rules e in
    elim (Bool-cases (matches_domain (codes domain) hostname)) [
      | inl here ↦ (
        domain,
        first_match-add_rules hostname rule domains _ (domain, rule) (ground (arith, added, here)),
        ground (arith, eq_iff domain domain),
      )
      | inr not_here ↦
          (let (d, found, listed) =
              first_match-added hostname rule domains (set_if_new domain rule rules)
                (ground (arith, added, not_here)) (ground (arith, h, not_here)) in
            (d, found, ground (arith, listed)))
    ]

-- The rules that the constructor begins with.
abbrev pub built_in : Dict String PolicyRule
unfolding sensitive_rules
built_in = sensitive_rules sensitive_patterns []

first_match-rule :
    (hostname : List ℕ) (rule : PolicyRule) (rules : Dict String PolicyRule)
    → (found : String × PolicyRule) → All (λ e. e.1 ≡ rule) rules
    → first_match hostname rules ≡ some found
    → found.1 ≡ rule
unfolding first_match
first_match-rule hostname rule [] found a h = absurd (ground arith)
first_match-rule hostname rule ((pattern, r) ∷ rest) found a h =
    ground (arith, a.0, h, first_match-rule hostname rule rest found a.1)

evaluate_lem :
    (hostname_of : String → Option String) (url : String) (p : DomainPolicy)
    → (found : String × PolicyRule)
    → first_match (extract_hostname hostname_of url) p.rules ≡ some found
    → ((evaluate hostname_of url p).rule ≡ found.1)
      × ((evaluate hostname_of url p).blocked ≡ any (λ b. b == found.0) p.blocked_patterns)
unfolding evaluate
evaluate_lem hostname_of url p found h = (ground (arith, h), ground (arith, h))

first_match-new :
    (blocked trusted_domains : List String) (max : Option ℕ) (host : List ℕ)
    → (found : String × PolicyRule) → first_match host built_in ≡ some found
    → first_match host (new blocked trusted_domains max).rules ≡ some found
unfolding new sensitive_rules set
first_match-new blocked trusted_domains max host found h =
    let max_actions = or_default max default_max_actions in
    first_match-add_rules host (plain_rule trusted max_actions) trusted_domains
      (add_rules (plain_rule untrusted max_actions) blocked built_in) found
      (first_match-add_rules host (plain_rule untrusted max_actions) blocked built_in found h)

abbrev AllSensitive : Dict String PolicyRule → Type 0
AllSensitive rules = All (λ e. e.1 ≡ sensitive_policy) rules

set-AllSensitive :
    (pattern : String) (rules : Dict String PolicyRule)
    → AllSensitive rules
    → AllSensitive (set pattern sensitive_policy rules)
unfolding set
set-AllSensitive pattern [] a = (refl, tt)
set-AllSensitive pattern ((p, r) ∷ rest) a = elim (Bool-cases (p == pattern)) [
  | inl same ↦ rw same (refl, a.1)
  | inr other ↦ rw other (a.0, set-AllSensitive pattern rest a.1)
]

sensitive_rules-AllSensitive :
    (patterns : List String) (rules : Dict String PolicyRule)
    → AllSensitive rules
    → AllSensitive (sensitive_rules patterns rules)
unfolding sensitive_rules
sensitive_rules-AllSensitive [] rules a = a
sensitive_rules-AllSensitive (pattern ∷ patterns) rules a =
    sensitive_rules-AllSensitive patterns (set pattern sensitive_policy rules)
      (set-AllSensitive pattern rules a)

built_in-AllSensitive : AllSensitive built_in
unfolding sensitive_rules
built_in-AllSensitive = sensitive_rules-AllSensitive sensitive_patterns [] tt

-- A host that matches a built-in sensitive pattern gets the sensitive policy, untrusted, in a
-- private window and with 30 actions a minute, whatever domains the configuration blocks or
-- trusts and whatever rate it sets. It counts as blocked only if the configuration blocks the
-- first such pattern itself: a blocked domain that is spelled in any other way is not.
pub sensitive_first :
    (blocked trusted_domains : List String) (max : Option ℕ)
    → (hostname_of : String → Option String) (url : String) (found : String × PolicyRule)
    → first_match (extract_hostname hostname_of url) built_in ≡ some found
    → ((evaluate hostname_of url (new blocked trusted_domains max)).rule ≡ sensitive_policy)
      × ((evaluate hostname_of url (new blocked trusted_domains max)).blocked
          ≡ any (λ b. b == found.0) blocked)
unfolding new
sensitive_first blocked trusted_domains max hostname_of url found h =
    let host = extract_hostname hostname_of url in
    let (rule, is_blocked) =
      evaluate_lem hostname_of url (new blocked trusted_domains max) found
        (first_match-new blocked trusted_domains max host found h) in
    (
      rule ∙ first_match-rule host sensitive_policy built_in found built_in-AllSensitive h,
      is_blocked,
    )

-- A host that matches no built-in sensitive pattern and matches a domain that the configuration
-- blocks is blocked and untrusted, also where the configuration
-- trusts it.
blocked_is_blocked :
    (blocked trusted_domains : List String) (max : Option ℕ)
    → (hostname_of : String → Option String) (url : String)
    → first_match (extract_hostname hostname_of url) built_in ≡ none
    → any (λ d. matches_domain (codes d) (extract_hostname hostname_of url)) blocked ≡ true
    → ((evaluate hostname_of url (new blocked trusted_domains max)).rule.trust ≡ untrusted)
      × ((evaluate hostname_of url (new blocked trusted_domains max)).blocked ≡ true)
unfolding new sensitive_rules set
blocked_is_blocked blocked trusted_domains max hostname_of url clear h =
    let host = extract_hostname hostname_of url in
    let max_actions = or_default max default_max_actions in
    let (d, found, listed) =
      first_match-added host (plain_rule untrusted max_actions) blocked built_in clear h in
    let kept =
      first_match-add_rules host (plain_rule trusted max_actions) trusted_domains
        (add_rules (plain_rule untrusted max_actions) blocked built_in)
        (d, plain_rule untrusted max_actions) found in
    let (rule, is_blocked) =
      evaluate_lem hostname_of url (new blocked trusted_domains max)
        (d, plain_rule untrusted max_actions) kept in
    (ap (λ r. r.trust) rule, is_blocked ∙ listed)
