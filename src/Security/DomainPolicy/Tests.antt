-- ===== src/Security/DomainPolicy/Tests.antt =====
-- The policy at concrete hosts; the parser of URLs is replaced by the identity.
use safari_pilot.Prelude.{refl, some, ◌∷◌, [], none, ◌≡◌, any, ◌==◌, String, string_eq}
use safari_pilot.Security.DomainPolicy.{
  new, evaluate, sensitive_rules, first_match, extract_hostname, matches_domain, glob_to_regex,
  glob_atoms, sensitive_policy,
}
use safari_pilot.Security.DomainPolicy.Rules.{sensitive_first}
use safari_pilot.Prelude.Dict.{set}

sensitive_first_example :
    ((evaluate some "my.bank.com" (new ("my.bank.com" ∷ []) [] none)).rule ≡ sensitive_policy)
    × ((evaluate some "my.bank.com" (new ("my.bank.com" ∷ []) [] none)).blocked
        ≡ any {A = String} (λ b. b == "*.bank.*") ("my.bank.com" ∷ []))
unfolding sensitive_rules set first_match extract_hostname matches_domain glob_to_regex glob_atoms
    safari_pilot.Regex.test
sensitive_first_example =
    sensitive_first ("my.bank.com" ∷ []) [] none some "my.bank.com" ("*.bank.*", sensitive_policy)
      refl
