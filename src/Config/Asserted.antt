-- ===== src/Config/Asserted.antt =====
-- What the assertions give, after the paths of the configuration are resolved.
use safari_pilot.Prelude.{
  inr, inl, refl, Option, String, ◌≡◌, ◌∷◌, some, ◌==◌, none, false, true, [], arith, string_eq,
  Bool-cases, inl, subst, inr, ◌||◌, Bool, ◌⊎◌, if◌then◌else◌, ◌&&◌, List,
}
use safari_pilot.Config.Load.{
  load_config, first_failure, At, is_kind, field_of, boolean, string_array, non_empty_string,
  validate, or_else, finish, resolve_config_paths, loaded, section_checks, invalid, load_user,
  optional_failure, Pack, File, finish_pack, inside, set_to, whole, strict_legacy, Loaded,
  invalid_file, cannot_set, is_shared, is_loaded, user_config, Kind,
}
use safari_pilot.Config.{Fields, lookup}
use safari_pilot.Config.Kinds.{
  IsTyped, first_failure-IsTyped, IsTyped-KeepsKinds, resolve-KeepsKinds,
}

abbrev legacy_checks : List (At × Kind)
legacy_checks = (whole "legacyMainWorld", boolean) ∷ []

-- What the assertions of the code have found, the one on `legacyMainWorld` included.
abbrev pub IsAsserted : Fields → Type 0
IsAsserted config = IsTyped section_checks config × IsTyped legacy_checks config

or_else-both : (o next : Option At) → or_else o next ≡ none → (o ≡ none) × (next ≡ none)
or_else-both none next e = (refl, e)
or_else-both (some at) next e = absurd (ground arith)

validate-IsAsserted : (config : Fields) → validate config ≡ none → IsAsserted config
unfolding validate
validate-IsAsserted config e =
    let (sections, later) =
      or_else-both (first_failure section_checks config) _ (versioned (Bool-cases _) e) in
    (
      first_failure-IsTyped section_checks config sections,
      first_failure-IsTyped legacy_checks config
          (or_else-both
            (optional_failure (inside "screenshotPolicy" "blockedPatterns") string_array config) _
            later).1,
    )
  where
    rest : Option At
    rest = or_else (first_failure section_checks config) (
        or_else (optional_failure (inside "screenshotPolicy" "blockedPatterns") string_array config)
          (first_failure legacy_checks config))

    versioned :
        {b : Bool}
        → ((b ≡ true) ⊎ (b ≡ false))
        → (if b then some (whole "schemaVersion") else rest) ≡ none
        → rest ≡ none
    versioned (inl t) e = absurd (ground (arith, t, e))
    versioned (inr f) e = ground (arith, f, e)

-- The assertion on the path of the log is the eighteenth.
log_path_checked :
    (config : Fields)
    → IsTyped section_checks config
    → is_kind non_empty_string (field_of "logPath" (lookup "audit" config)) ≡ true
log_path_checked config h = h.1.1.1.1.1.1.1.1.1.1.1.1.1.1.1.1.1.0

finish-IsAsserted :
    (in_home : String → String) (config next : Fields)
    → ((p : String) → (in_home p == "") ≡ false)
    → finish in_home config ≡ loaded next
    → IsAsserted next
unfolding finish
finish-IsAsserted in_home config next home e = go (validate config) refl e
  where
    go :
        (o : Option At)
        → validate config ≡ o
        → (elim o [ none ↦ loaded (resolve_config_paths in_home config) | some at ↦ invalid at ])
          ≡ loaded next
        → IsAsserted next
    go (some at) v f = absurd (ground arith)
    go none v f =
        let (typed, legacy) = validate-IsAsserted config v in
        let kept = resolve-KeepsKinds in_home config home (log_path_checked config typed) in
        let resolved = resolve_config_paths in_home config in
        let same : resolved ≡ next = ground (arith, f) in
        subst IsAsserted same (
          IsTyped-KeepsKinds section_checks config resolved kept typed,
          IsTyped-KeepsKinds legacy_checks config resolved kept legacy,
        )

finish_pack-IsAsserted :
    (in_home : String → String) (pack : Pack) (next : Fields)
    → ((p : String) → (in_home p == "") ≡ false)
    → finish_pack in_home pack ≡ loaded next
    → IsAsserted next
finish_pack-IsAsserted in_home cannot_set next home e = absurd (ground arith)
finish_pack-IsAsserted in_home (set_to config) next home e =
    finish-IsAsserted in_home (strict_legacy config) next home e

pub load_config-IsAsserted :
    (in_home : String → String) (file : File) (is_frozen : Bool) (config : Fields)
    → ((p : String) → (in_home p == "") ≡ false)
    → (load_config in_home file is_frozen).0 ≡ loaded config
    → IsAsserted config
unfolding load_config load_user
load_config-IsAsserted in_home file is_frozen config home e = go (user_config file) e
  where
    go :
        (o : Option Fields)
        → (elim o as (λ x. Loaded × Bool) [
          | none ↦ (invalid_file, is_frozen)
          | some user ↦ (
            load_user in_home user is_frozen,
            is_frozen || is_shared user && is_loaded (load_user in_home user is_frozen),
          )
        ]).0
          ≡ loaded config
        → IsAsserted config
    go none f = absurd (ground arith)
    go (some user) f = finish_pack-IsAsserted in_home _ config home f
