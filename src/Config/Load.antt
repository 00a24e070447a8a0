-- ===== src/Config/Load.antt =====
-- src/config.ts, from `validate` to `loadConfig`.
--
-- The defaults' `selectorPack` is one object that every configuration without a pack of its own
-- shares, and that is frozen with the first such configuration.
use safari_pilot.Prelude.{
  Bool, List, Option, String, none, ◌∷◌, if◌then◌else◌, some, not, ◌&&◌, true, is_some, [], ◌==◌,
  false, ◌||◌, string_eq,
}
use safari_pilot.Extension.TabMatch.{starts_with, drop_chars}
use safari_pilot.Config.{
  Json, Items, nil, cons, null, bool, num, str, arr, obj, positive, infinite, not_positive, Fields,
  Number, deep_merge, put, lookup, end, default_config,
}

-- `x === true`
abbrev pub is_true : Option Json → Bool
is_true (some (bool b)) = b
is_true v = false

-- What is asserted of the value at a path.
pub data Kind : Type 0 where
  section positive_number boolean string_array non_empty_string : Kind

abbrev is_string : Json → Bool
is_string (str s) = true
is_string v = false

abbrev pub all_strings : Items → Bool
all_strings nil = true
all_strings (cons v vs) = is_string v && all_strings vs

unfoldable pub is_kind : Kind → Option Json → Bool
is_kind section (some (obj fs)) = true
is_kind positive_number (some (num (positive digits))) = true
is_kind boolean (some (bool b)) = true
is_kind string_array (some (arr vs)) = all_strings vs
is_kind non_empty_string (some (str s)) = not (s == "")
is_kind kind v = false

-- A path: a key, or a key of a section.
pub record At : Type 0 where
  pub part : Option String
  pub key : String

abbrev pub field_of : String → Option Json → Option Json
field_of k (some (obj fs)) = lookup k fs
field_of k v = none

abbrev pub value_at : At → Fields → Option Json
value_at at config = elim at.part [
  | none ↦ lookup at.key config
  | some part ↦ field_of at.key (lookup part config)
]

abbrev pub whole : String → At
whole k = record { part = none; key = k }

abbrev pub inside : String → String → At
inside part k = record { part = some part; key = k }

-- The assertions of `validate`, in order, between the version and the screenshot policy.
abbrev pub section_checks : List (At × Kind)
section_checks =
    (whole "rateLimit", section)
    ∷ (inside "rateLimit" "maxActionsPerMinute", positive_number)
    ∷ (inside "rateLimit" "windowMs", positive_number)
    ∷ (whole "circuitBreaker", section)
    ∷ (inside "circuitBreaker" "errorThreshold", positive_number)
    ∷ (inside "circuitBreaker" "windowMs", positive_number)
    ∷ (inside "circuitBreaker" "cooldownMs", positive_number)
    ∷ (whole "domainPolicy", section)
    ∷ (inside "domainPolicy" "defaultMaxActionsPerMinute", positive_number)
    ∷ (inside "domainPolicy" "blocked", string_array)
    ∷ (inside "domainPolicy" "trusted", string_array)
    ∷ (whole "killSwitch", section)
    ∷ (inside "killSwitch" "autoActivation", boolean)
    ∷ (inside "killSwitch" "maxErrors", positive_number)
    ∷ (inside "killSwitch" "windowSeconds", positive_number)
    ∷ (whole "audit", section)
    ∷ (inside "audit" "maxEntries", positive_number)
    ∷ (inside "audit" "logPath", non_empty_string)
    ∷ (whole "daemon", section)
    ∷ (inside "daemon" "timeoutMs", positive_number)
    ∷ (whole "healthCheck", section)
    ∷ (inside "healthCheck" "timeoutMs", positive_number)
    ∷ (whole "extension", section)
    ∷ (inside "extension" "enabled", boolean)
    ∷ (inside "extension" "killSwitchVersion", non_empty_string)
    ∷ []

-- The first path whose assertion throws.
unfoldable pub first_failure : List (At × Kind) → Fields → Option At
first_failure [] config = none
first_failure ((at, kind) ∷ checks) config =
    let rest = first_failure checks config in
    if is_kind kind (value_at at config) then rest else some at

abbrev is_version : Option Json → Bool
is_version (some (str s)) = s == "1.0"
is_version v = false

-- An assertion that is made only where there is a value.
abbrev pub optional_failure : At → Kind → Fields → Option At
optional_failure at kind config = elim (value_at at config) [
  | none ↦ none
  | some v ↦ if is_kind kind (some v) then none else some at
]

abbrev pub or_else : Option At → Option At → Option At
or_else none next = next
or_else (some at) next = some at

unfoldable pub validate : Fields → Option At
validate config =
    if not (is_version (lookup "schemaVersion" config))
    then some (whole "schemaVersion")
    else or_else (first_failure section_checks config) (
        or_else (optional_failure (inside "screenshotPolicy" "blockedPatterns") string_array config)
          (first_failure ((whole "legacyMainWorld", boolean) ∷ []) config))

-- `join` of Node joins the home directory and what follows the tilde.
unfoldable pub resolve_tilde : (String → String) → String → String
resolve_tilde in_home path =
    if starts_with "~/" path || path == "~" then in_home (drop_chars 1 path) else path

abbrev pub resolved_path : (String → String) → Option Json → Option Json → Option Json
resolved_path in_home (some (obj audit)) (some (str path)) =
    some (obj (put "logPath" (str (resolve_tilde in_home path)) audit))
resolved_path in_home audit path = audit

abbrev pub put_some : String → Option Json → Fields → Fields
put_some k none fs = fs
put_some k (some v) fs = put k v fs

unfoldable pub resolve_config_paths : (String → String) → Fields → Fields
resolve_config_paths in_home config =
    let audit = lookup "audit" config in
    put_some "audit" (resolved_path in_home audit (field_of "logPath" audit)) config

pub data File : Type 0 where
  unreadable : File
  invalid_json : File
  parsed : Json → File

pub data Loaded : Type 0 where
  loaded : Fields → Loaded
  invalid_file : Loaded
  invalid : At → Loaded
  type_error : Loaded

-- What becomes of `sp['enabled'] = …`: an assignment to a frozen object, or to a text, a number or
-- a Boolean, throws.
pub data Pack : Type 0 where
  set_to : Fields → Pack
  cannot_set : Pack

abbrev pub is_truthy_number : Number → Bool
is_truthy_number (positive digits) = true
is_truthy_number infinite = true
is_truthy_number (not_positive digits) = not (digits == "0")

abbrev pub refuse_if : Bool → Fields → Pack
refuse_if refuses config = if refuses then cannot_set else set_to config

-- The pack is the one of the defaults when the file has none; `is_frozen` tells whether that one
-- is frozen.
unfoldable pub set_enabled : Bool → Option Json → Fields → Pack
set_enabled is_frozen (some (obj pack)) config =
    if is_frozen
    then cannot_set
    else set_to (
        put "selectorPack" (obj (put "enabled" (bool (is_true (lookup "enabled" pack))) pack))
          config)
set_enabled is_frozen (some (arr vs)) config = set_to config
set_enabled is_frozen (some (bool b)) config = refuse_if b config
set_enabled is_frozen (some (str s)) config = refuse_if (not (s == "")) config
set_enabled is_frozen (some (num n)) config = refuse_if (is_truthy_number n) config
set_enabled is_frozen (some null) config = set_to config
set_enabled is_frozen none config = set_to config

abbrev pub strict_legacy : Fields → Fields
strict_legacy config =
    put "legacyMainWorld" (bool (is_true (lookup "legacyMainWorld" config))) config

unfoldable pub finish : (String → String) → Fields → Loaded
finish in_home config = elim (validate config) [
  | none ↦ loaded (resolve_config_paths in_home config)
  | some at ↦ invalid at
]

abbrev pub user_config : File → Option Fields
user_config unreadable = some end
user_config (parsed (obj fs)) = some fs
user_config file = none

abbrev pub is_shared : Fields → Bool
is_shared user = not (is_some (lookup "selectorPack" user))

abbrev pub merged_with : Fields → Fields
merged_with user = deep_merge default_config default_config user

abbrev pub finish_pack : (String → String) → Pack → Loaded
finish_pack in_home cannot_set = type_error
finish_pack in_home (set_to config) = finish in_home (strict_legacy config)

unfoldable pub load_user : (String → String) → Fields → Bool → Loaded
load_user in_home user is_frozen =
    let merged = merged_with user in
    finish_pack in_home
      (set_enabled (is_shared user && is_frozen) (lookup "selectorPack" merged) merged)

abbrev pub is_loaded : Loaded → Bool
is_loaded (loaded config) = true
is_loaded outcome = false

-- With the defaults' pack frozen or not, before and after: a configuration that is returned is
-- frozen with all it holds.
unfoldable pub load_config : (String → String) → File → Bool → Loaded × Bool
load_config in_home file is_frozen = elim (user_config file) [
  | none ↦ (invalid_file, is_frozen)
  | some user ↦
      (let outcome = load_user in_home user is_frozen in
        (outcome, is_frozen || is_shared user && is_loaded outcome))
]
