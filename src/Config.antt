-- ===== src/Config.antt =====
-- src/config.ts: the configuration, from a file and the defaults.
--
-- The file is what `readFileSync` and `JSON.parse` give. An object holds its own fields, in order;
-- `in` also finds the methods that every object inherits. The home directory is a parameter. A number is known by what `assertPositiveNumber` asks of it.
pub mod Load
pub mod Keys
pub mod Kinds
pub mod Asserted
pub mod Typed
pub mod Frozen
mod Tests
use safari_pilot.Extension.TabMatch.{starts_with, drop_chars}
use safari_pilot.Prelude.{
  refl, Option, String, Bool, none, some, if◌then◌else◌, ◌==◌, string_eq, ◌&&◌, List, ◌∷◌, true,
  ◌||◌, false, not, [], is_some, any,
}

pub data Number : Type 0 where
  positive : String → Number
  infinite : Number
  not_positive : String → Number

mutual
  pub data Json : Type 0 where
    null : Json
    bool : Bool → Json
    num : Number → Json
    str : String → Json
    arr : Items → Json
    obj : Fields → Json

  pub data Items : Type 0 where
    nil : Items
    cons : Json → Items → Items

  pub data Fields : Type 0 where
    end : Fields
    field : String → Json → Fields → Fields

unfoldable pub lookup : String → Fields → Option Json
lookup k end = none
lookup k (field j v fs) = let rest = lookup k fs in if j == k then some v else rest

-- `result[key] = v`
unfoldable pub put : String → Json → Fields → Fields
put k v end = field k v end
put k v (field j w fs) = let rest = put k v fs in if j == k then field j v fs else field j w rest

-- The methods that every object inherits: `key in base` is true of them.
abbrev pub object_methods : List String
object_methods =
    "constructor" ∷ "toString" ∷ "toLocaleString" ∷ "valueOf" ∷ "hasOwnProperty" ∷ "isPrototypeOf"
    ∷ "propertyIsEnumerable" ∷ "__defineGetter__" ∷ "__defineSetter__" ∷ "__lookupGetter__"
    ∷ "__lookupSetter__" ∷ []

abbrev pub is_inherited : String → Bool
is_inherited k = any (λ m. m == k) object_methods

-- A key that is not in the base is left out. A method that the base inherits is no plain object, so
-- that the value is assigned. (`__proto__` is in the base too, but assigning to it changes the
-- prototype of the result and none of its fields.)
abbrev pub merge_field : String → Option Json → Json → Fields → Fields
merge_field k none v result = if is_inherited k then put k v result else result
merge_field k (some old) v result = put k v result

unfoldable mutual
  -- The fields of the override, one after another, onto the result.
  pub deep_merge : Fields → Fields → Fields → Fields
  deep_merge base result end = result
  deep_merge base result (field k v rest) =
      deep_merge base (merge_field k (lookup k base) (merge_value (lookup k base) v) result) rest

  pub merge_value : Option Json → Json → Json
  merge_value (some (obj b)) (obj o) = obj (deep_merge b b o)
  merge_value old v = v

abbrev number : String → Json
number digits = num (positive digits)

abbrev object_of : List (String × Json) → Fields
object_of [] = end
object_of ((k, v) ∷ fs) = field k v (object_of fs)

abbrev default_selector_pack : Fields
default_selector_pack = object_of (("enabled", bool false) ∷ [])

abbrev pub default_config : Fields
default_config = object_of (
    ("schemaVersion", str "1.0")
    ∷ (
      "rateLimit",
      obj (object_of (("maxActionsPerMinute", number "120") ∷ ("windowMs", number "60000") ∷ [])),
    )
    ∷ (
      "circuitBreaker",
      obj (
          object_of (
            ("errorThreshold", number "5")
            ∷ ("windowMs", number "60000")
            ∷ ("cooldownMs", number "120000")
            ∷ [])),
    )
    ∷ (
      "domainPolicy",
      obj (
          object_of (
            ("defaultMaxActionsPerMinute", number "60")
            ∷ ("blocked", arr nil)
            ∷ ("trusted", arr nil)
            ∷ [])),
    )
    ∷ (
      "killSwitch",
      obj (
          object_of (
            ("autoActivation", bool false)
            ∷ ("maxErrors", number "5")
            ∷ ("windowSeconds", number "60")
            ∷ [])),
    )
    ∷ (
      "audit",
      obj (
          object_of
            (("maxEntries", number "10000") ∷ ("logPath", str "~/.safari-pilot/audit.log") ∷ [])),
    )
    ∷ ("daemon", obj (object_of (("timeoutMs", number "30000") ∷ [])))
    ∷ ("healthCheck", obj (object_of (("timeoutMs", number "3000") ∷ [])))
    ∷ (
      "extension",
      obj (object_of (("enabled", bool true) ∷ ("killSwitchVersion", str "0.1.5") ∷ [])),
    )
    ∷ ("selectorPack", obj default_selector_pack)
    ∷ ("legacyMainWorld", bool false)
    ∷ [])
