-- ===== src/Config/Tests.antt =====
-- A file that sets a screenshot policy and one value, and a file that is missing.
use safari_pilot.Config.Load.{
  load_config, parsed, field_of, unreadable, load_user, Loaded, is_shared, set_enabled, loaded,
  type_error, finish, validate, first_failure, is_kind, resolve_config_paths, resolve_tilde,
}
use safari_pilot.Config.Keys.{load_config-has_key, has_key}
use safari_pilot.Config.Frozen.{load_config-second}
use safari_pilot.Prelude.{String, false, ◌≡◌, true, refl, none, some, string_eq}
use safari_pilot.Config.{
  lookup, obj, Fields, deep_merge, end, field, arr, put, nil, num, positive, default_config, bool,
}

abbrev in_home : String → String
in_home path = "/home/a/audit.log"

abbrev user : Fields
user =
    field "screenshotPolicy" (obj (field "blockedPatterns" (arr nil) end))
      (field "daemon" (obj (field "timeoutMs" (num (positive "500")) end)) end)

abbrev as_loaded : Loaded → Fields
as_loaded (loaded config) = config
as_loaded outcome = end

abbrev config : Fields
config = as_loaded (load_config in_home (parsed (obj user)) false).0

loads : (load_config in_home (parsed (obj user)) false).0 ≡ loaded config
unfolding load_config load_user set_enabled lookup deep_merge put finish validate first_failure
    is_kind resolve_config_paths resolve_tilde
loads = refl

timeout_taken : field_of "timeoutMs" (lookup "daemon" config) ≡ some (num (positive "500"))
unfolding load_config load_user set_enabled lookup deep_merge put finish validate first_failure
    is_kind resolve_config_paths resolve_tilde
timeout_taken = refl

load_config-has_key_example :
    has_key "screenshotPolicy" config ≡ has_key "screenshotPolicy" default_config
load_config-has_key_example =
    load_config-has_key in_home (parsed (obj user)) false config "screenshotPolicy" loads refl

-- A key that every object inherits is taken, although the defaults lack it.
method_taken :
    lookup "toString"
      (as_loaded (load_config in_home (parsed (obj (field "toString" (bool true) end))) false).0)
    ≡ some (bool true)
unfolding load_config load_user set_enabled lookup deep_merge put finish validate first_failure
    is_kind resolve_config_paths resolve_tilde
method_taken = refl

policy_dropped : lookup "screenshotPolicy" config ≡ none
unfolding load_config load_user set_enabled lookup deep_merge put finish validate first_failure
    is_kind resolve_config_paths resolve_tilde
policy_dropped = refl

shared : is_shared user ≡ true
unfolding lookup
shared = refl

shared_end : is_shared end ≡ true
unfolding lookup
shared_end = refl

load_config-second_example :
    (load_config in_home unreadable (load_config in_home (parsed (obj user)) false).1).0
    ≡ type_error
load_config-second_example =
    load_config-second in_home (parsed (obj user)) unreadable user end false config refl shared
      loads refl shared_end
