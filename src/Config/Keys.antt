-- ===== src/Config/Keys.antt =====
-- Which keys a loaded configuration has.
use safari_pilot.Config.Load.{
  load_config, merged_with, Pack, finish, put_some, load_user, set_enabled, refuse_if, set_to,
  resolve_config_paths, File, finish_pack, loaded, Loaded, At, strict_legacy, invalid_file,
  cannot_set, invalid, validate, is_shared, is_truthy_number, is_loaded, user_config,
}
use safari_pilot.Config.{
  deep_merge, lookup, Fields, put, Json, default_config, merge_field, field, merge_value, end, arr,
  bool, str, num, obj, null, is_inherited,
}
use safari_pilot.Prelude.{
  String, Bool, ◌≡◌, Option, is_some, if◌then◌else◌, true, Bool-cases, ◌==◌, some, none, arith, inl,
  ◌∙◌, eq_iff, refl, sym, string_eq, subst, inr, false, ◌||◌, not, ◌&&◌,
}

pub lookup-put :
    (k j : String) (v : Json) (fs : Fields)
    → lookup j (put k v fs) ≡ (if k == j then some v else lookup j fs)
unfolding lookup put
lookup-put k j v end = refl
lookup-put k j v (field i w fs) =
    ground (arith, eq_iff k j, eq_iff i k, eq_iff i j, lookup-put k j v fs)

abbrev pub has_key : String → Fields → Bool
has_key k fs = is_some (lookup k fs)

has_key-put :
    (k j : String) (v : Json) (fs : Fields)
    → has_key k fs ≡ true
    → has_key j (put k v fs) ≡ has_key j fs
has_key-put k j v fs h = elim (Bool-cases (k == j)) [
  | inl e ↦
      let name : k ≡ j = (eq_iff k j).0 e in
      rw (lookup-put k j v fs, e) (sym (subst (λ i. has_key i fs ≡ true) name h))
  | inr e ↦ rw (lookup-put k j v fs, e) refl
]

put-keeps :
    (k j : String) (v : Json) (fs : Fields) → has_key j fs ≡ true → has_key j (put k v fs) ≡ true
put-keeps k j v fs h = elim (Bool-cases (k == j)) [
  | inl e ↦ rw (lookup-put k j v fs, e) refl
  | inr e ↦ rw (lookup-put k j v fs, e) h
]

-- Every key of the base is one of the result.
abbrev Covers : Fields → Fields → Type 0
Covers base result = (k : String) → has_key k base ≡ true → has_key k result ≡ true

Covers-merge_field :
    (base result : Fields) (j : String) (o : Option Json) (v : Json)
    → Covers base result
    → Covers base (merge_field j o v result)
Covers-merge_field base result j none v covers k h = elim (Bool-cases (is_inherited j)) [
  | inl e ↦ rw e (put-keeps j k v result (covers k h))
  | inr e ↦ rw e (covers k h)
]
Covers-merge_field base result j (some old) v covers k h = put-keeps j k v result (covers k h)

has_key-merge_field :
    (base result : Fields) (j k : String) (o : Option Json) (v : Json)
    → lookup j base ≡ o
    → Covers base result
    → is_inherited k ≡ false
    → has_key k (merge_field j o v result) ≡ has_key k result
has_key-merge_field base result j k none v e covers own = elim (Bool-cases (is_inherited j)) [
  | inl method ↦ elim (Bool-cases (j == k)) [
    | inl same ↦
        absurd
          (ground (arith, subst (λ i. is_inherited i ≡ true) ((eq_iff j k).0 same) method, own))
    | inr other ↦ rw (method, lookup-put j k v result, other) refl
  ]
  | inr unknown ↦ rw unknown refl
]
has_key-merge_field base result j k (some old) v e covers own =
    has_key-put j k v result (covers j (rw e refl))

has_key-deep_merge :
    (base result over : Fields) (k : String)
    → Covers base result
    → is_inherited k ≡ false
    → has_key k (deep_merge base result over) ≡ has_key k result
unfolding deep_merge
has_key-deep_merge base result end k covers own = refl
has_key-deep_merge base result (field j v over) k covers own =
    let old = lookup j base in
    let next = merge_field j old (merge_value old v) result in
    has_key-deep_merge base next over k
      (Covers-merge_field base result j old (merge_value old v) covers) own
    ∙ has_key-merge_field base result j k old (merge_value old v) refl covers own

has_key-merged :
    (user : Fields) (k : String)
    → is_inherited k ≡ false
    → has_key k (merged_with user) ≡ has_key k default_config
has_key-merged user k own = has_key-deep_merge default_config default_config user k (λ i h. h) own

-- The configurations have the keys of the defaults, and perhaps those that objects inherit.
abbrev HasDefaultKeys : Fields → Type 0
HasDefaultKeys config =
    (k : String) → is_inherited k ≡ false → has_key k config ≡ has_key k default_config

put-HasDefaultKeys :
    (j : String) (v : Json) (config : Fields)
    → has_key j default_config ≡ true
    → is_inherited j ≡ false
    → HasDefaultKeys config
    → HasDefaultKeys (put j v config)
put-HasDefaultKeys j v config known method h k own =
    has_key-put j k v config (h j method ∙ known) ∙ h k own

refuse_if-HasDefaultKeys :
    (refuses : Bool) (config next : Fields)
    → refuse_if refuses config ≡ set_to next
    → HasDefaultKeys config
    → HasDefaultKeys next
refuse_if-HasDefaultKeys true config next e h = absurd (ground arith)
refuse_if-HasDefaultKeys false config next e h =
    let same : config ≡ next = ground (arith, e) in subst HasDefaultKeys same h

set_enabled-HasDefaultKeys :
    (is_frozen : Bool) (pack : Option Json) (config next : Fields)
    → set_enabled is_frozen pack config ≡ set_to next
    → HasDefaultKeys config
    → HasDefaultKeys next
unfolding set_enabled lookup
set_enabled-HasDefaultKeys is_frozen none config next e h =
    refuse_if-HasDefaultKeys false config next e h
set_enabled-HasDefaultKeys is_frozen (some null) config next e h =
    refuse_if-HasDefaultKeys false config next e h
set_enabled-HasDefaultKeys is_frozen (some (arr vs)) config next e h =
    refuse_if-HasDefaultKeys false config next e h
set_enabled-HasDefaultKeys is_frozen (some (bool b)) config next e h =
    refuse_if-HasDefaultKeys b config next e h
set_enabled-HasDefaultKeys is_frozen (some (str s)) config next e h =
    refuse_if-HasDefaultKeys (not (s == "")) config next e h
set_enabled-HasDefaultKeys is_frozen (some (num n)) config next e h =
    refuse_if-HasDefaultKeys (is_truthy_number n) config next e h
set_enabled-HasDefaultKeys is_frozen (some (obj pack)) config next e h =
    refuse_if-HasDefaultKeys is_frozen _ next e
      (put-HasDefaultKeys "selectorPack" _ config refl refl h)

put_some-HasDefaultKeys :
    (o : Option Json) (config : Fields)
    → HasDefaultKeys config
    → HasDefaultKeys (put_some "audit" o config)
unfolding lookup
put_some-HasDefaultKeys none config h = h
put_some-HasDefaultKeys (some v) config h = put-HasDefaultKeys "audit" v config refl refl h

finish-HasDefaultKeys :
    (in_home : String → String) (config next : Fields)
    → finish in_home config ≡ loaded next
    → HasDefaultKeys config
    → HasDefaultKeys next
unfolding finish resolve_config_paths
finish-HasDefaultKeys in_home config next e h = go (validate config) e
  where
    go :
        (o : Option At)
        → (elim o [ none ↦ loaded (resolve_config_paths in_home config) | some at ↦ invalid at ])
          ≡ loaded next
        → HasDefaultKeys next
    go (some at) f = absurd (ground arith)
    go none f =
        let same : resolve_config_paths in_home config ≡ next = ground (arith, f) in
        subst HasDefaultKeys same (put_some-HasDefaultKeys _ config h)

finish_pack-HasDefaultKeys :
    (in_home : String → String) (user next : Fields) (pack : Pack)
    → ((config : Fields) → pack ≡ set_to config → HasDefaultKeys config)
    → finish_pack in_home pack ≡ loaded next
    → HasDefaultKeys next
unfolding lookup
finish_pack-HasDefaultKeys in_home user next cannot_set h e = absurd (ground arith)
finish_pack-HasDefaultKeys in_home user next (set_to config) h e =
    finish-HasDefaultKeys in_home (strict_legacy config) next e
      (put-HasDefaultKeys "legacyMainWorld" _ config refl refl (h config refl))

load_config-HasDefaultKeys :
    (in_home : String → String) (file : File) (is_frozen : Bool) (config : Fields)
    → (load_config in_home file is_frozen).0 ≡ loaded config
    → HasDefaultKeys config
unfolding load_config load_user
load_config-HasDefaultKeys in_home file is_frozen config e = go (user_config file) e
  where
    go :
        (o : Option Fields)
        → (elim o as (λ x. Loaded × Bool) [
          | none ↦ (invalid_file, is_frozen)
          | some user ↦ (
            load_user in_home user is_frozen,
            is_frozen || is_shared user && is_loaded (load_user in_home user is_frozen),
          )
        ]).0
          ≡ loaded config
        → HasDefaultKeys config
    go none f = absurd (ground arith)
    go (some user) f =
        finish_pack-HasDefaultKeys in_home user config _
          (λ next g. set_enabled-HasDefaultKeys _ _ (merged_with user) next g (has_key-merged user))
          f

-- Whatever the file says, a configuration that is loaded has a key exactly if the defaults have it,
-- unless the key is the name of a method that every object inherits. So a key that the defaults
-- lack, as `screenshotPolicy`, is never loaded.
pub load_config-has_key :
    (in_home : String → String) (file : File) (is_frozen : Bool) (config : Fields) (key : String)
    → (load_config in_home file is_frozen).0 ≡ loaded config
    → is_inherited key ≡ false
    → has_key key config ≡ has_key key default_config
load_config-has_key in_home file is_frozen config key e own =
    load_config-HasDefaultKeys in_home file is_frozen config e key own
