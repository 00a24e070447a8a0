-- ===== src/Config/Frozen.antt =====
-- What the first configuration does to the second.
use safari_pilot.Prelude.{
  refl, String, Option, Bool, ◌≡◌, ◌==◌, none, true, not, false, some, is_some, Bool-cases,
  string_eq, inl, arith, inr, ◌∙◌, ◌||◌, sym, ap, ◌&&◌, subst,
}
use safari_pilot.Config.Keys.{lookup-put}
use safari_pilot.Config.Load.{
  load_config, load_user, File, set_enabled, is_shared, user_config, type_error, loaded, Loaded,
  is_loaded, invalid, invalid_file,
}
use safari_pilot.Config.{
  deep_merge, Fields, lookup, Json, field, merge_field, default_config, merge_value, end,
  is_inherited,
}

lookup-merge_field :
    (j k : String) (o : Option Json) (v : Json) (fs : Fields)
    → (j == k) ≡ false
    → lookup k (merge_field j o v fs) ≡ lookup k fs
lookup-merge_field j k none v fs h = elim (Bool-cases (is_inherited j)) [
  | inl e ↦ rw (e, lookup-put j k v fs, h) refl
  | inr e ↦ rw e refl
]
lookup-merge_field j k (some old) v fs h = rw (lookup-put j k v fs, h) refl

-- A key that the override does not have keeps its value.
lookup-deep_merge :
    (base result over : Fields) (k : String)
    → lookup k over ≡ none
    → lookup k (deep_merge base result over) ≡ lookup k result
unfolding deep_merge lookup
lookup-deep_merge base result end k h = refl
lookup-deep_merge base result (field j v over) k h = elim (Bool-cases (j == k)) [
  | inl e ↦ absurd (ground (arith, h, e))
  | inr e ↦
      lookup-deep_merge base (merge_field j (lookup j base) (merge_value (lookup j base) v) result)
        over k (ground (arith, h, e))
      ∙ lookup-merge_field j k (lookup j base) (merge_value (lookup j base) v) result e
]

shared-none : (user : Fields) → is_shared user ≡ true → lookup "selectorPack" user ≡ none
shared-none user h = go (lookup "selectorPack" user) h
  where
    go : (o : Option Json) → not (is_some o) ≡ true → o ≡ none
    go none e = refl
    go (some v) e = absurd (ground arith)

load_user-frozen :
    (in_home : String → String) (user : Fields)
    → is_shared user ≡ true
    → load_user in_home user true ≡ type_error
unfolding load_user set_enabled lookup
load_user-frozen in_home user shared =
    rw
      (
        shared,
        lookup-deep_merge default_config default_config user "selectorPack"
            (shared-none user shared),
      )
      refl

load_config-user :
    (in_home : String → String) (file : File) (user : Fields) (is_frozen : Bool)
    → user_config file ≡ some user
    → load_config in_home file is_frozen ≡ (
      load_user in_home user is_frozen,
      is_frozen || is_shared user && is_loaded (load_user in_home user is_frozen),
    )
unfolding load_config
load_config-user in_home file user is_frozen e =
    subst
      (λ o.
        (elim o as (λ x. Loaded × Bool) [
          | none ↦ (invalid_file, is_frozen)
          | some u ↦ (
            load_user in_home u is_frozen,
            is_frozen || is_shared u && is_loaded (load_user in_home u is_frozen),
          )
        ])
        ≡ (
          load_user in_home user is_frozen,
          is_frozen || is_shared user && is_loaded (load_user in_home user is_frozen),
        ))
      (sym e) refl

loaded-is_loaded : (o : Loaded) (config : Fields) → o ≡ loaded config → is_loaded o ≡ true
loaded-is_loaded (loaded c) config e = refl
loaded-is_loaded invalid_file config e = absurd (ground arith)
loaded-is_loaded (invalid at) config e = absurd (ground arith)
loaded-is_loaded type_error config e = absurd (ground arith)

now_frozen : (a b c : Bool) → b ≡ true → c ≡ true → (a || b && c) ≡ true
now_frozen a b c h k = ground (arith, h, k)

-- When a configuration was loaded from a file without a selector pack, loading from any file
-- without one, the same file included, ends in a type error.
pub load_config-second :
    (in_home : String → String) (first second : File) (user other : Fields) (is_frozen : Bool)
    (config : Fields)
    → user_config first ≡ some user
    → is_shared user ≡ true
    → (load_config in_home first is_frozen).0 ≡ loaded config
    → user_config second ≡ some other
    → is_shared other ≡ true
    → (load_config in_home second (load_config in_home first is_frozen).1).0 ≡ type_error
load_config-second in_home first second user other is_frozen config e shared done f shared' =
    let load = load_user in_home user is_frozen in
    let first_load = load_config-user in_home first user is_frozen e in
    let loads : load ≡ loaded config = sym (ap (λ p. p.0) first_load) ∙ done in
    let frozen : (load_config in_home first is_frozen).1 ≡ true =
      ap (λ p. p.1) first_load
      ∙ now_frozen is_frozen (is_shared user) (is_loaded load) shared
          (loaded-is_loaded load config loads) in
    ap (λ p. p.0) (load_config-user in_home second other (load_config in_home first is_frozen).1 f)
    ∙ ap (load_user in_home other) frozen
    ∙ load_user-frozen in_home other shared'
