-- ===== src/Config/Kinds.antt =====
-- The kinds of the values, before and after the path of the log is resolved.
use safari_pilot.Prelude.{
  inr, inl, refl, List, Option, String, ◌≡◌, ◌∷◌, some, ◌==◌, none, false, true, [], ap, arith,
  string_eq, Bool-cases, inl, subst, sym, eq_iff, inr, ◌||◌,
}
use safari_pilot.Config.Keys.{lookup-put}
use safari_pilot.Config.Load.{
  first_failure, At, is_kind, field_of, Kind, value_at, section, positive_number, boolean,
  string_array, non_empty_string, resolve_tilde, resolve_config_paths, put_some, resolved_path,
}
use safari_pilot.Config.{Fields, Json, lookup, obj, str, put, bool, num, arr, null}
use safari_pilot.Extension.TabMatch.{starts_with, drop_chars}

abbrev pub IsTyped : List (At × Kind) → Fields → Type 0
IsTyped [] config = Unit
IsTyped ((at, kind) ∷ checks) config =
    (is_kind kind (value_at at config) ≡ true) × IsTyped checks config

pub first_failure-IsTyped :
    (checks : List (At × Kind)) (config : Fields)
    → first_failure checks config ≡ none
    → IsTyped checks config
unfolding first_failure
first_failure-IsTyped [] config e = tt
first_failure-IsTyped ((at, kind) ∷ checks) config e =
    (ground (arith, e), first_failure-IsTyped checks config (ground (arith, e)))

value_at-congr :
    (at : At) (c d : Fields)
    → ((k : String) → lookup k c ≡ lookup k d)
    → value_at at c ≡ value_at at d
value_at-congr at c d same = go at.part
  where
    go :
        (part : Option String)
        → (elim part [ none ↦ lookup at.key c | some p ↦ field_of at.key (lookup p c) ])
          ≡ (elim part [ none ↦ lookup at.key d | some p ↦ field_of at.key (lookup p d) ])
    go none = same at.key
    go (some p) = ap (field_of at.key) (same p)

-- A value of its kind may be replaced by the other.
abbrev Refines : Option Json → Option Json → Type 0
Refines o p = (kind : Kind) → is_kind kind o ≡ true → is_kind kind p ≡ true

section-Refines : (fs gs : Fields) → Refines (some (obj fs)) (some (obj gs))
unfolding is_kind
section-Refines fs gs section h = refl
section-Refines fs gs positive_number h = h
section-Refines fs gs boolean h = h
section-Refines fs gs string_array h = h
section-Refines fs gs non_empty_string h = h

text-Refines : (s t : String) → (t == "") ≡ false → Refines (some (str s)) (some (str t))
unfolding is_kind
text-Refines s t h section k = absurd (ground arith)
text-Refines s t h positive_number k = absurd (ground arith)
text-Refines s t h boolean k = absurd (ground arith)
text-Refines s t h string_array k = absurd (ground arith)
text-Refines s t h non_empty_string k = rw h refl

-- Every path of the second configuration has a value of the kinds of the first.
abbrev KeepsKinds : Fields → Fields → Type 0
KeepsKinds c d = (at : At) → Refines (value_at at c) (value_at at d)

pub IsTyped-KeepsKinds :
    (checks : List (At × Kind)) (c d : Fields)
    → KeepsKinds c d
    → IsTyped checks c
    → IsTyped checks d
IsTyped-KeepsKinds [] c d keeps h = tt
IsTyped-KeepsKinds ((at, kind) ∷ checks) c d keeps h =
    (keeps at kind h.0, IsTyped-KeepsKinds checks c d keeps h.1)

log_path-KeepsKinds :
    (config audit : Fields) (path resolved : String)
    → lookup "audit" config ≡ some (obj audit)
    → lookup "logPath" audit ≡ some (str path)
    → (resolved == "") ≡ false
    → KeepsKinds config (put "audit" (obj (put "logPath" (str resolved) audit)) config)
log_path-KeepsKinds config audit path resolved e f filled at = go at.part
  where
    after : Fields
    after = put "logPath" (str resolved) audit

    inner : (k : String) → Refines (lookup k audit) (lookup k after)
    inner k kind h = elim (Bool-cases ("logPath" == k)) [
      | inl here ↦
          rw (lookup-put "logPath" k (str resolved) audit, here)
            (text-Refines path resolved filled kind (
              subst (λ o. is_kind kind o ≡ true) f
                (subst (λ i. is_kind kind (lookup i audit) ≡ true)
                  (sym ((eq_iff "logPath" k).0 here)) h)))
      | inr there ↦ rw (lookup-put "logPath" k (str resolved) audit, there) h
    ]

    go :
        (part : Option String)
        → Refines
            (elim part [ none ↦ lookup at.key config | some p ↦ field_of at.key (lookup p config) ])
            (elim part [
              | none ↦ lookup at.key (put "audit" (obj after) config)
              | some p ↦ field_of at.key (lookup p (put "audit" (obj after) config))
            ])
    go none kind h = elim (Bool-cases ("audit" == at.key)) [
      | inl here ↦
          rw (lookup-put "audit" at.key (obj after) config, here)
            (section-Refines audit after kind (
              subst (λ o. is_kind kind o ≡ true) e
                (subst (λ i. is_kind kind (lookup i config) ≡ true)
                  (sym ((eq_iff "audit" at.key).0 here)) h)))
      | inr there ↦ rw (lookup-put "audit" at.key (obj after) config, there) h
    ]
    go (some p) kind h = elim (Bool-cases ("audit" == p)) [
      | inl here ↦
          rw (lookup-put "audit" p (obj after) config, here)
            (inner at.key kind (
              subst (λ o. is_kind kind (field_of at.key o) ≡ true) e
                (subst (λ i. is_kind kind (field_of at.key (lookup i config)) ≡ true)
                  (sym ((eq_iff "audit" p).0 here)) h)))
      | inr there ↦ rw (lookup-put "audit" p (obj after) config, there) h
    ]

same-KeepsKinds :
    (config : Fields) (v : Json)
    → lookup "audit" config ≡ some v
    → KeepsKinds config (put "audit" v config)
same-KeepsKinds config v e at kind h =
    subst (λ o. is_kind kind o ≡ true) (value_at-congr at config (put "audit" v config) same) h
  where
    same : (k : String) → lookup k config ≡ lookup k (put "audit" v config)
    same k = elim (Bool-cases ("audit" == k)) [
      | inl here ↦
          rw (lookup-put "audit" k v config, here)
            (subst (λ i. lookup i config ≡ some v) ((eq_iff "audit" k).0 here) e)
      | inr there ↦ rw (lookup-put "audit" k v config, there) refl
    ]

resolve_tilde-filled :
    (in_home : String → String) (path : String)
    → ((p : String) → (in_home p == "") ≡ false)
    → (path == "") ≡ false
    → (resolve_tilde in_home path == "") ≡ false
unfolding resolve_tilde
resolve_tilde-filled in_home path home filled =
    elim (Bool-cases (starts_with "~/" path || path == "~")) [
      | inl tilde ↦ rw tilde (home (drop_chars 1 path))
      | inr plain ↦ rw plain filled
    ]

pub resolve-KeepsKinds :
    (in_home : String → String) (config : Fields)
    → ((p : String) → (in_home p == "") ≡ false)
    → is_kind non_empty_string (field_of "logPath" (lookup "audit" config)) ≡ true
    → KeepsKinds config (resolve_config_paths in_home config)
unfolding resolve_config_paths is_kind
resolve-KeepsKinds in_home config home filled = go (lookup "audit" config) refl filled
  where
    inner :
        (audit : Fields) (o : Option Json)
        → lookup "audit" config ≡ some (obj audit)
        → lookup "logPath" audit ≡ o
        → is_kind non_empty_string o ≡ true
        → KeepsKinds config (put_some "audit" (resolved_path in_home (some (obj audit)) o) config)
    inner audit (some (str path)) e f k =
        log_path-KeepsKinds config audit path (resolve_tilde in_home path) e f
          (resolve_tilde-filled in_home path home (ground (arith, k)))
    inner audit none e f k = absurd (ground arith)
    inner audit (some null) e f k = absurd (ground arith)
    inner audit (some (bool b)) e f k = absurd (ground arith)
    inner audit (some (num n)) e f k = absurd (ground arith)
    inner audit (some (arr vs)) e f k = absurd (ground arith)
    inner audit (some (obj fs)) e f k = absurd (ground arith)

    go :
        (o : Option Json)
        → lookup "audit" config ≡ o
        → is_kind non_empty_string (field_of "logPath" o) ≡ true
        → KeepsKinds config
            (put_some "audit" (resolved_path in_home o (field_of "logPath" o)) config)
    go (some (obj audit)) e k = inner audit (lookup "logPath" audit) e refl k
    go none e k = absurd (ground arith)
    go (some null) e k = absurd (ground arith)
    go (some (bool b)) e k = absurd (ground arith)
    go (some (num n)) e k = absurd (ground arith)
    go (some (arr vs)) e k = absurd (ground arith)
    go (some (str s)) e k = absurd (ground arith)
