-- ===== src/Params.antt =====
-- The arguments of a tool call, `params: Record<string, unknown>`: JSON values under names.
use mathlib.Core.Bool.{false≢true}
use native.Mathlib.Decide.{ℕ_discrete}
use safari_pilot.Prelude.Dict.{Dict}
use safari_pilot.Prelude.{
  Bool, Option, String, some, ℕ, none, if◌then◌else◌, ◌==◌, string_eq, Bool-cases, inl, eq_iff, inr,
  sym, ◌∙◌, List, ◌∷◌, [],
}

mutual
  pub data Fields : Type 0 where
    end : Fields
    field : String → Value → Fields → Fields

  pub data Items : Type 0 where
    nil : Items
    cons : Value → Items → Items

  pub data Value : Type 0 where
    null : Value
    bool : Bool → Value
    num : ℕ → Value
    str : String → Value
    arr : Items → Value
    obj : Fields → Value

abbrev pub Params : Type 0
Params = Dict String Value

-- `value ?? undefined`: a value that is neither `undefined` nor `null`.
abbrev pub present : Option Value → Option Value
present none = none
present (some null) = none
present (some v) = some v

-- `a ?? b` on values that may be missing.
abbrev pub coalesce : Option Value → Option Value → Option Value
coalesce a b = elim (present a) [ none ↦ present b | some v ↦ some v ]

abbrev field_of : Fields → String → Option Value
field_of end k = none
field_of (field j v fs) k = if j == k then some v else field_of fs k

-- `value?.[k]`
abbrev pub member : Option Value → String → Option Value
member (some (obj fs)) k = field_of fs k
member _ k = none

-- The value as a text, where the source casts it to `string`.
abbrev pub as_text : Option Value → Option String
as_text (some (str s)) = some s
as_text _ = none

pub string_discrete : Discrete String
string_discrete s t = elim (Bool-cases (s == t)) [
  | inl same ↦ yes ((eq_iff s t).0 same)
  | inr other ↦ no (λ p. false≢true (sym other ∙ (eq_iff s t).1 p))
]

pub Value-discrete : Discrete Value
Value-discrete = hlevel (ℕ_discrete, string_discrete)

-- An array of texts.
abbrev pub texts : List String → Items
texts [] = nil
texts (s ∷ ss) = cons (str s) (texts ss)

-- `o[k] = v`: a new key goes to the end.
abbrev pub set_field : String → Value → Fields → Fields
set_field k v end = field k v end
set_field k v (field j w fs) = if j == k then field j v fs else field j w (set_field k v fs)

-- `delete o[k]`
abbrev pub delete_field : String → Fields → Fields
delete_field k end = end
delete_field k (field j w fs) =
    let rest = delete_field k fs in if j == k then rest else field j w rest
