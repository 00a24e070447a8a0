-- ===== src/Security/LoopDetector.antt =====
-- src/security/loop-detector.ts: the two detectors of an agent that is stuck.
pub mod Detection
mod Tests
use safari_pilot.Params.{
  Params, Value-discrete, Value, coalesce, string_discrete, member, present, str,
}
use safari_pilot.Errors.{Result, err, loop_detected, thrash_detected, ok}
use safari_pilot.Prelude.{
  Eq, List, Option, String, [], ℕ, ◌++◌, eq_of_discrete, if◌then◌else◌, or_default, Bool, ◌∷◌, eqb,
  length, ltb, string_eq, ◌&&◌, shift, all, ◌==◌,
}
use safari_pilot.Prelude.Dict.{get}

abbrev pub loop_threshold : ℕ
loop_threshold = 5

abbrev pub thrash_threshold : ℕ
thrash_threshold = 4

-- The parts of the text `JSON.stringify({ tabUrl, locKey, flatKey })`: two such texts are equal
-- exactly when the three values are.
pub record KeyArgs : Type 0 where
  pub tab_url : Value
  pub loc_key : Value
  pub flat_key : Value

pub record CallRecord : Type 0 where
  pub tool : String
  pub key_args : KeyArgs

pub record LoopDetector : Type 0 where
  pub call_history : List CallRecord
  pub snapshot_history : List String

abbrev pub empty : LoopDetector
empty = record { call_history = []; snapshot_history = [] }

abbrev or_empty : Option Value → Value
or_empty v = or_default (present v) (str "")

unfoldable pub extract_key_args : Params → KeyArgs
extract_key_args params =
    let locator = get "locator" params in
    record {
      tab_url =
          or_empty
            (coalesce (get "tabUrl" params) (coalesce (get "url" params) (get "tabId" params)));
      loc_key = or_empty (
          coalesce (member locator "selector") (
            coalesce (member locator "text") (
              coalesce (member locator "role")
                (coalesce (member locator "testId") (member locator "ref")))));
      flat_key = or_empty (
          coalesce (get "selector" params)
            (coalesce (get "ref" params) (coalesce (get "role" params) (get "testId" params))));
    }

pub Call-discrete : Discrete CallRecord
Call-discrete = hlevel (Value-discrete, string_discrete)

-- `===` on the two fields of a record of a call.
instance abbrev pub call_eq : Eq CallRecord
call_eq = eq_of_discrete Call-discrete

-- `push`, and `shift` when there are more than `n`.
unfoldable pub push_last {ℓ} : {A : Type ℓ} → ℕ → A → List A → List A
push_last n x xs = let ys = xs ++ x ∷ [] in if ltb n (length ys) then shift ys else ys

-- The window is full and all of it equals `x`.
unfoldable pub is_repeated {ℓ} : {A : Type ℓ} ⦃e : Eq A⦄ → ℕ → A → List A → Bool
is_repeated n x window = eqb (length window) n && all (λ y. y == x) window

unfoldable pub pre_check : String → Params → LoopDetector → Result (Unit {0}) × LoopDetector
pre_check tool params d =
    let call : CallRecord = record { tool = tool; key_args = extract_key_args params } in
    let history = push_last loop_threshold call d.call_history in
    (
      if is_repeated loop_threshold call history
          then err (loop_detected tool loop_threshold)
          else ok tt,
      record d { call_history = history },
    )

unfoldable pub record_snapshot_result : String → LoopDetector → Result (Unit {0}) × LoopDetector
record_snapshot_result serialized d =
    let history = push_last thrash_threshold serialized d.snapshot_history in
    (
      if is_repeated thrash_threshold serialized history
          then err (thrash_detected thrash_threshold)
          else ok tt,
      record d { snapshot_history = history },
    )

unfoldable pub reset : LoopDetector → LoopDetector
reset d = empty
