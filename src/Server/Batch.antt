-- ===== src/Server/Batch.antt =====
-- src/tools/batch.ts: `safari_batch`, up to four calls in one, each through the whole pipeline.
--
-- An action has the tool if it is a text, and its arguments, with none for missing ones. Each
-- action meets its own environment and its own behaviour of the tool, by its position.
pub mod InOrder
use safari_pilot.Server.Execute.{Handler, execute_tool_with_security}
use safari_pilot.Server.{
  Server, Env, Outcome, ToolResponse, done, returned, thrown, Content, Metadata, text,
}
use safari_pilot.Errors.{Error, Result, ok, err, other_error, message_of}
use safari_pilot.Extension.TabMatch.{starts_with}
use safari_pilot.Params.{Params}
use safari_pilot.Prelude.{
  Bool, List, Option, String, ℕ, none, not, some, length, false, ◌∷◌, [], if◌then◌else◌, ◌+◌, ◌==◌,
  ◌&&◌, ltb, string_eq,
}
use safari_pilot.Text.{decimal, join}

pub record Action : Type 0 where
  pub tool : Option String
  pub args : Params

pub record SubResult : Type 0 where
  pub tool : String
  pub ok : Bool
  pub content : List Content
  pub metadata : Option Metadata
  pub error : Option Error

pub record BatchReply : Type 0 where
  pub results : List SubResult
  pub executed : ℕ
  pub total : ℕ
  pub stop_on_error : Bool

abbrev max_batch_actions : ℕ
max_batch_actions = 4

abbrev invalid_params : String → Error
invalid_params message = other_error (some "INVALID_PARAMS") message

abbrev tool_name : Action → String
tool_name a = elim a.tool [ none ↦ "" | some tool ↦ tool ]

abbrev concat_texts : List String → String
concat_texts parts = elim parts [ [] ↦ "" | part ∷ (more → joined) ↦ join part joined ]

unfoldable pub check_action : ℕ → Action → Option Error
check_action i a = elim a.tool [
  | none ↦ some (
      invalid_params
        (concat_texts ("safari_batch: actions[" ∷ decimal i ∷ "].tool must be a string" ∷ [])))
  | some tool ↦
      if tool == "safari_batch"
      then some (invalid_params "safari_batch: nested safari_batch calls are not allowed")
      else if not (starts_with "safari_" tool)
      then some (
          invalid_params
            (concat_texts ("safari_batch: tool \"" ∷ tool ∷ "\" must start with \"safari_\"" ∷ [])))
      else none
]

abbrev or_next : Option Error → Option Error → Option Error
or_next none next = next
or_next (some e) next = some e

unfoldable pub check_actions : ℕ → List Action → Option Error
check_actions i [] = none
check_actions i (a ∷ actions) = or_next (check_action i a) (check_actions (i + 1) actions)

abbrev of_response : String → ToolResponse → SubResult
of_response tool r = record {
  tool = tool;
  ok = not r.is_error;
  content = r.content;
  metadata = r.metadata;
  error = none;
}

unfoldable pub sub_result : String → Outcome ToolResponse → SubResult
sub_result tool (done r) = of_response tool r
sub_result tool (returned r) = of_response tool r
sub_result tool (thrown e) = record {
  tool = tool;
  ok = false;
  content = text (message_of e) ∷ [];
  metadata = none;
  error = some e;
}

-- What the action at a position meets.
abbrev pub Surroundings : Type 0
Surroundings = ℕ → Handler × Env

unfoldable pub run_action : Surroundings → ℕ → Action → Server → SubResult × Server
run_action around i a s =
    let (handler, env) = around i in
    let (outcome, s') = execute_tool_with_security handler env (tool_name a) a.args s in
    (sub_result (tool_name a) outcome, s')

-- The loop; with `stopOnError` it ends behind the first action that fails.
unfoldable pub run_actions :
    Surroundings → Bool → ℕ → List Action → Server → List SubResult × Server
run_actions around stop i [] s = ([], s)
run_actions around stop i (a ∷ actions) s =
    let (result, s') = run_action around i a s in
    let (more, t) = run_actions around stop (i + 1) actions s' in
    if stop && not result.ok then (result ∷ [], s') else (result ∷ more, t)

abbrev reply : Bool → List Action → List SubResult × Server → Result BatchReply × Server
reply stop actions (results, s) = (
  ok (record {
    results = results;
    executed = length results;
    total = length actions;
    stop_on_error = stop;
  }),
  s,
)

unfoldable pub run_checked :
    Surroundings → Bool → List Action → Server → Option Error → Result BatchReply × Server
run_checked around stop actions s (some e) = (err e, s)
run_checked around stop actions s none = reply stop actions (run_actions around stop 0 actions s)

abbrev pub too_many : ℕ → Server → Result BatchReply × Server
too_many count s = (
  err (
      invalid_params
        (concat_texts ("safari_batch: max 4 actions per batch (got " ∷ decimal count ∷ ")" ∷ []))),
  s,
)

-- `none` where `actions` is no array.
unfoldable pub handle_batch :
    Surroundings → Option (List Action) → Bool → Server → Result BatchReply × Server
handle_batch around none stop s =
    (err (invalid_params "safari_batch: actions array is required and must be non-empty"), s)
handle_batch around (some []) stop s =
    (err (invalid_params "safari_batch: actions array is required and must be non-empty"), s)
handle_batch around (some (a ∷ actions)) stop s =
    if ltb max_batch_actions (length (a ∷ actions))
    then too_many (length (a ∷ actions)) s
    else run_checked around stop (a ∷ actions) s (check_actions 0 (a ∷ actions))
