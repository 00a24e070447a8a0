-- ===== src/Server/Execute.antt =====
-- `executeToolWithSecurity` as a whole, with the run of the tool and what a failure leads to
-- (src/server.ts). The tools are the parameter `handler`: whatever it does to the server, and
-- whether it returns or throws.
use safari_pilot.Server.{
  Server, Env, Exec, Metadata, ◌>>◌, Content, Outcome, ToolResponse, text, url_of, done, ◌>>=◌,
  domain_of, returned, modify, thrown, audit, image, lift, pure,
}
use safari_pilot.Prelude.{
  String, ℕ, List, Option, if◌then◌else◌, Bool, ◌==◌, some, ◌∷◌, not, ◌-◌, [], is_some, none, ◌&&◌,
  true, string_eq, false,
}
use safari_pilot.Engines.{Engine, engine_name}
use safari_pilot.Params.{Params, obj, set_field, field, num, str, arr, bool, texts, end}
use safari_pilot.Server.Ownership.{Ready, prepare_engine}
use safari_pilot.Errors.{
  Error, is_anti_thrash, Result, is_security_pipeline_error, engine_execution, code_of, other_error,
}
use safari_pilot.Security.CircuitBreaker.{
  CircuitBreaker, record_engine_failure, record_success, record_failure,
}
use safari_pilot.Server.Gate.{health_gate}
use safari_pilot.Prelude.Dict.{has}
use safari_pilot.Security.KillSwitch.{record_error}
use safari_pilot.Server.Guards.{pass_guards}
use safari_pilot.Server.Aftermath.{settle}
use safari_pilot.Security.AuditLog.{failed, succeeded}
use safari_pilot.Text.{join}

abbrev pub Handler : Type 0
Handler = String → Params → Server → Result ToolResponse × Server

-- `callTool`
unfoldable pub call_tool : Handler → String → Params → Exec ToolResponse
call_tool handler name params s =
    if not (has name s.tools)
    then (thrown (other_error none (join "Unknown tool: " name)), s)
    else (let (result, s') = handler name params s in lift result s')

-- The engine goes into the metadata, and the degradation if none is named.
abbrev stamp_metadata : Engine → Option String → Option Metadata → Option Metadata
stamp_metadata engine degradation none = none
stamp_metadata engine degradation (some m) =
    let m' = record m { engine = engine } in
    if is_some degradation && not (is_some m.degraded_reason)
    then some (record m' { degraded_reason = degradation; degraded = true })
    else some m'

abbrev latency : ℕ → Option Metadata → ℕ
latency elapsed none = elapsed
latency elapsed (some m) = m.latency_ms

-- Engine and latency go into a text that is a JSON object.
abbrev embed : Env → Engine → ℕ → String → String
embed env engine elapsed raw = if raw == "" then raw else elim (env.parse_json raw) [
  | none ↦ raw
  | some v ↦ elim v [
    | obj fs ↦ env.stringify_json (
        obj (
          set_field "__latencyMs" (num elapsed)
            (set_field "__engine" (str (engine_name engine)) fs)))
    | arr xs ↦ env.stringify_json (arr xs)
    | _ ↦ raw
  ]
]

abbrev embed_first : Env → Engine → ℕ → List Content → List Content
embed_first env engine elapsed [] = []
embed_first env engine elapsed (text raw ∷ rest) = text (embed env engine elapsed raw) ∷ rest
embed_first env engine elapsed (image ∷ rest) = image ∷ rest

unfoldable pub stamp : Env → Engine → Option String → ToolResponse → ToolResponse
stamp env engine degradation r =
    let m = stamp_metadata engine degradation r.metadata in
    record r {
      metadata = m;
      content = embed_first env engine (latency (env.later - env.now) m) r.content;
    }

-- The body of the `try` of step 8.
unfoldable pub run_tool : Handler → Env → String → String → String → Ready → Exec ToolResponse
run_tool handler env name url domain ready = do
  r ← call_tool handler name ready.params
  modify (λ s. record s { circuit_breaker = record_success domain s.circuit_breaker })
  r' ← settle env name ready.params ready.engine ready.deferred r
  modify (audit env (env.later - env.now) name url ready.engine ready.params succeeded)
  pure (stamp env ready.engine ready.degradation r')

unfoldable pub record_tool_failure : ℕ → String → Engine → Error → CircuitBreaker → CircuitBreaker
record_tool_failure now domain engine e b =
    record_engine_failure (engine_name engine) (code_of e) now (record_failure domain now b)

-- The structured response for an error of an engine.
abbrev error_response : Env → Engine → String → String → Bool → List String → ToolResponse
error_response env engine code message retryable hints = record {
  content =
      text (
        env.stringify_json (
          obj (
            field "error" (str code) (
              field "message" (str message)
                (field "retryable" (bool retryable) (field "hints" (arr (texts hints)) end))))))
      ∷ [];
  is_error = true;
  metadata = some (record {
    engine = engine;
    degraded = false;
    degraded_reason = none;
    latency_ms = env.later - env.now;
    idpi_safe = true;
  });
}

abbrev pub answer_error : Env → Engine → Error → Outcome ToolResponse
answer_error env engine (engine_execution code message retryable hints) =
    returned (error_response env engine code message retryable hints)
answer_error env engine e = thrown e

-- What the `catch` writes into the breakers and the kill switch.
unfoldable pub note_error : Env → String → Engine → Error → Server → Server
note_error env domain engine e s =
    let breaker =
      if is_anti_thrash e
      then s.circuit_breaker
      else record_tool_failure env.later domain engine e s.circuit_breaker in
    let (switch, log) =
      if is_security_pipeline_error e
      then (s.kill_switch, s.audit_log)
      else record_error env.later (env.iso env.later) s.kill_switch s.audit_log in
    record s { circuit_breaker = breaker; kill_switch = switch; audit_log = log }

-- The whole of what the `catch` writes: the audit entry comes last.
unfoldable pub record_error_outcome :
    Env → String → String → String → Engine → Params → Error → Server → Server
record_error_outcome env name url domain engine params e s =
    audit env (env.later - env.now) name url engine params failed (note_error env domain engine e s)

-- The `catch` of step 8.
unfoldable pub catch_errors :
    Env
    → String
    → String
    → String
    → Engine
    → Params
    → Outcome ToolResponse × Server
    → Outcome ToolResponse × Server
catch_errors env name url domain engine params (done r, s) = (done r, s)
catch_errors env name url domain engine params (returned r, s) = (returned r, s)
catch_errors env name url domain engine params (thrown e, s) =
    (answer_error env engine e, record_error_outcome env name url domain engine params e s)

-- Everything before the tool runs.
unfoldable pub prepare : Env → String → Params → Exec Ready
prepare env name params = do
  health_gate env name
  pass_guards env name params
  prepare_engine env name params

unfoldable pub dispatch : Handler → Env → String → Params → Ready → Exec ToolResponse
dispatch handler env name params ready s =
    let url = url_of params in
    let domain = domain_of env url in
    catch_errors env name url domain ready.engine ready.params
      (run_tool handler env name url domain ready s)

unfoldable pub execute_tool_with_security : Handler → Env → String → Params → Exec ToolResponse
execute_tool_with_security handler env name params = do
  ready ← prepare env name params
  dispatch handler env name params ready
