-- ===== src/Server/Ownership.antt =====
-- From the choice of the engine to the dispatch: steps 7 to 8 of `executeToolWithSecurity`
-- (src/server.ts).
use safari_pilot.Server.{
  Server, Env, Exec, ToolResponse, text, modify, done, thrown, returned, audit, url_of, ◌>>◌, ◌>>=◌,
  gets, pure,
}
use safari_pilot.Prelude.{
  Bool, Option, String, ◌==◌, if◌then◌else◌, true, or_default, false, some, ◌&&◌, ◌||◌, ◌∷◌, none,
  not, [], string_eq,
}
use safari_pilot.Engines.{Engine, applescript, extension, select_engine, engine_name}
use safari_pilot.Params.{Params, as_text, num}
use safari_pilot.Prelude.Dict.{get, set}
use safari_pilot.Security.TabOwnership.{
  Position, TabId, find_by_url, assert_ownership, get_position,
}
use safari_pilot.Security.CircuitBreaker.{is_engine_tripped}
use safari_pilot.Errors.{ok, session_tab_protected, tab_url_not_recognized, err}
use safari_pilot.Security.AuditLog.{failed}
use safari_pilot.Server.Guards.{check_approval}
use safari_pilot.Text.{join}

-- The soft return when the extension is required and not there.
abbrev pub unavailable_response : ToolResponse
unavailable_response = record {
  content =
      text "Error: This operation requires the Safari Web Extension which is not available" ∷ [];
  is_error = false;
  metadata = some (record {
    engine = applescript;
    degraded = true;
    degraded_reason =
        some "This operation requires the Safari Web Extension which is not available";
    latency_ms = 0;
    idpi_safe = true;
  });
}

-- Step 7: a tool that is not registered stays with AppleScript.
unfoldable pub choose : Env → String → Params → Exec Engine
choose env name params s = elim (get name s.tools) [
  | none ↦ (done applescript, s)
  | some requirements ↦
      (let (chosen, breaker) =
          select_engine requirements s.engine_availability s.extension_enabled env.now
            s.circuit_breaker in
        let s' = record s { circuit_breaker = breaker } in
        elim chosen [
          | ok engine ↦ (done engine, s')
          | err _ ↦ (
            returned unavailable_response,
            audit env 0 name (url_of params) applescript params failed s',
          )
        ])
]

-- Steps 7b and 7c: the proxy points to the engine and forgets the last call.
unfoldable pub aim_proxy : Engine → Exec (Unit {0})
aim_proxy engine = modify λ s. record s {
  engine_proxy = record {
    delegate = if s.registered engine then engine else applescript;
    last_meta = none;
    tab_position = none;
  };
}

unfoldable pub skips_ownership : String → Bool
skips_ownership name =
    name == "safari_list_tabs" || name == "safari_new_tab" || name == "safari_health_check"

abbrev pub tab_url_of : Params → String
tab_url_of params = or_default (as_text (get "tabUrl" params)) ""

-- The positional identity of the tab goes into the parameters and into the proxy.
abbrev pub with_position : Option Position → Params → Params
with_position none params = params
with_position (some p) params =
    set "_tabIndex" (num p.tab_index) (set "_windowId" (num p.window_id) params)

abbrev pub point_proxy : Option Position → Server → Server
point_proxy none s = s
point_proxy (some p) s = record s { engine_proxy = record s.engine_proxy { tab_position = some p } }

-- Whether the check is put off until the tool has run, and the parameters that the tool gets.
pub record Checked : Type 0 where
  pub deferred : Bool
  pub params : Params

-- The check of a tab that the registry knows, or does not.
unfoldable pub check_tab : String → Engine → Params → Option TabId → Exec Checked
check_tab tab_url engine params none s = elim engine [
  | extension ↦ (done (record { deferred = true; params = params }), s)
  | _ ↦ (thrown (tab_url_not_recognized tab_url), s)
]
check_tab tab_url engine params (some tab_id) s = elim (assert_ownership tab_id s.tab_ownership) [
  | err e ↦ (thrown e, s)
  | ok _ ↦
      (let position = get_position tab_id s.tab_ownership in
        (
          done (record { deferred = false; params = with_position position params }),
          point_proxy position s,
        ))
]

-- Step 7d. The session's own tab is refused also under the bypass of the harness.
unfoldable pub check_ownership : Env → String → Params → Engine → Exec Checked
unfolding check_tab
check_ownership env name params engine s =
    let tab_url = tab_url_of params in
    if tab_url == "" || skips_ownership name
    then (done (record { deferred = false; params = params }), s)
    else if tab_url == s.session_tab_url
    then (thrown session_tab_protected, s)
    else if env.harness_bypass && name == "safari_close_tab"
    then (done (record { deferred = false; params = params }), s)
    else check_tab tab_url engine params (find_by_url tab_url s.tab_ownership) s

abbrev pub is_extension : Engine → Bool
is_extension extension = true
is_extension _ = false

-- Step 7.5: the reason of a degradation, after the approval was asked for again. Asking the
-- breaker may heal the engine.
unfoldable pub check_degradation : Env → String → Params → Engine → Exec (Option String)
check_degradation env name params engine s =
    let (tripped, healed) = is_engine_tripped "extension" env.now s.circuit_breaker in
    let asked = s.engine_availability.extension_up in
    let s' = if asked then record s { circuit_breaker = healed } else s in
    if asked && not tripped && not (is_extension engine)
    then (do
      check_approval env name params engine "extension_degraded_approval_required: "
      pure (some (join "extension_unavailable_fallback_to_" (engine_name engine))))
        s'
    else (done none, s')

-- Step 8: the window of the session, for a new tab.
unfoldable pub inject_window : String → Params → Server → Params
inject_window name params s =
    if name == "safari_new_tab"
    then elim s.session_window_id [
      | none ↦ params
      | some id ↦ set "_sessionWindowId" (num id) params
    ]
    else params

-- What the tool is run with.
pub record Ready : Type 0 where
  pub engine : Engine
  pub deferred : Bool
  pub params : Params
  pub degradation : Option String

unfoldable pub prepare_engine : Env → String → Params → Exec Ready
unfolding choose aim_proxy inject_window
prepare_engine env name params = do
  engine ← choose env name params
  aim_proxy engine
  checked ← check_ownership env name params engine
  degradation ← check_degradation env name checked.params engine
  params' ← gets (inject_window name checked.params)
  pure (record {
    engine = engine;
    deferred = checked.deferred;
    params = params';
    degradation = degradation;
  })
