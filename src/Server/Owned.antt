-- ===== src/Server/Owned.antt =====
-- Which tab a call ran in whose URL the registry did not know (src/server.ts, steps 7d to 8.post2).
pub mod Strangers
pub mod Updates
use safari_pilot.Server.Owned.Strangers.{is_unchecked, prepare_engine-stranger}
use safari_pilot.Server.Owned.Updates.{Owns, verify_identity-Owns, update_registry-proxy}
use safari_pilot.Server.{
  Env, Server, ToolResponse, done, Outcome, returned, audit, url_of, domain_of, thrown,
}
use safari_pilot.Server.Ownership.{
  check_ownership, choose, inject_window, check_tab, skips_ownership, Checked, tab_url_of,
  unavailable_response, prepare_engine, Ready, aim_proxy, check_degradation,
}
use safari_pilot.Server.Aftermath.{update_registry, backfill, verify_identity, settle, meta_tab}
use safari_pilot.Prelude.{
  ℕ, String, Bool, ◌==◌, ◌≡◌, false, ◌||◌, some, ◌⊎◌, string_eq, not, ◌&&◌, none, refl, true, arith,
  Option, or_default, inl, inr, ap, sym, ◌∙◌, subst, Bool-cases, if◌then◌else◌, Option-cases,
}
use safari_pilot.Params.{Params, as_text}
use safari_pilot.Server.Registry.{
  refresh_url, register_new_tab, remove_closed_tab, truthy, adopt_window, register_new,
  is_navigation,
}
use safari_pilot.Security.TabOwnership.{
  TabOwnership, TabId, find_by_extension_tab_id, find_by_url, set_extension_tab_id,
}
use safari_pilot.Engines.{Engine, extension, ToolRequirements, applescript, select_engine}
use safari_pilot.Prelude.Dict.{get}
use safari_pilot.Errors.{ok, err, Result}
use safari_pilot.Security.AuditLog.{failed}
use safari_pilot.Security.CircuitBreaker.{CircuitBreaker, record_success}
use safari_pilot.Server.Execute.{Handler, dispatch, run_tool, catch_errors, call_tool}
use safari_pilot.Server.Safety.{done-bind}

-- The success of the domain is recorded before the registry is brought up to date.
abbrev pub succeed : Env → Params → Server → Server
succeed env params s = record s {
  circuit_breaker = record_success (domain_of env (url_of params)) s.circuit_breaker;
}

-- The tool gave a response, the extension named the tab that ran by a stable id, and the registry,
-- brought up to date with the response, has an entry with that id or at the URL of the call.
abbrev pub RanInOwned : Handler → Env → String → Params → Server → Type 0
RanInOwned handler env name params s =
    (answer : ToolResponse) × (ran : Server) × (ext : ℕ) × (call_tool handler name params s
      ≡ (done answer, ran))
    × (meta_tab ran.engine_proxy.last_meta ≡ some ext)
    × Owns ext (tab_url_of params)
        (update_registry env name params answer (succeed env params ran)).tab_ownership

deferred_run-RanInOwned :
    (handler : Handler) (env : Env) (name : String) (params : Params) (engine : Engine)
    (degradation : Option String) (s t : Server) (r : ToolResponse)
    → (tab_url_of params == "") ≡ false
    → run_tool handler env name
        (url_of params)
        (domain_of env (url_of params))
        (record { engine = engine; deferred = true; params = params; degradation = degradation })
        s
      ≡ (done r, t)
    → RanInOwned handler env name params s
unfolding run_tool settle
deferred_run-RanInOwned handler env name params engine degradation s t r filled h =
    let (answer, ran, called, h1) = done-bind (call_tool handler name params) _ s h in
    let updated = update_registry env name params answer (succeed env params ran) in
    let (r2, s2, settled, h2) =
      done-bind (settle env name params engine true answer) _ (succeed env params ran) h1 in
    let (u, s3, verified, h3) = done-bind (verify_identity params true) _ updated settled in
    let (ext, named, owned) = verify_identity-Owns params updated s3 verified filled in
    let proxy = update_registry-proxy env name params answer (succeed env params ran) in
    (answer, ran, ext, called, ap (λ p. meta_tab p.last_meta) (sym proxy) ∙ named, owned)

run_tool-RanInOwned :
    (handler : Handler) (env : Env) (name : String) (ready : Ready) (s t : Server)
    (r : ToolResponse) (params : Params)
    → ready.deferred ≡ true
    → ready.params ≡ params
    → (tab_url_of params == "") ≡ false
    → run_tool handler env name (url_of params) (domain_of env (url_of params)) ready s
      ≡ (done r, t)
    → RanInOwned handler env name params s
run_tool-RanInOwned handler env name ready s t r params deferred same filled h =
    let known : ready ≡ record ready { deferred = true; params = params } =
      λ i. record ready { deferred = deferred i; params = same i } in
    deferred_run-RanInOwned handler env name params ready.engine ready.degradation s t r filled (
      subst
        (λ x.
          run_tool handler env name (url_of params) (domain_of env (url_of params)) x s
          ≡ (done r, t))
        known h)

dispatch-done :
    (handler : Handler) (env : Env) (name : String) (params : Params) (ready : Ready) (s t : Server)
    (r : ToolResponse)
    → dispatch handler env name params ready s ≡ (done r, t)
    → run_tool handler env name (url_of params) (domain_of env (url_of params)) ready s
      ≡ (done r, t)
unfolding dispatch catch_errors
dispatch-done handler env name params ready s t r h =
    go (run_tool handler env name (url_of params) (domain_of env (url_of params)) ready s) h
  where
    go :
        (p : Outcome ToolResponse × Server)
        → catch_errors env name
            (url_of params)
            (domain_of env (url_of params))
            ready.engine
            ready.params
            p
          ≡ (done r, t)
        → p ≡ (done r, t)
    go (done q, u) e = e
    go (returned q, u) e = absurd (ground arith)
    go (thrown x, u) e = absurd (ground (arith, e))

-- A call with a URL that the registry does not know when the engine is prepared succeeds only in
-- the extension, and only if the tool gave a response, the extension named the tab that ran by its
-- stable id, and the registry, brought up to date with the response, has an entry with that id or
-- one at the URL of the call. Not among these calls are listing tabs, opening a tab and the health
-- check, and closing a tab, other than the session's own, under the bypass of the harness.
pub dispatch-RanInOwned :
    (handler : Handler) (env : Env) (name : String) (params : Params) (ready : Ready)
    (s s' t : Server) (r : ToolResponse)
    → prepare_engine env name params s ≡ (done ready, s')
    → dispatch handler env name params ready s' ≡ (done r, t)
    → is_unchecked env name params s ≡ false
    → find_by_url (tab_url_of params) s.tab_ownership ≡ none
    → (ready.engine ≡ extension) × RanInOwned handler env name params s'
dispatch-RanInOwned handler env name params ready s s' t r prepared ran asked unknown =
    let (engine, deferred, same) =
      prepare_engine-stranger env name params s s' ready prepared asked unknown in
    (
      engine,
      run_tool-RanInOwned handler env name ready s' t r params deferred same (ground (arith, asked))
          (dispatch-done handler env name params ready s' t r ran),
    )
