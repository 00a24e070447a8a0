-- ===== src/Server/Audited.antt =====
-- The audit entry of a call that reached its tool (src/server.ts, step 8).
use safari_pilot.Security.AuditLog
use safari_pilot.Prelude.{
  refl, ◌≡◌, Bool, false, true, String, arith, ℕ, subst, if◌then◌else◌, ap, ◌-◌, sym, ◌+◌,
}
use safari_pilot.Server.{
  continue, Server, Outcome, Exec, Env, lift, returned, done, thrown, ToolResponse, audit, url_of,
  domain_of,
}
use safari_pilot.Errors.{Result, ok, err, Error}
use safari_pilot.Server.Execute.{
  call_tool, run_tool, Handler, dispatch, catch_errors, record_error_outcome, answer_error,
  note_error,
}
use safari_pilot.Server.Aftermath.{
  check_thrash, settle, verify_identity, update_registry, annotate, adopt_clicked_tabs,
}
use safari_pilot.Params.{Params}
use safari_pilot.Engines.{Engine}
use safari_pilot.Server.Ownership.{Ready}
use safari_pilot.Security.CircuitBreaker.{record_success}
use safari_pilot.Security.AuditLog.{AuditLog, AuditEntry}
use safari_pilot.Server.Safety.{done-bind}

abbrev pub is_done : {A : Type 0} → Outcome A → Bool
is_done (done a) = true
is_done _ = false

abbrev pub is_returned : {A : Type 0} → Outcome A → Bool
is_returned (returned r) = true
is_returned _ = false

continue-is_returned :
    {A B : Type 0} (p : Outcome A × Server) (f : A → Exec B)
    → is_returned p.0 ≡ false
    → ((a : A) (t : Server) → is_returned (f a t).0 ≡ false)
    → is_returned (continue p.0 f p.1).0 ≡ false
continue-is_returned (done a, t) f p q = q a t
continue-is_returned (returned r, t) f p q = p
continue-is_returned (thrown e, t) f p q = refl

lift-is_returned : {A : Type 0} (r : Result A) (s : Server) → is_returned (lift r s).0 ≡ false
lift-is_returned (ok a) s = refl
lift-is_returned (err e) s = refl

call_tool-is_returned :
    (handler : Handler) (name : String) (params : Params) (s : Server)
    → is_returned (call_tool handler name params s).0 ≡ false
unfolding call_tool
call_tool-is_returned handler name params s =
    ground (arith, lift-is_returned (handler name params s).0 (handler name params s).1)

verify_identity-is_returned :
    (params : Params) (deferred : Bool) (s : Server)
    → is_returned (verify_identity params deferred s).0 ≡ false
unfolding verify_identity
verify_identity-is_returned params deferred s = ground arith

check_thrash-is_returned :
    (env : Env) (name : String) (r : ToolResponse) (s : Server)
    → is_returned (check_thrash env name r s).0 ≡ false
unfolding check_thrash
check_thrash-is_returned env name r s = ground arith

settle-is_returned :
    (env : Env) (name : String) (params : Params) (engine : Engine) (deferred : Bool)
    → (r : ToolResponse) (s : Server)
    → is_returned (settle env name params engine deferred r s).0 ≡ false
unfolding settle
settle-is_returned env name params engine deferred r s =
    let s' = update_registry env name params r s in
    continue-is_returned (verify_identity params deferred s') _
      (verify_identity-is_returned params deferred s')
      λ a t.
        let r' = annotate env name engine r in
        let t' = adopt_clicked_tabs env name t in
        continue-is_returned (check_thrash env name r' t') _
          (check_thrash-is_returned env name r' t') (λ b u. refl)

run_tool-is_returned :
    (handler : Handler) (env : Env) (name url domain : String) (ready : Ready) (s : Server)
    → is_returned (run_tool handler env name url domain ready s).0 ≡ false
unfolding run_tool
run_tool-is_returned handler env name url domain ready s =
    continue-is_returned (call_tool handler name ready.params s) _
      (call_tool-is_returned handler name ready.params s)
      λ r t.
        let t' = record t { circuit_breaker = record_success domain t.circuit_breaker } in
        continue-is_returned (settle env name ready.params ready.engine ready.deferred r t') _
          (settle-is_returned env name ready.params ready.engine ready.deferred r t') (λ r' u. refl)

-- The log ends with an entry about this call.
pub record Audited (name url : String) (engine : Engine) (ok : Bool) (t : Server) : Type 0 where
  pub before : AuditLog
  pub entry : AuditEntry
  pub appended : t.audit_log ≡ AuditLog.append entry before
  pub about_tool : entry.tool ≡ name
  pub about_url : entry.tab_url ≡ url
  pub about_engine : entry.engine ≡ engine
  pub with_result : entry.result ≡ (if ok then AuditLog.succeeded else AuditLog.failed)

audit-Audited :
    (env : Env) (elapsed : ℕ) (name url : String) (engine : Engine) (params : Params)
    → (passed : Bool) (s : Server)
    → Audited name url engine passed (
        audit env elapsed name url engine params
          (if passed then AuditLog.succeeded else AuditLog.failed)
          s)
audit-Audited env elapsed name url engine params passed s = record {
  before = s.audit_log;
  entry = record {
    timestamp = env.iso (env.now + elapsed);
    tool = name;
    tab_url = url;
    engine = engine;
    params = params;
    result = if passed then AuditLog.succeeded else AuditLog.failed;
    elapsed_ms = elapsed;
    session = s.session_id;
  };
  appended = refl;
  about_tool = refl;
  about_url = refl;
  about_engine = refl;
  with_result = refl;
}

run_tool-Audited :
    (handler : Handler) (env : Env) (name url domain : String) (ready : Ready) (s t : Server)
    → (r : ToolResponse) → run_tool handler env name url domain ready s ≡ (done r, t)
    → Audited name url ready.engine true t
unfolding run_tool
run_tool-Audited handler env name url domain ready s t r h =
    let (r1, s1, e1, h1) = done-bind (call_tool handler name ready.params) _ s h in
    let s1' = record s1 { circuit_breaker = record_success domain s1.circuit_breaker } in
    let (r2, s2, e2, h2) =
      done-bind (settle env name ready.params ready.engine ready.deferred r1) _ s1' h1 in
    subst (Audited name url ready.engine true) (ap (λ p. p.1) h2)
      (audit-Audited env (env.later - env.now) name url ready.engine ready.params true s2)

-- Once the guards and the choice of the engine are passed, every call leaves an entry about its
-- tool, its URL and its engine at the end of the audit log, whatever the tool does: `ok` when the
-- call ends with the response of the tool, and `error` when it throws or answers with the error
-- of the engine.
pub dispatch-Audited :
    (handler : Handler) (env : Env) (name : String) (params : Params) (ready : Ready) (s : Server)
    → Audited name
        (url_of params)
        ready.engine
        (is_done (dispatch handler env name params ready s).0)
        (dispatch handler env name params ready s).1
unfolding dispatch catch_errors record_error_outcome
dispatch-Audited handler env name params ready s =
    go (run_tool handler env name url domain ready s) refl
  where
    url : String
    url = url_of params

    domain : String
    domain = domain_of env url

    answered : (e : Error) → is_done (answer_error env ready.engine e) ≡ false
    answered e = ground arith

    go :
        (p : Outcome ToolResponse × Server)
        → run_tool handler env name url domain ready s ≡ p
        → Audited name url ready.engine
            (is_done (catch_errors env name url domain ready.engine ready.params p).0)
            (catch_errors env name url domain ready.engine ready.params p).1
    go (done r, t) e = run_tool-Audited handler env name url domain ready s t r e
    go (returned r, t) e =
        let never = run_tool-is_returned handler env name url domain ready s in
        absurd (ground (arith, ap (λ p. is_returned p.0) e, never))
    go (thrown x, t) e =
        subst
          (λ b.
            Audited name url ready.engine b
              (record_error_outcome env name url domain ready.engine ready.params x t))
          (sym (answered x))
          (audit-Audited env (env.later - env.now) name url ready.engine ready.params false
            (note_error env domain ready.engine x t))
