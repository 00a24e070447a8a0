-- ===== src/Server/Guarded.antt =====
-- A whole call (src/server.ts, `executeToolWithSecurity`): what is known before a tool runs.
use safari_pilot.Security.RateLimiter.{check_limit}
use safari_pilot.Server.Safety.{Permitted, pass_guards-permits, done-bind}
use safari_pilot.Server.{
  Server, Env, Outcome, ToolResponse, continue, done, Exec, pure, returned, thrown, url_of,
  domain_of,
}
use safari_pilot.Server.Gate.{
  health_gate, recover_or_throw, set_engine_availability, recover_session, reopen_window,
  window_exists, needs_extension,
}
use safari_pilot.Server.Execute.{execute_tool_with_security, Handler, dispatch, prepare}
use safari_pilot.Prelude.{
  refl, ◌≡◌, String, arith, Bool, ◌⊎◌, ◌∙◌, subst, if◌then◌else◌, inr, none, true, inl, false, ◌&&◌,
  not, ◌==◌, string_eq,
}
use safari_pilot.Params.{Params}
use safari_pilot.Server.Ownership.{Ready}
use safari_pilot.Security.WallCap.{assert_within_cap}
use safari_pilot.Server.Guards.{pass_guards}
use safari_pilot.Errors.{ok}
use safari_pilot.Security.DomainPolicy.{evaluate}
use safari_pilot.Security.RateLimiter.{check_limit}
use safari_pilot.Security.CircuitBreaker.{assert_closed}

-- Two servers that differ at most in what the health gate writes.
pub record SameGuards (s t : Server) : Type 0 where
  pub same_cap : t.wall_cap ≡ s.wall_cap
  pub same_switch : t.kill_switch ≡ s.kill_switch
  pub same_policy : t.domain_policy ≡ s.domain_policy
  pub same_limiter : t.rate_limiter ≡ s.rate_limiter
  pub same_breaker : t.circuit_breaker ≡ s.circuit_breaker

abbrev unchanged : (s : Server) → SameGuards s s
unchanged s = record {
  same_cap = refl;
  same_switch = refl;
  same_policy = refl;
  same_limiter = refl;
  same_breaker = refl;
}

recover_or_throw-SameGuards :
    (env : Env) (window_ok missing : Bool) (s : Server)
    → SameGuards s (recover_or_throw env window_ok missing s).1
unfolding recover_or_throw recover_session reopen_window set_engine_availability
recover_or_throw-SameGuards env window_ok missing s = ground arith

trans : {s t u : Server} → SameGuards s t → SameGuards t u → SameGuards s u
trans p q = record {
  same_cap = q.same_cap ∙ p.same_cap;
  same_switch = q.same_switch ∙ p.same_switch;
  same_policy = q.same_policy ∙ p.same_policy;
  same_limiter = q.same_limiter ∙ p.same_limiter;
  same_breaker = q.same_breaker ∙ p.same_breaker;
}

branch-SameGuards :
    (calm : Bool) (m : Exec (Unit {0})) (s : Server)
    → SameGuards s (m s).1
    → SameGuards s ((if calm then pure tt else m) s).1
branch-SameGuards true m s p = unchanged s
branch-SameGuards false m s p = p

pub health_gate-SameGuards :
    (env : Env) (name : String) (s : Server) → SameGuards s (health_gate env name s).1
unfolding health_gate set_engine_availability
health_gate-SameGuards env name s =
    let marked =
      set_engine_availability env
        (record s.engine_availability { extension_up = env.extension_status }) s in
    let window_ok = window_exists s env.window_exists in
    let missing = not env.extension_status && needs_extension name marked in
    trans
      (record {
        same_cap = refl;
        same_switch = refl;
        same_policy = refl;
        same_limiter = refl;
        same_breaker = refl;
      })
      (branch-SameGuards (window_ok && not missing) (recover_or_throw env window_ok missing) marked
        (recover_or_throw-SameGuards env window_ok missing marked))

Permitted-before :
    (env : Env) (name : String) (params : Params) (s t : Server)
    → SameGuards s t
    → Permitted env name params t
    → Permitted env name params s
Permitted-before env name params s t same p = record {
  within_cap = subst (λ x. assert_within_cap none env.now x ≡ ok tt) same.same_cap p.within_cap;
  switch_off = subst (λ x. x.is_active ≡ false) same.same_switch p.switch_off;
  unblocked =
      subst
        (λ x.
          (evaluate env.hostname_of (url_of params) x).blocked
            && not (domain_of env (url_of params) == "")
          ≡ false)
        same.same_policy p.unblocked;
  approved = p.approved;
  below_rate =
      subst (λ x. (check_limit (domain_of env (url_of params)) env.now x).0.allowed ≡ true)
        same.same_limiter p.below_rate;
  circuit_admits =
      subst (λ x. (assert_closed (domain_of env (url_of params)) env.now x).0 ≡ ok tt)
        same.same_breaker p.circuit_admits;
}

prepare-permits :
    (env : Env) (name : String) (params : Params) (s t : Server) (ready : Ready)
    → prepare env name params s ≡ (done ready, t)
    → Permitted env name params s
unfolding prepare
prepare-permits env name params s t ready h =
    let (a, s1, e1, h1) = done-bind (health_gate env name) _ s h in
    let (b, s2, e2, h2) = done-bind (pass_guards env name params) _ s1 h1 in
    Permitted-before env name params s s1
      (subst (λ p. SameGuards s p.1) e1 (health_gate-SameGuards env name s))
      (pass_guards-permits env name params s1 s2 e2).0

-- The tools run only behind the guards: either a call ends in the same way and leaves the same
-- server whatever the tools do, or all the guards permit it in the state it began with, and the
-- call is the dispatch of the tool.
pub execute_guarded :
    (env : Env) (name : String) (params : Params) (s : Server)
    → ((o : Outcome ToolResponse) × (t : Server) × ((handler : Handler)
          → execute_tool_with_security handler env name params s ≡ (o, t)))
      ⊎ (Permitted env name params s
          × (ready : Ready) × (t : Server) × ((handler : Handler)
              → execute_tool_with_security handler env name params s
                ≡ dispatch handler env name params ready t))
unfolding execute_tool_with_security
execute_guarded env name params s = go (prepare env name params s) refl
  where
    go :
        (p : Outcome Ready × Server)
        → prepare env name params s ≡ p
        → ((o : Outcome ToolResponse) × (t : Server) × ((handler : Handler)
              → continue p.0 (dispatch handler env name params) p.1 ≡ (o, t)))
          ⊎ (Permitted env name params s
              × (ready : Ready) × (t : Server) × ((handler : Handler)
                  → continue p.0 (dispatch handler env name params) p.1
                    ≡ dispatch handler env name params ready t))
    go (done ready, t) e =
        inr (prepare-permits env name params s t ready e, ready, t, λ handler. refl)
    go (returned r, t) e = inl (returned r, t, λ handler. refl)
    go (thrown x, t) e = inl (thrown x, t, λ handler. refl)
