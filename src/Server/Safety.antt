-- ===== src/Server/Safety.antt =====
-- What the guards of a call guarantee (src/server.ts, `executeToolWithSecurity`).
use safari_pilot.Server.{
  Server, Env, Exec, ◌>>=◌, done, Outcome, returned, thrown, continue, url_of, domain_of,
}
use safari_pilot.Prelude.{
  ◌≡◌, String, arith, false, none, true, ◌&&◌, not, ◌==◌, string_eq, ◌∙◌, ap, subst,
}
use safari_pilot.Server.Guards.{
  check_approval, check_kill_switch, check_wall_cap, check_circuit, check_rate, check_loop,
  check_domain, pass_guards,
}
use safari_pilot.Params.{Params}
use safari_pilot.Engines.{Engine, applescript}
use safari_pilot.Security.HumanApproval.{assert_approved}
use safari_pilot.Errors.{ok}
use safari_pilot.Security.WallCap.{assert_within_cap}
use safari_pilot.Security.KillSwitch.{check_before_action}
use safari_pilot.Security.DomainPolicy.{EvaluateResult, evaluate}
use safari_pilot.Security.CircuitBreaker.{assert_closed}
use safari_pilot.Security.RateLimiter.{check_limit}

continue-done :
    {A B : Type 0} (p : Outcome A × Server) (f : A → Exec B) {b : B} {t : Server}
    → continue p.0 f p.1 ≡ (done b, t)
    → (a : A) × (s : Server) × (p ≡ (done a, s)) × (f a s ≡ (done b, t))
continue-done (done a, s) f h = (a, s, (λ i. (done a, s)), h)
continue-done (returned r, s) f h = absurd (ground arith)
continue-done (thrown e, s) f h = absurd (ground arith)

-- A stage that went on after another: both went on.
pub done-bind :
    {A B : Type 0} (m : Exec A) (f : A → Exec B) (s : Server) {b : B} {t : Server}
    → (m >>= f) s ≡ (done b, t)
    → (a : A) × (s' : Server) × (m s ≡ (done a, s')) × (f a s' ≡ (done b, t))
done-bind m f s h = continue-done (m s) f h

check_wall_cap-done :
    (env : Env) (s t : Server)
    → check_wall_cap env s ≡ (done tt, t)
    → (assert_within_cap none env.now s.wall_cap ≡ ok tt) × (t ≡ s)
unfolding check_wall_cap
check_wall_cap-done env s t h = ground arith

check_kill_switch-done :
    (s t : Server)
    → check_kill_switch s ≡ (done tt, t)
    → (s.kill_switch.is_active ≡ false) × (t ≡ s)
unfolding check_kill_switch check_before_action
check_kill_switch-done s t h = ground arith

check_domain-done :
    (env : Env) (name : String) (params : Params) (s t : Server) (policy : EvaluateResult)
    → check_domain env name params s ≡ (done policy, t)
    → ((evaluate env.hostname_of (url_of params) s.domain_policy).blocked
          && not (domain_of env (url_of params) == "")
        ≡ false)
      × (t ≡ s)
unfolding check_domain
check_domain-done env name params s t policy h = ground arith

check_approval-done :
    (env : Env) (name : String) (params : Params) (engine : Engine) (why : String) (s t : Server)
    → check_approval env name params engine why s ≡ (done tt, t)
    → (assert_approved env.hostname_of name (url_of params) params ≡ ok tt) × (t ≡ s)
unfolding check_approval
check_approval-done env name params engine why s t h = ground arith

check_rate-done :
    (env : Env) (domain : String) (policy : EvaluateResult) (s t : Server)
    → check_rate env domain policy s ≡ (done tt, t)
    → ((check_limit domain env.now s.rate_limiter).0.allowed ≡ true)
      × (t.circuit_breaker ≡ s.circuit_breaker)
unfolding check_rate
check_rate-done env domain policy s t h = ground arith

check_loop-done :
    (name : String) (params : Params) (s t : Server)
    → check_loop name params s ≡ (done tt, t)
    → (t.circuit_breaker ≡ s.circuit_breaker)
unfolding check_loop
check_loop-done name params s t h = ground arith

check_circuit-done :
    (env : Env) (domain : String) (s t : Server)
    → check_circuit env domain s ≡ (done tt, t)
    → ((assert_closed domain env.now s.circuit_breaker).0 ≡ ok tt)
      × (t.circuit_breaker ≡ (assert_closed domain env.now s.circuit_breaker).1)
unfolding check_circuit
check_circuit-done env domain s t h = ground arith

-- What holds of the server in front of a call that passes every guard.
pub record Permitted (env : Env) (name : String) (params : Params) (s : Server) : Type 0 where
  pub within_cap : assert_within_cap none env.now s.wall_cap ≡ ok tt
  pub switch_off : s.kill_switch.is_active ≡ false
  pub unblocked :
      (evaluate env.hostname_of (url_of params) s.domain_policy).blocked
        && not (domain_of env (url_of params) == "")
      ≡ false
  pub approved : assert_approved env.hostname_of name (url_of params) params ≡ ok tt
  pub below_rate :
      (check_limit (domain_of env (url_of params)) env.now s.rate_limiter).0.allowed ≡ true
  pub circuit_admits :
      (assert_closed (domain_of env (url_of params)) env.now s.circuit_breaker).0 ≡ ok tt

-- A call that passes the guards is within the wall-clock cap, the kill switch is off, its domain
-- is not blocked, the human approval was given, its domain is below the rate limit, and the
-- circuit of its domain admits it, all of it in the state the call began with; and the breaker
-- it leaves is the one that admitted it.
pub pass_guards-permits :
    (env : Env) (name : String) (params : Params) (s t : Server)
    → pass_guards env name params s ≡ (done tt, t)
    → Permitted env name params s
      × (t.circuit_breaker
          ≡ (assert_closed (domain_of env (url_of params)) env.now s.circuit_breaker).1)
unfolding pass_guards
pass_guards-permits env name params s t h =
    let domain = domain_of env (url_of params) in
    let (a1, s1, e1, h1) = done-bind (check_wall_cap env) _ s h in
    let (cap, p1) = check_wall_cap-done env s s1 e1 in
    let (a2, s2, e2, h2) = done-bind check_kill_switch _ s1 h1 in
    let (off, p2) = check_kill_switch-done s1 s2 e2 in
    let (policy, s3, e3, h3) = done-bind (check_domain env name params) _ s2 h2 in
    let (free, p3) = check_domain-done env name params s2 s3 policy e3 in
    let (a4, s4, e4, h4) = done-bind (check_approval env name params applescript "") _ s3 h3 in
    let (approved, p4) = check_approval-done env name params applescript "" s3 s4 e4 in
    let (a5, s5, e5, h5) = done-bind (check_rate env domain policy) _ s4 h4 in
    let (below, p5) = check_rate-done env domain policy s4 s5 e5 in
    let (a6, s6, e6, h6) = done-bind (check_loop name params) _ s5 h5 in
    let p6 = check_loop-done name params s5 s6 e6 in
    let (admitted, p7) = check_circuit-done env domain s6 t h6 in
    let start4 : s4 ≡ s = p4 ∙ p3 ∙ p2 ∙ p1 in
    let breaker : s6.circuit_breaker ≡ s.circuit_breaker =
      p6 ∙ p5 ∙ ap (λ x. x.circuit_breaker) start4 in
    (
      record {
        within_cap = cap;
        switch_off = subst (λ x. x.kill_switch.is_active ≡ false) p1 off;
        unblocked =
            subst
              (λ x.
                (evaluate env.hostname_of (url_of params) x.domain_policy).blocked
                  && not (domain == "")
                ≡ false)
              (p2 ∙ p1) free;
        approved = approved;
        below_rate =
            subst (λ x. (check_limit domain env.now x.rate_limiter).0.allowed ≡ true) start4 below;
        circuit_admits = subst (λ b. (assert_closed domain env.now b).0 ≡ ok tt) breaker admitted;
      },
      p7 ∙ ap (λ b. (assert_closed domain env.now b).1) breaker,
    )
