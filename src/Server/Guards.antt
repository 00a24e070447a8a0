-- ===== src/Server/Guards.antt =====
-- The guards that a call passes before an engine is chosen, in the order of
-- `executeToolWithSecurity` (src/server.ts): steps 0.9 to 6.
use safari_pilot.Server.{
  Env, Exec, lift, ToolResponse, text, url_of, thrown, done, domain_of, returned, audit, ◌>>◌,
  ◌>>=◌,
}
use safari_pilot.Prelude.{
  String, if◌then◌else◌, none, ◌==◌, ◌∷◌, not, [], ◌&&◌, true, some, string_eq, List, or_default,
}
use safari_pilot.Engines.{Engine, applescript}
use safari_pilot.Security.WallCap.{assert_within_cap}
use safari_pilot.Security.KillSwitch.{check_before_action}
use safari_pilot.Text.{join}
use safari_pilot.Params.{Params, obj, field, str, arr, texts, bool, end}
use safari_pilot.Security.DomainPolicy.{EvaluateResult, evaluate}
use safari_pilot.Security.CircuitBreaker.{assert_closed}
use safari_pilot.Security.HumanApproval.{assert_approved}
use safari_pilot.Security.RateLimiter.{check_limit, record_action}
use safari_pilot.Errors.{ok, rate_limited, err, other_error}
use safari_pilot.Security.LoopDetector.{reset, pre_check}
use safari_pilot.Security.AuditLog.{failed}

unfoldable pub check_wall_cap : Env → Exec (Unit {0})
check_wall_cap env s = lift (assert_within_cap none env.now s.wall_cap) s

unfoldable pub check_kill_switch : Exec (Unit {0})
check_kill_switch s = lift (check_before_action s.kill_switch) s

-- The message of the plain `Error` for a blocked domain.
abbrev pub blocked_message : String → String
blocked_message domain = join "Domain '" (
    join domain
      "' is blocked by configuration. Remove it from domainPolicy.blocked to allow access.")

-- Step 4: the policy for the URL, unless the domain is blocked.
unfoldable pub check_domain : Env → String → Params → Exec EvaluateResult
check_domain env name params s =
    let url = url_of params in
    let policy = evaluate env.hostname_of url s.domain_policy in
    if policy.blocked && not (domain_of env url == "")
    then (
      thrown (other_error none (blocked_message (domain_of env url))),
      audit env 0 name url applescript params failed s,
    )
    else (done policy, s)

abbrev approval_message : String → String → String
approval_message action domain =
    join "Human approval required for \"" (join action (join "\" on " domain))

abbrev approval_hints : String → String → List String
approval_hints action domain =
    join "Action \""
      (join action (join "\" on domain \"" (join domain "\" requires human sign-off")))
    ∷ "Wait for user to approve this action before retrying"
    ∷ "Use request_approval to initiate the approval flow"
    ∷ []

-- The soft return of a refused approval, with the error as JSON. `reason_prefix` is empty at the
-- first check and names the degradation at the second.
abbrev pub approval_response : Env → String → String → Engine → String → ToolResponse
approval_response env action domain engine reason_prefix = record {
  content =
      text (
        env.stringify_json (
          obj (
            field "error" (str "HUMAN_APPROVAL_REQUIRED") (
              field "message" (str (approval_message action domain)) (
                field "hints" (arr (texts (approval_hints action domain)))
                  (field "approvalRequired" (bool true) end))))))
      ∷ [];
  is_error = true;
  metadata = some (record {
    engine = engine;
    degraded = true;
    degraded_reason = some (join reason_prefix (approval_message action domain));
    latency_ms = 0;
    idpi_safe = true;
  });
}

-- Steps 4b and 7.5: the human approval, with its audit entry.
unfoldable pub check_approval : Env → String → Params → Engine → String → Exec (Unit {0})
check_approval env name params engine reason_prefix s =
    let url = url_of params in
    elim (assert_approved env.hostname_of name url params) [
      | ok _ ↦ (done tt, s)
      | err _ ↦ (
        returned (
            approval_response env name (or_default (env.hostname_of url) url) engine reason_prefix),
        audit env 0 name url engine params failed s,
      )
    ]

-- Step 5: the check, and then the record.
unfoldable pub check_rate : Env → String → EvaluateResult → Exec (Unit {0})
check_rate env domain policy s =
    let (check, limiter) = check_limit domain env.now s.rate_limiter in
    let s' = record s { rate_limiter = limiter } in
    if not check.allowed
    then (thrown (rate_limited domain policy.rule.max_actions_per_minute), s')
    else (let (outcome, limiter') = record_action domain env.now limiter in
        lift outcome (record s' { rate_limiter = limiter' }))

-- Step 5b: a health check resets the detector, any other tool is checked.
unfoldable pub check_loop : String → Params → Exec (Unit {0})
check_loop name params s =
    if name == "safari_health_check"
    then (done tt, record s { loop_detector = reset s.loop_detector })
    else (let (outcome, detector) = pre_check name params s.loop_detector in
        lift outcome (record s { loop_detector = detector }))

-- Step 6.
unfoldable pub check_circuit : Env → String → Exec (Unit {0})
check_circuit env domain s =
    let (outcome, breaker) = assert_closed domain env.now s.circuit_breaker in
    lift outcome (record s { circuit_breaker = breaker })

unfoldable pub pass_guards : Env → String → Params → Exec (Unit {0})
unfolding check_wall_cap check_kill_switch check_domain check_rate check_loop check_circuit
pass_guards env name params = do
  check_wall_cap env
  check_kill_switch
  policy ← check_domain env name params
  check_approval env name params applescript ""
  check_rate env (domain_of env (url_of params)) policy
  check_loop name params
  check_circuit env (domain_of env (url_of params))
