-- ===== src/Server/Leak.antt =====
-- The half-open circuit and a call that ends before its tool runs (src/server.ts).
use safari_pilot.Prelude.{
  refl, subst, ◌≡◌, ◌∙◌, String, ℕ, Option, arith, Bool, if◌then◌else◌, true, ◌&&◌, not, false,
  some, none, ◌+◌, ◌≤◌, ap, or_default, sym, string_eq,
}
use safari_pilot.Server.{
  continue, Server, Outcome, Exec, done, Env, returned, thrown, domain_of, url_of, pure, ◌>>◌,
}
use safari_pilot.Security.CircuitBreaker.{
  is_engine_tripped, CircuitBreaker, state_of, assert_closed, empty_state,
}
use safari_pilot.Server.Ownership.{
  check_degradation, check_ownership, check_tab, choose, tab_url_of, prepare_engine, aim_proxy,
  is_extension,
}
use safari_pilot.Server.Guards.{check_approval, pass_guards}
use safari_pilot.Engines.{select_engine, Engine, engine_name}
use safari_pilot.Params.{Params}
use safari_pilot.Security.TabOwnership.{TabId, find_by_url}
use safari_pilot.Errors.{err, circuit_breaker_open}
use safari_pilot.Server.Safety.{pass_guards-permits}
use safari_pilot.Security.CircuitBreaker.Probe.{
  assert_closed_keeps, with_probe, probe_issued, assert_closed-HasProbe, HasProbe,
}
use safari_pilot.Text.{join}
use safari_pilot.Prelude.Dict.{get}

-- What the choice of an engine leaves alone in the breaker.
pub record SameCircuits (s t : Server) : Type 0 where
  pub same_states : t.circuit_breaker.states ≡ s.circuit_breaker.states
  pub same_cooldown : t.circuit_breaker.cooldown_ms ≡ s.circuit_breaker.cooldown_ms

abbrev unchanged : (s : Server) → SameCircuits s s
unchanged s = record { same_states = refl; same_cooldown = refl }

continue-SameCircuits :
    {A B : Type 0} (p : Outcome A × Server) (f : A → Exec B) (s : Server)
    → SameCircuits s p.1
    → ((a : A) (t : Server) → SameCircuits t (f a t).1)
    → SameCircuits s (continue p.0 f p.1).1
continue-SameCircuits (done a, t) f s p q = record {
  same_states = (q a t).same_states ∙ p.same_states;
  same_cooldown = (q a t).same_cooldown ∙ p.same_cooldown;
}
continue-SameCircuits (returned r, t) f s p q = p
continue-SameCircuits (thrown e, t) f s p q = p

is_engine_tripped-keeps :
    (engine : String) (now : ℕ) (b : CircuitBreaker)
    → ((is_engine_tripped engine now b).1.states ≡ b.states)
      × ((is_engine_tripped engine now b).1.cooldown_ms ≡ b.cooldown_ms)
unfolding is_engine_tripped
is_engine_tripped-keeps engine now b = (ground arith, ground arith)

choose-SameCircuits :
    (env : Env) (name : String) (params : Params) (s : Server)
    → SameCircuits s (choose env name params s).1
unfolding choose select_engine
choose-SameCircuits env name params s =
    ground (arith, is_engine_tripped-keeps "extension" env.now s.circuit_breaker)

check_tab-SameCircuits :
    (url : String) (engine : Engine) (params : Params) (found : Option TabId) (s : Server)
    → SameCircuits s (check_tab url engine params found s).1
unfolding check_tab
check_tab-SameCircuits url engine params found s = ground arith

check_ownership-SameCircuits :
    (env : Env) (name : String) (params : Params) (engine : Engine) (s : Server)
    → SameCircuits s (check_ownership env name params engine s).1
unfolding check_ownership
check_ownership-SameCircuits env name params engine s = ground (
  arith,
  check_tab-SameCircuits (tab_url_of params) engine params
      (find_by_url (tab_url_of params) s.tab_ownership) s,
)

check_approval-SameCircuits :
    (env : Env) (name : String) (params : Params) (engine : Engine) (why : String) (s : Server)
    → SameCircuits s (check_approval env name params engine why s).1
unfolding check_approval
check_approval-SameCircuits env name params engine why s = ground arith

trans : {s t u : Server} → SameCircuits s t → SameCircuits t u → SameCircuits s u
trans p q = record {
  same_states = q.same_states ∙ p.same_states;
  same_cooldown = q.same_cooldown ∙ p.same_cooldown;
}

branch-SameCircuits :
    {A : Type 0} (test : Bool) (m : Exec A) (a : A) (s : Server)
    → SameCircuits s (m s).1
    → SameCircuits s (if test then m s else (done a, s)).1
branch-SameCircuits true m a s p = p
branch-SameCircuits false m a s p = unchanged s

heal-SameCircuits :
    (asked : Bool) (now : ℕ) (s : Server)
    → SameCircuits s (
        if asked
        then record s { circuit_breaker = (is_engine_tripped "extension" now s.circuit_breaker).1 }
        else s)
heal-SameCircuits true now s =
    let (states, cooldown) = is_engine_tripped-keeps "extension" now s.circuit_breaker in
    record { same_states = states; same_cooldown = cooldown }
heal-SameCircuits false now s = unchanged s

check_degradation-SameCircuits :
    (env : Env) (name : String) (params : Params) (engine : Engine) (s : Server)
    → SameCircuits s (check_degradation env name params engine s).1
unfolding check_degradation
check_degradation-SameCircuits env name params engine s =
    let asked = s.engine_availability.extension_up in
    let (tripped, healed) = is_engine_tripped "extension" env.now s.circuit_breaker in
    let s' = if asked then record s { circuit_breaker = healed } else s in
    let ask = check_approval env name params engine "extension_degraded_approval_required: " in
    let reason : Exec (Option String) =
      pure (some (join "extension_unavailable_fallback_to_" (engine_name engine))) in
    trans (heal-SameCircuits asked env.now s) (
      branch-SameCircuits (asked && not tripped && not (is_extension engine)) (ask >> reason) none
        s'
        (continue-SameCircuits (ask s') (λ a. reason) s'
          (check_approval-SameCircuits env name params engine _ s') (λ a t. unchanged t)))

prepare_engine-SameCircuits :
    (env : Env) (name : String) (params : Params) (s : Server)
    → SameCircuits s (prepare_engine env name params s).1
unfolding prepare_engine aim_proxy
prepare_engine-SameCircuits env name params s =
    continue-SameCircuits (choose env name params s) _ s (choose-SameCircuits env name params s)
      λ engine t.
        let t' = (aim_proxy engine t).1 in
        trans (record { same_states = refl; same_cooldown = refl })
          (continue-SameCircuits (check_ownership env name params engine t') _ t'
            (check_ownership-SameCircuits env name params engine t')
            λ checked u.
              continue-SameCircuits (check_degradation env name checked.params engine u) _ u
                (check_degradation-SameCircuits env name checked.params engine u)
                (λ degradation v. unchanged v))

-- A call whose domain is half-open, with no probe out, takes the probe at the guards. Whatever
-- the choice of the engine and the check of the tab end in, a refusal included, no outcome of the
-- probe is recorded: the server they leave refuses the domain at any later time.
pub probe_taken_before_engine :
    (env : Env) (name : String) (params : Params) (s t : Server) (opened later : ℕ)
    → (state_of (domain_of env (url_of params)) s.circuit_breaker).opened_at ≡ some opened
    → (state_of (domain_of env (url_of params)) s.circuit_breaker).probe_allowed ≡ false
    → opened + s.circuit_breaker.cooldown_ms ≤ env.now
    → env.now ≤ later
    → pass_guards env name params s ≡ (done tt, t)
    → (assert_closed
        (domain_of env (url_of params))
        later
        (prepare_engine env name params t).1.circuit_breaker).0
      ≡ err (circuit_breaker_open (domain_of env (url_of params)) 0)
probe_taken_before_engine env name params s t opened later since idle over after passed =
    let d = domain_of env (url_of params) in
    let b = (assert_closed d env.now s.circuit_breaker).1 in
    let c = (prepare_engine env name params t).1.circuit_breaker in
    let kept = prepare_engine-SameCircuits env name params t in
    let taken = (pass_guards-permits env name params s t passed).1 in
    let states : c.states ≡ b.states = kept.same_states ∙ ap (λ x. x.states) taken in
    let cooldown : c.cooldown_ms ≡ s.circuit_breaker.cooldown_ms =
      kept.same_cooldown
      ∙ ap (λ x. x.cooldown_ms) taken
      ∙ (assert_closed_keeps d env.now s.circuit_breaker).0 in
    let state : state_of d c ≡ with_probe (state_of d s.circuit_breaker) =
      ap (λ x. or_default (get d x) empty_state) states
      ∙ probe_issued d env.now opened s.circuit_breaker since over idle in
    assert_closed-HasProbe d later opened c
      (subst (HasProbe opened) (sym state) (record { since = since; is_out = refl }))
      (omega (arith, cooldown))
