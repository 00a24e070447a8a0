-- ===== src/Server/Owned/Strangers.antt =====
-- What the steps up to the dispatch make of a call whose URL the registry does not know
-- (src/server.ts, step 7d).
use safari_pilot.Server.{Env, Server, done, Outcome, returned, audit, url_of}
use safari_pilot.Server.Ownership.{
  check_ownership, choose, inject_window, check_tab, skips_ownership, Checked, tab_url_of,
  unavailable_response, prepare_engine, Ready, aim_proxy, check_degradation,
}
use safari_pilot.Prelude.{
  String, Bool, ◌==◌, ◌≡◌, false, ◌||◌, some, string_eq, not, ◌&&◌, none, refl, true, arith, Option,
  ap, sym, ◌∙◌,
}
use safari_pilot.Params.{Params}
use safari_pilot.Security.TabOwnership.{find_by_url}
use safari_pilot.Engines.{Engine, extension, ToolRequirements, applescript, select_engine}
use safari_pilot.Prelude.Dict.{get}
use safari_pilot.Errors.{ok, err, Result}
use safari_pilot.Security.AuditLog.{failed}
use safari_pilot.Security.CircuitBreaker.{CircuitBreaker}
use safari_pilot.Server.Safety.{done-bind}

-- The calls that the ownership check does not ask about the registry: those without a URL, those
-- of three tools, and, under the bypass of the harness, closing a tab that is not the session's.
abbrev pub is_unchecked : Env → String → Params → Server → Bool
is_unchecked env name params s =
    let tab_url = tab_url_of params in
    tab_url == ""
    || (name == "safari_list_tabs" || name == "safari_new_tab" || name == "safari_health_check")
    || not (tab_url == s.session_tab_url) && (env.harness_bypass && name == "safari_close_tab")

check_ownership-stranger :
    (env : Env) (name : String) (params : Params) (engine : Engine) (s s' : Server)
    (checked : Checked)
    → check_ownership env name params engine s ≡ (done checked, s')
    → is_unchecked env name params s ≡ false
    → find_by_url (tab_url_of params) s.tab_ownership ≡ none
    → (engine ≡ extension) × (checked.deferred ≡ true) × (checked.params ≡ params)
unfolding check_ownership check_tab skips_ownership
check_ownership-stranger env name params engine s s' checked h asked unknown = (
  ground (arith, h, asked, unknown),
  ground (arith, h, asked, unknown),
  ground (arith, h, asked, unknown),
)

choose-keeps :
    (env : Env) (name : String) (params : Params) (s s' : Server) (engine : Engine)
    → choose env name params s ≡ (done engine, s')
    → (s'.tab_ownership ≡ s.tab_ownership) × (s'.session_tab_url ≡ s.session_tab_url)
unfolding choose
choose-keeps env name params s s' engine h = go (get name s.tools) h
  where
    chosen_by :
        (p : Result Engine × CircuitBreaker)
        → (elim p.0 as (λ x. Outcome Engine × Server) [
          | ok e ↦ (done e, record s { circuit_breaker = p.1 })
          | err _ ↦ (
            returned unavailable_response,
            audit env 0 name
                (url_of params)
                applescript
                params
                failed
                (record s { circuit_breaker = p.1 }),
          )
        ])
          ≡ (done engine, s')
        → (s'.tab_ownership ≡ s.tab_ownership) × (s'.session_tab_url ≡ s.session_tab_url)
    chosen_by (ok e, breaker) h =
        let same : record s { circuit_breaker = breaker } ≡ s' = ap (λ p. p.1) h in
        (ap (λ t. t.tab_ownership) (sym same), ap (λ t. t.session_tab_url) (sym same))
    chosen_by (err x, breaker) h = absurd (ground arith)

    go :
        (o : Option ToolRequirements)
        → (elim o as (λ x. Outcome Engine × Server) [
          | none ↦ (done applescript, s)
          | some requirements ↦
              (let (chosen, breaker) =
                  select_engine requirements s.engine_availability s.extension_enabled env.now
                    s.circuit_breaker in
                let t = record s { circuit_breaker = breaker } in
                elim chosen [
                  | ok e ↦ (done e, t)
                  | err _ ↦ (
                    returned unavailable_response,
                    audit env 0 name (url_of params) applescript params failed t,
                  )
                ])
        ])
          ≡ (done engine, s')
        → (s'.tab_ownership ≡ s.tab_ownership) × (s'.session_tab_url ≡ s.session_tab_url)
    go none e =
        let same : s ≡ s' = ap (λ p. p.1) e in
        (ap (λ t. t.tab_ownership) (sym same), ap (λ t. t.session_tab_url) (sym same))
    go (some requirements) e =
        chosen_by
          (select_engine requirements s.engine_availability s.extension_enabled env.now
            s.circuit_breaker)
          e

inject_window-other :
    (name : String) (params : Params) (s : Server)
    → (name == "safari_new_tab") ≡ false
    → inject_window name params s ≡ params
unfolding inject_window
inject_window-other name params s h = rw h refl

abbrev ready_or : Ready → Outcome Ready → Ready
ready_or other (done ready) = ready
ready_or other _ = other

pub prepare_engine-stranger :
    (env : Env) (name : String) (params : Params) (s s' : Server) (ready : Ready)
    → prepare_engine env name params s ≡ (done ready, s')
    → is_unchecked env name params s ≡ false
    → find_by_url (tab_url_of params) s.tab_ownership ≡ none
    → (ready.engine ≡ extension) × (ready.deferred ≡ true) × (ready.params ≡ params)
unfolding prepare_engine aim_proxy
prepare_engine-stranger env name params s s' ready h asked unknown =
    let (engine, s1, chosen, h1) = done-bind (choose env name params) _ s h in
    let s2 = (aim_proxy engine s1).1 in
    let (checked, s3, owns, h2) = done-bind (check_ownership env name params engine) _ s2 h1 in
    let (degradation, s4, degraded, h3) =
      done-bind (check_degradation env name checked.params engine) _ s3 h2 in
    let (tabs, session) = choose-keeps env name params s s1 engine chosen in
    let (in_extension, deferred, same) =
      check_ownership-stranger env name params engine s2 s3 checked owns (rw session asked)
        (rw tabs unknown) in
    let made = ap (λ p. ready_or ready p.0) h3 in
    (
      ap (λ x. x.engine) (sym made) ∙ in_extension,
      ap (λ x. x.deferred) (sym made) ∙ deferred,
      ap (λ x. x.params) (sym made)
          ∙ inject_window-other name checked.params s4 (ground (arith, asked))
          ∙ same,
    )
