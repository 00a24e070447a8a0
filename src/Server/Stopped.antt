-- ===== src/Server/Stopped.antt =====
-- The active kill switch over any sequence of calls (src/server.ts, step 1).
use safari_pilot.Prelude.{
  refl, ◌≡◌, List, false, true, arith, ℕ, String, ◌∷◌, subst, if◌then◌else◌, ap, ◌+◌, sym, [], ◌∙◌,
}
use safari_pilot.Server.{continue, Server, Outcome, Exec, done, returned, Env, thrown}
use safari_pilot.Server.Audited.{is_done}
use safari_pilot.Server.Guards.{check_kill_switch, check_wall_cap, pass_guards}
use safari_pilot.Server.Execute.{Handler, execute_tool_with_security, prepare}
use safari_pilot.Security.KillSwitch.{check_before_action}
use safari_pilot.Params.{Params}
use safari_pilot.Server.Gate.{health_gate}
use safari_pilot.Server.Guarded.{health_gate-SameGuards}

-- A stage that did not go on, and left the kill switch of the server as it was.
abbrev Stops : {A : Type 0} → Server → Outcome A × Server → Type 0
Stops s p = (is_done p.0 ≡ false) × (p.1.kill_switch ≡ s.kill_switch)

continue-later_Stops :
    {A B : Type 0} (p : Outcome A × Server) (f : A → Exec B) (s : Server)
    → p.1.kill_switch ≡ s.kill_switch
    → ((a : A) (t : Server) → t.kill_switch ≡ s.kill_switch → Stops s (f a t))
    → Stops s (continue p.0 f p.1)
continue-later_Stops (done a, t) f s e next = next a t e
continue-later_Stops (returned r, t) f s e next = (refl, e)
continue-later_Stops (thrown x, t) f s e next = (refl, e)

continue-Stops :
    {A B : Type 0} (p : Outcome A × Server) (f : A → Exec B) (s : Server)
    → Stops s p
    → Stops s (continue p.0 f p.1)
continue-Stops (done a, t) f s p = absurd (ground (arith, p.0))
continue-Stops (returned r, t) f s p = p
continue-Stops (thrown x, t) f s p = p

check_wall_cap-keeps : (env : Env) (s : Server) → (check_wall_cap env s).1 ≡ s
unfolding check_wall_cap
check_wall_cap-keeps env s = ground arith

check_kill_switch-Stops :
    (s : Server) → s.kill_switch.is_active ≡ true → Stops s (check_kill_switch s)
unfolding check_kill_switch check_before_action
check_kill_switch-Stops s active = (ground (arith, active), ground (arith, active))

pass_guards-Stops :
    (env : Env) (name : String) (params : Params) (s : Server)
    → s.kill_switch.is_active ≡ true
    → Stops s (pass_guards env name params s)
unfolding pass_guards
pass_guards-Stops env name params s active =
    continue-later_Stops (check_wall_cap env s) _ s
      (ap (λ x. x.kill_switch) (check_wall_cap-keeps env s))
      λ a t e.
        let (stopped, kept) =
          check_kill_switch-Stops t (subst (λ k. k.is_active ≡ true) (sym e) active) in
        continue-Stops (check_kill_switch t) _ s (stopped, kept ∙ e)

execute-Stops :
    (handler : Handler) (env : Env) (name : String) (params : Params) (s : Server)
    → s.kill_switch.is_active ≡ true
    → Stops s (execute_tool_with_security handler env name params s)
unfolding execute_tool_with_security prepare
execute-Stops handler env name params s active = continue-Stops (prepare env name params s) _ s (
    continue-later_Stops (health_gate env name s) _ s
      (health_gate-SameGuards env name s).same_switch
      λ a t e.
        let (stopped, kept) =
          pass_guards-Stops env name params t (subst (λ k. k.is_active ≡ true) (sym e) active) in
        continue-Stops (pass_guards env name params t) _ s (stopped, kept ∙ e))

pub record Call : Type 1 where
  pub handler : Handler
  pub env : Env
  pub name : String
  pub params : Params

-- The calls of a session one after another, and how many end with the response of a tool.
unfoldable pub run_calls : List Call → Server → ℕ × Server
run_calls [] s = (0, s)
run_calls (c ∷ calls) s =
    let (o, s') = execute_tool_with_security c.handler c.env c.name c.params s in
    let (n, t) = run_calls calls s' in ((if is_done o then n + 1 else n), t)

-- From a server with the kill switch on, whatever calls come, with whatever tools and whatever
-- the environment answers, none of them ends with the response of a tool, and the kill switch stays
-- as it was.
pub active_switch_stops_all :
    (calls : List Call) (s : Server)
    → s.kill_switch.is_active ≡ true
    → ((run_calls calls s).0 ≡ 0) × ((run_calls calls s).1.kill_switch ≡ s.kill_switch)
unfolding run_calls
active_switch_stops_all [] s active = (refl, refl)
active_switch_stops_all (c ∷ calls) s active =
    let (stopped, kept) = execute-Stops c.handler c.env c.name c.params s active in
    let (count, later) =
      active_switch_stops_all calls (execute_tool_with_security c.handler c.env c.name c.params s).1
        (subst (λ k. k.is_active ≡ true) (sym kept) active) in
    (rw (stopped, count) refl, later ∙ kept)
