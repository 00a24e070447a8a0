-- ===== src/Engines/Answers/Proxy.antt =====
-- The proxy that the tools hold in place of an engine (src/engines/engine-proxy.ts). What an engine
-- answers to a call comes with the call.
use safari_pilot.Engines.{Engine, applescript, extension}
use safari_pilot.Prelude.{
  List, Option, String, none, ℕ, ◌≡◌, All, some, Bool, ◌++◌, ◌∷◌, [], if◌then◌else◌, ap, refl, true,
  false, not, ◌∙◌, ◌&&◌,
}
use safari_pilot.Engines.Answers.{Answer}
use safari_pilot.Params.{Value}

-- An engine as the proxy sees it: its name, and whether it has `executeJsInTabByPosition`.
pub record Delegate : Type 0 where
  pub engine : Engine
  pub by_position : Bool

pub record TabPosition : Type 0 where
  pub window_id : ℕ
  pub tab_index : ℕ

-- `EngineProxy`
pub record EngineProxy : Type 0 where
  pub name : Engine
  pub delegate : Delegate
  pub last_meta : Option Value
  pub tab_position : Option TabPosition

unfoldable pub new_proxy : Delegate → EngineProxy
new_proxy d = record { name = applescript; delegate = d; last_meta = none; tab_position = none }

unfoldable pub set_delegate : Delegate → EngineProxy → EngineProxy
set_delegate d p = record p { name = d.engine; delegate = d }

unfoldable pub set_tab_position : Option TabPosition → EngineProxy → EngineProxy
set_tab_position pos p = record p { tab_position = pos }

unfoldable pub reset_meta : EngineProxy → EngineProxy
reset_meta p = record p { last_meta = none; tab_position = none }

-- Which method of the delegate is called.
pub data Call : Type 0 where
  at_position : TabPosition → Call
  at_url : String → Call

abbrev is_extension : Engine → Bool
is_extension extension = true
is_extension _ = false

unfoldable pub call_for : String → EngineProxy → Call
call_for url p = elim p.tab_position [
  | none ↦ at_url url
  | some pos ↦
      if not (is_extension p.delegate.engine) && p.delegate.by_position
      then at_position pos
      else at_url url
]

-- `executeJsInTab` and `executeJsInFrame`, when the delegate answers.
unfoldable pub js_in_tab :
    (url : String) (answer : Call → Answer) → EngineProxy → Answer × EngineProxy
js_in_tab url answer p =
    let result = answer (call_for url p) in (result, record p { last_meta = result.meta })

unfoldable pub js_in_frame : Answer → EngineProxy → Answer × EngineProxy
js_in_frame result p = (result, record p { last_meta = result.meta })

-- What is done with a proxy.
pub data Step : Type 0 where
  delegating : Delegate → Step
  positioning : Option TabPosition → Step
  resetting : Step
  in_tab : String → (Call → Answer) → Step
  in_frame : Answer → Step

unfoldable pub take_step : Step → EngineProxy → EngineProxy
unfolding set_delegate set_tab_position reset_meta js_in_tab js_in_frame
take_step (delegating d) p = set_delegate d p
take_step (positioning pos) p = set_tab_position pos p
take_step resetting p = reset_meta p
take_step (in_tab url answer) p = (js_in_tab url answer p).1
take_step (in_frame answer) p = (js_in_frame answer p).1

abbrev pub take_steps : List Step → EngineProxy → EngineProxy
take_steps [] p = p
take_steps (s ∷ ss) p = take_steps ss (take_step s p)

-- No step of these resets the proxy, or asks an engine.
abbrev pub IsSilent : Step → Type 0
IsSilent (delegating d) = Unit
IsSilent (positioning pos) = Unit
IsSilent _ = ⊥

abbrev pub KeepsPosition : Step → Type 0
KeepsPosition (positioning pos) = ⊥
KeepsPosition resetting = ⊥
KeepsPosition _ = Unit

-- The meta that a step leaves: that of its answer, or none after a reset.
abbrev pub left_meta : Step → EngineProxy → Option Value
left_meta (in_tab url answer) p = (answer (call_for url p)).meta
left_meta (in_frame answer) p = answer.meta
left_meta resetting p = none
left_meta _ p = p.last_meta

take_steps-append :
    (ss ts : List Step) (p : EngineProxy)
    → take_steps (ss ++ ts) p ≡ take_steps ts (take_steps ss p)
take_steps-append [] ts p = refl
take_steps-append (s ∷ ss) ts p = take_steps-append ss ts (take_step s p)

silent_last_meta :
    (ss : List Step) (p : EngineProxy) → All IsSilent ss → (take_steps ss p).last_meta ≡ p.last_meta
unfolding take_step
silent_last_meta [] p h = refl
silent_last_meta (delegating d ∷ ss) p h = silent_last_meta ss _ h.1
silent_last_meta (positioning pos ∷ ss) p h = silent_last_meta ss _ h.1
silent_last_meta (resetting ∷ ss) p h = absurd h.0
silent_last_meta (in_tab url answer ∷ ss) p h = absurd h.0
silent_last_meta (in_frame answer ∷ ss) p h = absurd h.0

kept_position :
    (ss : List Step) (p : EngineProxy)
    → All KeepsPosition ss
    → (take_steps ss p).tab_position ≡ p.tab_position
unfolding take_step
kept_position [] p h = refl
kept_position (delegating d ∷ ss) p h = kept_position ss _ h.1
kept_position (positioning pos ∷ ss) p h = absurd h.0
kept_position (resetting ∷ ss) p h = absurd h.0
kept_position (in_tab url answer ∷ ss) p h = kept_position ss _ h.1
kept_position (in_frame answer ∷ ss) p h = kept_position ss _ h.1

step-left_meta : (s : Step) (p : EngineProxy) → (take_step s p).last_meta ≡ left_meta s p
unfolding take_step
step-left_meta (delegating d) p = refl
step-left_meta (positioning pos) p = refl
step-left_meta resetting p = refl
step-left_meta (in_tab url answer) p = refl
step-left_meta (in_frame answer) p = refl

-- The meta that the server reads is never that of another call: it is what the last call since
-- the last reset was answered, whatever was delegated or positioned after it, and none if there was
-- no call since.
pub last_meta-left_meta :
    (before after : List Step) (s : Step) (p : EngineProxy)
    → All IsSilent after
    → (take_steps (before ++ (s ∷ after)) p).last_meta ≡ left_meta s (take_steps before p)
last_meta-left_meta before after s p h =
    ap (λ q. q.last_meta) (take_steps-append before (s ∷ after) p)
    ∙ silent_last_meta after (take_step s (take_steps before p)) h
    ∙ step-left_meta s (take_steps before p)

-- After a reset a tab is addressed by its URL until a position is set.
call_for-reset :
    (url : String) (ss : List Step) (p : EngineProxy)
    → All KeepsPosition ss
    → call_for url (take_steps ss (reset_meta p)) ≡ at_url url
unfolding call_for reset_meta
call_for-reset url ss p kept = rw (kept_position ss (reset_meta p) kept, call_for) refl
