-- ===== src/Wait.antt =====
-- The tool `safari_wait_for` (src/tools/wait.ts): a condition is evaluated again and again until it
-- holds or the time is over. Times are whole milliseconds since the start. What the page answers,
-- how long an evaluation takes and how late a sleep ends are given for each round.
pub mod Ends
mod Tests
use safari_pilot.Engines.Answers.{Js}
use safari_pilot.Engines.Answers.{Answer, truthy}
use safari_pilot.Prelude.{
  Bool, ℕ, not, Option, String, if◌then◌else◌, ◌+◌, none, false, or_default, min, ◌==◌, true, ◌-◌,
  some, suc, leb, string_eq, zero,
}

-- `evalCondition`: the engine's answer as a yes or no.
unfoldable pub truth_of_text : Js → String → Bool
truth_of_text js raw =
    if raw == "true"
    then true
    else (if raw == "false"
        then false
        else elim (js.parse raw) [ some v ↦ truthy v | none ↦ not (raw == "") ])

unfoldable pub eval_condition : Js → Answer → Bool
eval_condition js result = if not result.is_ok then false else elim result.value [
  | none ↦ false
  | some v ↦ if v == "" then false else truth_of_text js (js.trim v)
]

pub record Round : Type 0 where
  pub answer : Answer
  pub took : ℕ
  pub late : ℕ

-- `{ met, elapsed, timedOut }`
pub record Waited : Type 0 where
  pub met : Bool
  pub elapsed : ℕ
  pub timed_out : Bool

unfoldable pub wait_end : Bool → ℕ → Waited
wait_end met elapsed = record { met = met; elapsed = elapsed; timed_out = not met }

-- The time after the sleep that follows an evaluation that ended at `after`.
unfoldable pub wake_at : (timeout poll after late : ℕ) → ℕ
wake_at timeout poll after late = after + min poll (timeout - after) + late

-- The loop, on fuel, from round `i` on.
unfoldable pub wait_loop :
    Js → (ℕ → Round) → (timeout poll : ℕ) → (fuel i elapsed : ℕ) → Option Waited
wait_loop js rounds timeout poll zero i elapsed = none
wait_loop js rounds timeout poll (suc fuel) i elapsed =
    let after = elapsed + (rounds i).took in
    let rest =
      wait_loop js rounds timeout poll fuel (suc i) (wake_at timeout poll after (rounds i).late) in
    if leb timeout elapsed
    then some (wait_end false elapsed)
    else (if eval_condition js (rounds i).answer
        then some (wait_end true after)
        else (if leb timeout after then some (wait_end false after) else rest))

-- `handleWaitFor` with its defaults; `timeout` rounds and one are enough for a poll interval that
-- is not 0.
unfoldable pub handle_wait_for : Js → (ℕ → Round) → (timeout poll : Option ℕ) → Option Waited
handle_wait_for js rounds timeout poll =
    wait_loop js rounds (or_default timeout 10000) (or_default poll 250)
      (suc (or_default timeout 10000)) 0 0
