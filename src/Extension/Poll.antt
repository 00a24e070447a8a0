-- ===== src/Extension/Poll.antt =====
-- extension/background.js, the poll loop and what starts it anew: each turn awaits one fetch, and
-- after errors it waits longer and longer, until it leaves the rest to the alarm.
--
-- A turn is the outcome of its fetch. `broken` is a fetch that brings commands of which one throws
-- outside `executeCommand`. The random part of a wait, below 250 ms, is not modelled.
pub mod Row
mod Tests
use safari_pilot.Prelude.{
  List, Option, [], some, ℕ, ◌+◌, Bool, if◌then◌else◌, ◌∷◌, none, is_some, suc, ltb, ◌&&◌, zero,
  ◌++◌,
}

pub data Fetched : Type 0 where
  came broken aborted timed_out failed : Fetched

pub data Ending : Type 0 where
  stopped yielded_to_alarm : Ending

pub record Poll : Type 0 where
  pub attempts : ℕ
  pub waits : List ℕ
  pub ending : Option Ending

abbrev backoff_ms : List ℕ
backoff_ms = 0 ∷ 250 ∷ 500 ∷ 1000 ∷ 2000 ∷ []

abbrev nth : ℕ → List ℕ → ℕ
nth n [] = 0
nth zero (x ∷ xs) = x
nth (suc n) (x ∷ xs) = nth n xs

abbrev max_attempts : ℕ
max_attempts = 5

-- `BACKOFF_MS[Math.min(attempts, BACKOFF_MS.length - 1)]`
abbrev pub base_ms : ℕ → ℕ
base_ms attempts = nth (if ltb attempts 4 then attempts else 4) backoff_ms

-- The part of the `catch` for an error of another kind.
unfoldable pub retry : Poll → Poll
retry p =
    let attempts = p.attempts + 1 in
    if ltb max_attempts attempts
    then record p { attempts = attempts; ending = some yielded_to_alarm }
    else record p { attempts = attempts; waits = p.waits ++ base_ms attempts ∷ [] }

unfoldable pub turn : Fetched → Poll → Poll
turn came p = record p { attempts = 0 }
turn broken p = retry (record p { attempts = 0 })
turn aborted p = record p { ending = some stopped }
turn timed_out p = record p { attempts = 0 }
turn failed p = retry p

abbrev if_running : Option Ending → Poll → Poll → Poll
if_running none p next = next
if_running (some ending) p next = p

unfoldable pub poll_loop : List Fetched → Poll → Poll
poll_loop [] p = p
poll_loop (f ∷ fs) p =
    let next = turn f p in let last = poll_loop fs next in if_running next.ending next last

abbrev pub start : Poll
start = record { attempts = 0; waits = []; ending = none }

-- The loop that runs, if there is one, and the time of its last answer.
pub record Supervisor : Type 0 where
  pub controller : Option ℕ
  pub last_successful_poll : ℕ
  pub aborted_loops : List ℕ

abbrev is_healthy : ℕ → Supervisor → Bool
is_healthy now s =
    is_some s.controller && ltb 0 s.last_successful_poll && ltb now (s.last_successful_poll + 30000)

abbrev with_aborted : Option ℕ → List ℕ → List ℕ
with_aborted none loops = loops
with_aborted (some loop) loops = loop ∷ loops

-- `next` is the new loop, if one starts.
unfoldable pub supersede_poll_loop : ℕ → ℕ → Supervisor → Supervisor
supersede_poll_loop now next s = if is_healthy now s then s else record s {
  controller = some next;
  aborted_loops = with_aborted s.controller s.aborted_loops;
}
