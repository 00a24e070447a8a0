-- ===== src/Wait/Tests.antt =====
-- A condition that holds at its third evaluation.
use safari_pilot.Engines.Answers.{Js}
use safari_pilot.Prelude.{String, ℕ, ◌≤◌, none, true, arith, some, suc, ◌≡◌, zero, false, refl}
use safari_pilot.Wait.{
  Waited, wait_loop, handle_wait_for, wake_at, Round, wait_end, eval_condition, truth_of_text,
}
use safari_pilot.Wait.Ends.{Ends, handle_wait_for-Ends}

abbrev texts_only : Js
texts_only = record { stringify = λ v. ""; parse = λ s. none; trim = λ s. s; trim_end = λ s. s }

abbrev says : String → Round
says s = record {
  answer = record { is_ok = true; value = some s; error = none; meta = none };
  took = 20;
  late = 1;
}

abbrev third : ℕ → Round
third (suc (suc n)) = says "true"
third _ = says "false"

third-quick : (j : ℕ) → ((third j).took ≤ 50) × ((third j).late ≤ 50)
third-quick zero = (omega arith, omega arith)
third-quick (suc zero) = (omega arith, omega arith)
third-quick (suc (suc n)) = (omega arith, omega arith)

-- Two sleeps of 100 ms, each 1 ms late, and three evaluations.
third_runs :
    wait_loop texts_only third 1000 100 9 0 0
    ≡ some (record { met = true; elapsed = 262; timed_out = false })
unfolding wait_loop wake_at wait_end eval_condition truth_of_text
third_runs = refl

-- A poll interval of 0 and evaluations that take no time use up the fuel.
abbrev never : ℕ → Round
never i = record (says "false") { took = 0; late = 0 }

never_ends : wait_loop texts_only never 10 0 100 0 0 ≡ none
unfolding wait_loop wake_at wait_end eval_condition truth_of_text
never_ends = refl

handle_wait_for-Ends_example :
    (w : Waited) × (handle_wait_for texts_only third (some 1000) (some 100) ≡ some w)
    × Ends texts_only third 1000 50 0 w
handle_wait_for-Ends_example =
    handle_wait_for-Ends texts_only third (some 1000) (some 100) 50 (omega arith) third-quick
