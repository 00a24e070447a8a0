-- ===== src/Wait/Ends.antt =====
-- How a wait (src/tools/wait.ts) ends, and when.
use safari_pilot.Engines.Answers.{Js}
use safari_pilot.Prelude.{
  eqb_iff, ℕ, ◌≤◌, arith, ◌<◌, ◌≡◌, true, false, ◌+◌, some, suc, Bool-cases, zero, eqb, inl, subst,
  eqb_iff, inr, leb, refl, Option, or_default,
}
use safari_pilot.Wait.{Round, eval_condition, Waited, wait_loop, wake_at, wait_end, handle_wait_for}

-- The condition did not hold in the rounds from `i` to before `k`.
abbrev pub FalseUntil : Js → (ℕ → Round) → ℕ → ℕ → Type 0
FalseUntil js rounds i k = (j : ℕ) → i ≤ j → j < k → eval_condition js (rounds j).answer ≡ false

-- The end of a wait that is at round `i`: the condition held in a round, the first such, or the
-- time was over, and it held in no round.
pub data Ends (js : Js) (rounds : ℕ → Round) (timeout margin i : ℕ) : Waited → Type 0 where
  held :
      (k elapsed : ℕ)
      → i ≤ k
      → eval_condition js (rounds k).answer ≡ true
      → FalseUntil js rounds i k
      → elapsed ≤ timeout + margin
      → Ends js rounds timeout margin i (wait_end true elapsed)
  over :
      (k elapsed : ℕ)
      → i ≤ k
      → FalseUntil js rounds i k
      → timeout ≤ elapsed
      → elapsed ≤ timeout + margin
      → Ends js rounds timeout margin i (wait_end false elapsed)

module _ (js : Js) (rounds : ℕ → Round) (timeout margin : ℕ) where
  FalseUntil-step :
      (i k : ℕ)
      → eval_condition js (rounds i).answer ≡ false
      → FalseUntil js rounds (suc i) k
      → FalseUntil js rounds i k
  FalseUntil-step i k now later j lo hi = elim (Bool-cases (eqb i j)) [
    | inl same ↦ subst (λ n. eval_condition js (rounds n).answer ≡ false) ((eqb_iff i j).0 same) now
    | inr other ↦ later j (ground (arith, eqb_iff i j)) hi
  ]

  Ends-step :
      (i : ℕ) {w : Waited}
      → eval_condition js (rounds i).answer ≡ false
      → Ends js rounds timeout margin (suc i) w
      → Ends js rounds timeout margin i w
  Ends-step i now (held k elapsed le yes' before bound) =
      held k elapsed (omega arith) yes' (FalseUntil-step i k now before) bound
  Ends-step i now (over k elapsed le before out bound) =
      over k elapsed (omega arith) (FalseUntil-step i k now before) out bound

  nothing_before : (i : ℕ) → FalseUntil js rounds i i
  nothing_before i j lo hi = absurd (omega (arith, lo, hi))

  only_round :
      (i : ℕ) → eval_condition js (rounds i).answer ≡ false → FalseUntil js rounds i (suc i)
  only_round i now = FalseUntil-step i (suc i) now (nothing_before (suc i))

  wake_at-later :
      (poll after late : ℕ)
      → 0 < poll
      → after < timeout
      → (after < wake_at timeout poll after late)
        × (wake_at timeout poll after late ≤ timeout + late)
  unfolding wake_at
  wake_at-later poll after late pos h = (ground arith, ground arith)

  -- A wait from round `i` on ends, if the poll interval is not 0, no evaluation takes longer than the
  -- margin and no sleep ends later than by the margin, and the fuel lasts to the timeout.
  wait_loop-Ends :
      (poll : ℕ)
      → 0 < poll
      → ((j : ℕ) → ((rounds j).took ≤ margin) × ((rounds j).late ≤ margin))
      → (fuel i elapsed : ℕ) → 0 < fuel
      → timeout < elapsed + fuel
      → elapsed ≤ timeout + margin
      → (w : Waited) × (wait_loop js rounds timeout poll fuel i elapsed ≡ some w)
        × Ends js rounds timeout margin i w
  unfolding wait_loop
  wait_loop-Ends poll pos quick zero i elapsed some_fuel enough bound = absurd (omega arith)
  wait_loop-Ends poll pos quick (suc fuel) i elapsed some_fuel enough bound =
      elim (Bool-cases (leb timeout elapsed)) [
        | inl out ↦ rw out (
          wait_end false elapsed,
          refl,
          over i elapsed (omega arith) (nothing_before i) (ground arith) bound,
        )
        | inr time ↦ rw time (elim (Bool-cases (eval_condition js (rounds i).answer)) [
          | inl true_now ↦ rw true_now (
            wait_end true after,
            refl,
            held i after (omega arith) true_now (nothing_before i) (ground (arith, quick i)),
          )
          | inr false_now ↦ rw false_now (elim (Bool-cases (leb timeout after)) [
            | inl out ↦ rw out (
              wait_end false after,
              refl,
              over (suc i) after (omega arith) (only_round i false_now) (ground arith)
                  (ground (arith, quick i)),
            )
            | inr more ↦ rw more (
                let woken = wake_at-later poll after (rounds i).late pos (ground arith) in
                let (w, e, ends) =
                  wait_loop-Ends poll pos quick fuel (suc i)
                    (wake_at timeout poll after (rounds i).late) (ground arith)
                    (ground (arith, woken)) (ground (arith, woken, quick i)) in
                (w, e, Ends-step i false_now ends))
          ])
        ])
      ]
    where
      after : ℕ
      after = elapsed + (rounds i).took

-- With a poll interval that is not 0 the tool returns. It reports that the condition was met
-- exactly where it held at an evaluation, and then stopped at the first such; otherwise it held at
-- no evaluation and the timeout is over. The time that it took exceeds the timeout by at most the
-- margin, if no evaluation takes longer than the margin and no sleep is late by more.
pub handle_wait_for-Ends :
    (js : Js) (rounds : ℕ → Round) (timeout poll : Option ℕ) (margin : ℕ)
    → 0 < or_default poll 250
    → ((j : ℕ) → ((rounds j).took ≤ margin) × ((rounds j).late ≤ margin))
    → (w : Waited) × (handle_wait_for js rounds timeout poll ≡ some w)
      × Ends js rounds (or_default timeout 10000) margin 0 w
unfolding handle_wait_for
handle_wait_for-Ends js rounds timeout poll margin pos quick =
    wait_loop-Ends js rounds (or_default timeout 10000) margin (or_default poll 250) pos quick
      (suc (or_default timeout 10000)) 0 0 (omega arith) (omega arith) (omega arith)
