-- ===== src/Server/Batch/InOrder.antt =====
-- The batch and its actions one after another.
use safari_pilot.Prelude.{
  refl, List, ℕ, Bool, true, ◌∷◌, arith, [], ◌≡◌, ◌&&◌, inl, take, ◌+◌, ◌≤◌, length, ◌⊎◌, false,
  if◌then◌else◌, inr, suc, ap, some, not, Option, subst, ltb, none, sym, ◌∙◌, Bool-cases,
}
use safari_pilot.Server.Batch.{
  Surroundings, run_actions, SubResult, Action, run_action, handle_batch, run_checked, BatchReply,
  too_many, check_actions,
}
use safari_pilot.Server.{Server}
use safari_pilot.Errors.{ok, Result, Error, err}

-- The actions one after another, whatever their results.
unfoldable pub run_in_turn : Surroundings → ℕ → List Action → Server → List SubResult × Server
run_in_turn around i [] s = ([], s)
run_in_turn around i (a ∷ actions) s =
    let (result, s') = run_action around i a s in
    let (more, t) = run_in_turn around (i + 1) actions s' in (result ∷ more, t)

-- All results but the last are good.
abbrev good_but_last : List SubResult → Bool
good_but_last [] = true
good_but_last (r ∷ []) = true
good_but_last (r ∷ q ∷ rs) = r.ok && good_but_last (q ∷ rs)

abbrev good_last : List SubResult → Bool
good_last [] = true
good_last (r ∷ []) = r.ok
good_last (r ∷ q ∷ rs) = good_last (q ∷ rs)

-- The results and the server are those of the first actions in turn: of all of them, or, when the
-- batch stops at an error, of those up to the first that fails.
abbrev pub IsTurn :
    Surroundings → Bool → ℕ → List Action → Server → List SubResult × Server → Type 0
IsTurn around stop i actions s p =
    (m : ℕ) × ((p ≡ run_in_turn around i (take m actions) s)
      × ((m ≤ length actions)
          × (((m ≡ length actions) ⊎ ((stop ≡ true) × (good_last p.0 ≡ false)))
              × (stop ≡ true → good_but_last p.0 ≡ true))))

good_last-cons :
    (r : SubResult) (rs : List SubResult) → good_last rs ≡ false → good_last (r ∷ rs) ≡ false
good_last-cons r [] h = absurd (ground arith)
good_last-cons r (q ∷ rs) h = h

good_but_last-cons :
    (r : SubResult) (rs : List SubResult)
    → r.ok ≡ true
    → good_but_last rs ≡ true
    → good_but_last (r ∷ rs) ≡ true
good_but_last-cons r [] h k = refl
good_but_last-cons r (q ∷ rs) h k = rw h k

run_actions-IsTurn :
    (around : Surroundings) (stop : Bool) (i : ℕ) (actions : List Action) (s : Server)
    → IsTurn around stop i actions s (run_actions around stop i actions s)
unfolding run_actions run_in_turn
run_actions-IsTurn around stop i [] s = (0, (refl, (omega arith, (inl refl, λ e. refl))))
run_actions-IsTurn around stop i (a ∷ actions) s =
    go (stop && not r.ok) (λ h. (ground (arith, h), ground (arith, h)))
      (λ h k. ground (arith, h, k))
      (run_actions-IsTurn around stop (i + 1) actions (run_action around i a s).1)
  where
    r : SubResult
    r = (run_action around i a s).0

    later : List SubResult × Server
    later = run_actions around stop (i + 1) actions (run_action around i a s).1

    go :
        (b : Bool)
        → (b ≡ true → (stop ≡ true) × (r.ok ≡ false))
        → (b ≡ false → stop ≡ true → r.ok ≡ true)
        → IsTurn around stop (i + 1) actions (run_action around i a s).1 later
        → IsTurn around stop i
            (a ∷ actions)
            s
            (if b then (r ∷ [], (run_action around i a s).1) else (r ∷ later.0, later.1))
    go true stopped kept rest = (1, (refl, (omega arith, (inr (stopped refl), λ e. refl))))
    go false stopped kept (m, (same, (le, (end, good)))) = (
      suc m,
      (
        ap (λ p. (r ∷ p.0, p.1)) same,
        (
          omega (arith, le),
          (
            elim end [
              | inl all ↦ inl (ap suc all)
              | inr (on, bad) ↦ inr (on, good_last-cons r later.0 bad)
            ],
            λ e. good_but_last-cons r later.0 (kept refl e) (good e),
          ),
        ),
      ),
    )

results_of : Result BatchReply → List SubResult
results_of (ok reply) = reply.results
results_of (err e) = []

abbrev is_failed : Result BatchReply → Bool
is_failed (ok reply) = false
is_failed (err e) = true

replied-IsTurn :
    (around : Surroundings) (actions : List Action) (stop : Bool) (s t : Server)
    (reply : BatchReply) (wrong : Option Error)
    → run_checked around stop actions s wrong ≡ (ok reply, t)
    → IsTurn around stop 0 actions s (reply.results, t)
unfolding run_checked results_of
replied-IsTurn around actions stop s t reply (some x) e =
    let never : true ≡ false = ap (λ p. is_failed p.0) e in absurd (ground arith)
replied-IsTurn around actions stop s t reply none e =
    let same : run_actions around stop 0 actions s ≡ (reply.results, t) =
      ap (λ p. (results_of p.0, p.1)) e in
    subst (IsTurn around stop 0 actions s) same (run_actions-IsTurn around stop 0 actions s)

-- A batch that gives a reply has at most four actions, and its results and the server after it
-- are those of its first actions, each through the whole pipeline, one after another: of all of
-- them; or, when it stops on errors, of those up to the first that fails.
pub handle_batch-IsTurn :
    (around : Surroundings) (actions : List Action) (stop : Bool) (s t : Server)
    (reply : BatchReply)
    → handle_batch around (some actions) stop s ≡ (ok reply, t)
    → (length actions ≤ 4) × IsTurn around stop 0 actions s (reply.results, t)
unfolding handle_batch run_checked
handle_batch-IsTurn around [] stop s t reply e = absurd (ground arith)
handle_batch-IsTurn around (a ∷ actions) stop s t reply e =
    elim (Bool-cases (ltb 4 (length (a ∷ actions)))) [
      | inl many ↦ let never : true ≡ false = too_many_batch many in absurd (ground arith)
      | inr few ↦ (
        ground (arith, few),
        replied-IsTurn around (a ∷ actions) stop s t reply (check_actions 0 (a ∷ actions))
            (checked few),
      )
    ]
  where
    chosen : Bool → Result BatchReply × Server
    chosen b =
        if b
        then too_many (length (a ∷ actions)) s
        else run_checked around stop (a ∷ actions) s (check_actions 0 (a ∷ actions))

    too_many_batch :
        ltb 4 (length (a ∷ actions)) ≡ true
        → is_failed (too_many (length (a ∷ actions)) s).0 ≡ is_failed (ok reply)
    too_many_batch many = ap (λ p. is_failed p.0) (sym (ap chosen many) ∙ e)

    checked :
        ltb 4 (length (a ∷ actions)) ≡ false
        → run_checked around stop (a ∷ actions) s (check_actions 0 (a ∷ actions)) ≡ (ok reply, t)
    checked few = sym (ap chosen few) ∙ e
