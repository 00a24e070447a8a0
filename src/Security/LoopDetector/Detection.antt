-- ===== src/Security/LoopDetector/Detection.antt =====
-- What the detectors detect, over the whole sequence of calls since the last reset.
use mathlib.Core.List.{append-nil, append_assoc}
use safari_pilot.Security.LoopDetector.{
  call_eq, LoopDetector, List, push_last, Eq, pre_check, String, Params, is_repeated, CallRecord,
  record_snapshot_result, extract_key_args, loop_threshold, thrash_threshold, reset, empty,
}
use safari_pilot.Prelude.{
  Eq, List, String, ℕ, ◌∷◌, ◌<◌, [], Bool, take_last, leb, ◌≡◌, length, arith, ◌++◌, length-drop,
  ◌&&◌, map, ◌-◌, all, ◌==◌, ◌≤◌, ◌∙◌, dec_le, if◌then◌else◌, length-append, string_eq, refl,
}
use safari_pilot.Params.{Params}
use safari_pilot.Prelude.Last.{length-take_last-le, take_last_of_le, take_last-push, shift-eq-drop}
use safari_pilot.Errors.{err, thrash_detected, loop_detected, ok}

-- The list ends in at least `n` elements that equal `x`.
abbrev pub ends_in {ℓ} : {A : Type ℓ} ⦃e : Eq A⦄ → ℕ → A → List A → Bool
ends_in n x xs = leb n (length xs) && all (λ y. y == x) (take_last n xs)

module _ {ℓ} {A : Type ℓ} where
  push_last-le :
      (n : ℕ) (x : A) (xs : List A) → length xs ≤ n → push_last n x xs ≡ take_last n (xs ++ x ∷ [])
  unfolding push_last
  push_last-le n x xs h = elim (dec_le (length (xs ++ x ∷ [])) n) [
    | yes fits ↦ rw (take_last_of_le n (xs ++ x ∷ []) fits) (ground arith)
    | no over ↦
        let one : length (xs ++ x ∷ []) - n ≡ 1 = omega (arith, length-append xs (x ∷ [])) in
        rw (one, ← shift-eq-drop (xs ++ x ∷ [])) (ground arith)
  ]

  -- The pushed window is the end of the whole history.
  pub push_last-eq :
      (n : ℕ) (x : A) (xs : List A)
      → 0 < n
      → push_last n x (take_last n xs) ≡ take_last n (xs ++ x ∷ [])
  push_last-eq n x xs pos =
      push_last-le n x (take_last n xs) (length-take_last-le n xs) ∙ take_last-push n xs x

module _ {ℓ} {A : Type ℓ} ⦃e : Eq A⦄ where
  pub is_repeated-eq :
      (n : ℕ) (x : A) (xs : List A) → is_repeated n x (take_last n xs) ≡ ends_in n x xs
  unfolding is_repeated
  is_repeated-eq n x xs = ground (arith, length-drop (length xs - n) xs)

abbrev pub record_of : String → Params → CallRecord
record_of tool params = record { tool = tool; key_args = extract_key_args params }

-- The detector after a sequence of calls, whatever they returned.
unfoldable pub check_all : List (String × Params) → LoopDetector → LoopDetector
check_all [] d = d
check_all ((tool, params) ∷ calls) d = check_all calls (pre_check tool params d).1

unfoldable pub record_all : List String → LoopDetector → LoopDetector
record_all [] d = d
record_all (s ∷ results) d = record_all results (record_snapshot_result s d).1

check_all-history :
    (calls : List (String × Params)) (h : List CallRecord) (d : LoopDetector)
    → d.call_history ≡ take_last loop_threshold h
    → (check_all calls d).call_history
      ≡ take_last loop_threshold (h ++ map (λ c. record_of c.0 c.1) calls)
unfolding check_all pre_check
check_all-history [] h d e = rw append-nil e
check_all-history ((tool, params) ∷ calls) h d e =
    rw (← append_assoc h (record_of tool params ∷ []) (map (λ c. record_of c.0 c.1) calls)) (
      check_all-history calls (h ++ record_of tool params ∷ []) (pre_check tool params d).1
        (rw e (push_last-eq loop_threshold (record_of tool params) h (omega arith))))

record_all-history :
    (results h : List String) (d : LoopDetector)
    → d.snapshot_history ≡ take_last thrash_threshold h
    → (record_all results d).snapshot_history ≡ take_last thrash_threshold (h ++ results)
unfolding record_all record_snapshot_result
record_all-history [] h d e = rw append-nil e
record_all-history (s ∷ results) h d e = rw (← append_assoc h (s ∷ []) results) (
    record_all-history results (h ++ s ∷ []) (record_snapshot_result s d).1
      (rw e (push_last-eq thrash_threshold s h (omega arith))))

-- After a reset and any calls, the next call is refused exactly when it is at least the fifth in
-- an unbroken row of calls with its tool and its key arguments, itself included; calls that were
-- refused count too.
pub pre_check-exact :
    (calls : List (String × Params)) (d : LoopDetector) (tool : String) (params : Params)
    → (pre_check tool params (check_all calls (reset d))).0 ≡ (
        if ends_in 5
          (record_of tool params)
          (map (λ c. record_of c.0 c.1) calls ++ record_of tool params ∷ [])
        then err (loop_detected tool 5)
        else ok tt)
unfolding pre_check reset
pre_check-exact calls d tool params =
    let call = record_of tool params in
    let h = map (λ (c : String × Params). record_of c.0 c.1) calls in
    rw (
      check_all-history calls [] empty refl,
      push_last-eq loop_threshold call h (omega arith),
      is_repeated-eq loop_threshold call (h ++ call ∷ []),
    )

-- After a reset and any snapshot results, the next one is refused exactly when it is at least the
-- fourth in an unbroken row of equal results, itself included.
pub record_snapshot_result-exact :
    (results : List String) (d : LoopDetector) (s : String)
    → (record_snapshot_result s (record_all results (reset d))).0
      ≡ (if ends_in 4 s (results ++ s ∷ []) then err (thrash_detected 4) else ok tt)
unfolding record_snapshot_result reset
record_snapshot_result-exact results d s = rw (
  record_all-history results [] empty refl,
  push_last-eq thrash_threshold s results (omega arith),
  is_repeated-eq thrash_threshold s (results ++ s ∷ []),
)
