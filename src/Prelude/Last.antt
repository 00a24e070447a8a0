-- ===== src/Prelude/Last.antt =====
-- The last elements of a list that grows at its end.
use safari_pilot.Prelude.{
  List, ℕ, drop, length, All, ◌≤◌, take_last, arith, ◌++◌, suc, ◌≡◌, ◌+◌, length-drop, ◌∷◌, ap, [],
  ◌∙◌, zero, ◌-◌, length-append, refl, shift,
}

module _ {ℓ} {A : Type ℓ} where
  pub drop-append : (n : ℕ) (xs ys : List A) → n ≤ length xs → drop n xs ++ ys ≡ drop n (xs ++ ys)
  drop-append zero xs ys h = refl
  drop-append (suc n) [] ys h = absurd (omega arith)
  drop-append (suc n) (x ∷ xs) ys h = drop-append n xs ys (omega arith)

  pub drop-nil : (n : ℕ) → drop {A = A} n [] ≡ []
  drop-nil zero = refl
  drop-nil (suc n) = refl

  pub drop-drop : (a b : ℕ) (xs : List A) → drop a (drop b xs) ≡ drop (b + a) xs
  drop-drop a zero xs = let sums : 0 + a ≡ a = omega arith in rw sums
  drop-drop a (suc b) [] = rw (drop-nil (suc b + a), drop-nil a)
  drop-drop a (suc b) (x ∷ xs) =
      let sums : suc b + a ≡ suc (b + a) = omega arith in rw sums (drop-drop a b xs)

  pub length-take_last-le : (n : ℕ) (xs : List A) → length (take_last n xs) ≤ n
  length-take_last-le n xs = omega (arith, length-drop (length xs - n) xs)

  -- Pushing onto the last elements, or onto the whole list, leaves the same last elements.
  pub take_last-push :
      (n : ℕ) (xs : List A) (x : A)
      → take_last n (take_last n xs ++ x ∷ []) ≡ take_last n (xs ++ x ∷ [])
  take_last-push n xs x =
      let k = length xs - n in
      let same : take_last n xs ++ x ∷ [] ≡ drop k (xs ++ x ∷ []) =
        drop-append k xs (x ∷ []) (omega arith) in
      rw same (
        drop-drop (length (drop k (xs ++ x ∷ [])) - n) k (xs ++ x ∷ [])
        ∙ ap (λ m. drop m (xs ++ x ∷ []))
            (omega (arith, length-drop k (xs ++ x ∷ []), length-append xs (x ∷ []))))

  pub take_last_of_le : (n : ℕ) (xs : List A) → length xs ≤ n → take_last n xs ≡ xs
  take_last_of_le n xs h = let none_gone : length xs - n ≡ 0 = omega arith in rw none_gone

  pub shift-eq-drop : (xs : List A) → shift xs ≡ drop 1 xs
  shift-eq-drop [] = refl
  shift-eq-drop (x ∷ xs) = refl

  pub All-drop {κ} : (P : A → Type κ) (n : ℕ) (xs : List A) → All P xs → All P (drop n xs)
  All-drop P zero xs h = h
  All-drop P (suc n) [] h = h
  All-drop P (suc n) (x ∷ xs) h = All-drop P n xs h.1
