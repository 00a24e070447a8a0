-- ===== src/Text/Decimal.antt =====
-- The characters of joined texts and of printed numbers.
use Prim.Native.String.append
use safari_pilot.Prelude.{
  List, String, ℕ, ◌++◌, ◌∷◌, ◌<◌, ◌≡◌, ◌+◌, suc, true, arith, ap, [], Bool-cases, zero, ltb, inl,
  refl, inr, ◌/◌, ◌∙◌,
}
use safari_pilot.Text.{decimal, is_digit, decimal_from, codes, digit, join, ◌%◌, code}

pub data IsDigits : List ℕ → Type 0 where
  last_digit : (c : ℕ) → is_digit c ≡ true → IsDigits (c ∷ [])
  more_digits : (c : ℕ) {cs : List ℕ} → is_digit c ≡ true → IsDigits cs → IsDigits (c ∷ cs)

pub codes-join : (s t : String) → codes (join s t) ≡ codes s ++ codes t
codes-join String.[] t = ap codes (append.nil t)
codes-join (String.◌∷◌ c s) t = ap codes (append.cons c s t) ∙ ap (λ r. code c ∷ r) (codes-join s t)

IsDigits-append : (xs ys : List ℕ) → IsDigits xs → IsDigits ys → IsDigits (xs ++ ys)
IsDigits-append [] ys p q = elim p [ ]
IsDigits-append (c ∷ []) ys (last_digit c' d) q = more_digits c d q
IsDigits-append (c ∷ xs) ys (more_digits c' d p) q = more_digits c d (IsDigits-append xs ys p q)

digit-IsDigits : (n : ℕ) → IsDigits (codes (digit n))
digit-IsDigits zero = last_digit _ refl
digit-IsDigits (suc zero) = last_digit _ refl
digit-IsDigits (suc (suc zero)) = last_digit _ refl
digit-IsDigits (suc (suc (suc zero))) = last_digit _ refl
digit-IsDigits (suc (suc (suc (suc zero)))) = last_digit _ refl
digit-IsDigits (suc (suc (suc (suc (suc zero))))) = last_digit _ refl
digit-IsDigits (suc (suc (suc (suc (suc (suc zero)))))) = last_digit _ refl
digit-IsDigits (suc (suc (suc (suc (suc (suc (suc zero))))))) = last_digit _ refl
digit-IsDigits (suc (suc (suc (suc (suc (suc (suc (suc zero)))))))) = last_digit _ refl
digit-IsDigits (suc (suc (suc (suc (suc (suc (suc (suc (suc n))))))))) = last_digit _ refl

decimal_from-IsDigits : (fuel n : ℕ) → n < fuel → IsDigits (codes (decimal_from fuel n))
unfolding decimal_from
decimal_from-IsDigits zero n h = absurd (omega arith)
decimal_from-IsDigits (suc fuel) n h = elim (Bool-cases (ltb n 10)) [
  | inl small ↦ rw small (digit-IsDigits n)
  | inr large ↦
      rw (large, codes-join (decimal_from fuel (n / 10)) (digit (n % 10)))
        (IsDigits-append _ _ (decimal_from-IsDigits fuel (n / 10) (ground arith))
          (digit-IsDigits (n % 10)))
]

pub decimal-IsDigits : (n : ℕ) → IsDigits (codes (decimal n))
unfolding decimal
decimal-IsDigits n = decimal_from-IsDigits (n + 1) n (omega arith)
