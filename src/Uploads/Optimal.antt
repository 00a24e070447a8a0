-- ===== src/Uploads/Optimal.antt =====
-- `levenshtein` (src/path-resolve.ts) against edit scripts: sequences of insertions, deletions and
-- replacements that turn one text into another.
use mathlib.Core.List.{append-nil, append_assoc}
use native.Mathlib.Numerals.{add-one}
use safari_pilot.Prelude.{
  List, ℕ, ◌++◌, ◌∷◌, ◌≡◌, [], length, suc, ◌∙◌, sym, Bool-cases, ap, ◌==◌, refl, inl, subst,
  eqb_iff, inr, ltb, nat_eq, ◌≤◌, arith, ==_refl, String, eq_iff, string_eq,
}
use safari_pilot.Uploads.{cell, levenshtein, levenshtein_table}
use safari_pilot.Uploads.Distance.{
  distance-nil, distance, reverse_onto, levenshtein_table-eq-distance,
}
use safari_pilot.Text.{codes}

-- A script from one sequence to another, with its number of edits.
pub data Script : List ℕ → List ℕ → ℕ → Type 0 where
  done : Script [] [] 0
  keep : (x : ℕ) {xs ys : List ℕ} {n : ℕ} → Script xs ys n → Script (x ∷ xs) (x ∷ ys) n
  insert : (y : ℕ) {xs ys : List ℕ} {n : ℕ} → Script xs ys n → Script xs (y ∷ ys) (suc n)
  delete : (x : ℕ) {xs ys : List ℕ} {n : ℕ} → Script xs ys n → Script (x ∷ xs) ys (suc n)
  replace : (x y : ℕ) {xs ys : List ℕ} {n : ℕ} → Script xs ys n → Script (x ∷ xs) (y ∷ ys) (suc n)

-- A script may be built at either end.
keep_last :
    (x : ℕ) {xs ys : List ℕ} {n : ℕ} → Script xs ys n → Script (xs ++ (x ∷ [])) (ys ++ (x ∷ [])) n
keep_last x done = keep x done
keep_last x (keep y s) = keep y (keep_last x s)
keep_last x (insert y s) = insert y (keep_last x s)
keep_last x (delete y s) = delete y (keep_last x s)
keep_last x (replace y z s) = replace y z (keep_last x s)

insert_last : (x : ℕ) {xs ys : List ℕ} {n : ℕ} → Script xs ys n → Script xs (ys ++ (x ∷ [])) (suc n)
insert_last x done = insert x done
insert_last x (keep y s) = keep y (insert_last x s)
insert_last x (insert y s) = insert y (insert_last x s)
insert_last x (delete y s) = delete y (insert_last x s)
insert_last x (replace y z s) = replace y z (insert_last x s)

delete_last : (x : ℕ) {xs ys : List ℕ} {n : ℕ} → Script xs ys n → Script (xs ++ (x ∷ [])) ys (suc n)
delete_last x done = delete x done
delete_last x (keep y s) = keep y (delete_last x s)
delete_last x (insert y s) = insert y (delete_last x s)
delete_last x (delete y s) = delete y (delete_last x s)
delete_last x (replace y z s) = replace y z (delete_last x s)

replace_last :
    (x w : ℕ) {xs ys : List ℕ} {n : ℕ}
    → Script xs ys n
    → Script (xs ++ (x ∷ [])) (ys ++ (w ∷ [])) (suc n)
replace_last x w done = replace x w done
replace_last x w (keep y s) = keep y (replace_last x w s)
replace_last x w (insert y s) = insert y (replace_last x w s)
replace_last x w (delete y s) = delete y (replace_last x w s)
replace_last x w (replace y z s) = replace y z (replace_last x w s)

abbrev reverse : List ℕ → List ℕ
reverse [] = []
reverse (x ∷ xs) = reverse xs ++ (x ∷ [])

Script-reverse : {xs ys : List ℕ} {n : ℕ} → Script xs ys n → Script (reverse xs) (reverse ys) n
Script-reverse done = done
Script-reverse (keep x s) = keep_last x (Script-reverse s)
Script-reverse (insert y s) = insert_last y (Script-reverse s)
Script-reverse (delete x s) = delete_last x (Script-reverse s)
Script-reverse (replace x y s) = replace_last x y (Script-reverse s)

reverse_onto-eq : (xs acc : List ℕ) → reverse_onto xs acc ≡ reverse xs ++ acc
reverse_onto-eq [] acc = refl
reverse_onto-eq (x ∷ xs) acc =
    reverse_onto-eq xs (x ∷ acc) ∙ sym (append_assoc (reverse xs) (x ∷ []) acc)

reverse-append : (xs ys : List ℕ) → reverse (xs ++ ys) ≡ reverse ys ++ reverse xs
reverse-append [] ys = sym (append-nil (reverse ys))
reverse-append (x ∷ xs) ys =
    ap (λ r. r ++ (x ∷ [])) (reverse-append xs ys) ∙ append_assoc (reverse ys) (reverse xs) (x ∷ [])

reverse-reverse : (xs : List ℕ) → reverse (reverse xs) ≡ xs
reverse-reverse [] = refl
reverse-reverse (x ∷ xs) =
    reverse-append (reverse xs) (x ∷ []) ∙ ap (λ r. x ∷ r) (reverse-reverse xs)

-- `distance` is the cost of a script.
insert_all : (ys : List ℕ) → Script [] ys (length ys)
insert_all [] = done
insert_all (y ∷ ys) = insert y (insert_all ys)

delete_all : (xs : List ℕ) → Script xs [] (length xs)
delete_all [] = done
delete_all (x ∷ xs) = delete x (delete_all xs)

keep_all : (xs : List ℕ) → Script xs xs 0
keep_all [] = done
keep_all (x ∷ xs) = keep x (keep_all xs)

cell-Script :
    (x y : ℕ) (xs ys : List ℕ) (prev above left : ℕ)
    → Script xs ys prev
    → Script xs (y ∷ ys) above
    → Script (x ∷ xs) ys left
    → Script (x ∷ xs) (y ∷ ys) (cell x y prev above left)
unfolding cell
cell-Script x y xs ys prev above left p a l = elim (Bool-cases (x == y)) [
  | inl same ↦
      rw same (subst (λ z. Script (x ∷ xs) (z ∷ ys) prev) ((eqb_iff x y).0 same) (keep x p))
  | inr other ↦ rw other (elim (Bool-cases (ltb above prev)) [
    | inl one ↦ rw one (elim (Bool-cases (ltb left above)) [
      | inl two ↦ rw (two, add-one) (insert y l)
      | inr two ↦ rw (two, add-one) (delete x a)
    ])
    | inr one ↦ rw one (elim (Bool-cases (ltb left prev)) [
      | inl two ↦ rw (two, add-one) (insert y l)
      | inr two ↦ rw (two, add-one) (replace x y p)
    ])
  ])
]

distance-Script : (xs ys : List ℕ) → Script xs ys (distance xs ys)
unfolding distance
distance-Script [] ys = insert_all ys
distance-Script (x ∷ xs) [] = delete_all (x ∷ xs)
distance-Script (x ∷ xs) (y ∷ ys) =
    cell-Script x y xs ys _ _ _ (distance-Script xs ys) (distance-Script xs (y ∷ ys))
      (distance-Script (x ∷ xs) ys)

-- One more symbol on either side changes the distance by at most one.
distance-delete_le :
    (xs : List ℕ) (x : ℕ)
    → ((y : ℕ) (ys : List ℕ) → distance xs (y ∷ ys) ≤ suc (distance xs ys))
    → (ys : List ℕ) → distance xs ys ≤ suc (distance (x ∷ xs) ys)
unfolding distance cell
distance-delete_le xs x grow [] = omega (arith, distance-nil xs)
distance-delete_le xs x grow (y ∷ ys) = ground (arith, grow y ys, distance-delete_le xs x grow ys)

distance-insert_le :
    (xs : List ℕ) (y : ℕ) (ys : List ℕ) → distance xs (y ∷ ys) ≤ suc (distance xs ys)
unfolding distance cell
distance-insert_le [] y ys = omega arith
distance-insert_le (x ∷ xs) y ys =
    ground (arith, distance-delete_le xs x (distance-insert_le xs) ys)

cell_comm : (x y p a l : ℕ) → cell x y p a l ≡ cell y x p l a
unfolding cell
cell_comm x y p a l = ground (arith, eqb_iff x y, eqb_iff y x)

distance_comm : (xs ys : List ℕ) → distance xs ys ≡ distance ys xs
unfolding distance
distance_comm [] ys = sym (distance-nil ys)
distance_comm (x ∷ xs) [] = refl
distance_comm (x ∷ xs) (y ∷ ys) =
    rw (distance_comm xs ys, distance_comm xs (y ∷ ys), distance_comm (x ∷ xs) ys)
      (cell_comm x y _ _ _)

distance-replace_le : (x y : ℕ) (xs ys : List ℕ) → distance (x ∷ xs) (y ∷ ys) ≤ suc (distance xs ys)
unfolding distance cell
distance-replace_le x y xs ys = ground arith

-- No script is shorter than `distance`.
distance-le : {xs ys : List ℕ} {n : ℕ} → Script xs ys n → distance xs ys ≤ n
unfolding distance cell
distance-le done = omega arith
distance-le (keep x {xs} {ys} s) = rw (cell, ==_refl x) (distance-le s)
distance-le (insert y {xs} {ys} s) = omega (arith, distance-insert_le xs y ys, distance-le s)
distance-le (delete x {xs} {ys} s) = omega (
  arith,
  distance-insert_le ys x xs,
  distance_comm (x ∷ xs) ys,
  distance_comm xs ys,
  distance-le s,
)
distance-le (replace x y {xs} {ys} s) = omega (arith, distance-replace_le x y xs ys, distance-le s)

-- `levenshtein(a, b)` is the least number of edits: some script of that many insertions, deletions
-- and replacements turns `a` into `b`, and no script from `a` to `b` has fewer.
pub levenshtein-Script :
    (a b : String)
    → Script (codes a) (codes b) (levenshtein a b)
      × ((n : ℕ) → Script (codes a) (codes b) n → levenshtein a b ≤ n)
unfolding levenshtein
levenshtein-Script a b = elim (Bool-cases (a == b)) [
  | inl same ↦ rw same (
    subst (λ t. Script (codes a) (codes t) 0) ((eq_iff a b).0 same) (keep_all (codes a)),
    λ n s. omega arith,
  )
  | inr other ↦
      rw (other, table_eq (codes a) (codes b))
        (table_Script (codes a) (codes b), λ n s. distance-le (Script-reverse s))
]
  where
    table_eq : (xs ys : List ℕ) → levenshtein_table xs ys ≡ distance (reverse xs) (reverse ys)
    table_eq xs ys =
        levenshtein_table-eq-distance xs ys
        ∙ rw
            (
              reverse_onto-eq xs [],
              reverse_onto-eq ys [],
              append-nil (reverse xs),
              append-nil (reverse ys),
            )
            refl

    table_Script : (xs ys : List ℕ) → Script xs ys (distance (reverse xs) (reverse ys))
    table_Script xs ys =
        subst (λ r. Script r ys (distance (reverse xs) (reverse ys))) (reverse-reverse xs)
          (subst (λ r. Script (reverse (reverse xs)) r (distance (reverse xs) (reverse ys)))
            (reverse-reverse ys) (Script-reverse (distance-Script (reverse xs) (reverse ys))))
