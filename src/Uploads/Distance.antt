-- ===== src/Uploads/Distance.antt =====
-- The edit distance of two sequences by recursion on both, beside the table of `levenshtein`
-- (src/path-resolve.ts).
use safari_pilot.Prelude.{List, ℕ, length, ◌≡◌, suc, [], ◌∷◌, refl, ap, ◌+◌, arith, ◌∙◌, sym}
use safari_pilot.Uploads.{column, fill_row, fill_rows, first_row, levenshtein_table, cell}

-- An insertion, a deletion and a replacement of one symbol cost one each.
unfoldable pub distance : List ℕ → List ℕ → ℕ
distance [] ys = length ys
distance (x ∷ xs) [] = suc (length xs)
distance (x ∷ xs) (y ∷ ys) = cell x y (distance xs ys) (distance xs (y ∷ ys)) (distance (x ∷ xs) ys)

-- `xs` backwards, before `acc`.
abbrev pub reverse_onto : List ℕ → List ℕ → List ℕ
reverse_onto [] acc = acc
reverse_onto (x ∷ xs) acc = reverse_onto xs (x ∷ acc)

-- The row of the prefix that is `xs` backwards: one cell for each prefix of `ys`, from the one
-- that is `acc` backwards on.
abbrev row : (xs acc ys : List ℕ) → List ℕ
row xs acc [] = distance xs acc ∷ []
row xs acc (y ∷ ys) = distance xs acc ∷ row xs (y ∷ acc) ys

abbrev row_rest : (xs acc ys : List ℕ) → List ℕ
row_rest xs acc [] = []
row_rest xs acc (y ∷ ys) = row xs (y ∷ acc) ys

row_eq : (xs acc ys : List ℕ) → row xs acc ys ≡ distance xs acc ∷ row_rest xs acc ys
row_eq xs acc [] = refl
row_eq xs acc (y ∷ ys) = refl

pub distance-nil : (xs : List ℕ) → distance xs [] ≡ length xs
unfolding distance
distance-nil [] = refl
distance-nil (x ∷ xs) = refl

fill_row-row :
    (x : ℕ) (xs acc ys : List ℕ)
    → fill_row x ys (distance (x ∷ xs) acc) (distance xs acc) (row_rest xs acc ys)
      ≡ row_rest (x ∷ xs) acc ys
unfolding fill_row distance
fill_row-row x xs acc [] = refl
fill_row-row x xs acc (y ∷ ys) =
    rw (row_eq xs (y ∷ acc) ys, row_eq (x ∷ xs) (y ∷ acc) ys)
      (ap (λ r. distance (x ∷ xs) (y ∷ acc) ∷ r) (fill_row-row x xs (y ∷ acc) ys))

fill_rows-row :
    (xs done ys : List ℕ)
    → fill_rows xs ys (suc (length done)) (row done [] ys) ≡ row (reverse_onto xs done) [] ys
unfolding fill_rows distance
fill_rows-row [] done ys = refl
fill_rows-row (x ∷ xs) done ys = rw (row_eq done [] ys) (
    ap
      (λ d.
        fill_rows xs ys (suc (suc (length done)))
          (suc (length done) ∷ fill_row x ys (suc (length done)) d (row_rest done [] ys)))
      refl
    ∙ ap (fill_rows xs ys (suc (suc (length done)))) (
        ap (λ r. suc (length done) ∷ r) (fill_row-row x done [] ys) ∙ sym (row_eq (x ∷ done) [] ys))
    ∙ fill_rows-row xs (x ∷ done) ys)

column-row :
    (xs acc ys : List ℕ) → column (length ys) (row xs acc ys) ≡ distance xs (reverse_onto ys acc)
unfolding column
column-row xs acc [] = refl
column-row xs acc (y ∷ ys) = column-row xs (y ∷ acc) ys

first_row-row : (acc ys : List ℕ) → first_row (length acc) ys ≡ row [] acc ys
unfolding first_row distance
first_row-row acc [] = refl
first_row-row acc (y ∷ ys) = ap (λ r. length acc ∷ r) (first_row-row (y ∷ acc) ys)

length-reverse_onto : (xs acc : List ℕ) → length (reverse_onto xs acc) ≡ length xs + length acc
length-reverse_onto [] acc = omega arith
length-reverse_onto (x ∷ xs) acc = omega (arith, length-reverse_onto xs (x ∷ acc))

table_cons :
    (x y : ℕ) (xs ys : List ℕ)
    → levenshtein_table (x ∷ xs) (y ∷ ys)
      ≡ column (length (y ∷ ys)) (fill_rows (x ∷ xs) (y ∷ ys) 1 (first_row 0 (y ∷ ys)))
unfolding levenshtein_table
table_cons x y xs ys = ground arith

pub levenshtein_table-eq-distance :
    (xs ys : List ℕ) → levenshtein_table xs ys ≡ distance (reverse_onto xs []) (reverse_onto ys [])
unfolding levenshtein_table distance
levenshtein_table-eq-distance [] ys = omega (arith, length-reverse_onto ys [])
levenshtein_table-eq-distance (x ∷ xs) [] =
    grind (arith, distance-nil (reverse_onto xs (x ∷ [])), length-reverse_onto xs (x ∷ []))
levenshtein_table-eq-distance (x ∷ xs) (y ∷ ys) =
    table_cons x y xs ys
    ∙ ap (column (length (y ∷ ys))) (
        ap (fill_rows (x ∷ xs) (y ∷ ys) 1) (first_row-row [] (y ∷ ys))
        ∙ fill_rows-row (x ∷ xs) [] (y ∷ ys))
    ∙ column-row (reverse_onto xs (x ∷ [])) [] (y ∷ ys)
