-- ===== src/Extension/TabMatch/Ranked.antt =====
-- The loop of tier 2 on the lengths alone: the longest, if it is the longest of one only.
use mathlib.Core.List.{append-nil, append_assoc}
use safari_pilot.Prelude.{
  refl, List, Option, ◌∷◌, ℕ, ◌≡◌, none, ◌++◌, Bool, [], All, filter, all, dec_lt, eqb, ◌≤◌, some,
  length, ◌<◌, leb, arith, ◌+◌, filter-append, true, Bool-cases, ◌==◌, inl, length-append, inr,
  nat_eq, false,
}
use safari_pilot.Extension.TabMatch.{consider, Best, no_best, only_best}

-- A candidate with the length of its path.
abbrev pub Ranks : Type 0
Ranks = List (ℕ × ℕ)

unfoldable pub consider_all : Ranks → Best → Best
consider_all [] b = b
consider_all ((id, n) ∷ ranks) b = consider_all ranks (consider id n b)

-- No candidate of the list is longer.
abbrev pub is_longest : Ranks → ℕ × ℕ → Bool
is_longest ranks (id, n) = all (λ r. leb r.1 n) ranks

abbrev pub the_only : Ranks → Option ℕ
the_only [] = none
the_only ((id, n) ∷ []) = some id
the_only (x ∷ y ∷ ranks) = none

abbrev of_length : ℕ → Ranks → Ranks
of_length m ranks = filter (λ r. eqb r.1 m) ranks

-- What the loop knows after the ranks `h`.
data Knows (h : Ranks) (b : Best) : Type 0 where
  nothing : h ≡ [] → b ≡ no_best → Knows h b
  longest :
      {m id : ℕ} {more : Ranks}
      → All (λ r. r.1 ≤ m) h
      → of_length m h ≡ (id, m) ∷ more
      → b ≡ record { id = some id; len = some m; count = length more + 1 }
      → Knows h b

of_length_none : (m n : ℕ) (h : Ranks) → All (λ r. r.1 ≤ m) h → m < n → of_length n h ≡ []
of_length_none m n [] a lt = refl
of_length_none m n ((id, k) ∷ h) a lt = ground (arith, a.0, of_length_none m n h a.1 lt)

All-weaken : (m n : ℕ) (h : Ranks) → All (λ r. r.1 ≤ m) h → m ≤ n → All (λ r. r.1 ≤ n) h
All-weaken m n [] a le = tt
All-weaken m n ((id, k) ∷ h) a le = (omega (arith, a.0), All-weaken m n h a.1 le)

All-push :
    (m id n : ℕ) (h : Ranks) → All (λ r. r.1 ≤ m) h → n ≤ m → All (λ r. r.1 ≤ m) (h ++ (id, n) ∷ [])
All-push m id n [] a le = (le, tt)
All-push m id n (r ∷ h) a le = (a.0, All-push m id n h a.1 le)

consider-Knows :
    (id n : ℕ) (h : Ranks) (b : Best) → Knows h b → Knows (h ++ (id, n) ∷ []) (consider id n b)
unfolding consider
consider-Knows id n h b (nothing e same) =
    longest {m = n} {id = id} {more = []} (rw e (omega arith, tt)) (rw e (ground arith))
      (rw same refl)
consider-Knows id n h b (longest {m} {id = first} {more} a found same) =
    let split = filter-append (λ r. eqb r.1 n) h ((id, n) ∷ []) in
    let split' = filter-append (λ r. eqb r.1 m) h ((id, n) ∷ []) in
    elim (dec_lt m n) [
      | yes longer ↦
          longest {m = n} {id = id} {more = []}
            (All-push n id n h (All-weaken m n h a (omega arith)) (omega arith))
            (ground (arith, split, of_length_none m n h a longer)) (rw same (ground arith))
      | no not_longer ↦ elim (Bool-cases (n == m)) [
        | inl equal ↦
            longest {m = m} {id = first} {more = more ++ (id, n) ∷ []}
              (All-push m id n h a (omega arith)) (ground (arith, split', found))
              (rw same (ground (arith, length-append more ((id, n) ∷ []))))
        | inr shorter ↦
            longest {m = m} {id = first} {more = more} (All-push m id n h a (omega arith))
              (ground (arith, split', found, append-nil (of_length m h))) (rw same (ground arith))
      ]
    ]

consider_all-Knows :
    (ranks h : Ranks) (b : Best) → Knows h b → Knows (h ++ ranks) (consider_all ranks b)
unfolding consider_all
consider_all-Knows [] h b k = rw append-nil k
consider_all-Knows ((id, n) ∷ ranks) h b k =
    rw (← append_assoc h ((id, n) ∷ []) ranks)
      (consider_all-Knows ranks (h ++ (id, n) ∷ []) (consider id n b) (consider-Knows id n h b k))

all-leb : (n : ℕ) (h : Ranks) → All (λ r. r.1 ≤ n) h → all (λ r. leb r.1 n) h ≡ true
all-leb n [] a = refl
all-leb n (r ∷ h) a = ground (arith, a.0, all-leb n h a.1)

all-false :
    (m n : ℕ) (x : ℕ × ℕ) (h more : Ranks)
    → of_length m h ≡ x ∷ more
    → n < m
    → all (λ r. leb r.1 n) h ≡ false
all-false m n x [] more found lt = absurd (ground arith)
all-false m n x (r ∷ h) more found lt = ground (arith, all-false m n x h more)

filter_longest :
    (m : ℕ) (ranks h : Ranks) (x : ℕ × ℕ) (more : Ranks)
    → All (λ r. r.1 ≤ m) ranks
    → of_length m ranks ≡ x ∷ more
    → All (λ r. r.1 ≤ m) h
    → filter (is_longest ranks) h ≡ of_length m h
filter_longest m ranks [] x more a found b = refl
filter_longest m ranks ((id, n) ∷ h) x more a found b =
    let rest = filter_longest m ranks h x more a found b.1 in
    elim (dec_lt n m) [
      | yes short ↦ ground (arith, rest, all-false m n x ranks more found short)
      | no long ↦ ground (arith, rest, b.0, all-leb n ranks (All-weaken m n ranks a (omega arith)))
    ]

-- The loop finds the candidate whose path is the longest, if exactly one has that length.
pub only_best-consider_all :
    (ranks : Ranks)
    → only_best (consider_all ranks no_best) ≡ the_only (filter (is_longest ranks) ranks)
only_best-consider_all ranks = elim (consider_all-Knows ranks [] no_best (nothing refl refl)) [
  | nothing e same ↦ rw e (ground (arith, same, e))
  | longest {m} {id} {more} a found same ↦
      rw (same, filter_longest m ranks ranks (id, m) more a found a, found) (only id m more)
]
  where
    only :
        (id m : ℕ) (more : Ranks)
        → only_best (record { id = some id; len = some m; count = length more + 1 })
          ≡ the_only ((id, m) ∷ more)
    only id m [] = ground arith
    only id m (x ∷ more) = ground arith
