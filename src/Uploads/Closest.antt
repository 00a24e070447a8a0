-- ===== src/Uploads/Closest.antt =====
-- The neighbour that `findClosestSibling` (src/path-resolve.ts) suggests.
use safari_pilot.Prelude.{
  String, ℕ, Option, List, some, none, ◌<◌, ◌≡◌, All, ◌∷◌, [], true, false, subst, ◌≤◌, ◌++◌, sym,
  refl, ap, Bool-cases, arith, ltb, inl, inr,
}
use safari_pilot.Uploads.{Folder, find_best, find_closest_sibling, suggest, Best, sibling_distance}

-- The first of the nearest entries: everything before it is further away, nothing after it nearer.
pub record IsFirstNearest (dist : String → ℕ) (entries : List String) (e : String) : Type 0 where
  pub before : List String
  pub after : List String
  pub splits : entries ≡ before ++ (e ∷ after)
  pub before_further : All (λ x. dist e < dist x) before
  pub after_not_nearer : All (λ x. dist e ≤ dist x) after

-- What the loop makes of a best entry so far at distance `d`.
data Improves (dist : String → ℕ) (es : List String) (e : String) (d : ℕ) : Best → Type 0 where
  same : All (λ x. d ≤ dist x) es → Improves dist es e d (some (e, d))
  better :
      (e' : String)
      → dist e' < d
      → IsFirstNearest dist es e'
      → Improves dist es e d (some (e', dist e'))

IsFirstNearest-head :
    (dist : String → ℕ) (x : String) (es : List String)
    → All (λ z. dist x ≤ dist z) es
    → IsFirstNearest dist (x ∷ es) x
IsFirstNearest-head dist x es a = record {
  before = [];
  after = es;
  splits = refl;
  before_further = tt;
  after_not_nearer = a;
}

IsFirstNearest-cons :
    {dist : String → ℕ} {x e : String} {es : List String}
    → dist e < dist x
    → IsFirstNearest dist es e
    → IsFirstNearest dist (x ∷ es) e
IsFirstNearest-cons {dist} {x} {e} h f = record {
  before = x ∷ f.before;
  after = f.after;
  splits = ap (λ l. x ∷ l) f.splits;
  before_further = (h, f.before_further);
  after_not_nearer = f.after_not_nearer;
}

Improves-nearer :
    {dist : String → ℕ} {es : List String} {e : String} {d : ℕ} {r : Best} (x : String)
    → dist x < d
    → Improves dist es x (dist x) r
    → Improves dist (x ∷ es) e d r
Improves-nearer {dist} {es} x h (same a) = better x h (IsFirstNearest-head dist x es a)
Improves-nearer x h (better e' k f) = better e' (omega arith) (IsFirstNearest-cons k f)

Improves-further :
    {dist : String → ℕ} {es : List String} {e : String} {d : ℕ} {r : Best} (x : String)
    → d ≤ dist x
    → Improves dist es e d r
    → Improves dist (x ∷ es) e d r
Improves-further x h (same a) = same (h, a)
Improves-further x h (better e' k f) = better e' k (IsFirstNearest-cons (omega arith) f)

find_best-Improves :
    (dist : String → ℕ) (es : List String) (e : String) (d : ℕ)
    → Improves dist es e d (find_best dist es (some (e, d)))
unfolding find_best
find_best-Improves dist [] e d = same tt
find_best-Improves dist (x ∷ es) e d = elim (Bool-cases (ltb (dist x) d)) [
  | inl h ↦ rw h (Improves-nearer x (ground arith) (find_best-Improves dist es x (dist x)))
  | inr h ↦ rw h (Improves-further x (ground arith) (find_best-Improves dist es e d))
]

-- What is suggested in a directory with these entries.
pub data Suggestion (fs : Folder) (missing : String) : Option String → Type 0 where
  no_directory : fs.exists (fs.dirname missing) ≡ false → Suggestion fs missing none
  none_near :
      fs.exists (fs.dirname missing) ≡ true
      → All (λ x. 3 < sibling_distance fs missing x) (fs.read_dir (fs.dirname missing))
      → Suggestion fs missing none
  nearest :
      (e : String)
      → fs.exists (fs.dirname missing) ≡ true
      → sibling_distance fs missing e ≤ 3
      → IsFirstNearest (sibling_distance fs missing) (fs.read_dir (fs.dirname missing)) e
      → Suggestion fs missing (some (fs.join_name (fs.dirname missing) e))

-- The loop from no entry at all.
data Found (dist : String → ℕ) (es : List String) : Best → Type 0 where
  empty : es ≡ [] → Found dist es none
  found : (e : String) → IsFirstNearest dist es e → Found dist es (some (e, dist e))

Found-head :
    {dist : String → ℕ} {x : String} {es : List String} {r : Best}
    → Improves dist es x (dist x) r
    → Found dist (x ∷ es) r
Found-head {dist} {x} {es} (same a) = found x (IsFirstNearest-head dist x es a)
Found-head (better e' k f) = found e' (IsFirstNearest-cons k f)

find_best-Found : (dist : String → ℕ) (es : List String) → Found dist es (find_best dist es none)
unfolding find_best
find_best-Found dist [] = empty refl
find_best-Found dist (x ∷ es) = Found-head (find_best-Improves dist es x (dist x))

All-append : (P : String → Type 0) (xs ys : List String) → All P xs → All P ys → All P (xs ++ ys)
All-append P [] ys p q = q
All-append P (x ∷ xs) ys p q = (p.0, All-append P xs ys p.1 q)

All-raise :
    (dist : String → ℕ) (d : ℕ) (xs : List String)
    → 3 < d
    → All (λ x. d ≤ dist x) xs
    → All (λ x. 3 < dist x) xs
All-raise dist d [] h p = tt
All-raise dist d (x ∷ xs) h p = (omega (arith, p.0), All-raise dist d xs h p.1)

All-weaken :
    (dist : String → ℕ) (d : ℕ) (xs : List String)
    → All (λ x. d < dist x) xs
    → All (λ x. d ≤ dist x) xs
All-weaken dist d [] p = tt
All-weaken dist d (x ∷ xs) p = (omega (arith, p.0), All-weaken dist d xs p.1)

IsFirstNearest-far :
    {dist : String → ℕ} {es : List String} {e : String}
    → IsFirstNearest dist es e
    → 3 < dist e
    → All (λ x. 3 < dist x) es
IsFirstNearest-far {dist} {es} {e} f h = subst (All (λ x. 3 < dist x)) (sym f.splits) (
    All-append _ f.before _
      (All-raise dist _ f.before h (All-weaken dist _ f.before f.before_further))
      (h, All-raise dist _ f.after h f.after_not_nearer))

-- The suggestion is the first of the nearest entries of the directory, and at most three edits
-- away; there is none exactly where the directory is missing or every entry is further away than
-- that.
find_closest_sibling-Suggestion :
    (fs : Folder) (missing : String) → Suggestion fs missing (find_closest_sibling fs missing)
unfolding find_closest_sibling suggest
find_closest_sibling-Suggestion fs missing = elim (Bool-cases (fs.exists (fs.dirname missing))) [
  | inl there ↦ rw there (go there (find_best-Found (sibling_distance fs missing) _))
  | inr gone ↦ rw gone (no_directory gone)
]
  where
    go :
        {r : Best}
        → fs.exists (fs.dirname missing) ≡ true
        → Found (sibling_distance fs missing) (fs.read_dir (fs.dirname missing)) r
        → Suggestion fs missing
            (elim (suggest r) [ none ↦ none | some e ↦ some (fs.join_name (fs.dirname missing) e) ])
    go there (empty e) = none_near there (rw e tt)
    go there (found e f) = elim (Bool-cases (ltb 3 (sibling_distance fs missing e))) [
      | inl far ↦ rw far (none_near there (IsFirstNearest-far f (ground arith)))
      | inr near ↦ rw near (nearest e there (ground arith) f)
    ]
