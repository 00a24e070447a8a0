-- ===== src/Discovery/Ranked.antt =====
-- What a search among the tools (src/discovery/tool-index.ts) returns and what it leaves out.
use safari_pilot.Prelude.{
  List, ℕ, take, length, ◌++◌, ◌≤◌, ◌∷◌, filter, Bool, ◌==◌, [], ◌≡◌, Bool-cases, All, drop, nat_eq,
  arith, leb, suc, ◌∙◌, ◌⊎◌, refl, ap, inl, ◌<◌, zero, inr, String, Option, or_default, false,
  subst, sym,
}
use safari_pilot.Discovery.{
  insert_hit, sort_hits, ToolHit, search_tools, Texts, ToolEntry, tokenize, hits,
}

abbrev pub has_score : ℕ → ToolHit → Bool
has_score s h = h.score == s

-- Scores do not rise.
abbrev pub IsSorted : List ToolHit → Type 0
IsSorted [] = Unit
IsSorted (h ∷ hs) = All (λ x. x.score ≤ h.score) hs × IsSorted hs

All-insert_hit :
    (n : ℕ) (h : ToolHit) (hs : List ToolHit)
    → h.score ≤ n
    → All (λ x. x.score ≤ n) hs
    → All (λ x. x.score ≤ n) (insert_hit h hs)
unfolding insert_hit
All-insert_hit n h [] le a = (le, tt)
All-insert_hit n h (x ∷ xs) le a = elim (Bool-cases (leb x.score h.score)) [
  | inl here ↦ rw here (le, a)
  | inr later ↦ rw later (a.0, All-insert_hit n h xs le a.1)
]

All-lower :
    (m n : ℕ) (hs : List ToolHit) → m ≤ n → All (λ x. x.score ≤ m) hs → All (λ x. x.score ≤ n) hs
All-lower m n [] le a = tt
All-lower m n (x ∷ xs) le a = (omega (arith, le, a.0), All-lower m n xs le a.1)

insert_hit-IsSorted : (h : ToolHit) (hs : List ToolHit) → IsSorted hs → IsSorted (insert_hit h hs)
unfolding insert_hit
insert_hit-IsSorted h [] s = (tt, tt)
insert_hit-IsSorted h (x ∷ xs) s = elim (Bool-cases (leb x.score h.score)) [
  | inl here ↦ rw here (
      let le : x.score ≤ h.score = ground (arith, here) in
      ((le, All-lower x.score h.score xs le s.0), s))
  | inr later ↦
      rw later
        (All-insert_hit x.score h xs (ground (arith, later)) s.0, insert_hit-IsSorted h xs s.1)
]

sort_hits-IsSorted : (hs : List ToolHit) → IsSorted (sort_hits hs)
unfolding sort_hits
sort_hits-IsSorted [] = tt
sort_hits-IsSorted (h ∷ hs) = insert_hit-IsSorted h (sort_hits hs) (sort_hits-IsSorted hs)

filter-insert_hit :
    (s : ℕ) (h : ToolHit) (hs : List ToolHit)
    → filter (has_score s) (insert_hit h hs) ≡ filter (has_score s) (h ∷ hs)
unfolding insert_hit
filter-insert_hit s h [] = refl
filter-insert_hit s h (x ∷ xs) = ground (arith, filter-insert_hit s h xs)

filter-sort_hits :
    (s : ℕ) (hs : List ToolHit) → filter (has_score s) (sort_hits hs) ≡ filter (has_score s) hs
unfolding sort_hits
filter-sort_hits s [] = refl
filter-sort_hits s (h ∷ hs) =
    filter-insert_hit s h (sort_hits hs) ∙ ground (arith, filter-sort_hits s hs)

take-drop {ℓ} : {A : Type ℓ} (n : ℕ) (xs : List A) → take n xs ++ drop n xs ≡ xs
take-drop zero xs = refl
take-drop (suc n) [] = refl
take-drop (suc n) (x ∷ xs) = ap (λ r. x ∷ r) (take-drop n xs)

-- What is returned has `n` entries or leaves nothing out.
take-full :
    (n : ℕ) (xs : List ToolHit)
    → (length (take n xs) ≡ n) ⊎ ((length (take n xs) < n) × (drop n xs ≡ []))
take-full zero xs = inl refl
take-full (suc n) [] = inr (omega arith, refl)
take-full (suc n) (x ∷ xs) = elim (take-full n xs) [
  | inl e ↦ inl (omega (arith, e))
  | inr (lt, e) ↦ inr (omega (arith, lt), e)
]

-- `result` is the best of `candidates`, of which `rest` is left out.
pub record IsBest (k : ℕ) (candidates result rest : List ToolHit) : Type 0 where
  pub sorted : IsSorted (result ++ rest)
  pub same_entries :
      (s : ℕ) → filter (has_score s) (result ++ rest) ≡ filter (has_score s) candidates
  pub enough : (length result ≡ k) ⊎ ((length result < k) × (rest ≡ []))

-- A query that has a token gets the best hits: with what is left out they are the entries with a
-- positive score, each as often, sorted by falling score, with the order of the index among equal
-- scores; there are as many as asked for, by default 8, or fewer where nothing is left out.
pub search_tools-IsBest :
    (ts : Texts) (entries : List ToolEntry) (query : String) (top_k : Option ℕ)
    → 0 < length (tokenize ts query)
    → (rest : List ToolHit) × IsBest
        (or_default top_k 8)
        (hits ts (tokenize ts query) entries)
        (search_tools ts entries query top_k)
        rest
unfolding search_tools
search_tools-IsBest ts entries query top_k some_token = rw no_zero (
  drop (or_default top_k 8) sorted,
  record {
    sorted = subst IsSorted (sym (take-drop _ sorted)) (sort_hits-IsSorted _);
    same_entries = λ s. ap (filter (has_score s)) (take-drop _ sorted) ∙ filter-sort_hits s _;
    enough = take-full _ sorted;
  },
)
  where
    sorted : List ToolHit
    sorted = sort_hits (hits ts (tokenize ts query) entries)

    no_zero : (length (tokenize ts query) == 0) ≡ false
    no_zero = ground arith
