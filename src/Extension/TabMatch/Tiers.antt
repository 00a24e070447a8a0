-- ===== src/Extension/TabMatch/Tiers.antt =====
-- What the three tiers find together, described without their loops.
use safari_pilot.Prelude.{
  refl, Option, String, ℕ, Bool, List, ◌==◌, ◌∷◌, ◌≡◌, if◌then◌else◌, length, false, filter, some,
  none, arith, [], inl, ◌+◌, string_eq, Bool-cases, inr, nat_eq, ◌∙◌,
}
use safari_pilot.Extension.TabMatch.{
  same_page, same_normal, find_longest, find_exact, match_extension, Browser, match_tab_url,
  count_normal, OriginPath, Candidate, origin_and_path, Best, extension_length, match_normal,
  consider, no_best, only_best,
}
use safari_pilot.Extension.TabMatch.Ranked.{
  consider_all, Ranks, the_only, is_longest, only_best-consider_all,
}

abbrev pub rank_onto : ℕ → Option ℕ → Ranks → Ranks
rank_onto id none ranks = ranks
rank_onto id (some n) ranks = (id, n) ∷ ranks

-- The candidates that extend the page, with the lengths of their paths.
abbrev pub ranks_of : Browser → OriginPath → List Candidate → Ranks
ranks_of browser requested [] = []
ranks_of browser requested (c ∷ cs) =
    rank_onto c.id (extension_length browser requested c) (ranks_of browser requested cs)

-- The one extension whose path is longer than those of all others.
abbrev pub longest_extension : Browser → String → List Candidate → Option ℕ
longest_extension browser requested cs = elim (origin_and_path browser requested) [
  | none ↦ none
  | some origin ↦
      the_only (filter (is_longest (ranks_of browser origin cs)) (ranks_of browser origin cs))
]

-- One candidate only, and otherwise the answer of the next tier.
abbrev pub one_or : Option ℕ → List Candidate → Option ℕ
one_or next [] = next
one_or next (c ∷ []) = some c.id
one_or next (c ∷ d ∷ cs) = next

abbrev pub first_or : Option ℕ → List Candidate → Option ℕ
first_or next [] = next
first_or next (c ∷ cs) = some c.id

find_exact-filter :
    (requested : String) (cs : List Candidate)
    → find_exact requested cs ≡ first_or none (filter (same_page requested) cs)
unfolding find_exact
find_exact-filter requested [] = refl
find_exact-filter requested (c ∷ cs) = ground (arith, find_exact-filter requested cs)

abbrev last_id : Option ℕ → List Candidate → Option ℕ
last_id id [] = id
last_id id (c ∷ cs) = last_id (some c.id) cs

count_normal-filter :
    (matches : Candidate → Bool) (cs : List Candidate) (id : Option ℕ) (count : ℕ)
    → count_normal matches cs (id, count)
      ≡ (last_id id (filter matches cs), count + length (filter matches cs))
unfolding count_normal
count_normal-filter matches [] id count = ground arith
count_normal-filter matches (c ∷ cs) id count = elim (Bool-cases (matches c)) [
  | inl hit ↦ rw hit (count_normal-filter matches cs (some c.id) (count + 1) ∙ ground arith)
  | inr miss ↦ rw miss (count_normal-filter matches cs id count)
]

unique_count :
    (next : Option ℕ) (fs : List Candidate)
    → (if 0 + length fs == 1 then last_id none fs else next) ≡ one_or next fs
unique_count next [] = ground arith
unique_count next (c ∷ []) = ground arith
unique_count next (c ∷ d ∷ fs) = ground arith

find_longest-ranks :
    (browser : Browser) (requested : OriginPath) (cs : List Candidate) (b : Best)
    → find_longest browser requested cs b ≡ consider_all (ranks_of browser requested cs) b
unfolding find_longest consider_all
find_longest-ranks browser requested [] b = refl
find_longest-ranks browser requested (c ∷ cs) b =
    go (extension_length browser requested c) (find_longest-ranks browser requested cs)
  where
    go :
        (len : Option ℕ)
        → ((d : Best)
            → find_longest browser requested cs d ≡ consider_all (ranks_of browser requested cs) d)
        → find_longest browser requested cs (elim len [ none ↦ b | some n ↦ consider c.id n b ])
          ≡ consider_all (rank_onto c.id len (ranks_of browser requested cs)) b
    go none rest = rest b
    go (some n) rest = rest (consider c.id n b)

match_extension-longest :
    (browser : Browser) (requested : String) (cs : List Candidate)
    → match_extension browser requested cs ≡ longest_extension browser requested cs
unfolding match_extension
match_extension-longest browser requested cs = go (origin_and_path browser requested)
  where
    go :
        (o : Option OriginPath)
        → (elim o [
          | none ↦ none
          | some origin ↦ only_best (find_longest browser origin cs no_best)
        ])
          ≡ (elim o [
            | none ↦ none
            | some origin ↦
                the_only
                  (filter (is_longest (ranks_of browser origin cs)) (ranks_of browser origin cs))
          ])
    go none = refl
    go (some origin) =
        rw (find_longest-ranks browser origin cs no_best)
          (only_best-consider_all (ranks_of browser origin cs))

match_normal-one_or :
    (browser : Browser) (requested : String) (cs : List Candidate)
    → match_normal browser requested cs
      ≡ one_or (longest_extension browser requested cs) (filter (same_normal browser requested) cs)
match_normal-one_or browser requested cs =
    rw
      (
        count_normal-filter (same_normal browser requested) cs none 0,
        match_extension-longest browser requested cs,
      )
      (unique_count (longest_extension browser requested cs)
        (filter (same_normal browser requested) cs))

-- A URL means the first tab with the same URL, up to one slash at the end; or else the only tab
-- that is the same page without fragment, tracking parameters and `www.`; or else, also when
-- several tabs are that page, the tab of the same origin whose path extends the path by whole
-- segments, if its path is longer than those of all the others; or else no tab.
pub match_tab_url-exact :
    (browser : Browser) (requested : String) (cs : List Candidate)
    → (requested == "") ≡ false
    → match_tab_url browser requested cs
      ≡ first_or
          (one_or
            (longest_extension browser requested cs)
            (filter (same_normal browser requested) cs))
          (filter (same_page requested) cs)
unfolding match_tab_url
match_tab_url-exact browser requested cs present =
    rw (present, find_exact-filter requested cs)
      (go (filter (same_page requested) cs) (match_normal-one_or browser requested cs))
  where
    go :
        (found : List Candidate)
        → match_normal browser requested cs
          ≡ one_or
              (longest_extension browser requested cs)
              (filter (same_normal browser requested) cs)
        → (elim (first_or none found) [
          | some id ↦ some id
          | none ↦ match_normal browser requested cs
        ])
          ≡ first_or
              (one_or
                (longest_extension browser requested cs)
                (filter (same_normal browser requested) cs))
              found
    go [] e = e
    go (c ∷ found) e = refl
