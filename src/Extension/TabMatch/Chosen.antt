-- ===== src/Extension/TabMatch/Chosen.antt =====
-- The tab that a URL means, among the candidates.
use safari_pilot.Prelude.{
  ℕ, List, Bool, filter, any, ◌==◌, ◌≡◌, nat_eq, true, ◌∷◌, arith, [], Option, String, false, some,
  ◌⊎◌, inr, sym, none, inl, ◌∙◌, string_eq,
}
use safari_pilot.Extension.TabMatch.{
  Candidate, Browser, OriginPath, match_tab_url, same_page, extension_length, origin_and_path,
  same_normal,
}
use safari_pilot.Extension.TabMatch.Ranked.{Ranks, the_only, is_longest}
use safari_pilot.Extension.TabMatch.Tiers.{
  first_or, one_or, longest_extension, ranks_of, rank_onto, match_tab_url-exact,
}

abbrev pub has_id : ℕ → List Candidate → Bool
has_id id cs = any (λ c. c.id == id) cs

has_id-filter :
    (id : ℕ) (p : Candidate → Bool) (cs : List Candidate)
    → has_id id (filter p cs) ≡ true
    → has_id id cs ≡ true
has_id-filter id p [] h = h
has_id-filter id p (c ∷ cs) h = ground (arith, h, has_id-filter id p cs)

has_id-first_or :
    (id : ℕ) (next : Option ℕ) (fs : List Candidate)
    → first_or next fs ≡ some id
    → (has_id id fs ≡ true) ⊎ (next ≡ some id)
has_id-first_or id next [] h = inr h
has_id-first_or id next (c ∷ fs) h = inl (ground (arith, h))

has_id-one_or :
    (id : ℕ) (next : Option ℕ) (fs : List Candidate)
    → one_or next fs ≡ some id
    → (has_id id fs ≡ true) ⊎ (next ≡ some id)
has_id-one_or id next [] h = inr h
has_id-one_or id next (c ∷ []) h = inl (ground (arith, h))
has_id-one_or id next (c ∷ d ∷ fs) h = inr h

abbrev has_rank : ℕ → Ranks → Bool
has_rank id ranks = any (λ r. r.0 == id) ranks

has_rank-filter :
    (id : ℕ) (p : ℕ × ℕ → Bool) (ranks : Ranks)
    → has_rank id (filter p ranks) ≡ true
    → has_rank id ranks ≡ true
has_rank-filter id p [] h = h
has_rank-filter id p ((j, n) ∷ ranks) h = ground (arith, h, has_rank-filter id p ranks)

has_rank-the_only : (id : ℕ) (ranks : Ranks) → the_only ranks ≡ some id → has_rank id ranks ≡ true
has_rank-the_only id [] h = absurd (ground arith)
has_rank-the_only id ((j, n) ∷ []) h = ground (arith, h)
has_rank-the_only id (x ∷ y ∷ ranks) h = absurd (ground arith)

has_rank-ranks_of :
    (browser : Browser) (origin : OriginPath) (id : ℕ) (cs : List Candidate)
    → has_rank id (ranks_of browser origin cs) ≡ true
    → has_id id cs ≡ true
has_rank-ranks_of browser origin id [] h = h
has_rank-ranks_of browser origin id (c ∷ cs) h =
    go (extension_length browser origin c) (has_rank-ranks_of browser origin id cs) h
  where
    go :
        (len : Option ℕ)
        → (has_rank id (ranks_of browser origin cs) ≡ true → has_id id cs ≡ true)
        → has_rank id (rank_onto c.id len (ranks_of browser origin cs)) ≡ true
        → has_id id (c ∷ cs) ≡ true
    go none rest h = ground (arith, rest h)
    go (some n) rest h = ground (arith, h, rest)

has_id-longest_extension :
    (browser : Browser) (url : String) (id : ℕ) (cs : List Candidate)
    → longest_extension browser url cs ≡ some id
    → has_id id cs ≡ true
has_id-longest_extension browser url id cs h = go (origin_and_path browser url) h
  where
    go :
        (o : Option OriginPath)
        → (elim o [
          | none ↦ none
          | some origin ↦
              the_only
                (filter (is_longest (ranks_of browser origin cs)) (ranks_of browser origin cs))
        ])
          ≡ some id
        → has_id id cs ≡ true
    go none h = absurd (ground arith)
    go (some origin) h = has_rank-ranks_of browser origin id cs (
        has_rank-filter id (is_longest (ranks_of browser origin cs)) (ranks_of browser origin cs)
          (has_rank-the_only id _ h))

pub has_id-match_tab_url :
    (browser : Browser) (url : String) (id : ℕ) (cs : List Candidate)
    → (url == "") ≡ false
    → match_tab_url browser url cs ≡ some id
    → has_id id cs ≡ true
has_id-match_tab_url browser url id cs present h =
    elim (has_id-first_or id _ (filter (same_page url) cs)
      (sym (match_tab_url-exact browser url cs present) ∙ h)) [
        | inl exact ↦ has_id-filter id (same_page url) cs exact
        | inr next ↦ elim (has_id-one_or id _ (filter (same_normal browser url) cs) next) [
          | inl normal ↦ has_id-filter id (same_normal browser url) cs normal
          | inr longest ↦ has_id-longest_extension browser url id cs longest
        ]
      ]
