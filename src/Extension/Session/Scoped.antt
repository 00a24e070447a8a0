-- ===== src/Extension/Session/Scoped.antt =====
-- The tabs that a command of a session reaches.
use safari_pilot.Prelude.{
  ℕ, List, Bool, filter, any, ◌==◌, ◌≡◌, nat_eq, true, ◌∷◌, arith, [], Option, String, false, some,
  ◌⊎◌, inr, none, inl, string_eq, Bool-cases, subst, refl, if◌then◌else◌,
}
use safari_pilot.Extension.TabMatch.{Candidate, Browser, match_tab_url}
use safari_pilot.Extension.Session.{
  Tab, find_tab, is_window, live_candidates, Entry, cache_candidates, find_target_tab, find_live,
  find_cached, filter_by_session, Tabs, cached_tab, first_tab,
}
use safari_pilot.Prelude.Dict.{get, Dict, IsDistinct, has}
use safari_pilot.Extension.TabMatch.Chosen.{has_id, has_id-match_tab_url}

abbrev has_tab : ℕ → List Tab → Bool
has_tab id ts = any (λ t. t.id == id) ts

-- The browser gives each tab an id of its own.
abbrev pub IsDistinctTabs : List Tab → Type 0
IsDistinctTabs [] = Unit
IsDistinctTabs (t ∷ ts) = (has_tab t.id ts ≡ false) × IsDistinctTabs ts

abbrev within : ℕ → List Candidate → List Candidate
within w cs = filter (λ c. is_window w c.window_id) cs

is_window-some : (w : ℕ) (o : Option ℕ) → is_window w o ≡ true → o ≡ some w
is_window-some w none h = absurd (ground arith)
is_window-some w (some v) h = ground (arith, h)

has_tab-within :
    (w id : ℕ) (ts : List Tab)
    → has_id id (within w (live_candidates ts)) ≡ true
    → has_tab id ts ≡ true
has_tab-within w id [] h = h
has_tab-within w id (t ∷ ts) h = ground (arith, h, has_tab-within w id ts)

find_tab-window :
    (w id : ℕ) (ts : List Tab) (t : Tab)
    → IsDistinctTabs ts
    → has_id id (within w (live_candidates ts)) ≡ true
    → find_tab id ts ≡ some t
    → t.window_id ≡ some w
unfolding find_tab
find_tab-window w id [] t d here found = absurd (ground arith)
find_tab-window w id (x ∷ ts) t d here found = elim (Bool-cases (x.id == id)) [
  | inl same ↦ elim (Bool-cases (is_window w x.window_id)) [
    | inl inside ↦ ground (arith, is_window-some w x.window_id inside)
    | inr outside ↦ absurd (ground (arith, d.0, here, has_tab-within w id ts))
  ]
  | inr other ↦ find_tab-window w id ts t d.1 (ground (arith, here)) (ground (arith, found))
]

has-within :
    (w id : ℕ) (cache : Dict ℕ Entry)
    → has_id id (within w (cache_candidates cache)) ≡ true
    → has id cache ≡ true
unfolding get
has-within w id [] h = h
has-within w id ((j, e) ∷ cache) h = ground (arith, h, has-within w id cache)

get-window :
    (w id : ℕ) (cache : Dict ℕ Entry) (e : Entry)
    → IsDistinct cache
    → has_id id (within w (cache_candidates cache)) ≡ true
    → get id cache ≡ some e
    → e.window_id ≡ some w
unfolding get
get-window w id [] e d here found = absurd (ground arith)
get-window w id ((j, x) ∷ cache) e d here found = elim (Bool-cases (j == id)) [
  | inl same ↦ elim (Bool-cases (is_window w x.window_id)) [
    | inl inside ↦ ground (arith, is_window-some w x.window_id inside)
    | inr outside ↦ absurd (ground (arith, d.0, here, has-within w id cache))
  ]
  | inr other ↦ get-window w id cache e d.1 (ground (arith, here)) (ground (arith, found))
]

filter_by_session-known :
    (windows : Dict String ℕ) (session : String) (w : ℕ) (cs : List Candidate)
    → get session windows ≡ some w
    → filter_by_session windows (some session) cs ≡ within w cs
unfolding filter_by_session
filter_by_session-known windows session w cs known = rw (known, filter_by_session) refl

find_live-window :
    (browser : Browser) (live : List Tab) (windows : Dict String ℕ) (url session : String) (w : ℕ)
    (t : Tab)
    → IsDistinctTabs live
    → (url == "") ≡ false
    → get session windows ≡ some w
    → find_live browser live windows (some session) url ≡ some t
    → t.window_id ≡ some w
unfolding find_live
find_live-window browser live windows url session w t d present known found =
    go (match_tab_url browser url (within w (live_candidates live)))
      (λ id e. has_id-match_tab_url browser url id (within w (live_candidates live)) present e)
      (subst
        (λ cs.
          (elim (match_tab_url browser url cs) [ none ↦ none | some id ↦ find_tab id live ])
          ≡ some t)
        (filter_by_session-known windows session w (live_candidates live) known) found)
  where
    go :
        (o : Option ℕ)
        → ((id : ℕ) → o ≡ some id → has_id id (within w (live_candidates live)) ≡ true)
        → (elim o [ none ↦ none | some id ↦ find_tab id live ]) ≡ some t
        → t.window_id ≡ some w
    go none within e = absurd (ground arith)
    go (some id) inside e = find_tab-window w id live t d (inside id refl) e

-- The cache has the tab in the window.
abbrev pub IsCachedIn : ℕ → Dict ℕ Entry → Tab → Type 0
IsCachedIn w cache t = (e : Entry) × (get t.id cache ≡ some e) × (e.window_id ≡ some w)

cached_tab-window :
    (s : Tabs) (w id : ℕ) (t : Tab) (o : Option Entry)
    → IsDistinct s.cache
    → has_id id (within w (cache_candidates s.cache)) ≡ true
    → get id s.cache ≡ o
    → cached_tab id o ≡ some t
    → IsCachedIn w s.cache t
cached_tab-window s w id t none d here known e = absurd (ground arith)
cached_tab-window s w id t (some x) d here known e =
    let same : id ≡ t.id = ground (arith, e) in
    (x, subst (λ i. get i s.cache ≡ some x) same known, get-window w id s.cache x d here known)

pub find_cached-window :
    (browser : Browser) (s : Tabs) (url session : String) (w : ℕ) (t : Tab)
    → IsDistinct s.cache
    → (url == "") ≡ false
    → get session s.windows ≡ some w
    → find_cached browser s (some session) url ≡ some t
    → IsCachedIn w s.cache t
unfolding find_cached
find_cached-window browser s url session w t d present known found =
    go (match_tab_url browser url (within w (cache_candidates s.cache)))
      (λ id e. has_id-match_tab_url browser url id (within w (cache_candidates s.cache)) present e)
      (subst
        (λ cs.
          (elim (match_tab_url browser url cs) [
            | none ↦ none
            | some id ↦ cached_tab id (get id s.cache)
          ])
          ≡ some t)
        (filter_by_session-known s.windows session w (cache_candidates s.cache) known) found)
  where
    go :
        (o : Option ℕ)
        → ((id : ℕ) → o ≡ some id → has_id id (within w (cache_candidates s.cache)) ≡ true)
        → (elim o [ none ↦ none | some id ↦ cached_tab id (get id s.cache) ]) ≡ some t
        → IsCachedIn w s.cache t
    go none inside e = absurd (ground arith)
    go (some id) inside e = cached_tab-window s w id t (get id s.cache) d (inside id refl) refl e

-- A command of a session whose window is known finds only a tab of that window: an open tab, or
-- one that the cache has in that window. The open tabs have different ids, and so do the entries
-- of the cache.
pub find_target_tab-window :
    (browser : Browser) (live actives : List Tab) (s : Tabs) (url session : String) (w : ℕ)
    (t : Tab)
    → IsDistinctTabs live
    → IsDistinct s.cache
    → (url == "") ≡ false
    → get session s.windows ≡ some w
    → find_target_tab browser live actives s (some url) (some session) ≡ some t
    → (t.window_id ≡ some w) ⊎ IsCachedIn w s.cache t
unfolding find_target_tab
find_target_tab-window browser live actives s url session w t d e present known found =
    go (find_live browser live s.windows (some session) url)
      (λ x h. find_live-window browser live s.windows url session w x d present known h)
      (subst
        (λ b.
          (if b
            then first_tab actives
            else elim (find_live browser live s.windows (some session) url) [
              | some x ↦ some x
              | none ↦ find_cached browser s (some session) url
            ])
          ≡ some t)
        present found)
  where
    go :
        (o : Option Tab)
        → ((x : Tab) → o ≡ some x → x.window_id ≡ some w)
        → (elim o [ some x ↦ some x | none ↦ find_cached browser s (some session) url ]) ≡ some t
        → (t.window_id ≡ some w) ⊎ IsCachedIn w s.cache t
    go none live_in h = inr (find_cached-window browser s url session w t e present known h)
    go (some x) live_in h = inl (live_in t h)
