-- ===== src/Extension/Session/Listeners.antt =====
-- The state that the listeners of the tabs keep.
use safari_pilot.Prelude.Dict.{
  Dict, IsDistinct, get, set, set-IsDistinct, delete-IsDistinct, get-set, get-delete,
}
use safari_pilot.Extension.Session.{
  Tabs, drop_stale, forget_dashboard, on_created, on_url_changed, populate_session_map,
  register_dashboard_tab, register_url, Entry, Tab, on_updated, on_removed, ChangeInfo,
  dashboard_prefix, entry_or_empty, is_window,
}
use safari_pilot.Prelude.{
  ℕ, Option, List, String, [], some, ◌≡◌, Bool-cases, ◌∷◌, ◌==◌, arith, string_eq, inl, none, true,
  inr, nat_eq,
}
use safari_pilot.Extension.TabMatch.{starts_with}

-- The states that the event page reaches from the one it starts with.
pub data Reachable : Tabs → Type 0 where
  start : Reachable (record { cache = []; windows = []; dashboards = [] })
  populated : (live : List Tab) {s : Tabs} → Reachable s → Reachable (populate_session_map live s)
  created : (tab : Tab) {s : Tabs} → Reachable s → Reachable (on_created tab s)
  updated :
      (id : ℕ) (change : ChangeInfo) (tab : Tab) {s : Tabs}
      → Reachable s
      → Reachable (on_updated id change tab s)
  removed : (id : ℕ) {s : Tabs} → Reachable s → Reachable (on_removed id s)
  url_changed :
      (frame sender : Option ℕ) (url : String) {s : Tabs}
      → Reachable s
      → Reachable (on_url_changed frame sender url s)

-- Each map holds a key once, and the URL of a session dashboard has the prefix.
pub record IsWellFormed (s : Tabs) : Type 0 where
  pub cache_once : IsDistinct s.cache
  pub windows_once : IsDistinct s.windows
  pub dashboards_once : IsDistinct s.dashboards
  pub prefixed :
      (id : ℕ) (url : String)
      → get id s.dashboards ≡ some url
      → starts_with dashboard_prefix url ≡ true

drop_stale-IsDistinct :
    (old : Option String) (url : String) (w : ℕ) (windows : Dict String ℕ)
    → IsDistinct windows
    → IsDistinct (drop_stale old url w windows)
unfolding drop_stale
drop_stale-IsDistinct none url w windows d = d
drop_stale-IsDistinct (some old) url w windows d = ground (arith, delete-IsDistinct old windows d)

register_url-IsWellFormed :
    (id : ℕ) (url : String) (w : ℕ) (s : Tabs)
    → IsWellFormed s
    → IsWellFormed (register_url id url w s)
unfolding register_url
register_url-IsWellFormed id url w s h = elim (Bool-cases (starts_with dashboard_prefix url)) [
  | inl dashboard ↦ rw dashboard (record {
    cache_once = h.cache_once;
    windows_once =
        set-IsDistinct url w _
          (drop_stale-IsDistinct (get id s.dashboards) url w s.windows h.windows_once);
    dashboards_once = set-IsDistinct id url s.dashboards h.dashboards_once;
    prefixed = λ j u e. ground (arith, e, get-set id j url s.dashboards, h.prefixed j u, dashboard);
  })
  | inr other ↦ rw other h
]

register_dashboard_tab-IsWellFormed :
    (tab : Tab) (s : Tabs) → IsWellFormed s → IsWellFormed (register_dashboard_tab tab s)
unfolding register_dashboard_tab
register_dashboard_tab-IsWellFormed tab s h = go tab.window_id tab.url
  where
    go :
        (window : Option ℕ) (url : Option String)
        → IsWellFormed (elim window [
          | none ↦ s
          | some w ↦ elim url [ none ↦ s | some u ↦ register_url tab.id u w s ]
        ])
    go none url = h
    go (some w) none = h
    go (some w) (some u) = register_url-IsWellFormed tab.id u w s h

populate_session_map-IsWellFormed :
    (live : List Tab) (s : Tabs) → IsWellFormed s → IsWellFormed (populate_session_map live s)
unfolding populate_session_map
populate_session_map-IsWellFormed [] s h = h
populate_session_map-IsWellFormed (tab ∷ tabs) s h =
    populate_session_map-IsWellFormed tabs _ (register_dashboard_tab-IsWellFormed tab s h)

set_cache-IsWellFormed :
    (id : ℕ) (e : Entry) (s : Tabs)
    → IsWellFormed s
    → IsWellFormed (record s { cache = set id e s.cache })
set_cache-IsWellFormed id e s h = record {
  cache_once = set-IsDistinct id e s.cache h.cache_once;
  windows_once = h.windows_once;
  dashboards_once = h.dashboards_once;
  prefixed = h.prefixed;
}

forget_dashboard-IsWellFormed :
    (id : ℕ) (url : Option String) (s : Tabs)
    → IsWellFormed s
    → IsWellFormed (forget_dashboard id url s)
unfolding forget_dashboard
forget_dashboard-IsWellFormed id none s h = h
forget_dashboard-IsWellFormed id (some url) s h = elim (Bool-cases (url == "")) [
  | inl e ↦ rw e h
  | inr e ↦ rw e (record {
    cache_once = h.cache_once;
    windows_once = delete-IsDistinct url s.windows h.windows_once;
    dashboards_once = delete-IsDistinct id s.dashboards h.dashboards_once;
    prefixed = λ j u e. h.prefixed j u (ground (arith, e, get-delete id j s.dashboards));
  })
]

on_url_changed-IsWellFormed :
    (frame sender : Option ℕ) (url : String) (s : Tabs)
    → IsWellFormed s
    → IsWellFormed (on_url_changed frame sender url s)
unfolding on_url_changed
on_url_changed-IsWellFormed frame sender url s h = elim (Bool-cases (is_window 0 frame)) [
  | inl top ↦ rw top (go sender)
  | inr inner ↦ rw inner h
]
  where
    go :
        (from : Option ℕ)
        → IsWellFormed (elim from [
          | none ↦ s
          | some id ↦ record s {
            cache =
                set id
                  (record {
                    url = url;
                    title = (entry_or_empty (get id s.cache)).title;
                    window_id = none;
                  })
                  s.cache;
          }
        ])
    go none = h
    go (some id) = set_cache-IsWellFormed id _ s h

-- Whatever the tabs do, the cache, the windows and the dashboards hold each key once, and the
-- URL of a tab that counts as a session dashboard is that of a session dashboard.
pub Reachable-IsWellFormed : {s : Tabs} → Reachable s → IsWellFormed s
unfolding on_created on_updated on_removed get
Reachable-IsWellFormed start = record {
  cache_once = tt;
  windows_once = tt;
  dashboards_once = tt;
  prefixed = λ id url e. absurd (ground (arith, e));
}
Reachable-IsWellFormed (populated live {s} r) =
    populate_session_map-IsWellFormed live s (Reachable-IsWellFormed r)
Reachable-IsWellFormed (created tab {s} r) =
    register_dashboard_tab-IsWellFormed tab _
      (set_cache-IsWellFormed tab.id _ s (Reachable-IsWellFormed r))
Reachable-IsWellFormed (updated id change tab {s} r) =
    register_dashboard_tab-IsWellFormed tab _
      (set_cache-IsWellFormed id _ s (Reachable-IsWellFormed r))
Reachable-IsWellFormed (removed id {s} r) =
    let h = Reachable-IsWellFormed r in
    forget_dashboard-IsWellFormed id (get id s.dashboards) _ (record {
      cache_once = delete-IsDistinct id s.cache h.cache_once;
      windows_once = h.windows_once;
      dashboards_once = h.dashboards_once;
      prefixed = h.prefixed;
    })
Reachable-IsWellFormed (url_changed frame sender url {s} r) =
    on_url_changed-IsWellFormed frame sender url s (Reachable-IsWellFormed r)
