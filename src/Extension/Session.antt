-- ===== src/Extension/Session.antt =====
-- extension/background.js, the tabs of the sessions: the cache of tabs, the windows of the session
-- dashboards, the listeners that keep both, and the search for the tab of a command.
--
-- Every tab of the browser has an id. `live` is the answer of `tabs.query({})`, `actives` that of
-- the query for the active tab; the copy of the cache in the storage is not modelled.
pub mod Scoped
pub mod Listeners
pub mod Lost
mod Tests
use safari_pilot.Extension.TabMatch.{Browser, Candidate, match_tab_url, starts_with}
use safari_pilot.Prelude.{
  Option, ℕ, String, some, List, ◌∷◌, map, if◌then◌else◌, Bool, nat_eq, none, not, false, filter,
  ◌==◌, [], string_eq, ◌||◌,
}
use safari_pilot.Prelude.Dict.{Dict, get, set, delete}

pub record Tab : Type 0 where
  pub id : ℕ
  pub url : Option String
  pub title : Option String
  pub window_id : Option ℕ

pub record Entry : Type 0 where
  pub url : String
  pub title : String
  pub window_id : Option ℕ

pub record Tabs : Type 0 where
  pub cache : Dict ℕ Entry
  pub windows : Dict String ℕ
  pub dashboards : Dict ℕ String

pub record ChangeInfo : Type 0 where
  pub url : Option String
  pub title : Option String

abbrev pub dashboard_prefix : String
dashboard_prefix = "http://127.0.0.1:19475/session?id="

-- `x || ''`
abbrev pub or_empty : Option String → String
or_empty none = ""
or_empty (some s) = s

abbrev pub is_window : ℕ → Option ℕ → Bool
is_window w none = false
is_window w (some v) = v == w

-- The window of the URL the tab showed before, if that URL still means this window.
unfoldable pub drop_stale : Option String → String → ℕ → Dict String ℕ → Dict String ℕ
drop_stale none url w windows = windows
drop_stale (some old) url w windows =
    if old == "" || old == url
    then windows
    else if is_window w (get old windows)
    then delete old windows
    else windows

unfoldable pub register_url : ℕ → String → ℕ → Tabs → Tabs
register_url id url w s = if not (starts_with dashboard_prefix url) then s else record s {
  windows = set url w (drop_stale (get id s.dashboards) url w s.windows);
  dashboards = set id url s.dashboards;
}

unfoldable pub register_dashboard_tab : Tab → Tabs → Tabs
register_dashboard_tab tab s = elim tab.window_id [
  | none ↦ s
  | some w ↦ elim tab.url [ none ↦ s | some url ↦ register_url tab.id url w s ]
]

-- What the event page does when it wakes.
unfoldable pub populate_session_map : List Tab → Tabs → Tabs
populate_session_map [] s = s
populate_session_map (tab ∷ tabs) s = populate_session_map tabs (register_dashboard_tab tab s)

unfoldable pub on_created : Tab → Tabs → Tabs
on_created tab s =
    let entry : Entry = record {
      url = or_empty tab.url;
      title = or_empty tab.title;
      window_id = tab.window_id;
    } in
    register_dashboard_tab tab (record s { cache = set tab.id entry s.cache })

-- The text of the change if there is one; of the tab if the entry has none.
abbrev option_or : String → Option String → String
option_or old none = old
option_or old (some new) = new

abbrev refreshed : Option String → Option String → String → String
refreshed changed whole old =
    let now = option_or old changed in if now == "" then or_empty whole else now

abbrev newer_window : Option ℕ → Option ℕ → Option ℕ
newer_window none old = old
newer_window (some w) old = some w

abbrev entry_or_empty : Option Entry → Entry
entry_or_empty none = record { url = ""; title = ""; window_id = none }
entry_or_empty (some e) = e

unfoldable pub on_updated : ℕ → ChangeInfo → Tab → Tabs → Tabs
on_updated id change tab s =
    let old = entry_or_empty (get id s.cache) in
    let entry : Entry = record {
      url = refreshed change.url tab.url old.url;
      title = refreshed change.title tab.title old.title;
      window_id = newer_window tab.window_id old.window_id;
    } in
    register_dashboard_tab tab (record s { cache = set id entry s.cache })

unfoldable pub forget_dashboard : ℕ → Option String → Tabs → Tabs
forget_dashboard id none s = s
forget_dashboard id (some url) s =
    if url == ""
    then s
    else record s { dashboards = delete id s.dashboards; windows = delete url s.windows }

unfoldable pub on_removed : ℕ → Tabs → Tabs
on_removed id s = forget_dashboard id (get id s.dashboards) (record s { cache = delete id s.cache })

-- The message `sp_url_changed` of a frame: only that of a top frame counts, and the new entry has
-- no window.
unfoldable pub on_url_changed : Option ℕ → Option ℕ → String → Tabs → Tabs
on_url_changed frame sender url s = if not (is_window 0 frame) then s else elim sender [
  | none ↦ s
  | some id ↦
      (let old = entry_or_empty (get id s.cache) in
        let entry : Entry = record { url = url; title = old.title; window_id = none } in
        record s { cache = set id entry s.cache })
]

-- A session without a known window keeps all candidates.
unfoldable pub filter_by_session : Dict String ℕ → Option String → List Candidate → List Candidate
filter_by_session windows none cs = cs
filter_by_session windows (some url) cs = elim (get url windows) [
  | none ↦ cs
  | some w ↦ filter (λ c. is_window w c.window_id) cs
]

abbrev pub live_candidates : List Tab → List Candidate
live_candidates = map (λ t. record { id = t.id; url = or_empty t.url; window_id = t.window_id })

abbrev pub cache_candidates : Dict ℕ Entry → List Candidate
cache_candidates = map (λ (id, e). record { id = id; url = e.url; window_id = e.window_id })

unfoldable pub find_tab : ℕ → List Tab → Option Tab
find_tab id [] = none
find_tab id (t ∷ ts) = let rest = find_tab id ts in if t.id == id then some t else rest

unfoldable pub find_live : Browser → List Tab → Dict String ℕ → Option String → String → Option Tab
find_live browser live windows session url =
    elim (match_tab_url browser url (filter_by_session windows session (live_candidates live))) [
      | none ↦ none
      | some id ↦ find_tab id live
    ]

abbrev pub cached_tab : ℕ → Option Entry → Option Tab
cached_tab id none = none
cached_tab id (some e) =
    some (record { id = id; url = some e.url; title = some e.title; window_id = none })

unfoldable pub find_cached : Browser → Tabs → Option String → String → Option Tab
find_cached browser s session url =
    elim (match_tab_url browser url
      (filter_by_session s.windows session (cache_candidates s.cache))) [
        | none ↦ none
        | some id ↦ cached_tab id (get id s.cache)
      ]

abbrev pub first_tab : List Tab → Option Tab
first_tab [] = none
first_tab (t ∷ ts) = some t

-- The live tabs, then the cache, and no tab if neither has the URL; without a URL the active tab.
unfoldable pub find_target_tab :
    Browser → List Tab → List Tab → Tabs → Option String → Option String → Option Tab
find_target_tab browser live actives s none session = first_tab actives
find_target_tab browser live actives s (some url) session =
    if url == "" then first_tab actives else elim (find_live browser live s.windows session url) [
      | some t ↦ some t
      | none ↦ find_cached browser s session url
    ]
