-- ===== src/Extension/Session/Tests.antt =====
-- Two sessions in two windows with a tab each, at the same page.
use safari_pilot.Extension.TabMatch.{
  count_normal, match_extension, origin_and_path, match_tab_url, Browser, starts_with,
  match_tab_url, find_exact, same_page, strip_trailing_slash,
}
use safari_pilot.Prelude.{
  List, String, some, ℕ, ◌≡◌, none, ◌∷◌, [], string_eq, refl, ◌==◌, false, nat_eq,
}
use safari_pilot.Extension.Session.{
  Tabs, Tab, on_url_changed, populate_session_map, on_created, dashboard_prefix,
  register_dashboard_tab, register_url, drop_stale, find_target_tab, find_live, find_tab,
  filter_by_session, find_cached,
}
use safari_pilot.Prelude.Dict.{get, set}
use safari_pilot.Extension.Session.Listeners.{
  IsWellFormed, Reachable-IsWellFormed, created, populated, start, url_changed,
}
use safari_pilot.Text.{join, strip_slash}
use safari_pilot.Extension.Session.Lost.{find_target_tab-on_url_changed}

abbrev browser : Browser
browser = record { parse_url = λ url. none; print_params = λ params. ""; to_lower_case = λ s. s }

abbrev dashboard : String → String
dashboard name = join dashboard_prefix name

abbrev tab_at : ℕ → String → ℕ → Tab
tab_at id url w = record { id = id; url = some url; title = some ""; window_id = some w }

abbrev live : List Tab
live =
    tab_at 1 "http://127.0.0.1:19475/session?id=a" 7
    ∷ tab_at 2 "http://127.0.0.1:19475/session?id=b" 8
    ∷ tab_at 3 "https://a.org/" 7
    ∷ tab_at 4 "https://a.org/" 8
    ∷ []

abbrev awake : Tabs
awake =
    on_created (tab_at 4 "https://a.org/" 8)
      (populate_session_map live (record { cache = []; windows = []; dashboards = [] }))

abbrev session_b : String
session_b = "http://127.0.0.1:19475/session?id=b"

known : get session_b awake.windows ≡ some 8
unfolding get populate_session_map register_dashboard_tab register_url drop_stale set on_created
    starts_with
known = refl

found :
    find_target_tab browser live [] awake (some "https://a.org/") (some session_b)
    ≡ some (tab_at 4 "https://a.org/" 8)
unfolding get populate_session_map register_dashboard_tab register_url drop_stale set on_created
    starts_with find_target_tab find_live find_tab filter_by_session match_tab_url find_exact
    same_page strip_trailing_slash strip_slash
found = refl

awake-IsWellFormed : IsWellFormed awake
awake-IsWellFormed =
    Reachable-IsWellFormed (created (tab_at 4 "https://a.org/" 8) (populated live start))

-- Tabs 4 and 5 are in the window of the session, and tab 4 reports a URL.
abbrev two : Tabs
two = on_created (tab_at 5 "https://b.org/" 8) awake

abbrev moved : Tabs
moved = on_url_changed (some 0) (some 4) "https://b.org/" two

abbrev tab_5 : Tab
tab_5 = record { id = 5; url = some "https://b.org/"; title = some ""; window_id = none }

known_moved : get session_b moved.windows ≡ some 8
unfolding get populate_session_map register_dashboard_tab register_url drop_stale set on_created
    starts_with on_url_changed
known_moved = refl

other_found :
    find_target_tab browser [] [] moved (some "https://b.org/") (some session_b) ≡ some tab_5
unfolding get populate_session_map register_dashboard_tab register_url drop_stale set on_created
    starts_with find_target_tab find_live find_tab filter_by_session match_tab_url find_exact
    same_page strip_trailing_slash strip_slash on_url_changed find_cached count_normal
    match_extension origin_and_path
other_found = refl

moved-IsWellFormed : IsWellFormed moved
moved-IsWellFormed = Reachable-IsWellFormed (
    url_changed (some 0) (some 4) "https://b.org/" (
      created (tab_at 5 "https://b.org/" 8)
        (created (tab_at 4 "https://a.org/" 8) (populated live start))))

find_target_tab-on_url_changed_example : (tab_5.id == 4) ≡ false
find_target_tab-on_url_changed_example =
    find_target_tab-on_url_changed browser [] two 4 "https://b.org/" "https://b.org/" session_b 8
      tab_5 moved-IsWellFormed.cache_once refl known_moved other_found
