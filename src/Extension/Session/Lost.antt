-- ===== src/Extension/Session/Lost.antt =====
-- What a URL change that a page reports does to the tab of a session.
use safari_pilot.Prelude.{arith}
use safari_pilot.Extension.Session.{first_tab}
use safari_pilot.Prelude.Dict.{IsDistinct, get, get-set_self, Dict}
use safari_pilot.Extension.Session.Scoped.{IsCachedIn, find_cached-window}
use safari_pilot.Extension.Session.{
  find_live, find_target_tab, on_url_changed, find_tab, Tabs, Tab, find_cached, filter_by_session,
  entry_or_empty, first_tab,
}
use safari_pilot.Extension.TabMatch.{Browser, match_tab_url}
use safari_pilot.Prelude.{
  List, ℕ, String, Option, some, ◌==◌, [], ◌≡◌, false, none, Bool-cases, subst, inl, if◌then◌else◌,
  refl, arith, nat_eq, inr, string_eq,
}

find_live-nil :
    (browser : Browser) (windows : Dict String ℕ) (session : Option String) (url : String)
    → find_live browser [] windows session url ≡ none
unfolding find_live find_tab
find_live-nil browser windows session url =
    go (match_tab_url browser url (filter_by_session windows session []))
  where
    go : (o : Option ℕ) → (elim o [ none ↦ none | some id ↦ find_tab id [] ]) ≡ none
    go none = refl
    go (some id) = refl

windowless :
    (s : Tabs) (w id : ℕ) (t : Tab) (url : String)
    → IsCachedIn w (on_url_changed (some 0) (some id) url s).cache t
    → (t.id == id) ≡ false
unfolding on_url_changed
windowless s w id t url (e, found, inside) = elim (Bool-cases (t.id == id)) [
  | inl same ↦
      let there =
        get-set_self id
          (record { url = url; title = (entry_or_empty (get id s.cache)).title; window_id = none })
          s.cache in
      absurd (ground (arith, found, inside, same, there))
  | inr other ↦ other
]

-- When the browser lists no tabs, a tab whose top frame has just reported a new URL is not found
-- for a session whose window is known, also if it is in that window.
pub find_target_tab-on_url_changed :
    (browser : Browser) (actives : List Tab) (s : Tabs) (id : ℕ) (page url session : String) (w : ℕ)
    (t : Tab)
    → IsDistinct (on_url_changed (some 0) (some id) page s).cache
    → (url == "") ≡ false
    → get session (on_url_changed (some 0) (some id) page s).windows ≡ some w
    → find_target_tab browser [] actives
        (on_url_changed (some 0) (some id) page s)
        (some url)
        (some session)
      ≡ some t
    → (t.id == id) ≡ false
unfolding find_target_tab
find_target_tab-on_url_changed browser actives s id page url session w t d present known found =
    let after = on_url_changed (some 0) (some id) page s in
    windowless s w id t page (
      find_cached-window browser after url session w t d present known (
        subst
          (λ o.
            (elim o [ some x ↦ some x | none ↦ find_cached browser after (some session) url ])
            ≡ some t)
          (find_live-nil browser after.windows (some session) url)
          (subst
            (λ b.
              (if b
                then first_tab actives
                else elim (find_live browser [] after.windows (some session) url) [
                  | some x ↦ some x
                  | none ↦ find_cached browser after (some session) url
                ])
              ≡ some t)
            present found)))
