-- ===== src/Server/Registry.antt =====
-- What a tool that returned does to the tab registry: steps 8.post0 to 8.post2 of
-- `executeToolWithSecurity` (src/server.ts).
use safari_pilot.Params.{null}
use safari_pilot.Server.{Server, Env, ToolResponse, text, image}
use safari_pilot.Prelude.{
  Option, String, Bool, ℕ, some, ◌∷◌, if◌then◌else◌, not, ◌&&◌, true, eqb, is_some, false, ◌==◌,
  none, string_eq, ◌||◌, [], or_default, ◌+◌,
}
use safari_pilot.Params.{Params, Value, as_text, num, bool, member}
use safari_pilot.Security.TabOwnership.{
  TabOwnership, register_tab, find_by_url, update_url, remove_tab, make_tab_id,
}
use safari_pilot.Prelude.Dict.{get}

-- `result.content?.[0]?.text`, if the first item is a text.
abbrev pub first_text : ToolResponse → Option String
first_text r = elim r.content [ [] ↦ none | c ∷ rest ↦ elim c [ text t ↦ some t | image ↦ none ] ]

-- The JSON value of the first text.
abbrev payload : Env → ToolResponse → Option Value
payload env r = elim (first_text r) [ none ↦ none | some t ↦ env.parse_json t ]

-- A text that is not empty.
abbrev pub truthy : Option String → Option String
truthy none = none
truthy (some s) = if s == "" then none else some s

abbrev number_of : Option Value → Option ℕ
number_of (some (num n)) = some n
number_of _ = none

unfoldable pub is_navigation : String → Bool
is_navigation name =
    name == "safari_navigate"
    || name == "safari_navigate_back"
    || name == "safari_navigate_forward"
    || name == "safari_reload"

-- A tab that is known at the old URL gets the new one.
abbrev move_tab : Option String → Option String → TabOwnership → TabOwnership
move_tab (some old) (some new) tabs =
    if old == new
    then tabs
    else elim (find_by_url old tabs) [ none ↦ tabs | some id ↦ update_url id new tabs ]
move_tab _ _ tabs = tabs

-- 8.post0
unfoldable pub refresh_url : Env → String → Params → ToolResponse → Server → Server
refresh_url env name params r s =
    if is_navigation name
    then record s {
      tab_ownership =
          move_tab (truthy (as_text (get "tabUrl" params)))
            (truthy (as_text (member (payload env r) "url"))) s.tab_ownership;
    }
    else s

abbrev is_null : Option Value → Bool
is_null none = true
is_null (some null) = true
is_null _ = false

-- The new tab goes into the registry under a fresh index.
unfoldable pub register_new : Option String → Option ℕ → Option ℕ → Server → Server
register_new none window index s = s
register_new (some url) window index s = record s {
  tab_ownership =
      register_tab (make_tab_id (or_default window 1) s.next_tab_index) url none window index
        s.tab_ownership;
  next_tab_index = s.next_tab_index + 1;
}

abbrev is_missing_window : Option ℕ → Bool
is_missing_window none = true
is_missing_window (some n) = eqb n 0

-- The session's window was gone: the front window takes its place.
unfoldable pub adopt_window : Env → Option ℕ → Server → Server
adopt_window env window s =
    if is_some s.session_window_id && is_missing_window window
    then elim env.front_window [ none ↦ s | some id ↦ record s { session_window_id = some id } ]
    else s

-- 8.post
unfoldable pub register_new_tab : Env → String → ToolResponse → Server → Server
unfolding register_new adopt_window
register_new_tab env name r s =
    let tab = payload env r in
    if name == "safari_new_tab" && not (is_null tab)
    then (let window = number_of (member tab "windowId") in
        adopt_window env window (
          register_new (truthy (as_text (member tab "tabUrl"))) window
            (number_of (member tab "tabIndex")) s))
    else s

abbrev is_true : Option Value → Bool
is_true (some (bool b)) = b
is_true _ = false

abbrev drop_tab : Option String → TabOwnership → TabOwnership
drop_tab none tabs = tabs
drop_tab (some url) tabs = elim (find_by_url url tabs) [
  | none ↦ tabs
  | some id ↦ remove_tab id tabs
]

-- 8.post1
unfoldable pub remove_closed_tab : Env → String → Params → ToolResponse → Server → Server
remove_closed_tab env name params r s =
    if name == "safari_close_tab" && is_true (member (payload env r) "closed")
    then record s { tab_ownership = drop_tab (as_text (get "tabUrl" params)) s.tab_ownership }
    else s
