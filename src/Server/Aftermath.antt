-- ===== src/Server/Aftermath.antt =====
-- What follows a tool that returned: steps 8.post0 to 8c of `executeToolWithSecurity`
-- (src/server.ts), the first three by way of Registry. The parts in a `try` of their own change
-- nothing where that `try` catches.
use safari_pilot.Params.{null}
use safari_pilot.Server.{
  Server, Env, Exec, ToolResponse, TabSnapshot, Content, Metadata, EngineMeta, text, ◌>>◌, thrown,
  modify, done, pure, lift, image,
}
use safari_pilot.Prelude.{
  List, Option, String, Bool, ℕ, some, ◌∷◌, if◌then◌else◌, not, ◌&&◌, eqb, is_some, false, ◌==◌,
  none, any, string_eq, ◌||◌, [], ◌+◌,
}
use safari_pilot.Params.{Fields, Params, delete_field, as_text, num, bool, obj, str, arr}
use safari_pilot.Engines.{Engine}
use safari_pilot.Security.TabOwnership.{
  TabId, TabOwnership, register_tab, find_by_url, update_url, set_extension_tab_id, make_tab_id,
  find_by_extension_tab_id,
}
use safari_pilot.Prelude.Dict.{get}
use safari_pilot.Text.{join}
use safari_pilot.Errors.{tab_url_not_recognized}
use safari_pilot.Security.LoopDetector.{record_snapshot_result}
use safari_pilot.Server.Ownership.{tab_url_of}
use safari_pilot.Server.Registry.{
  is_navigation, refresh_url, register_new_tab, remove_closed_tab, first_text, truthy,
}

-- The stable id of the tab that ran goes to the entry at its URL, if that has none.
abbrev pub backfill : Option String → ℕ → TabOwnership → TabOwnership
backfill none ext tabs = tabs
backfill (some url) ext tabs = elim (find_by_url url tabs) [
  | none ↦ tabs
  | some id ↦ set_extension_tab_id id ext tabs
]

abbrev pub refresh : Option TabId → Option String → TabOwnership → TabOwnership
refresh (some id) (some url) tabs = update_url id url tabs
refresh _ _ tabs = tabs

abbrev pub meta_tab : Option EngineMeta → Option ℕ
meta_tab none = none
meta_tab (some m) = m.tab_id

abbrev pub meta_url : Option EngineMeta → Option String
meta_url none = none
meta_url (some m) = truthy m.tab_url

-- 8.post2: with a stable id, backfill, refresh, and the check that was put off; without one, a
-- check that was put off fails.
unfoldable pub verify_identity : Params → Bool → Exec (Unit {0})
verify_identity params deferred s = elim (meta_tab s.engine_proxy.last_meta) [
  | none ↦
      if deferred then (thrown (tab_url_not_recognized (tab_url_of params)), s) else (done tt, s)
  | some ext ↦
      (let tabs = backfill (truthy (as_text (get "tabUrl" params))) ext s.tab_ownership in
        let owner = find_by_extension_tab_id ext tabs in
        let s' = record s {
          tab_ownership = refresh owner (meta_url s.engine_proxy.last_meta) tabs;
        } in
        if deferred && not (is_some owner)
        then (thrown (tab_url_not_recognized (tab_url_of params)), s')
        else (done tt, s'))
]

is_extraction : String → Bool
is_extraction name =
    name == "safari_get_text"
    || name == "safari_get_html"
    || name == "safari_snapshot"
    || name == "safari_evaluate"
    || name == "safari_get_console_messages"
    || name == "safari_smart_scrape"
    || name == "safari_extract_tables"
    || name == "safari_extract_links"
    || name == "safari_extract_images"
    || name == "safari_extract_metadata"
    || name == "safari_dismiss_overlays"

-- The texts of the content, joined by line ends.
abbrev join_texts : List Content → String
join_texts [] = ""
join_texts (text t ∷ []) = t
join_texts (text t ∷ c ∷ rest) = join t (join "\n" (join_texts (c ∷ rest)))
join_texts (image ∷ rest) = join_texts rest

abbrev flag_unsafe : Engine → Option Metadata → Metadata
flag_unsafe engine none = record {
  engine = engine;
  degraded = false;
  degraded_reason = none;
  latency_ms = 0;
  idpi_safe = false;
}
flag_unsafe engine (some m) = record m { idpi_safe = false }

-- 8a: a suspicious text is flagged, and never held back.
unfoldable pub annotate : Env → String → Engine → ToolResponse → ToolResponse
unfolding is_extraction
annotate env name engine r =
    let all_text = join_texts r.content in
    if is_extraction name && not (all_text == "") && not (env.is_injection_free all_text)
    then record r { metadata = some (flag_unsafe engine r.metadata) }
    else r

abbrev same_tab : TabSnapshot → TabSnapshot → Bool
same_tab a b = eqb a.window_id b.window_id && eqb a.tab_index b.tab_index && a.url == b.url

abbrev is_new_tab : List TabSnapshot → TabSnapshot → Bool
is_new_tab before t =
    not (any (same_tab t) before) && not (t.url == "") && not (t.url == "about:blank")

adopt_all : List TabSnapshot → List TabSnapshot → Server → Server
adopt_all before [] s = s
adopt_all before (t ∷ tabs) s = adopt_all before tabs (
    if is_new_tab before t
    then record s {
      tab_ownership =
          register_tab (make_tab_id t.window_id s.next_tab_index) t.url none (some t.window_id)
            (some t.tab_index) s.tab_ownership;
      next_tab_index = s.next_tab_index + 1;
    }
    else s)

-- 8b: the tabs that a click opened are the agent's.
unfoldable pub adopt_clicked_tabs : Env → String → Server → Server
unfolding adopt_all
adopt_clicked_tabs env name s =
    if name == "safari_click"
    then elim env.tabs_after [ none ↦ s | some tabs ↦ adopt_all env.tabs_before tabs s ]
    else s

abbrev strip_volatile : Fields → Fields
strip_volatile fs = delete_field "timestamp" (
    delete_field "elapsed_ms"
      (delete_field "latencyMs" (delete_field "__engine" (delete_field "__latencyMs" fs))))

-- The text of a snapshot without its volatile fields; the raw text if it is no JSON, or `null`.
abbrev stable_key : Env → String → String
stable_key env raw = elim (env.parse_json raw) [
  | none ↦ raw
  | some v ↦ elim v [
    | null ↦ raw
    | obj fs ↦ env.stringify_json (obj (strip_volatile fs))
    | bool b ↦ env.stringify_json (bool b)
    | num n ↦ env.stringify_json (num n)
    | str t ↦ env.stringify_json (str t)
    | arr xs ↦ env.stringify_json (arr xs)
  ]
]

-- 8c
unfoldable pub check_thrash : Env → String → ToolResponse → Exec (Unit {0})
check_thrash env name r s = elim (first_text r) [
  | none ↦ (done tt, s)
  | some raw ↦
      if name == "safari_snapshot"
      then (let (outcome, detector) = record_snapshot_result (stable_key env raw) s.loop_detector in
          lift outcome (record s { loop_detector = detector }))
      else (done tt, s)
]

-- The registry after a tool that returned, before its identity is verified.
unfoldable pub update_registry : Env → String → Params → ToolResponse → Server → Server
unfolding is_navigation refresh_url register_new_tab remove_closed_tab
update_registry env name params r s =
    remove_closed_tab env name params r
      (register_new_tab env name r (refresh_url env name params r s))

-- The steps from 8.post0 to 8c, with the annotated response.
unfoldable pub settle : Env → String → Params → Engine → Bool → ToolResponse → Exec ToolResponse
unfolding annotate adopt_clicked_tabs
settle env name params engine deferred r = do
  modify (update_registry env name params r)
  verify_identity params deferred
  let r' = annotate env name engine r
  modify (adopt_clicked_tabs env name)
  check_thrash env name r'
  pure r'
