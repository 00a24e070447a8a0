-- ===== src/Extension/Command/Tests.antt =====
-- Commands at concrete requests.
use safari_pilot.Extension.TabMatch.{
  Browser, match_tab_url, find_exact, same_page, starts_with, strip_trailing_slash,
}
use safari_pilot.Extension.Session.{
  Tab, Tabs, find_target_tab, find_live, find_tab, filter_by_session,
}
use safari_pilot.Extension.Command.{
  Api, Bus, PageFrame, Request, threw, gave, run_family, handle_known, params_of, split_colon,
  answered, on_bus, error_result,
}
use safari_pilot.Prelude.{
  Option, ◌≡◌, none, some, ◌∷◌, [], ◌⊎◌, true, refl, String, ◌==◌, ap, string_eq, false, ◌∙◌, ℕ,
  if◌then◌else◌, ◌++◌,
}
use safari_pilot.Extension.Command.Dispatched.{
  dispatch, regular_bus, dispatch_in, send_packed, bus_result, run_pack, identity_of, send_checked,
  check_frame, find_frame, enrich,
}
use safari_pilot.Prelude.Dict.{get}
use safari_pilot.Params.{Fields, field, num, bool, null, obj, str, end, Value}
use safari_pilot.Extension.Frame.{should_process}
use safari_pilot.Extension.Command.Identified.{IsTaker, dispatch-IsTaker}
use safari_pilot.Extension.Session.Scoped.{IsCachedIn}
use safari_pilot.Extension.Command.Addressed.{IsAddressed, dispatch-in_session}
use safari_pilot.Text.{strip_slash}
use safari_pilot.Engines.Answers.{Js}
use safari_pilot.Engines.Answers.Proxy.{take_steps, in_tab, new_proxy}
use safari_pilot.Engines.Answers.{Reply, response}
use safari_pilot.Extension.Command.Delivered.{IsRelayed, last_meta-identity_of}
use safari_pilot.Engines.Answers.Extension.{bridged, extension_js}
use safari_pilot.Engines.{extension}

abbrev browser : Browser
browser = record { parse_url = λ url. none; print_params = λ params. ""; to_lower_case = λ s. s }

abbrev tab_4 : Tab
tab_4 = record { id = 4; url = some "https://a.org/"; title = some ""; window_id = some 8 }

abbrev tabs : Tabs
tabs = record { cache = []; windows = ("s", 8) ∷ []; dashboards = [] }

abbrev iframe : PageFrame
iframe = record {
  frame_id = 6;
  parent_frame_id = num 0;
  url = "https://ads.org/";
  error_occurred = none;
}

abbrev api : Api
api = record {
  stringify = λ v. "json";
  parse = λ s. threw "no JSON";
  get_all_frames = λ tab. gave (iframe ∷ []);
  handle = λ s v. gave v;
  put_item = λ k v. gave tt;
  remove_item = λ k. gave tt;
  screenshot = λ tab. null;
  hint = λ url. "";
  is_cs_ready = λ tab. true;
}

abbrev request : Request
request = record {
  id = "c1";
  script = "return 1";
  tab_url = some "https://a.org/";
  session = some "s";
  frame_id = some 6;
}

abbrev bus : Bus
bus = regular_bus api 100 request tab_4 "return 1" (some "https://ads.org/")

abbrev found : Option Tab
found = find_target_tab browser (tab_4 ∷ []) [] tabs (some "https://a.org/") (some "s")

found-tab_4 : found ≡ some tab_4
unfolding find_target_tab find_live find_tab filter_by_session match_tab_url find_exact same_page
    strip_trailing_slash strip_slash get
found-tab_4 = refl

dispatched : dispatch api 100 request (some tab_4) ≡ on_bus bus
unfolding dispatch dispatch_in send_packed run_pack send_checked check_frame find_frame starts_with
dispatched = refl

-- A sentinel of cookies that is not known, and parameters that are no JSON.
cookie_runs :
    (dispatch api 100 (record request { script = "__SP_COOKIE_EAT__" }) (some tab_4)
      ≡ answered
          (error_result "UNKNOWN_COOKIE_SENTINEL" "Unknown cookie sentinel: __SP_COOKIE_EAT__"))
    × (dispatch api 100 (record request { script = "__SP_COOKIE_SET__:x" }) (some tab_4)
        ≡ answered (error_result "COOKIE_PARAM_PARSE" "Failed to parse cookie params: no JSON"))
unfolding dispatch dispatch_in run_family handle_known params_of split_colon starts_with
cookie_runs = (refl, refl)

known : get "s" tabs.windows ≡ some 8
unfolding get
known = refl

dispatch-in_session_example :
    (tab : Tab) × ((tab.window_id ≡ some 8) ⊎ IsCachedIn 8 [] tab)
    × IsAddressed api request tab bus.cmd
dispatch-in_session_example =
    dispatch-in_session browser (tab_4 ∷ []) [] tabs api 100 request "https://a.org/" "s" 8 bus
      (refl, tt) tt refl known (ap (dispatch api 100 request) found-tab_4 ∙ dispatched)

taken : should_process bus.cmd (some 4) (some 6) "https://ads.org/" ≡ some true
unfolding regular_bus should_process
taken = refl

dispatch-IsTaker_example :
    (tab : Tab) × (some tab_4 ≡ some tab)
    × (4 ≡ tab.id)
    × IsTaker api request tab 6 "https://ads.org/"
dispatch-IsTaker_example =
    dispatch-IsTaker api 100 request (some tab_4) bus 4 6 "https://ads.org/" dispatched taken

abbrev reply_fields : Fields
reply_fields = field "ok" (bool true) (field "_meta" (str "forged") end)

-- The bridge's text for the forged reply: the identity is that of the tab.
abbrev relayed_parse : String → Option Value
relayed_parse s =
    if s == "relayed"
    then some
        (bridged null (obj (field "tabId" (num 4) (field "tabUrl" (str "https://a.org/") end))))
    else none

abbrev relayed_js : Js
relayed_js = record { stringify = λ v. ""; parse = relayed_parse; trim = λ s. s; trim_end = λ s. s }

abbrev relay : String → ℕ → Reply
relay s ms = response true (some (str "relayed")) none

relay-IsRelayed : IsRelayed relayed_js (bus_result tab_4 bus (some (obj reply_fields))) (relay "" 0)
unfolding bus_result enrich identity_of regular_bus
relay-IsRelayed = record {
  text = "relayed";
  value = null;
  meta = obj (field "tabId" (num 4) (field "tabUrl" (str "https://a.org/") end));
  error = none;
  replied = refl;
  parsed = refl;
  same_meta = refl;
}

last_meta-identity_of_example :
    (take_steps
      ([] ++ (in_tab "https://a.org/" (λ c. extension_js relayed_js relay 15000 null none) ∷ []))
      (new_proxy (record { engine = extension; by_position = false }))).last_meta
    ≡ some (identity_of tab_4)
last_meta-identity_of_example =
    last_meta-identity_of api 100 request tab_4 "return 1" (some "https://ads.org/")
      (some (obj reply_fields)) reply_fields relayed_js relay 15000 null none [] [] "https://a.org/"
      (new_proxy (record { engine = extension; by_position = false })) refl relay-IsRelayed tt
