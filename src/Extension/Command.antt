-- ===== src/Extension/Command.antt =====
-- `executeCommand` of extension/background.js between the search for the tab and the result: which
-- commands are answered at once, which go over the storage bus, to which frame, and what is made of
-- the reply. A script that is empty stands for none. The handlers of cookies and rules, the
-- screenshot and the hint about other tabs are arguments, like the browser.
pub mod Addressed
pub mod Delivered
pub mod Dispatched
pub mod Identified
mod Tests
use Prim.Native.Char.{code}
use safari_pilot.Prelude.{
  List, Option, String, ℕ, ◌∷◌, none, Bool, if◌then◌else◌, [], any, false, true, ◌==◌, some,
  string_eq, length, nat_eq,
}
use safari_pilot.Params.{null, arr, Value, bool, obj, Items, end, field, nil, str, num, cons}
use safari_pilot.Extension.Session.{Tab}
use safari_pilot.Extension.Frame.{Cmd}
use safari_pilot.Text.{join}

pub record Request : Type 0 where
  pub id : String
  pub script : String
  pub tab_url : Option String
  pub session : Option String
  pub frame_id : Option ℕ

pub record PageFrame : Type 0 where
  pub frame_id : ℕ
  pub parent_frame_id : Value
  pub url : String
  pub error_occurred : Option Value

-- A call that may throw, with the message.
pub data Try (A : Type 0) : Type 0 where
  gave : A → Try A
  threw : String → Try A

pub record Api : Type 0 where
  pub stringify : Value → String
  pub parse : String → Try Value
  pub get_all_frames : ℕ → Try (List PageFrame)
  pub handle : String → Value → Try Value
  pub put_item : String → String → Try Unit
  pub remove_item : String → Try Unit
  pub screenshot : Tab → Value
  pub hint : String → String
  pub is_cs_ready : ℕ → Bool

-- A command on the storage bus: what is written, what a timeout gives, and whether the identity of
-- the tab is added to the reply.
pub record Bus : Type 0 where
  pub script : String
  pub cmd : Cmd
  pub timeout_error : Value
  pub enriched : Bool

-- `crashed` is a type error that leaves `executeCommand`.
pub data Dispatch : Type 0 where
  answered : Value → Dispatch
  crashed : Dispatch
  on_bus : Bus → Dispatch

abbrev pub ok_result : Value → Value
ok_result v = obj (field "ok" (bool true) (field "value" v end))

abbrev pub error_result : String → String → Value
error_result name message = obj (
    field "ok" (bool false)
      (field "error" (obj (field "name" (str name) (field "message" (str message) end))) end))

-- No tab: the error has a name only if the command has a URL.
unfoldable pub tab_missing : Api → Option String → Value
tab_missing api none = obj (
    field "ok" (bool false)
      (field "error" (obj (field "message" (str "No target tab for url=\"undefined\"") end)) end))
tab_missing api (some url) =
    if url == ""
    then obj (
        field "ok" (bool false)
          (field "error" (obj (field "message" (str "No target tab for url=\"\"") end)) end))
    else error_result "TAB_NOT_FOUND" (
        join "No agent-owned tab matches url=\""
          (join url (join "\" (extension cache miss)." (api.hint url))))

abbrev or_false : Option Value → Value
or_false none = bool false
or_false (some null) = bool false
or_false (some v) = v

abbrev frame_items : List PageFrame → Items
frame_items [] = nil
frame_items (f ∷ fs) =
    cons
      (obj (
        field "frameId" (num f.frame_id) (
          field "parentFrameId" f.parent_frame_id
            (field "url" (str f.url) (field "errorOccurred" (or_false f.error_occurred) end)))))
      (frame_items fs)

unfoldable pub list_frames : Api → Tab → Value
list_frames api tab = elim (api.get_all_frames tab.id) [
  | threw m ↦ error_result "WEBNAVIGATION_ERROR" (join "webNavigation.getAllFrames failed: " m)
  | gave frames ↦ ok_result (
      str (
        api.stringify (
          obj
            (field "count" (num (length frames)) (field "frames" (arr (frame_items frames)) end)))))
]

-- The sentinel and its parameters, which follow the first colon.
unfoldable pub split_colon : String → String × Option String
split_colon String.[] = ("", none)
split_colon (String.◌∷◌ c s) =
    let (word, rest) = split_colon s in
    if code c == b':' then ("", some s) else (String.◌∷◌ c word, rest)

unfoldable pub params_of : Api → Option String → Try Value
params_of api none = gave (obj end)
params_of api (some text) = api.parse text

-- The sentinels of rules and cookies: the words of their errors, and the sentinels that are known.
pub record Family : Type 0 where
  pub word : String
  pub prefix : String
  pub parse_error : String
  pub unknown_error : String
  pub api_error : String
  pub known : List String

abbrev pub dnr : Family
dnr = record {
  word = "DNR";
  prefix = "__SP_DNR_";
  parse_error = "DNR_PARAM_PARSE";
  unknown_error = "UNKNOWN_DNR_SENTINEL";
  api_error = "DNR_API_ERROR";
  known = "__SP_DNR_ADD_RULE__" ∷ "__SP_DNR_REMOVE_RULE__" ∷ [];
}

abbrev pub cookies : Family
cookies = record {
  word = "cookie";
  prefix = "__SP_COOKIE_";
  parse_error = "COOKIE_PARAM_PARSE";
  unknown_error = "UNKNOWN_COOKIE_SENTINEL";
  api_error = "COOKIE_API_ERROR";
  known = "__SP_COOKIE_GET_ALL__" ∷ "__SP_COOKIE_SET__" ∷ "__SP_COOKIE_REMOVE__" ∷ [];
}

unfoldable pub handle_known : Family → Api → String → Value → Value
handle_known family api sentinel params =
    if any (λ known. known == sentinel) family.known
    then elim (api.handle sentinel params) [
      | gave v ↦ ok_result (str (api.stringify v))
      | threw m ↦ error_result family.api_error m
    ]
    else error_result family.unknown_error
        (join "Unknown " (join family.word (join " sentinel: " sentinel)))

unfoldable pub run_family : Family → Api → String → Value
run_family family api script = elim (params_of api (split_colon script).1) [
  | threw m ↦
      error_result family.parse_error
        (join "Failed to parse " (join family.word (join " params: " m)))
  | gave params ↦ handle_known family api (split_colon script).0 params
]
