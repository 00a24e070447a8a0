-- ===== src/Extension/Command/Dispatched.antt =====
-- `executeCommand` (extension/background.js), from the found tab on: the sentinels in the order of
-- the code, the check of the frame, and the command that is written to the storage bus.
use safari_pilot.Params.{
  Items, obj, Fields, str, arr, end, field, cons, num, null, nil, Value, set_field, as_text, member,
}
use safari_pilot.Extension.Command.{
  Api, Request, Bus, PageFrame, error_result, Dispatch, threw, on_bus, answered, gave, list_frames,
  ok_result, params_of, split_colon, dnr, tab_missing, run_family, cookies, crashed,
}
use safari_pilot.Extension.Session.{Tab}
use safari_pilot.Prelude.{
  Bool, Option, ℕ, if◌then◌else◌, some, List, false, String, or_default, ◌==◌, not, none, nat_eq,
  string_eq, ◌∷◌, ◌+◌, [], true, suc,
}
use safari_pilot.Text.{join, decimal}
use safari_pilot.Extension.TabMatch.{starts_with}

-- A text that is not empty, of a parameter.
abbrev text_param : Value → String → String
text_param params k = or_default (as_text (member (some params) k)) ""

-- The scripts that put a selector pack into the page and take it out.
unfoldable pub injection_script : Api → String → String → String
injection_script api name body =
    join "window.__sp_pack=window.__sp_pack||{};try{window.__sp_pack[" (
      join (api.stringify (str name)) (
        join "]=new Function('root','arg'," (
          join (api.stringify (str body)) (
            join ");return JSON.stringify({ok:true,name:" (
              join (api.stringify (str name))
                "});}catch(e){return JSON.stringify({ok:false,error:e&&e.message?e.message:String(e)});}")))))

unfoldable pub removal_script : Api → String → String
removal_script api name = join "var __removed=false;if(window.__sp_pack&&window.__sp_pack[" (
    join (api.stringify (str name)) (
      join "]){delete window.__sp_pack[" (
        join (api.stringify (str name))
          "];__removed=true;}return JSON.stringify({ok:true,removed:__removed});")))

-- A selector pack is answered, goes on with another script, or reads a field of `null`.
pub data Packed : Type 0 where
  stopped : Value → Packed
  broken : Packed
  go_on : String → Packed

unfoldable pub pack_key : Tab → String → String
pack_key tab name = join "sp_pack_" (join (decimal tab.id) (join "_" name))

unfoldable pub register_pack : Api → Tab → String → String → Packed
register_pack api tab name body =
    if body == ""
    then stopped (error_result "PACK_INVALID_BODY" "pack register sentinel requires non-empty body")
    else elim (api.put_item (pack_key tab name) body) [
      | threw m ↦ stopped (error_result "PACK_STORAGE_WRITE_FAILED" m)
      | gave _ ↦ go_on (injection_script api name body)
    ]

unfoldable pub unregister_pack : Api → Tab → String → Packed
unregister_pack api tab name = elim (api.remove_item (pack_key tab name)) [
  | threw m ↦ stopped (error_result "PACK_STORAGE_REMOVE_FAILED" m)
  | gave _ ↦ go_on (removal_script api name)
]

unfoldable pub pack_with : Api → Tab → String → Value → Packed
pack_with api tab sentinel null = broken
pack_with api tab sentinel params =
    let name = text_param params "name" in
    if name == ""
    then stopped (error_result "PACK_INVALID_NAME" "pack sentinel requires non-empty name")
    else (if sentinel == "__SP_PACK_REGISTER__"
        then register_pack api tab name (text_param params "body")
        else (if sentinel == "__SP_PACK_UNREGISTER__"
            then unregister_pack api tab name
            else stopped
                (error_result "UNKNOWN_PACK_SENTINEL" (join "Unknown pack sentinel: " sentinel))))

unfoldable pub run_pack : Api → Tab → String → Packed
run_pack api tab script =
    if not (starts_with "__SP_PACK_" script)
    then go_on script
    else elim (params_of api (split_colon script).1) [
      | threw m ↦ stopped (error_result "PACK_PARAM_PARSE" (join "Failed to parse pack params: " m))
      | gave params ↦ pack_with api tab (split_colon script).0 params
    ]

abbrev pub is_targeted : Option ℕ → Bool
is_targeted none = false
is_targeted (some f) = not (f == 0)

unfoldable pub find_frame : ℕ → List PageFrame → Option PageFrame
find_frame f [] = none
find_frame f (p ∷ ps) = let later = find_frame f ps in if p.frame_id == f then some p else later

-- The URL that a frame has now, or the answer that there is no such frame.
pub data Checked : Type 0 where
  missing : Value → Checked
  current : Option String → Checked

unfoldable pub check_frame : Api → Tab → Option ℕ → Checked
check_frame api tab none = current none
check_frame api tab (some f) = if f == 0 then current none else elim (api.get_all_frames tab.id) [
  | threw m ↦ missing (
      error_result "FRAME_NOT_FOUND"
        (join "webNavigation.getAllFrames failed for tab " (join (decimal tab.id) (join ": " m))))
  | gave frames ↦ elim (find_frame f frames) [
    | none ↦ missing (
        error_result "FRAME_NOT_FOUND"
          (join "Frame " (join (decimal f) (join " not found in tab " (decimal tab.id)))))
    | some p ↦ current (some p.url)
  ]
]

-- What a timeout gives: to a frame, or to the top frame, whose content script has or has not shown
-- itself lately.
unfoldable pub timeout_error : Option ℕ → Bool → Value
timeout_error none cs_ready =
    if not cs_ready
    then error_result "CONTENT_SCRIPT_NOT_READY"
        "Content script did not respond within 30000ms; no readiness heartbeat observed for this tab. Page may still be loading; call safari_wait_for with selector=\"body\" before retrying."
    else error_result "STORAGE_BUS_TIMEOUT"
        "Storage bus timeout (30000ms) — content script registered but did not respond in time"
timeout_error (some frame) cs_ready = error_result "FRAME_UNREACHABLE" (
    join "Frame " (
      join (decimal frame)
        " unreachable — content script did not respond within 10000ms (sandbox/CSP/injection failure?)"))

-- The command of the regular path.
unfoldable pub regular_bus : Api → ℕ → Request → Tab → String → Option String → Bus
regular_bus api now req tab script frame_url = record {
  script = script;
  cmd = record {
    command_id = some req.id;
    tab_id = tab.id;
    frame_id = if is_targeted req.frame_id then req.frame_id else none;
    frame_url = if is_targeted req.frame_id then frame_url else none;
    deadline = some (now + (if is_targeted req.frame_id then 10000 else 30000));
  };
  timeout_error =
      timeout_error (if is_targeted req.frame_id then req.frame_id else none)
        (api.is_cs_ready tab.id);
  enriched = true;
}

-- A file upload and its probes: to the top frame, and their replies are passed on as they are.
unfoldable pub upload_bus : ℕ → Request → Tab → (error message : String) → (ms : ℕ) → Dispatch
upload_bus now req tab error message ms = on_bus (record {
  script = req.script;
  cmd = record {
    command_id = some req.id;
    tab_id = tab.id;
    frame_id = none;
    frame_url = none;
    deadline = some (now + ms);
  };
  timeout_error = error_result error message;
  enriched = false;
})

unfoldable pub send_checked : Api → ℕ → Request → Tab → String → Checked → Dispatch
send_checked api now req tab script (missing v) = answered v
send_checked api now req tab script (current url) = on_bus (regular_bus api now req tab script url)

unfoldable pub send_packed : Api → ℕ → Request → Tab → Packed → Dispatch
send_packed api now req tab (stopped v) = answered v
send_packed api now req tab broken = crashed
send_packed api now req tab (go_on script) =
    send_checked api now req tab script (check_frame api tab req.frame_id)

unfoldable pub dispatch_in : Api → ℕ → Request → Tab → Dispatch
dispatch_in api now req tab =
    if req.script == "__SP_LIST_FRAMES__"
    then answered (list_frames api tab)
    else (if starts_with dnr.prefix req.script
        then answered (run_family dnr api req.script)
        else (if req.script == "__SP_TAKE_SCREENSHOT__"
            then answered (api.screenshot tab)
            else (if starts_with "__SP_FILE_UPLOAD_PROBE_TEST__" req.script
                then upload_bus now req tab "PROBE_TIMEOUT" "File upload probe timeout (15000ms)"
                    15000
                else (if starts_with "__SP_FILE_UPLOAD_PROBE__:" req.script
                    then upload_bus now req tab "FILE_UPLOAD_PROBE_TIMEOUT"
                        "probe timeout (30000ms)" 30000
                    else (if starts_with "__SP_FILE_UPLOAD__:" req.script
                        then upload_bus now req tab "FILE_UPLOAD_TIMEOUT" "upload timeout (30000ms)"
                            30000
                        else (if starts_with cookies.prefix req.script
                            then answered (run_family cookies api req.script)
                            else send_packed api now req tab (run_pack api tab req.script)))))))

-- A command without a script is answered before its tab is looked for.
unfoldable pub dispatch : Api → ℕ → Request → Option Tab → Dispatch
dispatch api now req tab = if req.script == "" then answered (ok_result null) else elim tab [
  | none ↦ answered (tab_missing api req.tab_url)
  | some t ↦ dispatch_in api now req t
]

-- `{ ...result, _meta }`
unfoldable pub identity_of : Tab → Value
identity_of tab = obj (field "tabId" (num tab.id) (with_tab_url tab.url))
  where
    with_tab_url : Option String → Fields
    with_tab_url none = end
    with_tab_url (some url) = field "tabUrl" (str url) end

abbrev numbered : ℕ → Items → Fields
numbered n nil = end
numbered n (cons v vs) = field (decimal n) v (numbered (suc n) vs)

unfoldable pub enrich : Tab → Value → Value
enrich tab (obj fs) = obj (set_field "_meta" (identity_of tab) fs)
enrich tab (arr vs) = obj (set_field "_meta" (identity_of tab) (numbered 0 vs))
enrich tab v = v

-- The result of a command on the bus, whose reply is `none` where the timeout is over first.
unfoldable pub bus_result : Tab → Bus → Option Value → Value
bus_result tab b reply =
    let result = or_default reply b.timeout_error in
    if b.enriched then enrich tab result else result
