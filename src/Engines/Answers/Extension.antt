-- ===== src/Engines/Answers/Extension.antt =====
-- The engine that runs scripts in the extension, through the daemon (src/engines/extension.ts).
use safari_pilot.Prelude.{
  List, Option, ℕ, String, Bool, if◌then◌else◌, or_default, some, ◌≡◌, false, leb, not, ◌&&◌, ◌==◌,
  ◌++◌, none, ◌||◌, true, nat_eq, ◌∷◌, string_eq, ap, ◌∙◌,
}
use safari_pilot.Engines.Answers.{
  Answer, EngineError, Js, Reply, daemon_execute, response, text_of, is_digit, from_reply,
  executed_value, success,
}
use safari_pilot.Params.{obj, str, field, num, end, Value, Fields, member}
use safari_pilot.Regex.{Atom, literal, test, one, star}
use safari_pilot.Text.{join, codes}

-- `typeof` a string, as `JSON.stringify` of the parameters has it: keys that are `undefined` are
-- left out.
abbrev with_url : Option String → Fields → Fields
with_url none fs = fs
with_url (some url) fs = field "sessionDashboardUrl" (str url) fs

abbrev with_frame : Option ℕ → Fields → Fields
with_frame none fs = fs
with_frame (some frame) fs = field "frameId" (num frame) fs

-- What is sent for a script in a tab, or in a frame of one.
unfoldable pub payload :
    (session : Option String) (url : String) (frame : Option ℕ) (js_code : String) → Value
payload session url frame js_code = obj (
    field "script" (str js_code)
      (field "tabUrl" (str url) (with_frame frame (with_url session end))))

unfoldable pub command_text : Js → Value → String
command_text js v = join "__SAFARI_PILOT_INTERNAL__ extension_execute " (js.stringify v)

-- `/Daemon command\s+"execute"\s+timed out\s+after\s+\d+\s*ms/i`
abbrev pub is_space : ℕ → Bool
is_space c =
    (leb 9 c && leb c 13)
    || c == 32
    || c == 0xA0
    || c == 0x1680
    || (leb 0x2000 c && leb c 0x200A)
    || c == 0x2028
    || c == 0x2029
    || c == 0x202F
    || c == 0x205F
    || c == 0x3000
    || c == 0xFEFF

abbrev pub timeout_atoms : List Atom
timeout_atoms =
    literal "Daemon command"
    ++ (one is_space
        ∷ star is_space
        ∷ (literal "\"execute\""
            ++ (one is_space
                ∷ star is_space
                ∷ (literal "timed out"
                    ++ (one is_space
                        ∷ star is_space
                        ∷ (literal "after"
                            ++ (one is_space
                                ∷ star is_space
                                ∷ one is_digit
                                ∷ star is_digit
                                ∷ star is_space
                                ∷ literal "ms")))))))

unfoldable pub is_execute_timeout : Value → Bool
is_execute_timeout (str m) =
    test (record { at_start = false; atoms = timeout_atoms; at_end = false }) (codes m)
is_execute_timeout _ = false

unfoldable pub translate_error : EngineError → EngineError
translate_error e =
    if is_execute_timeout e.message
    then record { error_code = "DAEMON_TIMEOUT"; message = e.message; retryable = false }
    else e

unfoldable pub translate_daemon_error : Answer → Answer
translate_daemon_error result = if result.is_ok then result else elim result.error [
  | none ↦ result
  | some e ↦ record result { error = some (translate_error e) }
]

-- A value that carries `_meta` is taken apart.
unfoldable pub unwrap_parsed : Js → Answer → Option Value → Answer
unwrap_parsed js result parsed = elim (member parsed "_meta") [
  | none ↦ result
  | some m ↦ record {
    is_ok = true;
    value = text_of js (member parsed "value");
    error = none;
    meta = some m;
  }
]

unfoldable pub unwrap_meta : Js → Answer → Answer
unwrap_meta js result = unwrap_parsed js result (js.parse (or_default result.value ""))

unfoldable pub extension_answer : Js → Answer → Answer
extension_answer js result =
    if result.is_ok then unwrap_meta js result else translate_daemon_error result

-- `executeJsInTab` and `executeJsInFrame`; `run` is the daemon, given a script and a time.
unfoldable pub extension_js :
    Js → (String → ℕ → Reply) → (default_ms : ℕ) → Value → Option ℕ → Answer
extension_js js run default_ms sent timeout =
    extension_answer js
      (daemon_execute js (run (command_text js sent) (or_default timeout default_ms)))

unfoldable pub extension_execute :
    Js → (String → ℕ → Reply) → (default_ms : ℕ) → String → Option ℕ → Answer
extension_execute js run default_ms script timeout = translate_daemon_error (
    daemon_execute js (
      run (command_text js (obj (field "script" (str script) end)))
        (or_default timeout default_ms)))

-- `isAvailable`: a connection over HTTP or TCP, unless the environment forbids it.
unfoldable pub mechanism_connects : Option Value → Bool
mechanism_connects (some (str m)) = m == "http" || m == "tcp"
mechanism_connects _ = false

unfoldable pub extension_available : Js → (forced_off : Bool) → (String → Reply) → Bool
extension_available js forced_off run =
    if forced_off
    then false
    else (let result = daemon_execute js (run "__SAFARI_PILOT_INTERNAL__ extension_health") in
        if not result.is_ok then false else elim result.value [
          | none ↦ false
          | some v ↦ mechanism_connects (member (js.parse v) "ipcMechanism")
        ])

-- The reply of the bridge that wraps a value with the identity of its tab.
abbrev pub bridged : Value → Value → Value
bridged v m = obj (field "value" v (field "_meta" m end))

-- The bridge's value and the identity of its tab come back as they were sent: the value as a text
-- or as its JSON text, and the identity as the meta of the answer.
pub extension_js-bridged :
    (js : Js) (run : String → ℕ → Reply) (default_ms : ℕ) (sent : Value) (timeout : Option ℕ)
    → (s : String) (v m : Value) (e : Option Value)
    → run (command_text js sent) (or_default timeout default_ms) ≡ response true (some (str s)) e
    → js.parse (js.trim_end s) ≡ some (bridged v m)
    → extension_js js run default_ms sent timeout
      ≡ record { is_ok = true; value = text_of js (some v); error = none; meta = some m }
unfolding extension_js extension_answer unwrap_meta unwrap_parsed daemon_execute from_reply
    executed_value success
extension_js-bridged js run default_ms sent timeout s v m e replied parsed =
    ap (λ r. extension_answer js (daemon_execute js r)) replied ∙ ap (unwrap_parsed js _) parsed
