-- ===== src/Engines/Answers.antt =====
-- What an engine makes of what Safari, the daemon and the extension answer: src/engines/js-helpers.ts
-- and the methods of src/engines/applescript.ts, src/engines/daemon.ts and src/engines/extension.ts
-- that run a script. JSON and the trimming of texts are arguments; times and hints are left out.
pub mod Extension
pub mod Returned
pub mod Proxy
pub mod TimedOut
mod Tests
use safari_pilot.Params.{null, bool, num, str, arr, obj, Value, member, present, as_text}
use safari_pilot.Prelude.{
  Bool, List, Option, String, false, if◌then◌else◌, ℕ, leb, some, true, ◌||◌, ◌∷◌, or_default, ◌&&◌,
  none, not, ◌==◌, string_eq, [], nat_eq, is_some, ◌*◌, ◌+◌, ◌-◌,
}
use safari_pilot.Regex.{test, containing}
use safari_pilot.Text.{codes, is_digit}

-- JSON and texts, as the language has them.
pub record Js : Type 0 where
  pub stringify : Value → String
  pub parse : String → Option Value
  pub trim : String → String
  pub trim_end : String → String

-- `EngineError`. The message of an error that a page throws is any value.
pub record EngineError : Type 0 where
  pub error_code : String
  pub message : Value
  pub retryable : Bool

-- `EngineResult`
pub record Answer : Type 0 where
  pub is_ok : Bool
  pub value : Option String
  pub error : Option EngineError
  pub meta : Option Value

unfoldable pub success : Option String → Answer
success v = record { is_ok = true; value = v; error = none; meta = none }

unfoldable pub failure : String → Value → Bool → Answer
failure c m r = record {
  is_ok = false;
  value = none;
  error = some record { error_code = c; message = m; retryable = r };
  meta = none;
}

unfoldable pub csp_blocked : Answer
csp_blocked =
    failure "CSP_BLOCKED" (str "JavaScript execution blocked by Content Security Policy") false

unfoldable pub shadow_closed : Answer
shadow_closed = failure "SHADOW_DOM_CLOSED" (str "Cannot access closed shadow root") false

-- `text.toLowerCase().includes(words)`, but for letters beyond ASCII whose lower case is a Latin
-- letter.
abbrev pub mentions : String → String → Bool
mentions words text = test (containing words) (codes text)

unfoldable pub map_js_error_name : Value → String
map_js_error_name (str name) =
    if name == "SecurityError"
    then "PERMISSION_DENIED"
    else (if name == "TypeError"
        then "TYPE_ERROR"
        else (if name == "ReferenceError" then "REFERENCE_ERROR" else "JS_ERROR"))
map_js_error_name _ = "JS_ERROR"

abbrev pub truthy : Value → Bool
truthy null = false
truthy (bool b) = b
truthy (num n) = not (n == 0)
truthy (str s) = not (s == "")
truthy _ = true

-- `val === undefined || val === null ? undefined : typeof val === 'string' ? val : JSON.stringify(val)`
unfoldable pub text_of : Js → Option Value → Option String
text_of js none = none
text_of js (some null) = none
text_of js (some (str s)) = some s
text_of js (some v) = some (js.stringify v)

unfoldable pub thrown_error : Option Value → Answer
thrown_error e =
    failure (map_js_error_name (or_default (present (member e "name")) (str "Error")))
      (or_default (present (member e "message")) (str "Unknown error")) false

-- The parsed text, where it has `ok`; the text itself otherwise.
unfoldable pub read_envelope : Js → String → Option Value → Answer
read_envelope js raw parsed = elim (member parsed "ok") [
  | none ↦ success (some raw)
  | some o ↦
      if truthy o
      then success (text_of js (member parsed "value"))
      else thrown_error (member parsed "error")
]

unfoldable pub mentions_csp : String → Bool
mentions_csp raw = mentions "content security policy" raw || mentions "blocked by csp" raw

unfoldable pub mentions_shadow : String → Bool
mentions_shadow raw = mentions "shadow" raw && mentions "closed" raw

unfoldable pub parse_js_result : Js → Bool → String → Answer
parse_js_result js is_js_execution raw =
    if mentions_csp raw
    then csp_blocked
    else (if (raw == "") && is_js_execution
        then csp_blocked
        else (if mentions_shadow raw then shadow_closed else read_envelope js raw (js.parse raw)))

-- The daemon's reply to a request, or the error that the request ends with.
pub data Reply : Type 0 where
  response : (ok : Bool) (value error : Option Value) → Reply
  timed_out : String → Reply
  thrown : String → Reply

unfoldable pub daemon_error : Option Value → Answer
daemon_error e =
    failure (or_default (as_text (present (member e "code"))) "DAEMON_ERROR")
      (or_default (present (member e "message")) (str "Daemon returned an error")) true

unfoldable pub executed_value : Js → Option Value → Option String
executed_value js (some (str s)) = some (js.trim_end s)
executed_value js (some (arr items)) = some (js.stringify (arr items))
executed_value js (some (obj fields)) = some (js.stringify (obj fields))
executed_value js _ = none

unfoldable pub commanded_value : Js → Option Value → Option String
commanded_value js none = none
commanded_value js (some (str s)) = some (js.trim_end s)
commanded_value js (some v) = some (js.stringify v)

unfoldable pub from_reply : (Option Value → Option String) → Reply → Answer
from_reply read (response ok value error) = if ok then success (read value) else daemon_error error
from_reply read (timed_out m) = failure "TIMEOUT" (str m) true
from_reply read (thrown m) = failure "DAEMON_ERROR" (str m) true

-- The daemon's `execute` and `command`, from the reply to `sendCommand`.
unfoldable pub daemon_execute : Js → Reply → Answer
daemon_execute js = from_reply (executed_value js)

unfoldable pub daemon_command : Js → Reply → Answer
daemon_command js = from_reply (commanded_value js)

unfoldable pub daemon_js_in_tab : Js → Reply → Answer
daemon_js_in_tab js reply =
    let result = daemon_execute js reply in
    if result.is_ok
    then elim result.value [ none ↦ result | some v ↦ parse_js_result js true v ]
    else result

-- What `osascript` ends with: its output, or an error.
-- `killed` also where the process ended by SIGTERM or SIGKILL.
pub record ExecError : Type 0 where
  pub killed : Bool
  pub stderr : String
  pub text : String

pub data Osascript : Type 0 where
  printed : String → Osascript
  failed : ExecError → Osascript

-- The digits that the text starts with, as a number, and what follows; `none` where it has none.
unfoldable pub digits_value : ℕ → List ℕ → ℕ × List ℕ
digits_value n [] = (n, [])
digits_value n (c ∷ cs) =
    let rest = digits_value (n * 10 + (c - b'0')) cs in if is_digit c then rest else (n, c ∷ cs)

abbrev closes : ℕ × List ℕ → Option ℕ
closes (n, c ∷ cs) = if c == b')' then some n else none
closes (n, []) = none

abbrev number_closed : List ℕ → Option ℕ
number_closed [] = none
number_closed (c ∷ cs) = if is_digit c then closes (digits_value 0 (c ∷ cs)) else none

-- `/\((-?\d+)\)/`: the first number in parentheses, with its sign.
unfoldable pub paren_code : List ℕ → Option (Bool × ℕ)
unfolding digits_value
paren_code [] = none
paren_code (c ∷ []) = none
paren_code (c ∷ d ∷ cs) =
    let later = paren_code (d ∷ cs) in
    if not (c == b'(')
    then later
    else elim (if d == b'-' then number_closed cs else number_closed (d ∷ cs)) [
      | some n ↦ some (d == b'-', n)
      | none ↦ later
    ]

-- `AS_ERROR_CODES`: all its codes are negative.
unfoldable pub as_error_code : Option (Bool × ℕ) → Option (String × Bool)
as_error_code (some (true, n)) =
    if n == 600
    then some ("SAFARI_NOT_RUNNING", true)
    else (if n == 609
        then some ("SAFARI_CRASHED", true)
        else (if n == 1743
            then some ("PERMISSION_DENIED", false)
            else (if n == 1728 then some ("ELEMENT_NOT_FOUND", true) else none)))
as_error_code _ = none

unfoldable pub parse_apple_script_error : Js → String → Answer
parse_apple_script_error js stderr = elim (as_error_code (paren_code (codes stderr))) [
  | some (c, r) ↦ failure c (str (js.trim stderr)) r
  | none ↦
      failure "APPLESCRIPT_ERROR"
        (str (if js.trim stderr == "" then "Unknown AppleScript error" else js.trim stderr)) false
]

unfoldable pub classify_error : Js → ExecError → Answer
classify_error js e =
    if e.killed
    then failure "TIMEOUT" (str "osascript process timed out") true
    else (if not (e.stderr == "")
        then parse_apple_script_error js e.stderr
        else (if is_some (paren_code (codes e.text))
            then parse_apple_script_error js e.text
            else failure "UNKNOWN_ERROR" (str e.text) false))

-- `AppleScriptEngine.execute`, for scripts of both kinds.
unfoldable pub apple_script_execute : Js → Osascript → Answer
apple_script_execute js (printed stdout) = parse_js_result js false (js.trim stdout)
apple_script_execute js (failed e) = classify_error js e

-- A script that runs JavaScript: the value of `execute` is read once more.
unfoldable pub read_again : Js → Answer → Answer
read_again js result = if not result.is_ok then result else elim result.value [
  | none ↦ csp_blocked
  | some v ↦ if v == "" then csp_blocked else parse_js_result js true v
]

unfoldable pub apple_script_js_in_tab : Js → Osascript → Answer
apple_script_js_in_tab js out = read_again js (apple_script_execute js out)
