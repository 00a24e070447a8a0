-- ===== src/Engines/Answers/Returned.antt =====
-- What a caller gets of what its script returned: the harness of `wrapJavaScript`
-- (src/engines/js-helpers.ts) against the readings of its output by two engines.
use safari_pilot.Prelude.{refl}
use safari_pilot.Prelude.{
  Option, String, ◌==◌, Bool, ◌≡◌, some, subst, false, ◌∙◌, ap, none, sym, ◌⊎◌, true, or_default,
  string_eq, inl, inr,
}
use safari_pilot.Params.{obj, field, bool, str, end, Value, Fields, member, present}
use safari_pilot.Engines.Answers.{
  Js, apple_script_js_in_tab, daemon_execute, daemon_js_in_tab, parse_js_result, read_again,
  read_envelope, text_of, printed, Answer, success, from_reply, thrown_error, apple_script_execute,
  executed_value, failure, response, map_js_error_name, mentions_csp, mentions_shadow, csp_blocked,
}

-- The script returned a value or nothing, or threw something with a message and a name.
pub data Outcome : Type 0 where
  returned : Option Value → Outcome
  threw : (message name : Option Value) → Outcome

-- `JSON.stringify` leaves out a key whose value is `undefined`.
abbrev optional : String → Option Value → Fields → Fields
optional k none fs = fs
optional k (some v) fs = field k v fs

-- What the harness prints, as a value.
unfoldable pub envelope : Outcome → Value
envelope (returned v) = obj (field "ok" (bool true) (optional "value" v end))
envelope (threw m n) = obj (
    field "ok" (bool false)
      (field "error" (obj (optional "message" m (optional "name" n end))) end))

-- The answer that says what happened.
unfoldable pub answer_of : Js → Outcome → Answer
answer_of js (returned v) = success (text_of js v)
answer_of js (threw m n) =
    failure (map_js_error_name (or_default (present n) (str "Error")))
      (or_default (present m) (str "Unknown error")) false

-- `raw` is the JSON text of the outcome, and speaks neither of a policy nor of a closed shadow.
pub record Prints (js : Js) (raw : String) (o : Outcome) : Type 0 where
  pub parsed : js.parse raw ≡ some (envelope o)
  pub trimmed : js.trim raw ≡ raw
  pub trimmed_end : js.trim_end raw ≡ raw
  pub not_empty : (raw == "") ≡ false
  pub no_csp : mentions_csp raw ≡ false
  pub no_shadow : mentions_shadow raw ≡ false

read_envelope-envelope :
    (js : Js) (raw : String) (o : Outcome)
    → read_envelope js raw (some (envelope o)) ≡ answer_of js o
unfolding read_envelope envelope answer_of thrown_error
read_envelope-envelope js raw (returned none) = refl
read_envelope-envelope js raw (returned (some v)) = refl
read_envelope-envelope js raw (threw none none) = refl
read_envelope-envelope js raw (threw none (some n)) = refl
read_envelope-envelope js raw (threw (some m) none) = refl
read_envelope-envelope js raw (threw (some m) (some n)) = refl

parse_js_result-plain :
    (js : Js) (b : Bool) (raw : String)
    → (raw == "") ≡ false
    → mentions_csp raw ≡ false
    → mentions_shadow raw ≡ false
    → parse_js_result js b raw ≡ read_envelope js raw (js.parse raw)
unfolding parse_js_result
parse_js_result-plain js b raw full no_csp no_shadow = rw (no_csp, full, no_shadow) refl

parse_js_result-Prints :
    (js : Js) (b : Bool) (raw : String) (o : Outcome)
    → Prints js raw o
    → parse_js_result js b raw ≡ answer_of js o
parse_js_result-Prints js b raw o p =
    parse_js_result-plain js b raw p.not_empty p.no_csp p.no_shadow
    ∙ ap (read_envelope js raw) p.parsed
    ∙ read_envelope-envelope js raw o

daemon_execute-str :
    (js : Js) (raw : String) (e : Option Value)
    → js.trim_end raw ≡ raw
    → daemon_execute js (response true (some (str raw)) e) ≡ success (some raw)
unfolding daemon_execute from_reply executed_value
daemon_execute-str js raw e t = ap (λ r. success (some r)) t

-- A script that the daemon runs is answered by what it did: the value that it returned, as a text
-- or as JSON, or the code of the error that it threw with the message, provided that its output is
-- the JSON text of that, which trimming leaves as it is, and mentions neither a content security
-- policy nor a closed shadow root.
pub daemon_js_in_tab-answer_of :
    (js : Js) (raw : String) (o : Outcome) (e : Option Value)
    → Prints js raw o
    → daemon_js_in_tab js (response true (some (str raw)) e) ≡ answer_of js o
unfolding daemon_js_in_tab success
daemon_js_in_tab-answer_of js raw o e p =
    rw (daemon_execute-str js raw e p.trimmed_end) (parse_js_result-Prints js true raw o p)

apple_script_js_in_tab-read_again :
    (js : Js) (raw : String) (o : Outcome)
    → Prints js raw o
    → apple_script_js_in_tab js (printed raw) ≡ read_again js (answer_of js o)
unfolding apple_script_js_in_tab apple_script_execute
apple_script_js_in_tab-read_again js raw o p =
    rw (p.trimmed) (ap (read_again js) (parse_js_result-Prints js false raw o p))

-- Where AppleScript runs a script that returns nothing, `null` or the empty text, the answer is
-- that a content security policy blocked it, although its output is the JSON text of that, which
-- trimming leaves as it is, and mentions no such thing.
pub apple_script_js_in_tab-blank :
    (js : Js) (raw : String) (v : Option Value)
    → Prints js raw (returned v)
    → (text_of js v ≡ none) ⊎ (text_of js v ≡ some "")
    → apple_script_js_in_tab js (printed raw) ≡ csp_blocked
unfolding read_again answer_of success
apple_script_js_in_tab-blank js raw v p (inl nothing) =
    apple_script_js_in_tab-read_again js raw (returned v) p ∙ rw (nothing, read_again) refl
apple_script_js_in_tab-blank js raw v p (inr empty) =
    apple_script_js_in_tab-read_again js raw (returned v) p ∙ rw (empty, read_again) refl

-- A text that a second reading leaves as it is: not empty, without the words of a policy or a
-- closed shadow root, and not the JSON text of an object with a key `ok`.
pub record IsPlain (js : Js) (t : String) : Type 0 where
  pub not_empty : (t == "") ≡ false
  pub no_csp : mentions_csp t ≡ false
  pub no_shadow : mentions_shadow t ≡ false
  pub no_envelope : member (js.parse t) "ok" ≡ none

abbrev pub IsPlainOutcome : Js → Outcome → Type 0
IsPlainOutcome js (returned v) = (t : String) × (text_of js v ≡ some t) × IsPlain js t
IsPlainOutcome js (threw m n) = Unit

read_again-IsPlain :
    (js : Js) (t : String) → IsPlain js t → read_again js (success (some t)) ≡ success (some t)
unfolding read_again success read_envelope
read_again-IsPlain js t p = rw (p.not_empty) (
    parse_js_result-plain js true t p.not_empty p.no_csp p.no_shadow
    ∙ rw (p.no_envelope, read_envelope) refl)

read_again-IsPlainOutcome :
    (js : Js) (o : Outcome) → IsPlainOutcome js o → read_again js (answer_of js o) ≡ answer_of js o
unfolding answer_of
read_again-IsPlainOutcome js (returned v) p =
    subst (λ t. read_again js (success t) ≡ success t) (sym p.1) (read_again-IsPlain js p.0 p.2)
read_again-IsPlainOutcome js (threw m n) p = threw_again _ _
  where
    threw_again : (c : String) (m : Value) → read_again js (failure c m false) ≡ failure c m false
    threw_again c m = unfold read_again failure in refl

-- On the same output of a script both engines give the same answer, if the script threw an error,
-- or the value that it returned is a text, or has a JSON text, that is not empty, is no JSON text of
-- an object with a key `ok`, and mentions neither a content security policy nor a closed shadow
-- root. The output is the JSON text of what the script did, which trimming leaves as it is, and
-- mentions neither of the two.
pub engines_agree :
    (js : Js) (raw : String) (o : Outcome) (e : Option Value)
    → Prints js raw o
    → IsPlainOutcome js o
    → apple_script_js_in_tab js (printed raw)
      ≡ daemon_js_in_tab js (response true (some (str raw)) e)
engines_agree js raw o e p plain =
    apple_script_js_in_tab-read_again js raw o p
    ∙ read_again-IsPlainOutcome js o plain
    ∙ sym (daemon_js_in_tab-answer_of js raw o e p)
