-- ===== src/Engines/Answers/Tests.antt =====
-- The engines' answers at concrete outputs.
use safari_pilot.Engines.Answers.Returned.{
  Outcome, envelope, returned, apple_script_js_in_tab-blank, engines_agree, answer_of,
  daemon_js_in_tab-answer_of, Prints, IsPlainOutcome,
}
use safari_pilot.Prelude.{
  String, Option, ℕ, none, ◌≡◌, if◌then◌else◌, false, true, some, ◌∷◌, ◌==◌, refl, [], ◌++◌, inl,
  string_eq,
}
use safari_pilot.Params.{null, obj, field, str, num, end, bool, Value}
use safari_pilot.Engines.Answers.{
  Js, apple_script_js_in_tab, daemon_js_in_tab, mentions_csp, paren_code, Answer, digits_value,
  response, mentions_shadow, printed, Reply, text_of, timed_out, csp_blocked, failure,
}
use safari_pilot.Engines.Answers.Extension.{extension_js, extension_js-bridged, bridged}
use safari_pilot.Engines.Answers.Proxy.{
  Call, Delegate, take_steps, resetting, in_tab, delegating, new_proxy, left_meta,
  last_meta-left_meta,
}
use safari_pilot.Engines.{daemon}
use safari_pilot.Regex.{test, match_atoms, match_star, search_from}
use safari_pilot.Text.{codes}
use safari_pilot.Engines.Answers.TimedOut.{timeout_message, extension_js-timed_out}

-- A page that returned `"hi"`, one that returned nothing, and what the bridge says of a tab.
abbrev hi : Outcome
hi = returned (some (str "hi"))

abbrev printed_hi : String
printed_hi = "{\"ok\":true,\"value\":\"hi\"}"

abbrev nothing : Outcome
nothing = returned none

abbrev tab_seven : Value
tab_seven = obj (field "tabId" (num 7) end)

abbrev parse_sample : String → Option Value
parse_sample s =
    if s == printed_hi
    then some (obj (field "ok" (bool true) (field "value" (str "hi") end)))
    else (if s == "{\"ok\":true}"
        then some (obj (field "ok" (bool true) end))
        else (if s == "bridged" then some (bridged (str "hi") tab_seven) else none))

abbrev sample : Js
sample = record { stringify = λ v. "json"; parse = parse_sample; trim = λ s. s; trim_end = λ s. s }

sample-hi : Prints sample printed_hi hi
unfolding envelope mentions_csp mentions_shadow test match_atoms match_star search_from
sample-hi = record {
  parsed = refl;
  trimmed = refl;
  trimmed_end = refl;
  not_empty = refl;
  no_csp = refl;
  no_shadow = refl;
}

sample-nothing : Prints sample "{\"ok\":true}" nothing
unfolding envelope mentions_csp mentions_shadow test match_atoms match_star search_from
sample-nothing = record {
  parsed = refl;
  trimmed = refl;
  trimmed_end = refl;
  not_empty = refl;
  no_csp = refl;
  no_shadow = refl;
}

hi-IsPlain : IsPlainOutcome sample hi
unfolding mentions_csp mentions_shadow test match_atoms match_star search_from text_of
hi-IsPlain =
    ("hi", refl, record { not_empty = refl; no_csp = refl; no_shadow = refl; no_envelope = refl })

daemon_js_in_tab-answer_of_example :
    daemon_js_in_tab sample (response true (some (str printed_hi)) none) ≡ answer_of sample hi
daemon_js_in_tab-answer_of_example = daemon_js_in_tab-answer_of sample printed_hi hi none sample-hi

apple_script_js_in_tab-blank_example :
    apple_script_js_in_tab sample (printed "{\"ok\":true}") ≡ csp_blocked
apple_script_js_in_tab-blank_example =
    apple_script_js_in_tab-blank sample "{\"ok\":true}" none sample-nothing (inl no_text)
  where
    no_text : text_of sample none ≡ none
    no_text = unfold text_of in refl

engines_agree_example :
    apple_script_js_in_tab sample (printed printed_hi)
    ≡ daemon_js_in_tab sample (response true (some (str printed_hi)) none)
engines_agree_example = engines_agree sample printed_hi hi none sample-hi hi-IsPlain

-- The code of an error of AppleScript, and a text with other parentheses before a number in some.
paren_code_runs :
    (paren_code (codes "Safari got an error: x (-1728)") ≡ some (true, 1728))
    × (paren_code (codes "(x) (-) (12)") ≡ some (false, 12))
unfolding paren_code digits_value
paren_code_runs = (refl, refl)

abbrev run_late : String → ℕ → Reply
run_late s ms = timed_out (timeout_message "execute" ms)

extension_js-timed_out_example :
    extension_js sample run_late 15000 null (some 900)
    ≡ failure "DAEMON_TIMEOUT" (str (timeout_message "execute" 900)) false
extension_js-timed_out_example =
    extension_js-timed_out sample run_late 15000 null (some 900) 900 refl

abbrev run_bridged : String → ℕ → Reply
run_bridged s ms = response true (some (str "bridged")) none

extension_js_bridged_hi : extension_js sample run_bridged 15000 null none ≡ record {
  is_ok = true;
  value = text_of sample (some (str "hi"));
  error = none;
  meta = some tab_seven;
}
extension_js_bridged_hi =
    extension_js-bridged sample run_bridged 15000 null none "bridged" (str "hi") tab_seven none refl
      refl

abbrev ask : Call → Answer
ask c = record { is_ok = true; value = none; error = none; meta = some tab_seven }

abbrev daemon_delegate : Delegate
daemon_delegate = record { engine = daemon; by_position = false }

last_meta_after_call :
    (take_steps
      ((resetting ∷ []) ++ (in_tab "u" ask ∷ (delegating daemon_delegate ∷ [])))
      (new_proxy daemon_delegate)).last_meta
    ≡ left_meta (in_tab "u" ask) (take_steps (resetting ∷ []) (new_proxy daemon_delegate))
last_meta_after_call =
    last_meta-left_meta (resetting ∷ []) (delegating daemon_delegate ∷ []) (in_tab "u" ask)
      (new_proxy daemon_delegate) (tt, tt)
