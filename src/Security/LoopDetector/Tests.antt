-- ===== src/Security/LoopDetector/Tests.antt =====
-- The detectors at concrete inputs.
use safari_pilot.Security.LoopDetector.{
  call_eq, record_snapshot_result, pre_check, List, Params, str, String, ◌∷◌, reset, push_last,
  empty, is_repeated,
}
use safari_pilot.Security.LoopDetector.Detection.{
  check_all, record_all, ends_in, record_of, pre_check-exact, record_snapshot_result-exact,
}
use safari_pilot.Prelude.{◌∷◌, [], ◌≡◌, if◌then◌else◌, refl, ◌++◌, map, string_eq}
use safari_pilot.Errors.{ok, err, loop_detected, thrash_detected}
use safari_pilot.Params.{num}

abbrev click : Params
click = ("tabUrl", str "https://a.org/") ∷ ("selector", str "#go") ∷ ("timeout", num 5) ∷ []

abbrev four_clicks : List (String × Params)
four_clicks =
    ("safari_click", click)
    ∷ ("safari_click", click)
    ∷ ("safari_click", click)
    ∷ ("safari_click", click)
    ∷ []

pre_check-exact_example :
    (pre_check "safari_click" click (check_all four_clicks (reset empty))).0 ≡ (
      if ends_in 5
        (record_of "safari_click" click)
        (map (λ c. record_of c.0 c.1) four_clicks ++ record_of "safari_click" click ∷ [])
      then err (loop_detected "safari_click" 5)
      else ok tt)
pre_check-exact_example = pre_check-exact four_clicks empty "safari_click" click

record_snapshot_result-exact_example :
    (record_snapshot_result "s" (record_all ("t" ∷ "s" ∷ "s" ∷ []) (reset empty))).0 ≡ (
      if ends_in {A = String} 4 "s" (("t" ∷ "s" ∷ "s" ∷ []) ++ "s" ∷ [])
      then err (thrash_detected 4)
      else ok tt)
record_snapshot_result-exact_example = record_snapshot_result-exact ("t" ∷ "s" ∷ "s" ∷ []) empty "s"

third_is_accepted :
    (record_snapshot_result "s" (record_all ("t" ∷ "s" ∷ "s" ∷ []) (reset empty))).0 ≡ ok tt
unfolding record_snapshot_result record_all reset push_last is_repeated
third_is_accepted = refl
