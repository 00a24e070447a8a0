-- ===== src/Engines/Answers/TimedOut.antt =====
-- A script that the daemon does not answer in time (`DaemonTimeoutError` in src/engines/daemon.ts)
-- as the extension's engine reports it (`translateDaemonError` in src/engines/extension.ts).
-- A character that each of the patterns' literals accepts, and a text that its own literal matches.
use safari_pilot.Prelude.{or_default}
use Prim.Native.Char.{code}
use safari_pilot.Prelude.{
  List, String, ℕ, ◌≡◌, false, true, ==_refl, ◌++◌, ◌∷◌, nat_eq, [], Bool, ◌∙◌, refl, ap, Option,
  or_default,
}
use safari_pilot.Regex.{
  Atom, same_letter, literal, one, to_lower, star, search_from, test, match_atoms,
}
use safari_pilot.Text.{join, decimal, is_digit, codes}
use safari_pilot.Text.Decimal.{IsDigits, last_digit, more_digits, codes-join, decimal-IsDigits}
use safari_pilot.Regex.Matching.{
  more_star, finish, match_atoms_complete, Matches, take_one, stop_star, more_star,
}
use safari_pilot.Engines.Answers.Extension.{
  extension_answer, is_space, timeout_atoms, is_execute_timeout, extension_js,
  translate_daemon_error, translate_error, command_text,
}
use safari_pilot.Engines.Answers.{daemon_execute, from_reply, failure, Js, Reply, timed_out}
use safari_pilot.Params.{str, Value}

same_letter_refl : (c : ℕ) → same_letter c c ≡ true
same_letter_refl c = ==_refl (to_lower c)

Matches-literal :
    (s : String) (atoms : List Atom) (cs : List ℕ)
    → Matches false atoms cs
    → Matches false (literal s ++ atoms) (codes s ++ cs)
Matches-literal String.[] atoms cs m = m
Matches-literal (String.◌∷◌ c s) atoms cs m =
    take_one (same_letter_refl (code c)) (Matches-literal s atoms cs m)

Matches-digits :
    (ds : List ℕ) (atoms : List Atom) (cs : List ℕ)
    → IsDigits ds
    → Matches false atoms cs
    → Matches false (one is_digit ∷ star is_digit ∷ atoms) (ds ++ cs)
Matches-digits [] atoms cs p m = elim p [ ]
Matches-digits (c ∷ ds) atoms cs (last_digit c' d) m = take_one d (stop_star m)
Matches-digits (c ∷ ds) atoms cs (more_digits c' d p) m = take_one d (run ds p)
  where
    run : (es : List ℕ) → IsDigits es → Matches false (star is_digit ∷ atoms) (es ++ cs)
    run [] q = elim q [ ]
    run (c'' ∷ es) (last_digit e h) = more_star h (stop_star m)
    run (c'' ∷ es) (more_digits e h q) = more_star h (run es q)

-- The message of `DaemonTimeoutError`.
unfoldable pub timeout_message : String → ℕ → String
timeout_message method ms =
    join "Daemon command \"" (join method (join "\" timed out after " (join (decimal ms) "ms")))

Matches-space :
    (atoms : List Atom) (cs : List ℕ)
    → Matches false atoms cs
    → Matches false (one is_space ∷ star is_space ∷ atoms) (32 ∷ cs)
Matches-space atoms cs m = take_one refl (stop_star m)

timeout_atoms-Matches :
    (ds : List ℕ)
    → IsDigits ds
    → Matches false timeout_atoms
        (codes "Daemon command \"execute\" timed out after " ++ (ds ++ codes "ms"))
timeout_atoms-Matches ds p = Matches-literal "Daemon command" _ _ (
    Matches-space _ _ (
      Matches-literal "\"execute\"" _ _ (
        Matches-space _ _ (
          Matches-literal "timed out" _ _ (
            Matches-space _ _ (
              Matches-literal "after" _ _ (
                Matches-space _ _
                  (Matches-digits ds _ _ p (stop_star (Matches-literal "ms" [] [] finish))))))))))

search_from-here : (p : List ℕ → Bool) (cs : List ℕ) → p cs ≡ true → search_from p cs ≡ true
unfolding search_from
search_from-here p [] h = h
search_from-here p (c ∷ cs) h = rw h refl

codes-timeout_message :
    (ms : ℕ)
    → codes (timeout_message "execute" ms)
      ≡ codes "Daemon command \"execute\" timed out after " ++ (codes (decimal ms) ++ codes "ms")
unfolding timeout_message
codes-timeout_message ms =
    codes-join "Daemon command \"" _
    ∙ ap (λ r. codes "Daemon command \"" ++ r)
        (codes-join "execute" _
          ∙ ap (λ r. codes "execute" ++ r)
              (codes-join "\" timed out after " _
                ∙ ap (λ r. codes "\" timed out after " ++ r) (codes-join (decimal ms) "ms")))

timeout_message-IsTimeout :
    (ms : ℕ) → is_execute_timeout (str (timeout_message "execute" ms)) ≡ true
unfolding is_execute_timeout test
timeout_message-IsTimeout ms = rw (codes-timeout_message ms) (
    search_from-here (match_atoms false timeout_atoms)
      (codes "Daemon command \"execute\" timed out after " ++ (codes (decimal ms) ++ codes "ms"))
      (match_atoms_complete false
        (timeout_atoms-Matches (codes (decimal ms)) (decimal-IsDigits ms))))

-- A script that the daemon does not answer in time, whatever the time was, is answered with the
-- error `DAEMON_TIMEOUT` and the daemon's message, and the caller is told not to retry.
pub extension_js-timed_out :
    (js : Js) (run : String → ℕ → Reply) (default_ms : ℕ) (sent : Value) (timeout : Option ℕ)
    → (ms : ℕ)
    → run (command_text js sent) (or_default timeout default_ms)
      ≡ timed_out (timeout_message "execute" ms)
    → extension_js js run default_ms sent timeout
      ≡ failure "DAEMON_TIMEOUT" (str (timeout_message "execute" ms)) false
unfolding extension_js extension_answer translate_daemon_error translate_error daemon_execute
    from_reply failure
extension_js-timed_out js run default_ms sent timeout ms replied =
    ap (λ r. extension_answer js (daemon_execute js r)) replied
    ∙ rw (timeout_message-IsTimeout ms) refl
