-- ===== src/Errors.antt =====
-- The errors that the pipeline throws (src/errors.ts) and the outcome of a method that may throw.
-- An error carries what later code reads of it: its class, its code and what its message is
-- built from.
use safari_pilot.Prelude.{
  ℕ, String, Bool, Option, false, List, true, or_default, not, ◌==◌, map, ◌++◌, ◌||◌, nat_eq, ◌∷◌,
  if◌then◌else◌, [],
}
use safari_pilot.Regex.{test, Atom, prefix, one, star}
use safari_pilot.Text.{codes, join, decimal}

pub data Error : Type 0 where
  kill_switch_active : String → Error
  rate_limited : String → ℕ → Error
  circuit_breaker_open : String → ℕ → Error
  tab_url_not_recognized : String → Error
  session_tab_protected : Error
  tab_not_owned : ℕ → Error
  domain_not_allowed : String → Error
  human_approval_required : String → String → Error
  engine_unavailable : String → Error
  loop_detected : String → ℕ → Error
  thrash_detected : ℕ → Error
  wall_cap_exceeded : ℕ → ℕ → Error
  session_recovery_failed : Bool → Bool → Bool → Error
  engine_execution : String → String → Bool → List String → Error
  other_error : Option String → String → Error

pub data Result {ℓ} (A : Type ℓ) : Type ℓ where
  ok : A → Result A
  err : Error → Result A

-- `error.code`, or `UNKNOWN` where there is none.
unfoldable pub code_of : Error → String
code_of (kill_switch_active _) = "KILL_SWITCH_ACTIVE"
code_of (rate_limited _ _) = "RATE_LIMITED"
code_of (circuit_breaker_open _ _) = "CIRCUIT_BREAKER_OPEN"
code_of (tab_url_not_recognized _) = "TAB_NOT_OWNED"
code_of session_tab_protected = "SESSION_TAB_PROTECTED"
code_of (tab_not_owned _) = "TAB_NOT_OWNED"
code_of (domain_not_allowed _) = "DOMAIN_NOT_ALLOWED"
code_of (human_approval_required _ _) = "HUMAN_APPROVAL_REQUIRED"
code_of (engine_unavailable _) = "EXTENSION_REQUIRED"
code_of (loop_detected _ _) = "LOOP_DETECTED"
code_of (thrash_detected _) = "THRASH_DETECTED"
code_of (wall_cap_exceeded _ _) = "WALL_CAP_EXCEEDED"
code_of (session_recovery_failed _ _ _) = "SESSION_RECOVERY_FAILED"
code_of (engine_execution code _ _ _) = code
code_of (other_error code _) = or_default code "UNKNOWN"

-- `/^Domain '.+' is blocked by configuration/`, which has no flag `i`.
abbrev exactly : String → List Atom
exactly s = map (λ c. one (λ x. x == c)) (codes s)

abbrev any_char : ℕ → Bool
any_char c = not (c == 10 || c == 13 || c == 0x2028 || c == 0x2029)

unfoldable pub is_blocked_message : String → Bool
is_blocked_message message =
    test
      (prefix (
        exactly "Domain '"
        ++ one any_char ∷ star any_char ∷ exactly "' is blocked by configuration"))
      (codes message)

-- Guardrails, as opposed to failures of a tool: the classes, and the message of a plain error.
unfoldable pub is_security_pipeline_error : Error → Bool
is_security_pipeline_error (session_recovery_failed _ _ _) = false
is_security_pipeline_error (engine_execution _ message _ _) = is_blocked_message message
is_security_pipeline_error (other_error _ message) = is_blocked_message message
is_security_pipeline_error _ = true

abbrev pub is_anti_thrash : Error → Bool
is_anti_thrash (loop_detected _ _) = true
is_anti_thrash (thrash_detected _) = true
is_anti_thrash _ = false

abbrev join_all : List String → String
join_all [] = ""
join_all (s ∷ strings) = join s (join_all strings)

-- `down.join(', ')`
abbrev comma_separated : List String → String
comma_separated [] = ""
comma_separated (s ∷ []) = s
comma_separated (s ∷ strings) = join s (join ", " (comma_separated strings))

abbrev unless : Bool → String → List String
unless up what = if up then [] else what ∷ []

-- The message that the constructor of the class makes. The server gives 10000 as the duration of
-- the recovery.
unfoldable pub message_of : Error → String
message_of (kill_switch_active reason) = join "Kill switch active: " reason
message_of (rate_limited domain limit) =
    join_all ("Rate limit exceeded for domain: " ∷ domain ∷ " (max " ∷ decimal limit ∷ "/min)" ∷ [])
message_of (circuit_breaker_open domain seconds) =
    join_all
      ("Circuit breaker open for domain: " ∷ domain ∷ " (cooldown: " ∷ decimal seconds ∷ "s)" ∷ [])
message_of (tab_url_not_recognized url) = join "Tab URL not recognized as agent-owned: " url
message_of session_tab_protected =
    "Operation refused on session dashboard tab — this tab cannot be controlled by agents."
message_of (tab_not_owned tab) = join "Tab not owned by agent: " (decimal tab)
message_of (domain_not_allowed domain) = join "Domain not in allowlist: " domain
message_of (human_approval_required action domain) =
    join_all ("Human approval required for \"" ∷ action ∷ "\" on " ∷ domain ∷ [])
message_of (engine_unavailable message) = message
message_of (loop_detected tool threshold) = join_all (
    "Loop detected: "
    ∷ tool
    ∷ " called "
    ∷ decimal threshold
    ∷ " times with the same arguments"
    ∷ [])
message_of (thrash_detected threshold) = join_all (
    "Thrash detected: safari_snapshot returned identical content "
    ∷ decimal threshold
    ∷ " times"
    ∷ [])
message_of (wall_cap_exceeded cap elapsed) = join_all (
    "Session wall-clock cap exceeded: "
    ∷ decimal elapsed
    ∷ "ms elapsed exceeds "
    ∷ decimal cap
    ∷ "ms budget"
    ∷ [])
message_of (session_recovery_failed daemon extension window) =
    join "Session recovery failed after 10000ms: " (
      comma_separated (
        unless daemon "daemon not running"
        ++ unless extension "extension not connected"
        ++ unless window "session window closed"))
message_of (engine_execution code message retryable hints) = message
message_of (other_error code message) = message
