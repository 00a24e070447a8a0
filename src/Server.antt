-- ===== src/Server.antt =====
-- src/server.ts: the state of `SafariPilotServer` after `initialize`, and what a tool call may end in.
pub mod Gate
pub mod Guards
pub mod Ownership
pub mod Registry
pub mod Aftermath
pub mod Execute
pub mod Safety
pub mod Guarded
pub mod Leak
pub mod Audited
pub mod Batch
pub mod Owned
pub mod Stopped
mod Tests
use safari_pilot.Errors.{Error, Result, ok, err}
use safari_pilot.Engines.{Engine, Availability, ToolRequirements}
use safari_pilot.Security.KillSwitch.{KillSwitch}
use safari_pilot.Security.DomainPolicy.{DomainPolicy}
use safari_pilot.Security.RateLimiter.{RateLimiter}
use safari_pilot.Security.LoopDetector.{LoopDetector}
use safari_pilot.Security.CircuitBreaker.{CircuitBreaker}
use safari_pilot.Security.TabOwnership.{TabOwnership, Position}
use safari_pilot.Security.AuditLog.{AuditLog}
use safari_pilot.Security.AuditLog
use safari_pilot.Security.WallCap.{WallCapEnforcer}
use safari_pilot.Prelude.{
  Bool, List, Option, String, ℕ, or_default, if◌then◌else◌, ◌==◌, string_eq, ◌+◌,
}
use safari_pilot.Params.{Params, Value, as_text, coalesce}
use safari_pilot.Prelude.Dict.{Dict, get}

-- `_meta` of an extension result.
pub record EngineMeta : Type 0 where
  pub tab_id : Option ℕ
  pub tab_url : Option String

-- src/engines/engine-proxy.ts, as far as the server reads and writes it.
pub record EngineProxy : Type 0 where
  pub delegate : Engine
  pub last_meta : Option EngineMeta
  pub tab_position : Option Position

pub record Server : Type 0 where
  pub kill_switch : KillSwitch
  pub domain_policy : DomainPolicy
  pub rate_limiter : RateLimiter
  pub loop_detector : LoopDetector
  pub circuit_breaker : CircuitBreaker
  pub tab_ownership : TabOwnership
  pub audit_log : AuditLog
  pub wall_cap : WallCapEnforcer
  pub engine_availability : Availability
  pub extension_enabled : Option Bool
  pub registered : Engine → Bool
  pub engine_proxy : EngineProxy
  pub tools : Dict String ToolRequirements
  pub session_id : String
  pub session_tab_url : String
  pub session_window_id : Option ℕ
  pub next_tab_index : ℕ

pub data Content : Type 0 where
  text : String → Content
  image : Content

pub record Metadata : Type 0 where
  pub engine : Engine
  pub degraded : Bool
  pub degraded_reason : Option String
  pub latency_ms : ℕ
  pub idpi_safe : Bool

pub record ToolResponse : Type 0 where
  pub content : List Content
  pub is_error : Bool
  pub metadata : Option Metadata

-- What a stage ends in: it goes on, the call returns early, or it throws.
pub data Outcome {ℓ} (A : Type ℓ) : Type ℓ where
  done : A → Outcome A
  returned : ToolResponse → Outcome A
  thrown : Error → Outcome A

-- What was written before a throw stays written.
abbrev pub Exec : Type 0 → Type 0
Exec A = Server → Outcome A × Server

abbrev pub continue : {A B : Type 0} → Outcome A → (A → Exec B) → Exec B
continue (done a) f s = f a s
continue (returned r) f s = (returned r, s)
continue (thrown e) f s = (thrown e, s)

infixl 5 ◌>>=◌ ◌>>◌
abbrev pub ◌>>=◌ : {A B : Type 0} → Exec A → (A → Exec B) → Exec B
◌>>=◌ m f s = let (r, s') = m s in continue r f s'

abbrev pub ◌>>◌ : {A B : Type 0} → Exec A → Exec B → Exec B
m >> n = m >>= λ _. n

abbrev pub pure : {A : Type 0} → A → Exec A
pure a s = (done a, s)

abbrev pub throw : {A : Type 0} → Error → Exec A
throw e s = (thrown e, s)

abbrev pub return_early : {A : Type 0} → ToolResponse → Exec A
return_early r s = (returned r, s)

abbrev pub modify : (Server → Server) → Exec (Unit {0})
modify f s = (done tt, f s)

abbrev pub gets : {A : Type 0} → (Server → A) → Exec A
gets f s = (done (f s), s)

-- The outcome of a layer that may throw, as a stage.
abbrev pub lift : {A : Type 0} → Result A → Exec A
lift (ok a) s = (done a, s)
lift (err e) s = (thrown e, s)

pub record TabSnapshot : Type 0 where
  pub window_id : ℕ
  pub tab_index : ℕ
  pub url : String

-- What the code takes from outside in one call: the parsers of the platform, the two process
-- variables, the probes of the daemon and of Safari, and the clock. Everything from the first
-- reading of the clock to the dispatch of the tool runs without waiting, so it reads `now`; what
-- runs after the tool reads `later`.
pub record Env : Type 0 where
  pub hostname_of : String → Option String
  pub parse_json : String → Option Value
  pub stringify_json : Value → String
  pub iso : ℕ → String
  pub now : ℕ
  pub later : ℕ
  pub harness_bypass : Bool
  pub force_no_extension : Bool
  pub extension_status : Bool
  pub window_exists : Bool
  pub window_exists_again : Bool
  pub opened_window : Result (Option ℕ)
  pub polls : List Bool
  pub front_window : Option ℕ
  pub tabs_before : List TabSnapshot
  pub tabs_after : Option (List TabSnapshot)
  pub is_injection_free : String → Bool

-- `((params['tabUrl'] ?? params['url'] ?? '') as string)`
abbrev pub url_of : Params → String
url_of params = or_default (as_text (coalesce (get "tabUrl" params) (get "url" params))) ""

-- The host of the URL, or the empty text where the parser throws.
abbrev pub domain_of : Env → String → String
domain_of env url = or_default (env.hostname_of (if url == "" then "about:blank" else url)) ""

-- An entry of the audit log about this call.
abbrev pub audit : Env → ℕ → String → String → Engine → Params → AuditLog.Outcome → Server → Server
audit env elapsed name url engine params result s = record s {
  audit_log =
      AuditLog.append
        (record {
          timestamp = env.iso (env.now + elapsed);
          tool = name;
          tab_url = url;
          engine = engine;
          params = params;
          result = result;
          elapsed_ms = elapsed;
          session = s.session_id;
        })
        s.audit_log;
}
