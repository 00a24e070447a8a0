-- ===== src/Engines.antt =====
-- The engines and what a tool asks of them: src/types.ts and src/engine-selector.ts.
pub mod Answers
pub mod Daemon
pub mod Selection
mod Tests
use safari_pilot.Errors.{Result, ok, err, engine_unavailable}
use safari_pilot.Prelude.{
  Bool, Option, String, if◌then◌else◌, true, ℕ, ◌||◌, false, ◌&&◌, or_default, not,
}
use safari_pilot.Security.CircuitBreaker.{CircuitBreaker, is_engine_tripped}

pub data Engine : Type 0 where
  extension daemon applescript : Engine

abbrev pub engine_name : Engine → String
engine_name extension = "extension"
engine_name daemon = "daemon"
engine_name applescript = "applescript"

pub record EngineCapabilities : Type 0 where
  pub shadow_dom : Bool
  pub csp_bypass : Bool
  pub dialog_intercept : Bool
  pub network_intercept : Bool
  pub cookie_http_only : Bool
  pub frames_cross_origin : Bool
  pub async_js : Bool
  pub viewport_capture : Bool
  pub latency_ms : ℕ

-- `requiresCspBypass?: boolean | 'preferred'`
pub data CspBypass : Type 0 where
  not_required required preferred : CspBypass

-- An optional flag that is missing is `false`.
pub record ToolRequirements : Type 0 where
  pub idempotent : Bool
  pub requires_shadow_dom : Bool
  pub requires_csp_bypass : CspBypass
  pub requires_dialog_intercept : Bool
  pub requires_network_intercept : Bool
  pub requires_cookie_http_only : Bool
  pub requires_frames_cross_origin : Bool
  pub requires_async_js : Bool
  pub requires_viewport_capture : Bool
  pub requires_applescript : Bool

abbrev no_capabilities : ℕ → EngineCapabilities
no_capabilities latency = record {
  shadow_dom = false;
  csp_bypass = false;
  dialog_intercept = false;
  network_intercept = false;
  cookie_http_only = false;
  frames_cross_origin = false;
  async_js = false;
  viewport_capture = false;
  latency_ms = latency;
}

unfoldable pub engine_caps : Engine → EngineCapabilities
engine_caps extension = record {
  shadow_dom = true;
  csp_bypass = true;
  dialog_intercept = true;
  network_intercept = true;
  cookie_http_only = true;
  frames_cross_origin = true;
  async_js = true;
  viewport_capture = true;
  latency_ms = 10;
}
engine_caps daemon = no_capabilities 5
engine_caps applescript = no_capabilities 80

abbrev is_required : CspBypass → Bool
is_required required = true
is_required _ = false

unfoldable pub requires_extension : ToolRequirements → Bool
requires_extension tool =
    tool.requires_shadow_dom
    || is_required tool.requires_csp_bypass
    || tool.requires_dialog_intercept
    || tool.requires_network_intercept
    || tool.requires_cookie_http_only
    || tool.requires_frames_cross_origin
    || tool.requires_async_js
    || tool.requires_viewport_capture

pub record Availability : Type 0 where
  pub daemon_up : Bool
  pub extension_up : Bool

abbrev pub is_preferred : CspBypass → Bool
is_preferred preferred = true
is_preferred _ = false

abbrev fallback : Availability → Engine
fallback available = if available.daemon_up then daemon else applescript

-- The decision of `selectEngine`, once it is known whether the extension can be used.
unfoldable pub choose_engine : ToolRequirements → Availability → Bool → Result Engine
choose_engine tool available usable =
    if requires_extension tool
    then (if usable
        then ok extension
        else err (
            engine_unavailable
              "This operation requires the Safari Web Extension which is not available"))
    else if is_preferred tool.requires_csp_bypass
    then (if usable then ok extension else ok (fallback available))
    else if tool.requires_applescript
    then ok applescript
    else if usable
    then ok extension
    else ok (fallback available)

-- `enabled` is `config?.extension?.enabled`. Asking the breaker may heal the engine.
unfoldable pub select_engine :
    ToolRequirements
    → Availability
    → Option Bool
    → ℕ
    → CircuitBreaker
    → Result Engine × CircuitBreaker
select_engine tool available enabled now breaker =
    let (tripped, breaker') = is_engine_tripped "extension" now breaker in
    (
      choose_engine tool available
          (available.extension_up && or_default enabled true && not tripped),
      breaker',
    )
