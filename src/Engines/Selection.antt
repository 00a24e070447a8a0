-- ===== src/Engines/Selection.antt =====
-- What `select_engine` promises.
use safari_pilot.Engines.{
  is_required, ToolRequirements, EngineCapabilities, choose_engine, engine_caps, requires_extension,
  Availability, Engine, extension, daemon, select_engine, applescript, is_preferred,
}
use safari_pilot.Prelude.{
  Bool, ◌&&◌, not, ◌||◌, ◌≡◌, true, false, arith, ℕ, Option, List, ◌∷◌, if◌then◌else◌, some,
  or_default, [], ltb, none, string_eq, refl, Option-cases,
}
use safari_pilot.Errors.{ok, err, Result, engine_unavailable}
use safari_pilot.Security.CircuitBreaker.{is_engine_tripped, CircuitBreaker}
use safari_pilot.Prelude.Dict.{get}

-- The engine has every capability that the tool strictly requires.
abbrev implies : Bool → Bool → Bool
implies a b = not a || b

abbrev pub serves : ToolRequirements → EngineCapabilities → Bool
serves tool caps =
    implies tool.requires_shadow_dom caps.shadow_dom
    && implies (is_required tool.requires_csp_bypass) caps.csp_bypass
    && implies tool.requires_dialog_intercept caps.dialog_intercept
    && implies tool.requires_network_intercept caps.network_intercept
    && implies tool.requires_cookie_http_only caps.cookie_http_only
    && implies tool.requires_frames_cross_origin caps.frames_cross_origin
    && implies tool.requires_async_js caps.async_js
    && implies tool.requires_viewport_capture caps.viewport_capture

-- The end of the engine's cooldown is still to come.
abbrev cools_until : ℕ → Option ℕ → Bool
cools_until now none = false
cools_until now (some until) = ltb now until

-- `config?.extension?.enabled === false`
abbrev is_switched_off : Option Bool → Bool
is_switched_off none = false
is_switched_off (some b) = not b

-- The extension can be used when it is up, not switched off by the configuration, and not in its
-- cooldown; the daemon when it is up; AppleScript always.
abbrev pub can_reach : Availability → Option Bool → ℕ → CircuitBreaker → Engine → Bool
can_reach available enabled now breaker extension =
    available.extension_up
    && not (is_switched_off enabled)
    && not (cools_until now (get "extension" breaker.engine_tripped_until))
can_reach available enabled now breaker daemon = available.daemon_up
can_reach available enabled now breaker applescript = true

-- The engines by preference: a tool that works through AppleScript wants that one first, unless it
-- prefers to get around the page's policy.
abbrev pub preference : ToolRequirements → List Engine
preference tool =
    if tool.requires_applescript && not (is_preferred tool.requires_csp_bypass)
    then applescript ∷ extension ∷ daemon ∷ []
    else extension ∷ daemon ∷ applescript ∷ []

abbrev pub first_of : (Engine → Bool) → List Engine → Result Engine
first_of p [] =
    err
      (engine_unavailable "This operation requires the Safari Web Extension which is not available")
first_of p (e ∷ engines) = if p e then ok e else first_of p engines

choose_engine-first :
    (tool : ToolRequirements) (available : Availability) (usable : Bool) (p : Engine → Bool)
    → p extension ≡ (serves tool (engine_caps extension) && usable)
    → p daemon ≡ (serves tool (engine_caps daemon) && available.daemon_up)
    → p applescript ≡ (serves tool (engine_caps applescript) && true)
    → choose_engine tool available usable ≡ first_of p (preference tool)
unfolding choose_engine engine_caps requires_extension
choose_engine-first tool available usable p e d a = ground (arith, e, d, a)

extension-reached :
    (available : Availability) (enabled : Option Bool) (now : ℕ) (breaker : CircuitBreaker)
    → can_reach available enabled now breaker extension ≡ (
        available.extension_up
        && or_default enabled true
        && not (is_engine_tripped "extension" now breaker).0)
unfolding is_engine_tripped
extension-reached available enabled now breaker =
    ground
      (arith, Option-cases enabled, Option-cases (get "extension" breaker.engine_tripped_until))

-- The engine that is selected is the first, by preference, that has every capability the tool
-- strictly requires and can be reached: the extension when it is up, not switched off by the
-- configuration and not in its cooldown, the daemon when it is up, AppleScript always. There is
-- an error exactly if there is no such engine.
pub select_engine-first :
    (tool : ToolRequirements) (available : Availability) (enabled : Option Bool) (now : ℕ)
    (breaker : CircuitBreaker)
    → (select_engine tool available enabled now breaker).0
      ≡ first_of
          (λ e. serves tool (engine_caps e) && can_reach available enabled now breaker e)
          (preference tool)
unfolding select_engine
select_engine-first tool available enabled now breaker =
    choose_engine-first tool available _
      (λ e. serves tool (engine_caps e) && can_reach available enabled now breaker e)
      (rw (extension-reached available enabled now breaker) refl) refl refl
