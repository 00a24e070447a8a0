-- ===== src/Engines/Tests.antt =====
-- The choice of an engine for concrete tools.
use safari_pilot.Prelude.{refl, true, false, ◌≡◌, none, ◌&&◌, ◌∷◌, []}
use safari_pilot.Engines.{
  not_required, choose_engine, Availability, ToolRequirements, requires_extension, engine_caps,
  daemon, extension, select_engine,
}
use safari_pilot.Engines.Selection.{select_engine-first, serves, can_reach, preference, first_of}
use safari_pilot.Security.CircuitBreaker.{CircuitBreaker, new}
use safari_pilot.Errors.{ok}
use safari_pilot.Prelude.Dict.{get, delete}

abbrev plain_tool : ToolRequirements
plain_tool = record {
  idempotent = true;
  requires_shadow_dom = false;
  requires_csp_bypass = not_required;
  requires_dialog_intercept = false;
  requires_network_intercept = false;
  requires_cookie_http_only = false;
  requires_frames_cross_origin = false;
  requires_async_js = false;
  requires_viewport_capture = false;
  requires_applescript = false;
}

abbrev shadow_tool : ToolRequirements
shadow_tool = record plain_tool { requires_shadow_dom = true }

abbrev both_up : Availability
both_up = record { daemon_up = true; extension_up = true }

-- An extension that is in its cooldown until 500.
abbrev cooling : CircuitBreaker
unfolding new
cooling = record (new none none none) { engine_tripped_until = ("extension", 500) ∷ [] }

select_engine-first_example :
    (select_engine plain_tool both_up none 300 cooling).0
    ≡ first_of
        (λ e. serves plain_tool (engine_caps e) && can_reach both_up none 300 cooling e)
        (preference plain_tool)
select_engine-first_example = select_engine-first plain_tool both_up none 300 cooling

daemon_while_cooling : (select_engine plain_tool both_up none 300 cooling).0 ≡ ok daemon
unfolding select_engine choose_engine requires_extension
    safari_pilot.Security.CircuitBreaker.is_engine_tripped get cooling
daemon_while_cooling = refl

extension_required : (select_engine shadow_tool both_up none 500 cooling).0 ≡ ok extension
unfolding select_engine choose_engine requires_extension
    safari_pilot.Security.CircuitBreaker.is_engine_tripped get delete cooling
extension_required = refl
