-- ===== src/Server/Tests.antt =====
-- Calls on a concrete server. The parser of URLs is replaced by one that knows a single host.
use safari_pilot.Prelude.{
  refl, ◌≡◌, true, some, ◌∷◌, none, false, ◌⊎◌, [], ℕ, arith, List, Option, length, ◌≤◌,
}
use safari_pilot.Security.CircuitBreaker.{empty_state, assert_closed}
use safari_pilot.Security.TabOwnership
use safari_pilot.Security.LoopDetector
use safari_pilot.Security.RateLimiter
use safari_pilot.Security.KillSwitch
use safari_pilot.Security.DomainPolicy
use safari_pilot.Security.AuditLog
use safari_pilot.Server.Guarded.{execute_guarded}
use safari_pilot.Server.Audited.{dispatch-Audited, Audited, is_done}
use safari_pilot.Server.Owned.{dispatch-RanInOwned, RanInOwned}
use safari_pilot.Server.{Env, url_of, Server, ToolResponse}
use safari_pilot.Engines.{ToolRequirements, applescript, not_required, extension}
use safari_pilot.Prelude.Dict.{set, get}
use safari_pilot.Params.{Params, str}
use safari_pilot.Server.{Outcome, done, returned, thrown}
use safari_pilot.Server.Ownership.{Ready, prepare_engine, tab_url_of}
use safari_pilot.Server.Execute.{Handler, execute_tool_with_security, dispatch}
use safari_pilot.Server.Aftermath.{verify_identity, meta_tab}
use safari_pilot.Errors.{err, engine_execution, ok, circuit_breaker_open}
use safari_pilot.Security.TabOwnership.{
  find_by_url, find_tab, find_by_extension_tab_id, update_url, TabId,
}
use safari_pilot.Server.Safety.{Permitted}
use safari_pilot.Text.{strip_slash}
use safari_pilot.Server.Guards.{pass_guards}
use safari_pilot.Server.Leak.{probe_taken_before_engine}
use safari_pilot.Server.Stopped.{run_calls, active_switch_stops_all, Call}
use safari_pilot.Server.Batch.{
  BatchReply, SubResult, Surroundings, handle_batch, Action, run_actions, run_checked,
  check_actions, check_action,
}
use safari_pilot.Server.Batch.InOrder.{IsTurn, handle_batch-IsTurn}
use safari_pilot.Extension.TabMatch.{starts_with}

abbrev env : Env
env = record {
  hostname_of = λ url. some "a.org";
  parse_json = λ raw. none;
  stringify_json = λ v. "{}";
  iso = λ t. "t";
  now = 500;
  later = 510;
  harness_bypass = false;
  force_no_extension = false;
  extension_status = true;
  window_exists = true;
  window_exists_again = true;
  opened_window = ok none;
  polls = [];
  front_window = none;
  tabs_before = [];
  tabs_after = none;
  is_injection_free = λ t. true;
}

abbrev read_tool : ToolRequirements
read_tool = record {
  idempotent = true;
  requires_shadow_dom = false;
  requires_csp_bypass = not_required;
  requires_dialog_intercept = false;
  requires_network_intercept = false;
  requires_cookie_http_only = false;
  requires_frames_cross_origin = false;
  requires_async_js = false;
  requires_viewport_capture = false;
  requires_applescript = true;
}

-- The circuit of the host was opened at 20, for 100 ms.
abbrev server : Server
unfolding DomainPolicy.new DomainPolicy.sensitive_rules set DomainPolicy.add_rules KillSwitch.new
    RateLimiter.new AuditLog.new TabOwnership.register_tab
server = record {
  kill_switch = KillSwitch.new true none;
  domain_policy = DomainPolicy.new [] [] none;
  rate_limiter = RateLimiter.new none none;
  loop_detector = LoopDetector.empty;
  circuit_breaker = record {
    states = ("a.org", record empty_state { opened_at = some 20; failures = 2 }) ∷ [];
    failure_threshold = 2;
    window_ms = 100;
    cooldown_ms = 100;
    engine_failures = [];
    engine_tripped_until = [];
  };
  tab_ownership =
      TabOwnership.register_tab 1000 "https://a.org/x" (some 7) (some 1) (some 2)
        TabOwnership.empty;
  audit_log = AuditLog.new none none;
  wall_cap = record { max_ms = some 1000; started_at = 0 };
  engine_availability = record { daemon_up = true; extension_up = true };
  extension_enabled = none;
  registered = λ e. true;
  engine_proxy = record {
    delegate = applescript;
    last_meta = some (record { tab_id = some 7; tab_url = some "https://a.org/y" });
    tab_position = none;
  };
  tools = ("safari_get_text", read_tool) ∷ [];
  session_id = "s";
  session_tab_url = "https://session";
  session_window_id = some 1;
  next_tab_index = 1;
}

-- A tab that the agent does not own.
abbrev stranger : Params
stranger = ("tabUrl", str "https://a.org/z") ∷ []

execute_guarded_example :
    ((o : Outcome ToolResponse) × (t : Server) × ((handler : Handler)
        → execute_tool_with_security handler env "safari_get_text" stranger server ≡ (o, t)))
    ⊎ (Permitted env "safari_get_text" stranger server
        × (ready : Ready) × (t : Server) × ((handler : Handler)
            → execute_tool_with_security handler env "safari_get_text" stranger server
              ≡ dispatch handler env "safari_get_text" stranger ready t))
execute_guarded_example = execute_guarded env "safari_get_text" stranger server

abbrev ready : Ready
ready = record { engine = applescript; deferred = false; params = stranger; degradation = none }

abbrev failing : Handler
failing name params s = (err (engine_execution "TIMEOUT" "no answer" true []), s)

dispatch-Audited_example :
    Audited "safari_get_text"
      (url_of stranger)
      applescript
      (is_done (dispatch failing env "safari_get_text" stranger ready server).0)
      (dispatch failing env "safari_get_text" stranger ready server).1
dispatch-Audited_example = dispatch-Audited failing env "safari_get_text" stranger ready server

-- A tool for the extension, which names the tab that ran by an id that the registry knows.
abbrev extension_server : Server
unfolding server
extension_server = record server {
  tools = ("safari_get_text", record read_tool { requires_applescript = false }) ∷ [];
}

abbrev answering : Handler
answering name params s = (
  ok (record { content = []; is_error = false; metadata = none }),
  record s {
    engine_proxy = record s.engine_proxy {
      last_meta = some (record { tab_id = some 7; tab_url = some "https://a.org/y" });
    };
  },
)

abbrev outcome_or : {A : Type 0} → A → Outcome A → A
outcome_or other (done a) = a
outcome_or other _ = other

abbrev prepared : Outcome Ready × Server
prepared = prepare_engine env "safari_get_text" stranger extension_server

abbrev prepared_ready : Ready
prepared_ready = outcome_or ready prepared.0

abbrev answered : Outcome ToolResponse × Server
answered = dispatch answering env "safari_get_text" stranger prepared_ready prepared.1

abbrev response : ToolResponse
response = record { content = []; is_error = true; metadata = none }

is_prepared : prepared ≡ (done prepared_ready, prepared.1)
unfolding prepare_engine get extension_server safari_pilot.Engines.select_engine
    safari_pilot.Engines.choose_engine safari_pilot.Engines.requires_extension
    safari_pilot.Security.CircuitBreaker.is_engine_tripped
    safari_pilot.Server.Ownership.check_ownership safari_pilot.Server.Ownership.skips_ownership
    find_by_url find_tab strip_slash safari_pilot.Server.Ownership.check_degradation
is_prepared = refl

is_response : is_done answered.0 ≡ true
unfolding dispatch safari_pilot.Server.Execute.catch_errors safari_pilot.Server.Execute.run_tool
    safari_pilot.Server.Execute.call_tool prepare_engine get extension_server
    safari_pilot.Engines.select_engine safari_pilot.Engines.choose_engine
    safari_pilot.Engines.requires_extension safari_pilot.Security.CircuitBreaker.is_engine_tripped
    safari_pilot.Server.Ownership.check_ownership safari_pilot.Server.Ownership.skips_ownership
    find_by_url find_tab strip_slash safari_pilot.Server.Ownership.check_degradation
    safari_pilot.Server.Aftermath.settle verify_identity
    safari_pilot.Server.Aftermath.update_registry safari_pilot.Server.Aftermath.annotate
    safari_pilot.Server.Aftermath.adopt_clicked_tabs safari_pilot.Server.Aftermath.check_thrash
    safari_pilot.Server.Registry.refresh_url safari_pilot.Server.Registry.register_new_tab
    safari_pilot.Server.Registry.remove_closed_tab safari_pilot.Server.Registry.is_navigation
    find_by_extension_tab_id update_url set safari_pilot.Server.Ownership.inject_window
is_response = refl

is_answered : answered ≡ (done (outcome_or response answered.0), answered.1)
is_answered = go answered is_response
  where
    go :
        (p : Outcome ToolResponse × Server)
        → is_done p.0 ≡ true
        → p ≡ (done (outcome_or response p.0), p.1)
    go (done r, t) e = refl
    go (returned r, t) e = absurd (ground arith)
    go (thrown x, t) e = absurd (ground arith)

is_stranger : find_by_url (tab_url_of stranger) extension_server.tab_ownership ≡ none
unfolding find_by_url find_tab extension_server strip_slash get
is_stranger = refl

dispatch-RanInOwned_example :
    (prepared_ready.engine ≡ extension)
    × RanInOwned answering env "safari_get_text" stranger prepared.1
unfolding get extension_server
dispatch-RanInOwned_example =
    dispatch-RanInOwned answering env "safari_get_text" stranger prepared_ready extension_server
      prepared.1 answered.1 (outcome_or response answered.0) is_prepared is_answered refl
      is_stranger

-- The guards let the call through, and the tab is refused after that.
abbrev passed : Server
unfolding pass_guards
passed = (pass_guards env "safari_get_text" stranger server).1

probe_taken_before_engine_example :
    (assert_closed "a.org" 900
      (prepare_engine env "safari_get_text" stranger passed).1.circuit_breaker).0
    ≡ err (circuit_breaker_open "a.org" 0)
unfolding pass_guards get server passed safari_pilot.Security.WallCap.assert_within_cap
    KillSwitch.check_before_action DomainPolicy.evaluate DomainPolicy.first_match
    DomainPolicy.matches_domain safari_pilot.Regex.test DomainPolicy.extract_hostname
    safari_pilot.Server.Guards.check_approval safari_pilot.Security.HumanApproval.assert_approved
    safari_pilot.Security.HumanApproval.requires_approval
    safari_pilot.Security.HumanApproval.Patterns.matches_any
    safari_pilot.Security.HumanApproval.Patterns.oauth_url_patterns
    safari_pilot.Security.HumanApproval.Patterns.financial_url_patterns
    safari_pilot.Security.HumanApproval.check_fields_and_downloads
    safari_pilot.Security.HumanApproval.find_field mathlib.Core.List.flat_map
    safari_pilot.Prelude.Dict.delete set safari_pilot.Regex.match_atoms
    safari_pilot.Regex.match_star safari_pilot.Regex.search_from AuditLog.append AuditLog.new
    AuditLog.redact_params AuditLog.redacts_value AuditLog.truncates_script
    safari_pilot.Security.CircuitBreaker.admit assert_closed
    safari_pilot.Security.CircuitBreaker.circuit_state
    safari_pilot.Security.CircuitBreaker.get_state safari_pilot.Security.CircuitBreaker.touch_state
    DomainPolicy.add_rules DomainPolicy.equal_codes DomainPolicy.glob_atoms
    DomainPolicy.glob_to_regex DomainPolicy.new DomainPolicy.sensitive_rules
    safari_pilot.Security.HumanApproval.Patterns.account_settings_patterns
    safari_pilot.Security.HumanApproval.Patterns.download_extensions
    safari_pilot.Security.HumanApproval.Patterns.financial_field_names
    safari_pilot.Security.HumanApproval.Patterns.sensitive_form_fields
    safari_pilot.Security.HumanApproval.check_settings_and_forms KillSwitch.new
    LoopDetector.extract_key_args LoopDetector.is_repeated LoopDetector.pre_check
    LoopDetector.push_last LoopDetector.reset RateLimiter.check_limit RateLimiter.limit_for
    RateLimiter.new RateLimiter.prune RateLimiter.record_action TabOwnership.register_tab
    safari_pilot.Security.WallCap.elapsed_ms safari_pilot.Server.Guards.check_circuit
    safari_pilot.Server.Guards.check_domain safari_pilot.Server.Guards.check_kill_switch
    safari_pilot.Server.Guards.check_loop safari_pilot.Server.Guards.check_rate
    safari_pilot.Server.Guards.check_wall_cap safari_pilot.Text.take_chars
probe_taken_before_engine_example =
    probe_taken_before_engine env "safari_get_text" stranger server passed 20 900 refl refl
      (omega arith) (omega arith) refl

-- The server after its switch was activated.
abbrev halted : Server
unfolding server KillSwitch.activate KillSwitch.new
halted = record server {
  kill_switch =
      (KillSwitch.activate "stop" "t" (KillSwitch.new true none) (AuditLog.new none none)).0;
}

abbrev two_calls : List Call
two_calls =
    record { handler = failing; env = env; name = "safari_get_text"; params = stranger }
    ∷ record { handler = failing; env = env; name = "safari_list_tabs"; params = [] }
    ∷ []

active_switch_stops_all_example :
    ((run_calls two_calls halted).0 ≡ 0)
    × ((run_calls two_calls halted).1.kill_switch ≡ halted.kill_switch)
unfolding halted KillSwitch.activate KillSwitch.new
active_switch_stops_all_example = active_switch_stops_all two_calls halted refl

abbrev around : Surroundings
around i = (failing, env)

abbrev two_actions : List Action
two_actions =
    record { tool = some "safari_get_text"; args = stranger }
    ∷ record { tool = some "safari_list_tabs"; args = [] }
    ∷ []

abbrev batch : List SubResult × Server
batch = run_actions around true 0 two_actions server

abbrev batch_reply : BatchReply
batch_reply = record {
  results = batch.0;
  executed = length batch.0;
  total = 2;
  stop_on_error = true;
}

batch_replies : handle_batch around (some two_actions) true server ≡ (ok batch_reply, batch.1)
unfolding handle_batch run_checked check_actions check_action starts_with
batch_replies = refl

handle_batch-IsTurn_example :
    (length two_actions ≤ 4)
    × IsTurn around true 0 two_actions server (batch_reply.results, batch.1)
handle_batch-IsTurn_example =
    handle_batch-IsTurn around two_actions true server batch.1 batch_reply batch_replies
