-- ===== src/Server/Gate.antt =====
-- The health gate in front of a tool call, and the recovery of the session (src/server.ts).
-- `ensureSessionWindow` talks to Safari: what it leaves is `env.opened_window`. The ten polls of
-- the extension are `env.polls`, and `registerWithDaemon` changes nothing that is modelled.
use safari_pilot.Server.{Server, Env, Exec, done, thrown, ◌>>◌, ◌>>=◌, gets, pure, modify, throw}
use safari_pilot.Engines.{Availability, requires_extension}
use safari_pilot.Prelude.{
  Bool, List, String, if◌then◌else◌, is_some, take, false, any, ◌&&◌, none, some, string_eq, not,
  true,
}
use safari_pilot.Prelude.Dict.{get}
use safari_pilot.Errors.{ok, err, session_recovery_failed}

unfoldable pub set_engine_availability : Env → Availability → Server → Server
set_engine_availability env a s = record s {
  engine_availability = if env.force_no_extension then record a { extension_up = false } else a;
}

-- `checkWindowExists`: without an id there is no window.
abbrev pub window_exists : Server → Bool → Bool
window_exists s answer = is_some s.session_window_id && answer

-- Reopen the window if it is gone; the id is forgotten first.
unfoldable pub reopen_window : Env → Exec (Unit {0})
reopen_window env s =
    if window_exists s env.window_exists_again then (done tt, s) else elim env.opened_window [
      | ok id ↦ (done tt, record s { session_window_id = id })
      | err e ↦ (thrown e, record s { session_window_id = none })
    ]

abbrev pub any_true : List Bool → Bool
any_true polls = any (λ b. b) polls

abbrev pub take_ten : List Bool → List Bool
take_ten polls = take 10 polls

-- The availability of the extension, as a check found it.
abbrev pub mark_extension : Env → Bool → Exec (Unit {0})
mark_extension env up =
    modify λ s. set_engine_availability env (record s.engine_availability { extension_up = up }) s

-- Whether every component that was asked for came back.
unfoldable pub recover_session : Env → Bool → Exec Bool
unfolding reopen_window set_engine_availability
recover_session env extension_recovery = do
  reopen_window env
  if not extension_recovery
      then pure true
      else if any_true (take_ten env.polls)
      then mark_extension env true >> pure true
      else pure false

abbrev pub needs_extension : String → Server → Bool
needs_extension name s = elim (get name s.tools) [
  | none ↦ false
  | some requirements ↦ requires_extension requirements
]

-- What is left of the gate when something is missing.
unfoldable pub recover_or_throw : Env → Bool → Bool → Exec (Unit {0})
unfolding recover_session
recover_or_throw env window_ok missing = do
  recovered ← recover_session env missing
  daemon_ok ← gets (λ s. s.engine_availability.daemon_up)
  if recovered
      then pure tt
      else throw (session_recovery_failed daemon_ok env.extension_status window_ok)

unfoldable pub health_gate : Env → String → Exec (Unit {0})
unfolding recover_or_throw set_engine_availability
health_gate env name = do
  window_ok ← gets (λ s. window_exists s env.window_exists)
  mark_extension env env.extension_status
  wanted ← gets (needs_extension name)
  let missing = not env.extension_status && wanted
  if window_ok && not missing then pure tt else recover_or_throw env window_ok missing
