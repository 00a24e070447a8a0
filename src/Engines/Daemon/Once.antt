-- ===== src/Engines/Daemon/Once.antt =====
-- What a run of the engine settles.
use safari_pilot.Prelude.{
  List, String, ℕ, All, ◌≡◌, [], ◌++◌, arith, false, ◌+◌, subst, ◌∷◌, none, string_eq,
}
use safari_pilot.Prelude.Dict.{has}
use safari_pilot.Engines.Daemon.Settles.{
  Accounts, IsCoherent, on_data-Accounts, times_sent, times_settled, times_pending,
  times_settled-append, IsArmed,
}
use safari_pilot.Engines.Daemon.{
  Timer, fire, on_error, on_exit, send_as, send_command, shutdown, spawn_daemon, Daemon, Settled,
  id_for, Js, on_data,
}
use safari_pilot.Engines.Daemon.Steps.{
  on_exit-Accounts, on_error-Accounts, shutdown-Accounts, fire-Accounts, send_as-Opens,
}

-- What the engine does, with the tickets of all the requests and what was settled, the latest
-- first. No request gets an id that a pending request has.
pub data Run : List ℕ → List Settled → Daemon → Type 0 where
  started : {d : Daemon} → d.pending ≡ [] → d.timers ≡ [] → Run [] [] d
  spawned :
      {sent : List ℕ} {settled : List Settled} {d : Daemon}
      → Run sent settled d
      → Run sent settled (spawn_daemon d)
  requested :
      (next_id : String) (ticket : ℕ) {sent : List ℕ} {settled : List Settled} {d : Daemon}
      → has (id_for d.trace_id next_id) d.pending ≡ false
      → Run sent settled d
      → Run
          (ticket ∷ sent)
          ((send_command next_id ticket d).0 ++ settled)
          (send_command next_id ticket d).1
  timer_fired :
      (timer : Timer) (before after : List Timer) {sent : List ℕ} {settled : List Settled}
      {d : Daemon}
      → d.timers ≡ before ++ timer ∷ after
      → Run sent settled d
      → Run sent ((fire timer d).0 ++ settled) (fire timer d).1
  data_came :
      (js : Js) (chunk : String) {sent : List ℕ} {settled : List Settled} {d : Daemon}
      → Run sent settled d
      → Run sent ((on_data js chunk d).0 ++ settled) (on_data js chunk d).1
  process_exited :
      {sent : List ℕ} {settled : List Settled} {d : Daemon}
      → Run sent settled d
      → Run sent ((on_exit d).0 ++ settled) (on_exit d).1
  process_failed :
      (message : String) {sent : List ℕ} {settled : List Settled} {d : Daemon}
      → Run sent settled d
      → Run sent ((on_error message d).0 ++ settled) (on_error message d).1
  shut_down :
      {sent : List ℕ} {settled : List Settled} {d : Daemon}
      → Run sent settled d
      → Run sent ((shutdown d).0 ++ settled) (shutdown d).1

-- What is sent is settled or pending.
abbrev Balanced : List ℕ → List Settled → Daemon → Type 0
Balanced sent settled d =
    IsCoherent d
    × ((t : ℕ) → times_settled t settled + times_pending t d.pending ≡ times_sent t sent)

balance :
    (sent : List ℕ) (settled : List Settled) (d : Daemon) (p : List Settled × Daemon)
    → Balanced sent settled d
    → Accounts d p
    → Balanced sent (p.0 ++ settled) p.1
balance sent settled d p b a =
    (a.0, λ t. omega (arith, times_settled-append t p.0 settled, a.1 t, b.1 t))

All-middle :
    (P : Timer → Type 0) (before : List Timer) (timer : Timer) (after : List Timer)
    → All P (before ++ timer ∷ after)
    → P timer
All-middle P [] timer after h = h.0
All-middle P (t ∷ before) timer after h = All-middle P before timer after h.1

send_command-balance :
    (next_id : String) (ticket : ℕ) (sent : List ℕ) (settled : List Settled) (d : Daemon)
    → has (id_for d.trace_id next_id) d.pending ≡ false
    → Balanced sent settled d
    → Balanced
        (ticket ∷ sent)
        ((send_command next_id ticket d).0 ++ settled)
        (send_command next_id ticket d).1
unfolding send_command
send_command-balance next_id ticket sent settled d absent b =
    let id = id_for d.trace_id next_id in
    let traceless : Daemon = record d { trace_id = none } in
    let opened =
      send_as-Opens id ticket traceless (record { once = b.0.once; armed = b.0.armed }) absent in
    (
      opened.0,
      λ t. omega (
        arith,
        times_settled-append t (send_as id ticket traceless).0 settled,
        opened.1 t,
        b.1 t,
      ),
    )

Run-Balanced :
    {sent : List ℕ} {settled : List Settled} {d : Daemon}
    → Run sent settled d
    → Balanced sent settled d
unfolding spawn_daemon
Run-Balanced (started {d} e f) =
    (record { once = rw e tt; armed = rw f tt }, λ t. rw e (omega arith))
Run-Balanced (spawned r) =
    let b = Run-Balanced r in (record { once = b.0.once; armed = b.0.armed }, b.1)
Run-Balanced (requested next_id ticket {sent} {settled} {d} absent r) =
    send_command-balance next_id ticket sent settled d absent (Run-Balanced r)
Run-Balanced (timer_fired timer before after {sent} {settled} {d} e r) =
    let b = Run-Balanced r in
    balance sent settled d (fire timer d) b (
      fire-Accounts timer d b.0 (
        All-middle (IsArmed d.pending) before timer after
          (subst (λ ts. All (IsArmed d.pending) ts) e b.0.armed)))
Run-Balanced (data_came js chunk {sent} {settled} {d} r) =
    let b = Run-Balanced r in balance sent settled d _ b (on_data-Accounts js chunk d b.0)
Run-Balanced (process_exited {sent} {settled} {d} r) =
    let b = Run-Balanced r in balance sent settled d _ b (on_exit-Accounts d b.0)
Run-Balanced (process_failed message {sent} {settled} {d} r) =
    let b = Run-Balanced r in balance sent settled d _ b (on_error-Accounts message d b.0)
Run-Balanced (shut_down {sent} {settled} {d} r) =
    let b = Run-Balanced r in balance sent settled d _ b (shutdown-Accounts d b.0)

-- After any sequence of requests with ids of their own, chunks, timers, exits, errors, starts and
-- shutdowns, each request is settled once or pending once, never both and never neither: each
-- ticket has been settled as often as it was sent, less the times it is still pending.
pub Run-settled_once :
    {sent : List ℕ} {settled : List Settled} {d : Daemon} (t : ℕ)
    → Run sent settled d
    → times_settled t settled + times_pending t d.pending ≡ times_sent t sent
Run-settled_once t r = (Run-Balanced r).1 t
