-- ===== src/Engines/Daemon/Tests.antt =====
-- A parser that reads a line as the id of a response, and two requests.
use safari_pilot.Engines.Daemon.Lines.{
  take_lines-split_lines, split_lines, on_chunk-append, then_daemon,
}
use safari_pilot.Engines.Daemon.Once.{Run, Run-settled_once, started, requested, data_came, spawned}
use safari_pilot.Engines.Daemon.Settles.{times_sent, times_settled, times_pending}
use safari_pilot.Engines.Daemon.{
  Daemon, Js, on_data, send_command, take_lines, send_as, split_newline, spawn_daemon, on_lines,
  on_line, dispatch_response, settle, resolved, on_chunk, bytes,
}
use safari_pilot.Prelude.{
  [], some, ◌++◌, ◌≡◌, ◌∷◌, arith, false, ◌+◌, true, none, refl, List, ℕ, String, if◌then◌else◌,
  ◌==◌, nat_eq,
}
use safari_pilot.Text.{join}
use safari_pilot.Prelude.Dict.{set, get}
use safari_pilot.Engines.Daemon.Tcp.{
  ensure_running, on_socket, on_socket_events, timer_fires, SocketEvent, on_answer, connected,
  on_parsed, settle_talk, new_talk, data_chunk, tcp_resolved,
}

abbrev js : Js
js = record {
  trim = λ s. s;
  parse_json = λ s. some (record { id = some s; ok = true; value = none });
}

abbrev off : Daemon
off = record {
  pending = [];
  timers = [];
  trace_id = some "trace";
  line_buffer = "";
  has_proc = false;
  is_writable = false;
  reconnect_attempted = false;
  is_shutting_down = false;
}

abbrev two_sent : Daemon
two_sent = (send_command "b" 2 (send_command "a" 1 (spawn_daemon off)).1).1

two_sent-Run : Run (2 ∷ 1 ∷ []) [] two_sent
unfolding send_command send_as spawn_daemon set get
two_sent-Run = requested "b" 2 refl (requested "a" 1 refl (spawned (started {d = off} refl refl)))

take_lines-split_lines_example : take_lines 6 "b\ntra" ≡ split_lines "b\ntra"
take_lines-split_lines_example = take_lines-split_lines 6 "b\ntra" (omega arith)

-- A decoder of the bytes of "trace" and "b".
abbrev letter : ℕ → String
letter b =
    if b == 116
    then "t"
    else if b == 114
    then "r"
    else if b == 97
    then "a"
    else if b == 99
    then "c"
    else if b == 101
    then "e"
    else if b == 98
    then "b"
    else "\n"

abbrev decode : List ℕ → String
decode [] = ""
decode (b ∷ bs) = join (letter b) (decode bs)

abbrev tra : List ℕ
tra = 116 ∷ 114 ∷ 97 ∷ []

abbrev ce_b : List ℕ
ce_b = 99 ∷ 101 ∷ 10 ∷ 98 ∷ []

on_chunk-append_example :
    on_chunk decode js (bytes (tra ++ ce_b)) two_sent
    ≡ then_daemon (on_chunk decode js (bytes tra) two_sent) (on_chunk decode js (bytes ce_b))
on_chunk-append_example = on_chunk-append decode js tra ce_b two_sent refl

-- The response that comes in two chunks settles the first request.
answered :
    (on_data js (join "tra" "ce\nb") two_sent).0
    ≡ resolved 1 (record { id = some "trace"; ok = true; value = none }) ∷ []
unfolding on_data take_lines split_newline on_lines on_line dispatch_response settle send_command
    send_as spawn_daemon set get
answered = refl

abbrev half_read : Daemon
half_read = (on_data js "trace\n" two_sent).1

Run-settled_once_example :
    times_settled 2 ((on_data js "trace\n" two_sent).0 ++ []) + times_pending 2 half_read.pending
    ≡ times_sent 2 (2 ∷ 1 ∷ [])
Run-settled_once_example = Run-settled_once 2 (data_came js "trace\n" two_sent-Run)

-- The answer comes in two chunks; then the timer is not set.
abbrev in_two : List SocketEvent
in_two = connected ∷ data_chunk "o" ∷ data_chunk "k\n" ∷ []

in_two_runs :
    (on_socket_events js (in_two ++ timer_fires ∷ []) new_talk).settled
    ≡ some (tcp_resolved (record { id = some "ok"; ok = true; value = none }))
unfolding on_socket on_answer on_parsed settle_talk split_newline
in_two_runs = refl

no_daemon :
    (ensure_running 19474 (λ ms. false) (record { daemon = off; use_tcp = false })).daemon.has_proc
    ≡ true
unfolding ensure_running spawn_daemon
no_daemon = refl
