-- ===== src/Engines/Daemon/Tcp.antt =====
-- The daemon over TCP (src/engines/daemon.ts): when a request takes this way, what it makes of the
-- events of its socket, and how the engine falls back to a process of its own.
use safari_pilot.Engines.Daemon.{
  Daemon, Js, Response, split_newline, Settled, shutdown, spawn_daemon,
}
use safari_pilot.Prelude.{
  List, Option, String, false, true, ℕ, some, none, ◌∷◌, Bool, if◌then◌else◌, [], ◌||◌, ltb, ◌&&◌,
  any,
}
use safari_pilot.Text.{join}

pub record Link : Type 0 where
  pub daemon : Daemon
  pub use_tcp : Bool

-- `ensureRunning`; `probe` is the answer of `tryTcpConnection` for a time.
abbrev pub probe_timeouts : List ℕ
probe_timeouts = 200 ∷ 500 ∷ 1000 ∷ []

unfoldable pub ensure_running : (tcp_port : ℕ) → (probe : ℕ → Bool) → Link → Link
ensure_running tcp_port probe l =
    if l.use_tcp || l.daemon.has_proc
    then l
    else (if ltb 0 tcp_port && any probe probe_timeouts
        then record l { use_tcp = true }
        else record l { daemon = spawn_daemon l.daemon })

-- `shutdown`: over TCP it only forgets the connection.
unfoldable pub shutdown_link : Link → List Settled × Link
shutdown_link l =
    if l.use_tcp
    then ([], record l { use_tcp = false; daemon = record l.daemon { is_shutting_down = true } })
    else (let (settled, after) = shutdown l.daemon in (settled, record l { daemon = after }))

-- How a request over TCP is settled.
pub data TcpResult : Type 0 where
  tcp_resolved : Response → TcpResult
  tcp_timed_out : TcpResult
  tcp_invalid : TcpResult
  tcp_failed : String → TcpResult

-- The state of one request: what came so far, whether its timer is set, how it was settled, and the
-- engine's `useTcp`.
pub record Talk : Type 0 where
  pub buffer : String
  pub timer_set : Bool
  pub settled : Option TcpResult
  pub still_tcp : Bool

pub data SocketEvent : Type 0 where
  connected : SocketEvent
  data_chunk : String → SocketEvent
  socket_error : String → SocketEvent
  timer_fires : SocketEvent

unfoldable pub settle_talk : TcpResult → Talk → Talk
settle_talk r t = record t { settled = elim t.settled [ none ↦ some r | some first ↦ some first ] }

-- The first line of the answer, once there is one.
unfoldable pub on_parsed : Option Response → Talk → Talk
on_parsed none t = settle_talk tcp_invalid (record t { timer_set = false; still_tcp = false })
on_parsed (some r) t = settle_talk (tcp_resolved r) (record t { timer_set = false })

unfoldable pub on_answer : Js → Option (String × String) → Talk → Talk
on_answer js none t = t
on_answer js (some (line, rest)) t = on_parsed (js.parse_json line) t

unfoldable pub on_socket : Js → SocketEvent → Talk → Talk
on_socket js connected t = t
on_socket js (data_chunk chunk) t =
    on_answer js (split_newline (join t.buffer chunk)) (record t { buffer = join t.buffer chunk })
on_socket js (socket_error m) t =
    settle_talk (tcp_failed m) (record t { timer_set = false; still_tcp = false })
on_socket js timer_fires t =
    if t.timer_set
    then settle_talk tcp_timed_out (record t { timer_set = false; still_tcp = false })
    else t

abbrev pub on_socket_events : Js → List SocketEvent → Talk → Talk
on_socket_events js [] t = t
on_socket_events js (e ∷ es) t = on_socket_events js es (on_socket js e t)

-- `sendCommandViaTcp`, before anything happens on its socket.
abbrev pub new_talk : Talk
new_talk = record { buffer = ""; timer_set = true; settled = none; still_tcp = true }
