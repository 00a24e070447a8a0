-- ===== src/Engines/Daemon/Fallback.antt =====
-- How a request to the daemon over TCP (src/engines/daemon.ts) ends, and what the next one does.
-- A request waits with its timer set, or is settled, and then the engine stays with TCP only if it
-- got its answer.
use safari_pilot.Engines.Daemon.Tcp.{
  Talk, ensure_running, TcpResult, Link, tcp_resolved, probe_timeouts,
}
use safari_pilot.Prelude.{Bool, String, ℕ, true, ◌≡◌, false, some, none, ◌⊎◌, any}
use safari_pilot.Engines.Daemon.{Response}

data IsSound : Talk → Type 0 where
  waiting :
      {b : String} {tcp : Bool}
      → IsSound (record { buffer = b; timer_set = true; settled = none; still_tcp = tcp })
  answered :
      {b : String} {s tcp : Bool} {r : Response}
      → IsSound
          (record { buffer = b; timer_set = s; settled = some (tcp_resolved r); still_tcp = tcp })
  refused :
      {b : String} {s : Bool} {r : TcpResult}
      → IsSound (record { buffer = b; timer_set = s; settled = some r; still_tcp = false })

-- How a request over TCP ends: it got its answer, or an error after which the next command is sent
-- to a process, unless a new probe over TCP is answered.
pub data TcpEnd (tcp_port : ℕ) (probe : ℕ → Bool) (l : Link) (t : Talk) : Type 0 where
  got_answer : (r : Response) → t.settled ≡ some (tcp_resolved r) → TcpEnd tcp_port probe l t
  falls_back :
      (r : TcpResult)
      → t.settled ≡ some r
      → ((ensure_running tcp_port probe (record l { use_tcp = t.still_tcp })).daemon.has_proc
          ≡ true)
        ⊎ (any probe probe_timeouts ≡ true)
      → TcpEnd tcp_port probe l t
