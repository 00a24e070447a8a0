-- ===== src/Engines/Daemon.antt =====
-- src/engines/daemon.ts: the requests to the daemon over the pipes of its process, and the lines
-- that come back.
--
-- A promise is a ticket, and what becomes of it a `Settled`. The JSON parser and `trim` are those
-- of JavaScript. The connection over TCP is in the child Tcp.
pub mod Fallback
pub mod Lines
pub mod Settles
pub mod Steps
pub mod Tcp
pub mod Once
mod Tests
use Prim.Native.Char.{code, Char}
use Prim.Native.String.{[] as empty, ◌∷◌ as ◌∷ₛ◌}
use safari_pilot.Text.{join, char_count}
use safari_pilot.Prelude.Dict.{Dict, get, set, delete}
use safari_pilot.Prelude.{
  List, Option, String, true, ℕ, ◌+◌, false, [], filter, some, ◌∷◌, Bool, none, if◌then◌else◌, ◌==◌,
  suc, not, ◌++◌, string_eq, zero, nat_eq, ◌||◌,
}

pub record Response : Type 0 where
  pub id : Option String
  pub ok : Bool
  pub value : Option String

pub record Js : Type 0 where
  pub trim : String → String
  pub parse_json : String → Option Response

pub data Reason : Type 0 where
  timed_out exited not_running shutting_down : Reason
  failed : String → Reason

pub data Settled : Type 0 where
  resolved : ℕ → Response → Settled
  rejected : ℕ → Reason → Settled

-- A timer has the ticket it rejects and the id it deletes.
pub record Timer : Type 0 where
  pub ticket : ℕ
  pub id : String

pub record Daemon : Type 0 where
  pub pending : Dict String ℕ
  pub timers : List Timer
  pub trace_id : Option String
  pub line_buffer : String
  pub has_proc : Bool
  pub is_writable : Bool
  pub reconnect_attempted : Bool
  pub is_shutting_down : Bool

abbrev pub clear_timeout : ℕ → List Timer → List Timer
clear_timeout ticket timers = filter (λ t. not (t.ticket == ticket)) timers

-- The request `sendCommand` makes for the ticket; `next_id` is the answer of `nextId`.
unfoldable pub send_as : String → ℕ → Daemon → List Settled × Daemon
send_as id ticket d =
    if not d.has_proc || not d.is_writable
    then (
      rejected ticket not_running ∷ [],
      record d { pending = delete id (set id ticket d.pending) },
    )
    else (
      [],
      record d {
        pending = set id ticket d.pending;
        timers = record { ticket = ticket; id = id } ∷ d.timers;
      },
    )

abbrev pub id_for : Option String → String → String
id_for none next_id = next_id
id_for (some trace) next_id = trace

unfoldable pub send_command : String → ℕ → Daemon → List Settled × Daemon
send_command next_id ticket d =
    send_as (id_for d.trace_id next_id) ticket (record d { trace_id = none })

-- A timer that is still set goes off.
unfoldable pub fire : Timer → Daemon → List Settled × Daemon
fire timer d = (
  rejected timer.ticket timed_out ∷ [],
  record d { pending = delete timer.id d.pending; timers = clear_timeout timer.ticket d.timers },
)

unfoldable pub settle : String → Option ℕ → Response → Daemon → List Settled × Daemon
settle id none msg d = ([], d)
settle id (some ticket) msg d = (
  resolved ticket msg ∷ [],
  record d { pending = delete id d.pending; timers = clear_timeout ticket d.timers },
)

-- A response without an id, or with an id that no request waits for, is dropped.
unfoldable pub dispatch_response : Response → Daemon → List Settled × Daemon
dispatch_response msg d = elim msg.id [
  | none ↦ ([], d)
  | some id ↦ if id == "" then ([], d) else settle id (get id d.pending) msg d
]

unfoldable pub reject_each : Reason → Dict String ℕ → Daemon → List Settled × Daemon
reject_each reason [] d = ([], d)
reject_each reason ((id, ticket) ∷ requests) d =
    let (settled, after) =
      reject_each reason requests
        (record d { pending = delete id d.pending; timers = clear_timeout ticket d.timers }) in
    (rejected ticket reason ∷ settled, after)

unfoldable pub reject_all_pending : Reason → Daemon → List Settled × Daemon
reject_all_pending reason d = reject_each reason d.pending d

-- `spawnDaemon`: a new process, with a line buffer of its own.
unfoldable pub spawn_daemon : Daemon → Daemon
spawn_daemon d = record d {
  has_proc = true;
  is_writable = true;
  reconnect_attempted = false;
  line_buffer = "";
}

unfoldable pub on_exit : Daemon → List Settled × Daemon
on_exit d =
    let (settled, after) = reject_all_pending exited d in
    if d.is_shutting_down
    then ([], d)
    else (settled, record after { has_proc = false; reconnect_attempted = true })

unfoldable pub on_error : String → Daemon → List Settled × Daemon
on_error message d =
    let (settled, after) = reject_all_pending (failed message) d in
    (settled, record after { has_proc = false })

unfoldable pub shutdown : Daemon → List Settled × Daemon
shutdown d =
    let (settled, after) =
      reject_all_pending shutting_down (record d { is_shutting_down = true }) in
    (settled, record after { has_proc = false })

abbrev pub onto_line : Char → Option (String × String) → Option (String × String)
onto_line c none = none
onto_line c (some (line, rest)) = some (c ∷ₛ line, rest)

-- The text up to the first newline and the text behind it.
unfoldable pub split_newline : String → Option (String × String)
split_newline empty = none
split_newline (c ∷ₛ s) =
    let rest = split_newline s in if code c == 10 then some (empty, s) else onto_line c rest

abbrev pub onto_lines : String → List String × String → List String × String
onto_lines line (lines, rest) = (line ∷ lines, rest)

-- The loop over the line buffer, on fuel.
unfoldable pub take_lines : ℕ → String → List String × String
take_lines zero buffer = ([], buffer)
take_lines (suc n) buffer = elim (split_newline buffer) [
  | none ↦ ([], buffer)
  | some (line, rest) ↦ onto_lines line (take_lines n rest)
]

-- An empty line and a line that is no JSON are dropped.
unfoldable pub on_line : Js → String → Daemon → List Settled × Daemon
on_line js line d =
    if js.trim line == ""
    then ([], d)
    else elim (js.parse_json (js.trim line)) [ none ↦ ([], d) | some msg ↦ dispatch_response msg d ]

unfoldable pub on_lines : Js → List String → Daemon → List Settled × Daemon
on_lines js [] d = ([], d)
on_lines js (line ∷ lines) d =
    let (settled, next) = on_line js line d in
    let (more, last) = on_lines js lines next in (settled ++ more, last)

-- The handler, once the chunk is a text. Every turn of the loop takes a newline off the buffer, so
-- that its length, and one, is enough.
unfoldable pub on_data : Js → String → Daemon → List Settled × Daemon
on_data js chunk d =
    let buffer = join d.line_buffer chunk in
    let (lines, rest) = take_lines (char_count buffer + 1) buffer in
    on_lines js lines (record d { line_buffer = rest })

-- What the stream gives: a text, or a buffer of bytes.
pub data Chunk : Type 0 where
  text_chunk : String → Chunk
  bytes : List ℕ → Chunk

-- The handler of `data`. Each buffer is decoded by itself; `decode` is `toString('utf8')` of Node.
unfoldable pub on_chunk : (List ℕ → String) → Js → Chunk → Daemon → List Settled × Daemon
on_chunk decode js (text_chunk s) d = on_data js s d
on_chunk decode js (bytes bs) d = on_data js (decode bs) d
