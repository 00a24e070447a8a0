-- ===== src/Extension/Frame.antt =====
-- extension/lib/route-command.js and extension/lib/handshake-machine.js, as
-- extension/content-isolated.js puts them together: which frame of a page handles a command, and
-- how a frame that does not know its id asks for it and keeps the commands until then.
--
-- What the frame does with a command that it accepts is the output `handled`.
pub mod Ends
pub mod Fifo
mod Tests
use safari_pilot.Prelude.{
  List, Option, String, none, ℕ, ◌∷◌, suc, if◌then◌else◌, some, [], Bool, ◌&&◌, false, ◌==◌, ◌++◌,
  any, not, map, string_eq, ltb, nat_eq, true, zero,
}

pub record Cmd : Type 0 where
  pub command_id : Option String
  pub tab_id : ℕ
  pub frame_id : Option ℕ
  pub frame_url : Option String
  pub deadline : Option ℕ

pub data Phase : Type 0 where
  idle : Phase
  awaiting_frame_id : Phase
  ready : Phase

pub record Handshake : Type 0 where
  pub phase : Phase
  pub my_frame_id : Option ℕ
  pub queue : List Cmd

abbrev pub initial_state : Handshake
initial_state = record { phase = idle; my_frame_id = none; queue = [] }

pub data Event : Type 0 where
  sp_cmd_arrived : Cmd → Event
  sp_get_frame_id_response : Option ℕ → Event
  sp_get_frame_id_error : Event

pub data Effect : Type 0 where
  send_sp_get_frame_id : Effect
  process_cmd : Cmd → Effect

unfoldable pub arrive : Cmd → Handshake → Phase → Handshake × List Effect
arrive cmd state idle =
    (record state { phase = awaiting_frame_id; queue = cmd ∷ [] }, send_sp_get_frame_id ∷ [])
arrive cmd state awaiting_frame_id = (record state { queue = state.queue ++ cmd ∷ [] }, [])
arrive cmd state ready = (state, process_cmd cmd ∷ [])

unfoldable pub respond : Option ℕ → Handshake → Phase → Handshake × List Effect
respond frame state idle = (state, [])
respond frame state awaiting_frame_id =
    (record { phase = ready; my_frame_id = frame; queue = [] }, map process_cmd state.queue)
respond frame state ready = (state, [])

unfoldable pub fail : Handshake → Phase → Handshake × List Effect
fail state idle = (state, [])
fail state awaiting_frame_id = (initial_state, [])
fail state ready = (state, [])

unfoldable pub frame_id_handshake_reducer : Handshake → Event → Handshake × List Effect
frame_id_handshake_reducer state (sp_cmd_arrived cmd) = arrive cmd state state.phase
frame_id_handshake_reducer state (sp_get_frame_id_response frame) = respond frame state state.phase
frame_id_handshake_reducer state sp_get_frame_id_error = fail state state.phase

abbrev pub is_tab : ℕ → Option ℕ → Bool
is_tab tab none = false
is_tab tab (some mine) = tab == mine

-- `cmd.frameId ?? 0`
abbrev target_frame_id : Cmd → ℕ
target_frame_id cmd = elim cmd.frame_id [ none ↦ 0 | some id ↦ id ]

abbrev pub moved : Option String → String → Bool
moved none href = false
moved (some url) href = not (url == href)

-- Yes, no, or not known yet.
unfoldable pub should_process : Cmd → Option ℕ → Option ℕ → String → Option Bool
should_process cmd my_tab_id my_frame_id href =
    if not (is_tab cmd.tab_id my_tab_id) then some false else elim my_frame_id [
      | none ↦ none
      | some frame ↦
          if not (target_frame_id cmd == frame)
          then some false
          else if moved cmd.frame_url href
          then some false
          else some true
    ]

-- What a frame of a page does to the outside.
pub data Output : Type 0 where
  asked_frame_id : Output
  frame_navigated : String → Output
  handled : Cmd → Output

pub record Frame : Type 0 where
  pub my_tab_id : Option ℕ
  pub handshake : Handshake
  pub processed_command_ids : List String

pub record Moment : Type 0 where
  pub now : ℕ
  pub href : String

-- An id that is a text and not empty.
abbrev pub command_id_of : Cmd → Option String
command_id_of cmd = elim cmd.command_id [
  | none ↦ none
  | some id ↦ if id == "" then none else some id
]

unfoldable pub reject : Moment → Cmd → Frame → List Output
reject moment cmd frame = elim frame.handshake.my_frame_id [
  | none ↦ []
  | some mine ↦
      if is_tab cmd.tab_id frame.my_tab_id
        && target_frame_id cmd == mine
        && moved cmd.frame_url moment.href
      then elim (command_id_of cmd) [ none ↦ [] | some id ↦ frame_navigated id ∷ [] ]
      else []
]

abbrev pub is_late : Moment → Option ℕ → Bool
is_late moment none = false
is_late moment (some deadline) = not (deadline == 0) && ltb deadline moment.now

unfoldable pub accept : Moment → Cmd → Frame → List Output × Frame
accept moment cmd frame =
    if is_late moment cmd.deadline then ([], frame) else elim (command_id_of cmd) [
      | none ↦ (handled cmd ∷ [], frame)
      | some id ↦ if any (λ seen. seen == id) frame.processed_command_ids then ([], frame) else (
        handled cmd ∷ [],
        record frame { processed_command_ids = id ∷ frame.processed_command_ids },
      )
    ]

pub record Performed : Type 0 where
  pub outputs : List Output
  pub effects : List Effect
  pub frame : Frame

unfoldable pub dispatch : Event → Frame → List Effect × Frame
dispatch event frame =
    let (state, effects) = frame_id_handshake_reducer frame.handshake event in
    (effects, record frame { handshake = state })

unfoldable pub process_decided : Option Bool → Moment → Cmd → Frame → Performed
process_decided none moment cmd frame =
    let (effects, after) = dispatch (sp_cmd_arrived cmd) frame in
    record { outputs = []; effects = effects; frame = after }
process_decided (some false) moment cmd frame = record {
  outputs = reject moment cmd frame;
  effects = [];
  frame = frame;
}
process_decided (some true) moment cmd frame =
    let (outputs, after) = accept moment cmd frame in
    record { outputs = outputs; effects = []; frame = after }

-- `processStorageCommand`, up to the effects that its `dispatch` applies.
unfoldable pub process_storage_command : Moment → Cmd → Frame → Performed
process_storage_command moment cmd frame =
    process_decided (should_process cmd frame.my_tab_id frame.handshake.my_frame_id moment.href)
      moment cmd frame

unfoldable pub perform : Moment → Effect → Frame → Performed
perform moment send_sp_get_frame_id frame = record {
  outputs = asked_frame_id ∷ [];
  effects = [];
  frame = frame;
}
perform moment (process_cmd cmd) frame = process_storage_command moment cmd frame

abbrev pub prepend : List Output → Option (List Output × Frame) → Option (List Output × Frame)
prepend out none = none
prepend out (some (outs, frame)) = some (out ++ outs, frame)

-- `applyEffects`: the effects that an effect causes come before the rest, as in the nested calls.
-- On fuel; `none` where it runs out.
unfoldable pub apply_effects : ℕ → Moment → List Effect → Frame → Option (List Output × Frame)
apply_effects zero moment effects frame = none
apply_effects (suc n) moment [] frame = some ([], frame)
apply_effects (suc n) moment (e ∷ es) frame =
    let did = perform moment e frame in
    prepend did.outputs (apply_effects n moment (did.effects ++ es) did.frame)
