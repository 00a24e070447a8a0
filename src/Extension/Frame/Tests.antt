-- ===== src/Extension/Frame/Tests.antt =====
-- A frame of tab 1 that gets two commands before its answer, and one that gets an answer without
-- an id.
use safari_pilot.Extension.Frame.Ends.{handle-ends, handle, apply_effects-loops, ends_answered}
use safari_pilot.Extension.Frame.Fifo.{reduce_all-fifo, reduce_all, processed, questions, after}
use safari_pilot.Prelude.{List, String, some, ◌++◌, ◌∷◌, none, ◌≡◌, [], true, refl, ◌≤◌}
use safari_pilot.Extension.Frame.{
  Frame, Moment, apply_effects, dispatch, sp_get_frame_id_response, frame_id_handshake_reducer, Cmd,
  Event, process_cmd, respond, sp_cmd_arrived, awaiting_frame_id, perform, process_storage_command,
  ready, should_process, process_decided, accept, handled, sp_get_frame_id_error, arrive, fail,
}

abbrev cmd : String → Cmd
cmd id = record {
  command_id = some id;
  tab_id = 1;
  frame_id = none;
  frame_url = none;
  deadline = none;
}

abbrev waiting : Frame
waiting = record {
  my_tab_id = some 1;
  handshake = record {
    phase = awaiting_frame_id;
    my_frame_id = none;
    queue = cmd "a" ∷ cmd "b" ∷ [];
  };
  processed_command_ids = [];
}

abbrev moment : Moment
moment = record { now = 5; href = "https://a.org/" }

-- The same command twice is handled once.
handles_once :
    (elim (handle 7 moment (sp_get_frame_id_response (some 0)) (record waiting {
      handshake = record {
        phase = awaiting_frame_id;
        my_frame_id = none;
        queue = cmd "a" ∷ cmd "a" ∷ [];
      };
    })) [ none ↦ [] | some (outs, f) ↦ outs ])
    ≡ handled (cmd "a") ∷ []
unfolding handle dispatch frame_id_handshake_reducer respond apply_effects perform
    process_storage_command should_process process_decided accept
handles_once = refl

handle-ends_example :
    ends_answered (handle 7 moment (sp_get_frame_id_response (some 0)) waiting) ≡ true
handle-ends_example = handle-ends moment (sp_get_frame_id_response (some 0)) waiting refl refl

apply_effects-loops_example :
    apply_effects 100 moment
      (process_cmd (cmd "a") ∷ [])
      (record waiting { handshake = record { phase = ready; my_frame_id = none; queue = [] } })
    ≡ none
apply_effects-loops_example =
    apply_effects-loops 100 moment (cmd "a")
      (record waiting { handshake = record { phase = ready; my_frame_id = none; queue = [] } }) refl
      refl refl

abbrev events : List Event
events =
    sp_cmd_arrived (cmd "a")
    ∷ sp_cmd_arrived (cmd "b")
    ∷ sp_get_frame_id_response (some 0)
    ∷ sp_cmd_arrived (cmd "c")
    ∷ []

-- A command whose answer fails.
abbrev failed_before : List Event
failed_before = sp_cmd_arrived (cmd "x") ∷ sp_get_frame_id_error ∷ []

reduce_all-fifo_example :
    (processed (reduce_all (after failed_before) events).1
        ++ (reduce_all (after failed_before) events).0.queue
      ≡ (after failed_before).queue ++ cmd "a" ∷ cmd "b" ∷ cmd "c" ∷ [])
    × (questions (reduce_all (after failed_before) events).1 ≤ 1)
reduce_all-fifo_example = reduce_all-fifo failed_before events refl

dropped : (after failed_before).queue ≡ []
unfolding reduce_all frame_id_handshake_reducer arrive fail
dropped = refl
