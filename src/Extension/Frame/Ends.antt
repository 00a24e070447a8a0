-- ===== src/Extension/Frame/Ends.antt =====
-- When the effects of a frame come to an end, and when they do not.
use safari_pilot.Extension.Frame.{
  Event, Handshake, apply_effects, perform, process_decided, process_storage_command, Performed,
  Output, should_process, Moment, Effect, accept, Frame, sp_cmd_arrived, Cmd, process_cmd, prepend,
  sp_get_frame_id_response, sp_get_frame_id_error, send_sp_get_frame_id, handled, dispatch, Phase,
  ready, is_tab, idle, frame_id_handshake_reducer, is_late, arrive, command_id_of,
  awaiting_frame_id, respond, fail,
}
use safari_pilot.Prelude.{
  List, ℕ, Bool, ◌++◌, Option, ◌≤◌, ◌∷◌, ◌<◌, is_some, ◌+◌, true, ◌*◌, ◌≡◌, arith, length, some, [],
  none, String, suc, zero, refl, if◌then◌else◌, any, ◌==◌, Bool-cases, inl, map, false, inr,
  string_eq, ap,
}

-- A frame that has its answer knows its id.
abbrev answered_in : Option ℕ → Phase → Bool
answered_in id idle = true
answered_in id awaiting_frame_id = true
answered_in id ready = is_some id

abbrev is_answered : Handshake → Bool
is_answered state = answered_in state.my_frame_id state.phase

-- All events but an answer without an id.
abbrev has_answer : Event → Bool
has_answer (sp_cmd_arrived cmd) = true
has_answer (sp_get_frame_id_response frame) = is_some frame
has_answer sp_get_frame_id_error = true

weight : List Effect → ℕ
weight [] = 0
weight (send_sp_get_frame_id ∷ es) = 1 + weight es
weight (process_cmd cmd ∷ es) = 2 + weight es

weight-append : (es fs : List Effect) → weight (es ++ fs) ≡ weight es + weight fs
unfolding weight
weight-append [] fs = omega arith
weight-append (send_sp_get_frame_id ∷ es) fs = omega (arith, weight-append es fs)
weight-append (process_cmd cmd ∷ es) fs = omega (arith, weight-append es fs)

weight-le : (es : List Effect) → weight es ≤ 2 * length es
unfolding weight
weight-le [] = omega arith
weight-le (send_sp_get_frame_id ∷ es) = omega (arith, weight-le es)
weight-le (process_cmd cmd ∷ es) = omega (arith, weight-le es)

-- At most one more effect, and the frame still has its answer.
abbrev IsLess : ℕ → Performed → Type 0
IsLess n did = (weight did.effects < n) × (is_answered did.frame.handshake ≡ true)

rejected-IsLess :
    (moment : Moment) (cmd : Cmd) (frame : Frame)
    → is_answered frame.handshake ≡ true
    → IsLess 2 (process_decided (some false) moment cmd frame)
unfolding process_decided weight
rejected-IsLess moment cmd frame h = (omega arith, h)

accept-IsLess :
    (moment : Moment) (cmd : Cmd) (frame : Frame)
    → is_answered frame.handshake ≡ true
    → IsLess 2 (process_decided (some true) moment cmd frame)
unfolding process_decided accept weight
accept-IsLess moment cmd frame h = elim (Bool-cases (is_late moment cmd.deadline)) [
  | inl late ↦ rw late (omega arith, h)
  | inr on_time ↦ rw on_time (go (command_id_of cmd))
]
  where
    go :
        (o : Option String)
        → IsLess 2 (
            let (outputs, after) : List Output × Frame = elim o [
              | none ↦ (handled cmd ∷ [], frame)
              | some id ↦
                  if any (λ seen. seen == id) frame.processed_command_ids then ([], frame) else (
                    handled cmd ∷ [],
                    record frame { processed_command_ids = id ∷ frame.processed_command_ids },
                  )
            ] in
            record { outputs = outputs; effects = []; frame = after })
    go none = (omega arith, h)
    go (some id) = elim (Bool-cases (any (λ seen. seen == id) frame.processed_command_ids)) [
      | inl seen ↦ rw seen (omega arith, h)
      | inr new ↦ rw new (omega arith, h)
    ]

undecided-IsLess :
    (moment : Moment) (cmd : Cmd) (frame : Frame)
    → is_answered frame.handshake ≡ true
    → frame.handshake.my_frame_id ≡ none
    → IsLess 2 (process_decided none moment cmd frame)
unfolding process_decided dispatch frame_id_handshake_reducer arrive weight
undecided-IsLess moment cmd frame h unknown = go frame.handshake.phase h
  where
    go :
        (phase : Phase)
        → answered_in frame.handshake.my_frame_id phase ≡ true
        → (weight (arrive cmd frame.handshake phase).1 < 2)
          × (is_answered (arrive cmd frame.handshake phase).0 ≡ true)
    go idle k = (omega arith, refl)
    go awaiting_frame_id k = (omega arith, h)
    go ready k = absurd (ground (arith, k, unknown))

should_process-unknown :
    (cmd : Cmd) (tab frame : Option ℕ) (href : String)
    → should_process cmd tab frame href ≡ none
    → frame ≡ none
unfolding should_process
should_process-unknown cmd tab none href h = refl
should_process-unknown cmd tab (some id) href h = absurd (ground arith)

process_storage_command-IsLess :
    (moment : Moment) (cmd : Cmd) (frame : Frame)
    → is_answered frame.handshake ≡ true
    → IsLess 2 (process_storage_command moment cmd frame)
unfolding process_storage_command
process_storage_command-IsLess moment cmd frame h =
    go (should_process cmd frame.my_tab_id frame.handshake.my_frame_id moment.href)
      (should_process-unknown cmd frame.my_tab_id frame.handshake.my_frame_id moment.href)
  where
    go :
        (d : Option Bool)
        → (d ≡ none → frame.handshake.my_frame_id ≡ none)
        → IsLess 2 (process_decided d moment cmd frame)
    go none unknown = undecided-IsLess moment cmd frame h (unknown refl)
    go (some false) unknown = rejected-IsLess moment cmd frame h
    go (some true) unknown = accept-IsLess moment cmd frame h

perform-IsLess :
    (moment : Moment) (e : Effect) (es : List Effect) (frame : Frame)
    → is_answered frame.handshake ≡ true
    → IsLess (weight (e ∷ [])) (perform moment e frame)
unfolding perform weight
perform-IsLess moment send_sp_get_frame_id es frame h = (omega arith, h)
perform-IsLess moment (process_cmd cmd) es frame h =
    process_storage_command-IsLess moment cmd frame h

-- The effects come to an end, and the frame is then not without an id after its answer.
abbrev pub ends_answered : Option (List Output × Frame) → Bool
ends_answered none = false
ends_answered (some (outs, frame)) = is_answered frame.handshake

ends_answered-prepend :
    (out : List Output) (r : Option (List Output × Frame))
    → ends_answered r ≡ true
    → ends_answered (prepend out r) ≡ true
ends_answered-prepend out none h = h
ends_answered-prepend out (some (outs, f)) h = h

apply_effects-ends :
    (n : ℕ) (moment : Moment) (effects : List Effect) (frame : Frame)
    → is_answered frame.handshake ≡ true
    → weight effects < n
    → ends_answered (apply_effects n moment effects frame) ≡ true
unfolding apply_effects weight
apply_effects-ends zero moment effects frame h lt = absurd (omega arith)
apply_effects-ends (suc n) moment [] frame h lt = h
apply_effects-ends (suc n) moment (e ∷ es) frame h lt =
    let (less, still) = perform-IsLess moment e es frame h in
    let did = perform moment e frame in
    ends_answered-prepend did.outputs _ (
      apply_effects-ends n moment (did.effects ++ es) did.frame still
        (omega (arith, less, lt, weight-append did.effects es, weight-append (e ∷ []) es)))

weight-process_all : (queue : List Cmd) → weight (map process_cmd queue) ≡ 2 * length queue
unfolding weight
weight-process_all [] = omega arith
weight-process_all (cmd ∷ queue) = omega (arith, weight-process_all queue)

-- What the frame does on an event: the effects of its `dispatch`, applied.
unfoldable pub handle : ℕ → Moment → Event → Frame → Option (List Output × Frame)
handle n moment event frame =
    let (effects, after) = dispatch event frame in apply_effects n moment effects after

dispatch-IsLess :
    (event : Event) (frame : Frame)
    → is_answered frame.handshake ≡ true
    → has_answer event ≡ true
    → (weight (dispatch event frame).0 ≤ 2 * length frame.handshake.queue + 2)
      × (is_answered (dispatch event frame).1.handshake ≡ true)
unfolding dispatch frame_id_handshake_reducer arrive respond fail weight
dispatch-IsLess (sp_cmd_arrived cmd) frame h k = go frame.handshake.phase
  where
    go :
        (phase : Phase)
        → (weight (arrive cmd frame.handshake phase).1 ≤ 2 * length frame.handshake.queue + 2)
          × (is_answered (arrive cmd frame.handshake phase).0 ≡ true)
    go idle = (omega arith, refl)
    go awaiting_frame_id = (omega arith, h)
    go ready = (omega arith, h)
dispatch-IsLess (sp_get_frame_id_response id) frame h k = go frame.handshake.phase
  where
    go :
        (phase : Phase)
        → (weight (respond id frame.handshake phase).1 ≤ 2 * length frame.handshake.queue + 2)
          × (is_answered (respond id frame.handshake phase).0 ≡ true)
    go idle = (omega arith, h)
    go awaiting_frame_id = (omega (arith, weight-process_all frame.handshake.queue), k)
    go ready = (omega arith, h)
dispatch-IsLess sp_get_frame_id_error frame h k = go frame.handshake.phase
  where
    go :
        (phase : Phase)
        → (weight (fail frame.handshake phase).1 ≤ 2 * length frame.handshake.queue + 2)
          × (is_answered (fail frame.handshake phase).0 ≡ true)
    go idle = (omega arith, h)
    go awaiting_frame_id = (omega arith, refl)
    go ready = (omega arith, h)

-- A frame that is not without an id after its answer handles every event, but an answer without
-- an id, in at most twice as many steps as commands wait, and three: all effects are performed.
-- Afterwards the frame is not without an id either.
pub handle-ends :
    (moment : Moment) (event : Event) (frame : Frame)
    → is_answered frame.handshake ≡ true
    → has_answer event ≡ true
    → ends_answered (handle (2 * length frame.handshake.queue + 3) moment event frame) ≡ true
unfolding handle
handle-ends moment event frame h k =
    let (less, still) = dispatch-IsLess event frame h k in
    apply_effects-ends (2 * length frame.handshake.queue + 3) moment (dispatch event frame).0
      (dispatch event frame).1 still (omega (arith, less))

process_storage_command-again :
    (moment : Moment) (cmd : Cmd) (frame : Frame)
    → frame.handshake.phase ≡ ready
    → frame.handshake.my_frame_id ≡ none
    → is_tab cmd.tab_id frame.my_tab_id ≡ true
    → process_storage_command moment cmd frame
      ≡ record { outputs = []; effects = process_cmd cmd ∷ []; frame = frame }
unfolding process_storage_command should_process process_decided dispatch frame_id_handshake_reducer
    arrive
process_storage_command-again moment cmd frame answered unknown ours =
    rw (ours, unknown, answered) refl

-- When the answer came without an id, a command for the tab of the frame is processed without end:
-- no number of steps performs the effects.
pub apply_effects-loops :
    (n : ℕ) (moment : Moment) (cmd : Cmd) (frame : Frame)
    → frame.handshake.phase ≡ ready
    → frame.handshake.my_frame_id ≡ none
    → is_tab cmd.tab_id frame.my_tab_id ≡ true
    → apply_effects n moment (process_cmd cmd ∷ []) frame ≡ none
unfolding apply_effects perform
apply_effects-loops zero moment cmd frame answered unknown ours = refl
apply_effects-loops (suc n) moment cmd frame answered unknown ours =
    rw (process_storage_command-again moment cmd frame answered unknown ours)
      (ap (prepend []) (apply_effects-loops n moment cmd frame answered unknown ours))
