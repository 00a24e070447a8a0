-- ===== src/Extension/Frame/Fifo.antt =====
-- The handshake as a queue of commands.
use mathlib.Core.List.{append_assoc, append-nil}
use safari_pilot.Extension.Frame.{
  Event, Handshake, Phase, frame_id_handshake_reducer, arrive, Cmd, Effect, idle, sp_cmd_arrived,
  process_cmd, respond, sp_get_frame_id_response, awaiting_frame_id, send_sp_get_frame_id,
  sp_get_frame_id_error, ready, initial_state, fail,
}
use safari_pilot.Prelude.{
  List, all, ℕ, ◌∷◌, Bool, ◌≡◌, ◌+◌, ◌++◌, map, arith, true, ap, ◌≤◌, [], sym, refl, false, ◌∙◌,
}

-- The events one after another, with all the effects they ask for.
unfoldable pub reduce_all : Handshake → List Event → Handshake × List Effect
reduce_all state [] = (state, [])
reduce_all state (event ∷ events) =
    let (next, effects) = frame_id_handshake_reducer state event in
    let (last, more) = reduce_all next events in (last, effects ++ more)

abbrev arrivals : List Event → List Cmd
arrivals [] = []
arrivals (sp_cmd_arrived cmd ∷ events) = cmd ∷ arrivals events
arrivals (sp_get_frame_id_response frame ∷ events) = arrivals events
arrivals (sp_get_frame_id_error ∷ events) = arrivals events

abbrev pub processed : List Effect → List Cmd
processed [] = []
processed (send_sp_get_frame_id ∷ es) = processed es
processed (process_cmd cmd ∷ es) = cmd ∷ processed es

abbrev pub questions : List Effect → ℕ
questions [] = 0
questions (send_sp_get_frame_id ∷ es) = 1 + questions es
questions (process_cmd cmd ∷ es) = questions es

abbrev no_error : Event → Bool
no_error (sp_cmd_arrived cmd) = true
no_error (sp_get_frame_id_response frame) = true
no_error sp_get_frame_id_error = false

processed-append : (es fs : List Effect) → processed (es ++ fs) ≡ processed es ++ processed fs
processed-append [] fs = refl
processed-append (send_sp_get_frame_id ∷ es) fs = processed-append es fs
processed-append (process_cmd cmd ∷ es) fs = ap (λ cs. cmd ∷ cs) (processed-append es fs)

questions-append : (es fs : List Effect) → questions (es ++ fs) ≡ questions es + questions fs
questions-append [] fs = omega arith
questions-append (send_sp_get_frame_id ∷ es) fs = omega (arith, questions-append es fs)
questions-append (process_cmd cmd ∷ es) fs = questions-append es fs

processed-map : (cs : List Cmd) → processed (map process_cmd cs) ≡ cs
processed-map [] = refl
processed-map (c ∷ cs) = ap (λ ds. c ∷ ds) (processed-map cs)

questions-map : (cs : List Cmd) → questions (map process_cmd cs) ≡ 0
questions-map [] = refl
questions-map (c ∷ cs) = questions-map cs

-- How many questions the frame may still ask.
abbrev left : Phase → ℕ
left idle = 1
left awaiting_frame_id = 0
left ready = 0

-- Only a frame that waits for its answer keeps commands.
abbrev QueueIn : List Cmd → Phase → Type 0
QueueIn queue idle = queue ≡ []
QueueIn queue awaiting_frame_id = Unit
QueueIn queue ready = queue ≡ []

abbrev HasQueue : Handshake → Type 0
HasQueue state = QueueIn state.queue state.phase

-- One event: the commands that waited and the one that arrives are processed or wait, in order.
abbrev Steps : Handshake → List Cmd → Handshake × List Effect → Type 0
Steps state came (next, effects) =
    (HasQueue next × (processed effects ++ next.queue ≡ state.queue ++ came))
    × (questions effects + left next.phase ≤ left state.phase)

step-Steps :
    (state : Handshake) (event : Event)
    → HasQueue state
    → no_error event ≡ true
    → Steps state (arrivals (event ∷ [])) (frame_id_handshake_reducer state event)
unfolding frame_id_handshake_reducer arrive respond
step-Steps state (sp_cmd_arrived cmd) h k = go state.phase refl h
  where
    go :
        (phase : Phase)
        → state.phase ≡ phase
        → QueueIn state.queue phase
        → Steps state (cmd ∷ []) (arrive cmd state phase)
    go idle e q = ((tt, rw q refl), rw e (omega arith))
    go awaiting_frame_id e q = ((rw e tt, refl), rw e (omega arith))
    go ready e q = ((rw e q, rw q refl), rw e (omega arith))
step-Steps state (sp_get_frame_id_response frame) h k = go state.phase refl h
  where
    go :
        (phase : Phase)
        → state.phase ≡ phase
        → QueueIn state.queue phase
        → Steps state [] (respond frame state phase)
    go idle e q = ((h, rw q refl), omega arith)
    go awaiting_frame_id e q = (
      (refl, ap (λ cs. cs ++ []) (processed-map state.queue)),
      rw (e, questions-map state.queue) (omega arith),
    )
    go ready e q = ((h, rw q refl), omega arith)
step-Steps state sp_get_frame_id_error h k = absurd (ground arith)

arrivals-cons :
    (event : Event) (events : List Event)
    → arrivals (event ∷ events) ≡ arrivals (event ∷ []) ++ arrivals events
arrivals-cons (sp_cmd_arrived cmd) events = refl
arrivals-cons (sp_get_frame_id_response frame) events = refl
arrivals-cons sp_get_frame_id_error events = refl

joined :
    (did more last next queue came later : List Cmd)
    → did ++ next ≡ queue ++ came
    → more ++ last ≡ next ++ later
    → (did ++ more) ++ last ≡ queue ++ (came ++ later)
joined did more last next queue came later first rest =
    append_assoc did more last
    ∙ ap (λ cs. did ++ cs) rest
    ∙ sym (append_assoc did next later)
    ∙ ap (λ cs. cs ++ later) first
    ∙ append_assoc queue came later

reduce_all-Steps :
    (state : Handshake) (events : List Event)
    → HasQueue state
    → all no_error events ≡ true
    → Steps state (arrivals events) (reduce_all state events)
unfolding reduce_all
reduce_all-Steps state [] h k = ((h, sym (append-nil state.queue)), omega arith)
reduce_all-Steps state (event ∷ events) h k =
    let (next, effects) = frame_id_handshake_reducer state event in
    let first = step-Steps state event h (ground (arith, k)) in
    let rest = reduce_all-Steps next events first.0.0 (ground (arith, k)) in
    let (last, more) = reduce_all next events in
    (
      (
        rest.0.0,
        rw (processed-append effects more, arrivals-cons event events)
            (joined (processed effects) (processed more) last.queue next.queue state.queue
              (arrivals (event ∷ [])) (arrivals events) first.0.1 rest.0.1),
      ),
      omega (arith, first.1, rest.1, questions-append effects more),
    )

step-HasQueue :
    (state : Handshake) (event : Event)
    → HasQueue state
    → HasQueue (frame_id_handshake_reducer state event).0
unfolding frame_id_handshake_reducer fail
step-HasQueue state (sp_cmd_arrived cmd) h = (step-Steps state (sp_cmd_arrived cmd) h refl).0.0
step-HasQueue state (sp_get_frame_id_response frame) h =
    (step-Steps state (sp_get_frame_id_response frame) h refl).0.0
step-HasQueue state sp_get_frame_id_error h = go state.phase h
  where
    go : (phase : Phase) → HasQueue state → HasQueue (fail state phase).0
    go idle h = h
    go awaiting_frame_id h = refl
    go ready h = h

reduce_all-HasQueue :
    (state : Handshake) (events : List Event)
    → HasQueue state
    → HasQueue (reduce_all state events).0
unfolding reduce_all
reduce_all-HasQueue state [] h = h
reduce_all-HasQueue state (event ∷ events) h =
    reduce_all-HasQueue (frame_id_handshake_reducer state event).0 events
      (step-HasQueue state event h)

left-le : (phase : Phase) → left phase ≤ 1
left-le idle = omega arith
left-le awaiting_frame_id = omega arith
left-le ready = omega arith

-- Where the handshake is after some events.
abbrev pub after : List Event → Handshake
after events = (reduce_all initial_state events).0

-- After any events, failed answers included, and from then on as long as no answer fails: the
-- commands processed, and then those that still wait, are the commands that waited and then those
-- that arrive, in order, and the frame asks for its id once at most.
pub reduce_all-fifo :
    (before events : List Event)
    → all no_error events ≡ true
    → (processed (reduce_all (after before) events).1 ++ (reduce_all (after before) events).0.queue
        ≡ (after before).queue ++ arrivals events)
      × (questions (reduce_all (after before) events).1 ≤ 1)
reduce_all-fifo before events h =
    let reached = reduce_all-HasQueue initial_state before refl in
    let steps = reduce_all-Steps (after before) events reached h in
    (steps.0.1, omega (arith, steps.1, left-le (after before).phase))
