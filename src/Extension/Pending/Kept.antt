-- ===== src/Extension/Pending/Kept.antt =====
-- What happens to the result of a command until the daemon has it.
use safari_pilot.Prelude.{
  refl, String, List, ℕ, ◌∷◌, Bool, all, leb, ◌≡◌, ◌==◌, not, any, ◌&&◌, [], ◌+◌, false, some, true,
  string_eq, ◌∙◌, arith, Bool-cases, ap, inl, none, is_some, subst, inr, if◌then◌else◌,
}
use safari_pilot.Prelude.Dict.{get, delete, get-set_ne, get-delete_ne, get-set_self}
use safari_pilot.Extension.Pending.{
  Pending, connect_lists, execute_all, execute_command, gc_pending_storage,
  handle_reconcile_response, remove_all, remove_pending_entry, update_pending_entry, Reconcile,
  Entry, completed, result_of, entry_or_none, spread, is_completed, is_old, is_executing,
}

abbrev pub mem : String → List String → Bool
mem id ids = any (λ i. i == id) ids

pub data Event : Type 0 where
  executed : (String → String) → ℕ → String → Event
  reconciled : (String → String) → ℕ → Reconcile → Event
  collected : ℕ → Event

unfoldable pub happen : Event → Pending → Pending
happen (executed run now id) pending = (execute_command run now id pending).1
happen (reconciled run now answer) pending = (handle_reconcile_response run now answer pending).1
happen (collected now) pending = gc_pending_storage now pending

unfoldable pub happen_all : List Event → Pending → Pending
happen_all [] pending = pending
happen_all (event ∷ events) pending = happen_all events (happen event pending)

-- The event does not execute the command again, does not say that the daemon has its result, and
-- does not come more than ten minutes after it began.
abbrev spares : String → ℕ → Event → Bool
spares id t (executed run now other) = not (other == id)
spares id t (reconciled run now answer) = not (mem id answer.acked) && not (mem id answer.push_new)
spares id t (collected now) = leb now (t + 600000)

abbrev done_entry : String → ℕ → Entry
done_entry result t = record { status = some completed; result = some result; timestamp = some t }

execute_command-others :
    (run : String → String) (now : ℕ) (other id : String) (pending : Pending)
    → (other == id) ≡ false
    → get id (execute_command run now other pending).1 ≡ get id pending
unfolding execute_command update_pending_entry
execute_command-others run now other id pending h =
    get-set_ne other id _ _ h ∙ get-set_ne other id _ pending h

execute_all-others :
    (run : String → String) (now : ℕ) (ids : List String) (id : String) (pending : Pending)
    → mem id ids ≡ false
    → get id (execute_all run now ids pending).1 ≡ get id pending
unfolding execute_all
execute_all-others run now [] id pending h = refl
execute_all-others run now (other ∷ ids) id pending h =
    execute_all-others run now ids id (execute_command run now other pending).1 (ground (arith, h))
    ∙ execute_command-others run now other id pending (ground (arith, h))

remove_all-others :
    (ids : List String) (id : String) (pending : Pending)
    → mem id ids ≡ false
    → get id (remove_all ids pending) ≡ get id pending
unfolding remove_all remove_pending_entry
remove_all-others [] id pending h = refl
remove_all-others (other ∷ ids) id pending h =
    remove_all-others ids id (delete other pending) (ground (arith, h))
    ∙ get-delete_ne other id pending (ground (arith, h))

later_entry :
    (j id : String) (e : Entry) (pending : Pending)
    → (j == id) ≡ false
    → get id pending ≡ get id ((j, e) ∷ pending)
unfolding get
later_entry j id e pending other = rw other refl

first_entry :
    (j id : String) (e d : Entry) (pending : Pending)
    → (j == id) ≡ true
    → get id ((j, e) ∷ pending) ≡ some d
    → e ≡ d
unfolding get
first_entry j id e d pending here h =
    ap entry_or_none (subst (λ b. (if b then some e else get id pending) ≡ some d) here h)

gc_pending_storage-recent :
    (now t : ℕ) (id result : String) (pending : Pending)
    → leb now (t + 600000) ≡ true
    → get id pending ≡ some (done_entry result t)
    → get id (gc_pending_storage now pending) ≡ some (done_entry result t)
unfolding gc_pending_storage get
gc_pending_storage-recent now t id result [] recent h = h
gc_pending_storage-recent now t id result ((j, e) ∷ pending) recent h =
    elim (Bool-cases (j == id)) [
      | inl here ↦
          let found = first_entry j id e (done_entry result t) pending here h in
          let stays : (is_completed e.status && is_old now e.timestamp) ≡ false =
            ap (λ x. is_completed x.status && is_old now x.timestamp) found
            ∙ ground (arith, recent) in
          rw (stays, here) (ap some found)
      | inr other ↦
          let rest =
            gc_pending_storage-recent now t id result pending recent
              (later_entry j id e pending other ∙ h) in
          elim (Bool-cases (is_completed e.status && is_old now e.timestamp)) [
            | inl goes ↦ rw goes rest
            | inr stays ↦ rw (stays, other) rest
          ]
    ]

happen-spares :
    (event : Event) (id result : String) (t : ℕ) (pending : Pending)
    → spares id t event ≡ true
    → get id pending ≡ some (done_entry result t)
    → get id (happen event pending) ≡ some (done_entry result t)
unfolding happen handle_reconcile_response
happen-spares (executed run now other) id result t pending s h =
    execute_command-others run now other id pending (ground (arith, s)) ∙ h
happen-spares (reconciled run now answer) id result t pending s h =
    execute_all-others run now answer.push_new id (remove_all answer.acked pending)
      (ground (arith, s))
    ∙ remove_all-others answer.acked id pending (ground (arith, s))
    ∙ h
happen-spares (collected now) id result t pending s h =
    gc_pending_storage-recent now t id result pending s h

happen_all-spares :
    (events : List Event) (id result : String) (t : ℕ) (pending : Pending)
    → all (spares id t) events ≡ true
    → get id pending ≡ some (done_entry result t)
    → get id (happen_all events pending) ≡ some (done_entry result t)
unfolding happen_all
happen_all-spares [] id result t pending s h = h
happen_all-spares (event ∷ events) id result t pending s h =
    happen_all-spares events id result t (happen event pending) (ground (arith, s))
      (happen-spares event id result t pending (ground (arith, s)) h)

connect_lists-executed :
    (id result : String) (t : ℕ) (pending : Pending)
    → get id pending ≡ some (done_entry result t)
    → mem id (connect_lists pending).executed_ids ≡ true
unfolding connect_lists get
connect_lists-executed id result t [] h = absurd (ground arith)
connect_lists-executed id result t ((j, e) ∷ pending) h = elim (Bool-cases (j == id)) [
  | inl here ↦
      let found = first_entry j id e (done_entry result t) pending here h in
      let has_result : is_some (result_of (some e)) ≡ true =
        ap (λ x. is_some (result_of (some x))) found in
      rw (has_result, here) refl
  | inr other ↦
      let rest =
        connect_lists-executed id result t pending (later_entry j id e pending other ∙ h) in
      elim (Bool-cases (is_some (result_of (some e)))) [
        | inl done ↦ rw (done, other) rest
        | inr undone ↦ elim (Bool-cases (is_executing e.status)) [
          | inl runs ↦ rw (undone, runs) rest
          | inr idle ↦ rw (undone, idle) rest
        ]
      ]
]

execute_command-done :
    (run : String → String) (now : ℕ) (id : String) (pending : Pending)
    → get id (execute_command run now id pending).1 ≡ some (done_entry (run id) now)
unfolding execute_command update_pending_entry
execute_command-done run now id pending =
    get-set_self id _ _
    ∙ ap
        (λ o. some (
          spread (entry_or_none o)
            (record { status = some completed; result = some (run id); timestamp = none })))
        (get-set_self id _ pending)

-- A result that a command gave is kept, and told to the daemon at each connection, whatever other
-- commands run, whatever the daemon answers and however often the storage is cleared, until the
-- command is executed again, the daemon says that it has the result, or ten minutes are over.
pub executed_is_reported :
    (run : String → String) (now : ℕ) (id : String) (pending : Pending) (events : List Event)
    → all (spares id now) events ≡ true
    → (result_of (get id (happen_all events (execute_command run now id pending).1))
        ≡ some (run id))
      × (mem id
            (connect_lists (happen_all events (execute_command run now id pending).1)).executed_ids
          ≡ true)
executed_is_reported run now id pending events spared =
    let kept =
      happen_all-spares events id (run id) now (execute_command run now id pending).1 spared
        (execute_command-done run now id pending) in
    (ap result_of kept, connect_lists-executed id (run id) now _ kept)
