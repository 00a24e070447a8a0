-- ===== src/Extension/Pending.antt =====
-- extension/background.js, the pending entries: what the extension remembers of the commands it
-- executes, until the daemon says that it has their results.
--
-- The storage is a `Map` from ids to entries, read and written whole; a write that fails is not
-- modelled. What a command does once it has begun is the parameter `run`.
pub mod Kept
mod Tests
use safari_pilot.Prelude.{
  List, Option, String, none, ℕ, ◌∷◌, [], if◌then◌else◌, ◌++◌, Bool, some, ◌&&◌, is_some, false,
  true, string_eq, not, ◌==◌, ltb, ◌+◌, nat_eq,
}
use safari_pilot.Prelude.Dict.{Dict, set, delete, get}

pub data Status : Type 0 where
  executing completed : Status

-- A field that is missing is `none`.
pub record Entry : Type 0 where
  pub status : Option Status
  pub result : Option String
  pub timestamp : Option ℕ

abbrev pub Pending : Type 0
Pending = Dict String Entry

abbrev over : {A : Type 0} → Option A → Option A → Option A
over old none = old
over old (some new) = some new

abbrev no_entry : Entry
no_entry = record { status = none; result = none; timestamp = none }

abbrev pub entry_or_none : Option Entry → Entry
entry_or_none none = no_entry
entry_or_none (some e) = e

-- The fields of the second entry onto those of the first.
abbrev pub spread : Entry → Entry → Entry
spread old new = record {
  status = over old.status new.status;
  result = over old.result new.result;
  timestamp = over old.timestamp new.timestamp;
}

unfoldable pub update_pending_entry : String → Entry → Pending → Pending
update_pending_entry id partial pending =
    set id (spread (entry_or_none (get id pending)) partial) pending

unfoldable pub remove_pending_entry : String → Pending → Pending
remove_pending_entry id pending = delete id pending

unfoldable pub execute_command : (String → String) → ℕ → String → Pending → String × Pending
execute_command run now id pending =
    let begun =
      update_pending_entry id
        (record { status = some executing; result = none; timestamp = some now }) pending in
    (
      run id,
      update_pending_entry id
          (record { status = some completed; result = some (run id); timestamp = none }) begun,
    )

-- The answer of the daemon to a connection; the ids that need nothing of the client are left out.
pub record Reconcile : Type 0 where
  pub acked : List String
  pub uncertain : List String
  pub push_new : List String

unfoldable pub remove_all : List String → Pending → Pending
remove_all [] pending = pending
remove_all (id ∷ ids) pending = remove_all ids (remove_pending_entry id pending)

abbrev pub is_completed : Option Status → Bool
is_completed (some completed) = true
is_completed status = false

-- The result of an entry that is completed.
abbrev pub result_of : Option Entry → Option String
result_of none = none
result_of (some e) = if is_completed e.status then e.result else none

abbrev onto_posts : String → Option String → List (String × String) → List (String × String)
onto_posts id none posts = posts
onto_posts id (some result) posts = (id, result) ∷ posts

unfoldable pub post_uncertain : List String → Pending → List (String × String)
post_uncertain [] pending = []
post_uncertain (id ∷ ids) pending =
    onto_posts id (result_of (get id pending)) (post_uncertain ids pending)

unfoldable pub execute_all :
    (String → String) → ℕ → List String → Pending → List (String × String) × Pending
execute_all run now [] pending = ([], pending)
execute_all run now (id ∷ ids) pending =
    let (result, next) = execute_command run now id pending in
    let (posts, last) = execute_all run now ids next in ((id, result) ∷ posts, last)

unfoldable pub handle_reconcile_response :
    (String → String) → ℕ → Reconcile → Pending → List (String × String) × Pending
handle_reconcile_response run now answer pending =
    let left = remove_all answer.acked pending in
    let (posts, after) = execute_all run now answer.push_new left in
    (post_uncertain answer.uncertain left ++ posts, after)

abbrev pub is_old : ℕ → Option ℕ → Bool
is_old now none = false
is_old now (some t) = not (t == 0) && ltb (t + 600000) now

-- Completed entries of more than ten minutes ago go.
unfoldable pub gc_pending_storage : ℕ → Pending → Pending
gc_pending_storage now [] = []
gc_pending_storage now ((id, e) ∷ pending) =
    let rest = gc_pending_storage now pending in
    if is_completed e.status && is_old now e.timestamp then rest else (id, e) ∷ rest

pub record Connect : Type 0 where
  pub executed_ids : List String
  pub pending_ids : List String

abbrev pub is_executing : Option Status → Bool
is_executing (some executing) = true
is_executing status = false

abbrev with_executed : String → Connect → Connect
with_executed id lists = record lists { executed_ids = id ∷ lists.executed_ids }

abbrev with_pending : String → Connect → Connect
with_pending id lists = record lists { pending_ids = id ∷ lists.pending_ids }

-- What the extension tells the daemon when it connects.
unfoldable pub connect_lists : Pending → Connect
connect_lists [] = record { executed_ids = []; pending_ids = [] }
connect_lists ((id, e) ∷ pending) =
    let rest = connect_lists pending in
    if is_some (result_of (some e))
    then with_executed id rest
    else if is_executing e.status
    then with_pending id rest
    else rest
