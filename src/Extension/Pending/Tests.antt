-- ===== src/Extension/Pending/Tests.antt =====
-- A command whose result is kept while another one runs and the daemon says nothing of it.
use safari_pilot.Prelude.{refl, String, List, ◌∷◌, [], ◌≡◌, some, true, string_eq}
use safari_pilot.Extension.Pending.Kept.{
  executed_is_reported, happen_all, executed, reconciled, collected, mem, Event,
}
use safari_pilot.Extension.Pending.{
  handle_reconcile_response, result_of, execute_all, post_uncertain, execute_command, remove_all,
  update_pending_entry, connect_lists,
}
use safari_pilot.Prelude.Dict.{get, set}

abbrev run : String → String
run id = id

abbrev events : List Event
events =
    executed run 20 "b"
    ∷ reconciled run 30 (record { acked = "b" ∷ []; uncertain = "a" ∷ []; push_new = "c" ∷ [] })
    ∷ collected 600010
    ∷ []

executed_is_reported_example :
    (result_of (get "a" (happen_all events (execute_command run 10 "a" []).1)) ≡ some "a")
    × (mem "a" (connect_lists (happen_all events (execute_command run 10 "a" []).1)).executed_ids
        ≡ true)
executed_is_reported_example = executed_is_reported run 10 "a" [] events refl

-- The daemon is not sure of `a`, whose result it is sent again, and gives a new command.
reposted :
    (handle_reconcile_response run 30
      (record { acked = []; uncertain = "a" ∷ []; push_new = "c" ∷ [] })
      (execute_command run 10 "a" []).1).0
    ≡ ("a", "a") ∷ ("c", "c") ∷ []
unfolding handle_reconcile_response execute_all post_uncertain remove_all execute_command
    update_pending_entry get set
reposted = refl
