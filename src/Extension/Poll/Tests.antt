-- ===== src/Extension/Poll/Tests.antt =====
-- Runs of the poll loop.
use safari_pilot.Prelude.{refl, List, ◌≡◌, true, ◌∷◌, []}
use safari_pilot.Extension.Poll.Row.{poll_loop-yields, is_yielded}
use safari_pilot.Extension.Poll.{
  poll_loop, turn, Fetched, start, retry, came, failed, timed_out, broken,
}

abbrev fetches : List Fetched
fetches =
    came ∷ failed ∷ failed ∷ timed_out ∷ broken ∷ failed ∷ failed ∷ failed ∷ failed ∷ failed ∷ came
    ∷ []

poll_loop-yields_example : is_yielded (poll_loop fetches start).ending ≡ true
poll_loop-yields_example = poll_loop-yields fetches refl

-- The waits between six errors: 5750 ms together.
all_waits :
    (poll_loop (failed ∷ failed ∷ failed ∷ failed ∷ failed ∷ failed ∷ []) start).waits
    ≡ 250 ∷ 500 ∷ 1000 ∷ 2000 ∷ 2000 ∷ []
unfolding poll_loop turn retry
all_waits = refl
