-- ===== src/Extension/Poll/Row.antt =====
-- When the poll loop leaves the rest to the alarm.
use safari_pilot.Prelude.{
  refl, List, Option, ℕ, ◌||◌, ◌≤◌, Bool, false, true, ◌≡◌, some, ◌∷◌, suc, [], ◌+◌, zero, arith,
  none, all, not, ◌∙◌, ◌++◌, ltb,
}
use safari_pilot.Extension.Poll.{
  Fetched, poll_loop, Ending, turn, retry, Poll, aborted, failed, broken, came, timed_out, base_ms,
  start,
}

-- The first fetches, as many as the number says, fail.
abbrev row_starts : ℕ → List Fetched → Bool
row_starts zero fs = true
row_starts (suc n) [] = false
row_starts (suc n) (failed ∷ fs) = row_starts n fs
row_starts (suc n) (f ∷ fs) = false

-- Somewhere six errors follow one another; the first may be that of a command.
abbrev has_row : List Fetched → Bool
has_row [] = false
has_row (failed ∷ fs) = row_starts 5 fs || has_row fs
has_row (broken ∷ fs) = row_starts 5 fs || has_row fs
has_row (f ∷ fs) = has_row fs

abbrev pub is_yielded : Option Ending → Bool
is_yielded (some Ending.yielded_to_alarm) = true
is_yielded ending = false

abbrev is_abort : Fetched → Bool
is_abort aborted = true
is_abort f = false

row_starts-le :
    (m n : ℕ) (fs : List Fetched) → m ≤ n → row_starts n fs ≡ true → row_starts m fs ≡ true
row_starts-le zero n fs le h = refl
row_starts-le (suc m) zero fs le h = absurd (omega arith)
row_starts-le (suc m) (suc n) [] le h = absurd (ground arith)
row_starts-le (suc m) (suc n) (failed ∷ fs) le h = row_starts-le m n fs (omega arith) h
row_starts-le (suc m) (suc n) (came ∷ fs) le h = absurd (ground arith)
row_starts-le (suc m) (suc n) (broken ∷ fs) le h = absurd (ground arith)
row_starts-le (suc m) (suc n) (aborted ∷ fs) le h = absurd (ground arith)
row_starts-le (suc m) (suc n) (timed_out ∷ fs) le h = absurd (ground arith)

-- A row of six is one that starts here or one later.
row_first : (fs : List Fetched) → (row_starts 6 fs || has_row fs) ≡ has_row fs
row_first [] = refl
row_first (failed ∷ fs) = ground arith
row_first (came ∷ fs) = refl
row_first (broken ∷ fs) = refl
row_first (aborted ∷ fs) = refl
row_first (timed_out ∷ fs) = refl

-- A loop that runs, after so many errors in a row.
abbrev running : ℕ → List ℕ → Poll
running k waits = record { attempts = k; waits = waits; ending = none }

-- With `left` more errors the loop still runs, and with one more it yields.
poll_loop-row :
    (fs : List Fetched) (k left : ℕ) (waits : List ℕ)
    → k + suc left ≡ 6
    → all (λ f. not (is_abort f)) fs ≡ true
    → is_yielded (poll_loop fs (running k waits)).ending ≡ (row_starts (suc left) fs || has_row fs)
unfolding poll_loop turn retry
poll_loop-row [] k left waits e h = refl
poll_loop-row (came ∷ fs) k left waits e h =
    poll_loop-row fs 0 5 waits (omega arith) h ∙ row_first fs
poll_loop-row (timed_out ∷ fs) k left waits e h =
    poll_loop-row fs 0 5 waits (omega arith) h ∙ row_first fs
poll_loop-row (aborted ∷ fs) k left waits e h = absurd (ground arith)
poll_loop-row (broken ∷ fs) k left waits e h =
    poll_loop-row fs 1 4 (waits ++ base_ms 1 ∷ []) (omega arith) h
poll_loop-row (failed ∷ fs) k zero waits e h =
    let last : ltb 5 (k + 1) ≡ true = ground (arith, e) in rw last refl
poll_loop-row (failed ∷ fs) k (suc left) waits e h =
    let more : ltb 5 (k + 1) ≡ false = ground (arith, e) in
    rw more (
      poll_loop-row fs (k + 1) left (waits ++ base_ms (k + 1) ∷ []) (omega (arith, e)) h
      ∙ ground (arith, row_starts-le (suc left) 5 fs (omega (arith, e))))

-- A poll loop that is not aborted yields to the alarm exactly when six errors follow one another
-- somewhere, the first of them in a fetch or in a command; an answer or a timeout between them
-- keeps it running.
pub poll_loop-yields :
    (fs : List Fetched)
    → all (λ f. not (is_abort f)) fs ≡ true
    → is_yielded (poll_loop fs start).ending ≡ has_row fs
poll_loop-yields fs h = poll_loop-row fs 0 5 [] (omega arith) h ∙ row_first fs
