-- ===== src/Security/KillSwitch/AutoActivation.antt =====
-- When errors activate the switch.
use safari_pilot.Security.KillSwitch.{
  KillSwitch, Threshold, evict, record_error, count_error, activate, new,
}
use safari_pilot.Prelude.{
  List, ℕ, All, Bool, String, ◌∷◌, ◌≡◌, filter, ◌≤◌, leb, false, [], arith, ◌+◌, ◌++◌, refl, length,
  ◌*◌, if◌then◌else◌, true, some, ◌||◌,
}
use safari_pilot.Security.AuditLog.{AuditLog}

abbrev pub is_recent : ℕ → ℕ → ℕ → Bool
is_recent span now at = leb now (at + span)

abbrev pub IsSorted : List ℕ → Type 0
IsSorted [] = Unit
IsSorted (x ∷ xs) = All (λ y. x ≤ y) xs × IsSorted xs

filter-All :
    (span now x : ℕ) (xs : List ℕ)
    → All (λ y. x ≤ y) xs
    → now ≤ x + span
    → filter (is_recent span now) xs ≡ xs
filter-All span now x [] a h = refl
filter-All span now x (y ∷ xs) a h = ground (arith, a.0, filter-All span now x xs a.1 h)

-- On times in order the eviction loop, which stops at the first recent one, keeps exactly the
-- recent ones.
pub evict-eq-filter :
    (span now : ℕ) (window : List ℕ)
    → IsSorted window
    → evict span now window ≡ filter (is_recent span now) window
unfolding evict
evict-eq-filter span now [] s = refl
evict-eq-filter span now (x ∷ xs) s =
    ground (arith, evict-eq-filter span now xs s.1, filter-All span now x xs s.0)

-- Errors at the given times, one after another.
unfoldable pub record_errors : List (ℕ × String) → KillSwitch → AuditLog → KillSwitch × AuditLog
record_errors [] k log = (k, log)
record_errors ((now, at) ∷ errors) k log =
    let (k', log') = record_error now at k log in record_errors errors k' log'

abbrev pub IsAscending : ℕ → List (ℕ × String) → Type 0
IsAscending last [] = Unit
IsAscending last ((now, at) ∷ errors) = (last ≤ now) × IsAscending now errors

-- The reference: some error completes `max_errors` within the window that ends at it, among
-- those since the start.
unfoldable pub floods : Threshold → List ℕ → List (ℕ × String) → Bool
floods limit h [] = false
floods limit h ((now, at) ∷ errors) =
    let later = floods limit (h ++ now ∷ []) errors in
    let count = length (filter (is_recent (limit.window_seconds * 1000) now) (h ++ now ∷ [])) in
    if leb limit.max_errors count then true else later

evict-filter :
    (span last now : ℕ) (h : List ℕ)
    → IsSorted h
    → last ≤ now
    → evict span now (filter (is_recent span last) h) ≡ filter (is_recent span now) h
unfolding evict
evict-filter span last now [] s le = refl
evict-filter span last now (x ∷ xs) s le = ground (
  arith,
  evict-filter span last now xs s.1 le,
  filter-All span last x xs s.0,
  filter-All span now x xs s.0,
)

filter-push :
    (span now : ℕ) (h : List ℕ)
    → filter (is_recent span now) (h ++ now ∷ []) ≡ filter (is_recent span now) h ++ now ∷ []
filter-push span now [] = ground arith
filter-push span now (x ∷ xs) = ground (arith, filter-push span now xs)

All-push :
    (x now : ℕ) (h : List ℕ) → All (λ y. x ≤ y) h → x ≤ now → All (λ y. x ≤ y) (h ++ now ∷ [])
All-push x now [] a le = (le, tt)
All-push x now (y ∷ h) a le = (a.0, All-push x now h a.1 le)

IsSorted-push :
    (now : ℕ) (h : List ℕ) → IsSorted h → All (λ y. y ≤ now) h → IsSorted (h ++ now ∷ [])
IsSorted-push now [] s a = (tt, tt)
IsSorted-push now (x ∷ h) s a = (All-push x now h s.0 a.0, IsSorted-push now h s.1 a.1)

below-push :
    (last now : ℕ) (h : List ℕ)
    → All (λ y. y ≤ last) h
    → last ≤ now
    → All (λ y. y ≤ now) (h ++ now ∷ [])
below-push last now [] a le = (omega arith, tt)
below-push last now (x ∷ h) a le = (omega (arith, a.0), below-push last now h a.1 le)

below-weaken :
    (last now : ℕ) (h : List ℕ) → All (λ y. y ≤ last) h → last ≤ now → All (λ y. y ≤ now) h
below-weaken last now [] a le = tt
below-weaken last now (x ∷ h) a le = (omega (arith, a.0), below-weaken last now h a.1 le)

-- What the switch has seen: the errors in order, the last of them at `last`.
pub record Tracks (limit : Threshold) (h : List ℕ) (last : ℕ) (k : KillSwitch) : Type 0 where
  pub configured : k.threshold ≡ some limit
  pub sorted : IsSorted h
  pub bounded : All (λ y. y ≤ last) h
  pub windowed : k.error_window ≡ filter (is_recent (limit.window_seconds * 1000) last) h

record_error-Tracks :
    (limit : Threshold) (h : List ℕ) (last now : ℕ) (at : String) (k : KillSwitch) (log : AuditLog)
    → Tracks limit h last k
    → last ≤ now
    → Tracks limit (h ++ now ∷ []) now (record_error now at k log).0
      × ((record_error now at k log).0.is_active ≡ (
          k.is_active
          || leb limit.max_errors
              (length (filter (is_recent (limit.window_seconds * 1000) now) (h ++ now ∷ [])))))
unfolding record_error count_error activate
record_error-Tracks limit h last now at k log t le =
    let span = limit.window_seconds * 1000 in
    let kept = evict-filter span last now h t.sorted le in
    (
      record {
        configured = ground (arith, t.configured);
        sorted = IsSorted-push now h t.sorted (below-weaken last now h t.bounded le);
        bounded = below-push last now h t.bounded le;
        windowed = ground (arith, t.configured, t.windowed, kept, filter-push span now h);
      },
      ground (arith, t.configured, t.windowed, kept, filter-push span now h),
    )

record_errors-Tracks :
    (errors : List (ℕ × String)) (limit : Threshold) (h : List ℕ) (last : ℕ) (k : KillSwitch)
    → (log : AuditLog) → Tracks limit h last k
    → IsAscending last errors
    → (record_errors errors k log).0.is_active ≡ (k.is_active || floods limit h errors)
unfolding record_errors floods
record_errors-Tracks [] limit h last k log t up = ground arith
record_errors-Tracks ((now, at) ∷ errors) limit h last k log t up =
    let (t', active) = record_error-Tracks limit h last now at k log t up.0 in
    let (k', log') = record_error now at k log in
    let rest = record_errors-Tracks errors limit (h ++ now ∷ []) now k' log' t' up.1 in
    ground (arith, active, rest)

-- A fresh switch with a threshold, given errors in the order of time, is active afterwards
-- exactly when, at some error, at least `max_errors` of the errors up to it fall within the window
-- that ends at it. The eviction loop drops only times that no later window holds.
pub activates_exactly :
    (limit : Threshold) (audited : Bool) (errors : List (ℕ × String)) (log : AuditLog)
    → IsAscending 0 errors
    → (record_errors errors (new audited (some limit)) log).0.is_active ≡ floods limit [] errors
unfolding new
activates_exactly limit audited errors log up =
    record_errors-Tracks errors limit [] 0 (new audited (some limit)) log
      (record { configured = refl; sorted = tt; bounded = tt; windowed = refl }) up
