-- ===== src/Security/RateLimiter/Window.antt =====
-- The sliding-window guarantee of the limiter, against the history of what it let through.
use safari_pilot.Security.RateLimiter.{RateLimiter, entries, is_live, limit_for, record_action, get}
use safari_pilot.Prelude.{
  List, ℕ, ◌∷◌, filter, All, leb, ◌<◌, String, ◌≤◌, length, ◌++◌, ◌≡◌, arith, ◌&&◌, [], refl, ◌==◌,
  false, string_eq, if◌then◌else◌, dec_lt, ==_refl, filter-append, ◌∙◌, length-append, ap, sym,
  Bool-cases, inr, inl, eq_iff, dec_le,
}
use safari_pilot.Errors.{ok, err}
use safari_pilot.Security.RateLimiter.Checks.{
  record_action-others, record_action-pushes, record_action-refuses, entries-prune,
  record_action-window, prune_lem, record_action-limit, prune_keeps, limit_for-prune,
}
use safari_pilot.Prelude.Dict.{get}

-- The actions of the history in the window that ends at `t`: `t - window < ts` and `ts ≤ t`.
abbrev pub in_window : ℕ → ℕ → List ℕ → List ℕ
in_window window t = filter (λ ts. leb ts t && is_live window t ts)

-- The history of `d` after one more call of `record_action`: an accepted action is added.
unfoldable pub note : String → String → ℕ → RateLimiter → List ℕ → List ℕ
note d domain now r h = elim (record_action domain now r).0 [
  | ok _ ↦ if domain == d then h ++ now ∷ [] else h
  | err _ ↦ h
]

-- A sequence of calls `record_action domain now`, and the history of `d`.
unfoldable pub run : String → List (String × ℕ) → RateLimiter → List ℕ → RateLimiter × List ℕ
unfolding note
run d [] r h = (r, h)
run d ((domain, now) ∷ calls) r h =
    run d calls (record_action domain now r).1 (note d domain now r h)

-- The clock does not go back.
abbrev pub IsAscending : ℕ → List (String × ℕ) → Type 0
IsAscending last [] = Unit
IsAscending last ((domain, now) ∷ calls) = (last ≤ now) × IsAscending now calls

record Tracks (d : String) (last : ℕ) (r : RateLimiter) (h : List ℕ) : Type 0 where
  stored :
      (now : ℕ)
      → last ≤ now
      → filter (is_live r.window_ms now) (entries d r) ≡ filter (is_live r.window_ms now) h
  past : All (λ ts. ts ≤ last) h
  capped : (t : ℕ) → length (in_window r.window_ms t h) ≤ limit_for d r

All-append :
    (last : ℕ) (h : List ℕ) (now : ℕ)
    → last ≤ now
    → All (λ ts. ts ≤ last) h
    → All (λ ts. ts ≤ now) (h ++ now ∷ [])
All-append last [] now k a = (omega arith, tt)
All-append last (ts ∷ h) now k a = (omega arith, All-append last h now k a.1)

All-later :
    (last : ℕ) (h : List ℕ) (now : ℕ)
    → last ≤ now
    → All (λ ts. ts ≤ last) h
    → All (λ ts. ts ≤ now) h
All-later last [] now k a = tt
All-later last (ts ∷ h) now k a = (omega arith, All-later last h now k a.1)

-- What is live later was live before.
filter-live-live :
    (w last now : ℕ) (h : List ℕ)
    → last ≤ now
    → filter (is_live w now) (filter (is_live w last) h) ≡ filter (is_live w now) h
filter-live-live w last now [] k = refl
filter-live-live w last now (ts ∷ h) k = ground (arith, filter-live-live w last now h k)

-- Past the end of the history a window holds at most what is live at its end.
length-in_window-le :
    (w now t : ℕ) (h : List ℕ)
    → now ≤ t
    → length (in_window w t h) ≤ length (filter (is_live w now) h)
length-in_window-le w now t [] k = omega arith
length-in_window-le w now t (ts ∷ h) k = ground (arith, length-in_window-le w now t h k)

-- A window that ends before `now` does not hold `now`.
in_window-push :
    (w now t : ℕ) (h : List ℕ) → t < now → in_window w t (h ++ now ∷ []) ≡ in_window w t h
in_window-push w now t [] k = ground arith
in_window-push w now t (ts ∷ h) k = ground (arith, in_window-push w now t h k)

module _ {d : String} {last : ℕ} {r : RateLimiter} {h : List ℕ} (now : ℕ) (k : last ≤ now)
    (t : Tracks d last r h) where
  live-stored : filter (is_live r.window_ms now) (entries d r) ≡ filter (is_live r.window_ms now) h
  live-stored = t.stored now k

  past-later : All (λ ts. ts ≤ now) h
  past-later = All-later last h now k t.past

  stored-later :
      (now' : ℕ)
      → now ≤ now'
      → filter (is_live r.window_ms now') (filter (is_live r.window_ms now) (entries d r))
        ≡ filter (is_live r.window_ms now') h
  stored-later now' k' = rw live-stored (filter-live-live r.window_ms now now' h k')

  -- A window after the push, when there is room for it.
  capped-push :
      length (filter (is_live r.window_ms now) (entries d r)) < limit_for d r
      → (t' : ℕ) → length (in_window r.window_ms t' (h ++ now ∷ [])) ≤ limit_for d r
  capped-push room t' = elim (dec_lt t' now) [
    | yes before ↦ rw (in_window-push r.window_ms now t' h before) (t.capped t')
    | no after ↦ rw (filter-append (λ ts. leb ts t' && is_live r.window_ms t' ts) h (now ∷ [])) (
        ground (
          arith,
          length-append (in_window r.window_ms t' h) (in_window r.window_ms t' (now ∷ [])),
          length-in_window-le r.window_ms now t' h,
          live-stored,
        ))
  ]

  -- The call is for another domain.
  Tracks-others :
      (domain : String)
      → (domain == d) ≡ false
      → Tracks d now (record_action domain now r).1 (note d domain now r h)
  unfolding note
  Tracks-others domain ne =
      let calm : note d domain now r h ≡ h = ground (arith, ne) in
      rw calm (record {
        stored = λ now' k'.
            rw (record_action-others domain now r d ne, record_action-window domain now r)
              (t.stored now' (omega arith));
        past = past-later;
        capped = λ t'.
            rw (record_action-window domain now r, record_action-limit domain now r d)
              (t.capped t');
      })

  -- The call is for `d`, and the limit is reached.
  Tracks-refused :
      limit_for d r ≤ length (filter (is_live r.window_ms now) (entries d r))
      → Tracks d now (record_action d now r).1 (note d d now r h)
  unfolding note
  Tracks-refused full =
      let (refused, state) = record_action-refuses d now r full in
      let calm : note d d now r h ≡ h = ground (arith, refused) in
      rw (calm, state)
        (record {
          stored = λ now' k'.
              rw (entries-prune d now r, prune_lem d now r, (prune_keeps d now r).0)
                (stored-later now' k');
          past = past-later;
          capped = λ t'. rw ((prune_keeps d now r).0, limit_for-prune d now r d) (t.capped t');
        })

  -- The call is for `d`, and it is let through.
  Tracks-accepted :
      length (filter (is_live r.window_ms now) (entries d r)) < limit_for d r
      → Tracks d now (record_action d now r).1 (note d d now r h)
  unfolding note
  Tracks-accepted room =
      let (accepted, pushed) = record_action-pushes d now r room in
      let grown : note d d now r h ≡ h ++ now ∷ [] = ground (arith, accepted, ==_refl d) in
      rw grown (record {
        stored = λ now' k'.
            rw (pushed, record_action-window d now r)
              (filter-append (is_live r.window_ms now') _ (now ∷ [])
                ∙ ap (λ l. l ++ filter (is_live r.window_ms now') (now ∷ [])) (stored-later now' k')
                ∙ sym (filter-append (is_live r.window_ms now') h (now ∷ [])));
        past = All-append last h now k t.past;
        capped = λ t'.
            rw (record_action-window d now r, record_action-limit d now r d) (capped-push room t');
      })

-- One call keeps the record of the history, whatever domain it is for.
Tracks-record_action :
    {d : String} {last : ℕ} {r : RateLimiter} {h : List ℕ} (domain : String) (now : ℕ)
    → last ≤ now
    → Tracks d last r h
    → Tracks d now (record_action domain now r).1 (note d domain now r h)
Tracks-record_action {d} {last} {r} {h} domain now k t = elim (Bool-cases (domain == d)) [
  | inr other ↦ Tracks-others now k t domain other
  | inl same ↦
      rw ((eq_iff domain d).0 same)
        (elim (dec_le (limit_for d r) (length (filter (is_live r.window_ms now) (entries d r)))) [
          | yes full ↦ Tracks-refused now k t full
          | no room ↦ Tracks-accepted now k t (omega arith)
        ])
]

Tracks-run :
    {d : String} (calls : List (String × ℕ)) {last : ℕ} {r : RateLimiter} {h : List ℕ}
    → IsAscending last calls
    → Tracks d last r h
    → (t : ℕ) → length (in_window r.window_ms t (run d calls r h).1) ≤ limit_for d r
unfolding run
Tracks-run [] a tracks t = tracks.capped t
Tracks-run {d} ((domain, now) ∷ calls) {last} {r} {h} a tracks t =
    rw (record_action-window domain now r, record_action-limit domain now r d) at
      (Tracks-run calls a.1 (Tracks-record_action domain now a.0 tracks) t)

Tracks-fresh : (d : String) (r : RateLimiter) → r.windows ≡ [] → Tracks d 0 r []
unfolding get
Tracks-fresh d r fresh = record { stored = λ now k. rw fresh; past = tt; capped = λ t. omega arith }

-- Start a limiter, set limits for domains, and make any calls of `record_action` while the clock
-- does not go back. Then every window of `window_ms`, wherever it ends, holds at most as many of
-- the accepted actions of a domain as the limit of the domain.
pub run-le-limit_for :
    (d : String) (calls : List (String × ℕ)) (r : RateLimiter)
    → r.windows ≡ []
    → IsAscending 0 calls
    → (t : ℕ) → length (in_window r.window_ms t (run d calls r []).1) ≤ limit_for d r
run-le-limit_for d calls r fresh a t = Tracks-run calls a (Tracks-fresh d r fresh) t
