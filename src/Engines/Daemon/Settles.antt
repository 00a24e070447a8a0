-- ===== src/Engines/Daemon/Settles.antt =====
-- How the pending requests and the settled ones add up.
use safari_pilot.Prelude.{
  none, refl, String, ℕ, [], if◌then◌else◌, List, ◌∷◌, All, ◌≡◌, ◌==◌, ◌+◌, arith, ◌++◌, string_eq,
  false, some, nat_eq, Bool-cases, inl, inr, eq_iff, sym, subst, ◌∙◌, ap, Option, ==_refl,
}
use safari_pilot.Prelude.Dict.{
  Dict, get, set, delete, has, IsDistinct, get-delete_ne, delete-IsDistinct,
}
use safari_pilot.Engines.Daemon.{
  Daemon, Settled, Timer, resolved, rejected, clear_timeout, on_line, on_lines, dispatch_response,
  reject_each, on_data, Js, Reason, settle, Response,
}

abbrev pub same : ℕ → ℕ → ℕ
same t k = if k == t then 1 else 0

abbrev pub times_sent : ℕ → List ℕ → ℕ
times_sent t [] = 0
times_sent t (k ∷ ks) = same t k + times_sent t ks

abbrev ticket_of : Settled → ℕ
ticket_of (resolved k msg) = k
ticket_of (rejected k reason) = k

abbrev pub times_settled : ℕ → List Settled → ℕ
times_settled t [] = 0
times_settled t (s ∷ settled) = same t (ticket_of s) + times_settled t settled

abbrev pub times_pending : ℕ → Dict String ℕ → ℕ
times_pending t [] = 0
times_pending t ((id, k) ∷ m) = same t k + times_pending t m

pub times_settled-append :
    (t : ℕ) (xs ys : List Settled)
    → times_settled t (xs ++ ys) ≡ times_settled t xs + times_settled t ys
times_settled-append t [] ys = omega arith
times_settled-append t (x ∷ xs) ys = omega (arith, times_settled-append t xs ys)

pub times_pending-set :
    (t : ℕ) (id : String) (k : ℕ) (m : Dict String ℕ)
    → has id m ≡ false
    → times_pending t (set id k m) ≡ times_pending t m + same t k
unfolding get set
times_pending-set t id k [] h = omega arith
times_pending-set t id k ((j, v) ∷ m) h = ground (arith, h, times_pending-set t id k m)

times_pending-delete_none :
    (t : ℕ) (id : String) (m : Dict String ℕ)
    → has id m ≡ false
    → times_pending t (delete id m) ≡ times_pending t m
unfolding get delete
times_pending-delete_none t id [] h = refl
times_pending-delete_none t id ((j, v) ∷ m) h = ground (arith, h, times_pending-delete_none t id m)

pub times_pending-delete :
    (t : ℕ) (id : String) (k : ℕ) (m : Dict String ℕ)
    → IsDistinct m
    → get id m ≡ some k
    → same t k + times_pending t (delete id m) ≡ times_pending t m
unfolding get delete
times_pending-delete t id k [] d h = absurd (ground arith)
times_pending-delete t id k ((j, v) ∷ m) d h = elim (Bool-cases (j == id)) [
  | inl here ↦
      let name : j ≡ id = (eq_iff j id).0 here in
      rw here (
        ground (
          arith,
          h,
          here,
          times_pending-delete_none t id m (subst (λ i. has i m ≡ false) name d.0),
        ))
  | inr there ↦ rw there (ground (arith, h, there, times_pending-delete t id k m d.1))
]

-- Each timer that is set belongs to the pending request of its id.
abbrev pub IsArmed : Dict String ℕ → Timer → Type 0
IsArmed m timer = get timer.id m ≡ some timer.ticket

pub record IsCoherent (d : Daemon) : Type 0 where
  pub once : IsDistinct d.pending
  pub armed : All (IsArmed d.pending) d.timers

pub All-weaken :
    (P Q : Timer → Type 0) (ts : List Timer) → ((t : Timer) → P t → Q t) → All P ts → All Q ts
All-weaken P Q [] f h = tt
All-weaken P Q (t ∷ ts) f h = (f t h.0, All-weaken P Q ts f h.1)

IsArmed-delete :
    (id : String) (k : ℕ) (m : Dict String ℕ) (timer : Timer)
    → get id m ≡ some k
    → (timer.ticket == k) ≡ false
    → IsArmed m timer
    → IsArmed (delete id m) timer
IsArmed-delete id k m timer h other armed = elim (Bool-cases (id == timer.id)) [
  | inl e ↦
      let both : some k ≡ some timer.ticket =
        sym h ∙ ap (λ i. get i m) ((eq_iff id timer.id).0 e) ∙ armed in
      absurd (ground (arith, both, other))
  | inr e ↦ get-delete_ne id timer.id m e ∙ armed
]

IsArmed-clear :
    (id : String) (k : ℕ) (m : Dict String ℕ) (timers : List Timer)
    → get id m ≡ some k
    → All (IsArmed m) timers
    → All (IsArmed (delete id m)) (clear_timeout k timers)
IsArmed-clear id k m [] h armed = tt
IsArmed-clear id k m (timer ∷ timers) h armed = elim (Bool-cases (timer.ticket == k)) [
  | inl gone ↦ rw gone (IsArmed-clear id k m timers h armed.1)
  | inr kept ↦
      rw kept (IsArmed-delete id k m timer h kept armed.0, IsArmed-clear id k m timers h armed.1)
]

-- What an operation settles is what is no longer pending.
abbrev pub Accounts : Daemon → List Settled × Daemon → Type 0
Accounts d (settled, after) =
    IsCoherent after
    × ((t : ℕ)
        → times_settled t settled + times_pending t after.pending ≡ times_pending t d.pending)

pub nothing_settled : (d : Daemon) → IsCoherent d → Accounts d ([], d)
nothing_settled d h = (h, λ t. omega arith)

-- Deleting the request of an id, with its timer.
pub gone :
    (d : Daemon) (id : String) (k : ℕ) (s : Settled)
    → ticket_of s ≡ k
    → IsCoherent d
    → get id d.pending ≡ some k
    → Accounts d
        (s ∷ [], record d { pending = delete id d.pending; timers = clear_timeout k d.timers })
gone d id k s name h found = (
  record {
    once = delete-IsDistinct id d.pending h.once;
    armed = IsArmed-clear id k d.pending d.timers found h.armed;
  },
  λ t. rw name (omega (arith, times_pending-delete t id k d.pending h.once found)),
)

dispatch_response-Accounts :
    (msg : Response) (d : Daemon) → IsCoherent d → Accounts d (dispatch_response msg d)
unfolding dispatch_response settle
dispatch_response-Accounts msg d h = go msg.id
  where
    settles : (id : String) (o : Option ℕ) → get id d.pending ≡ o → Accounts d (settle id o msg d)
    settles id none e = nothing_settled d h
    settles id (some k) e = gone d id k (resolved k msg) refl h e

    go :
        (o : Option String)
        → Accounts d (elim o [
          | none ↦ ([], d)
          | some id ↦ if id == "" then ([], d) else settle id (get id d.pending) msg d
        ])
    go none = nothing_settled d h
    go (some id) = elim (Bool-cases (id == "")) [
      | inl e ↦ rw e (nothing_settled d h)
      | inr e ↦ rw e (settles id (get id d.pending) refl)
    ]

on_line-Accounts :
    (js : Js) (line : String) (d : Daemon) → IsCoherent d → Accounts d (on_line js line d)
unfolding on_line
on_line-Accounts js line d h = elim (Bool-cases (js.trim line == "")) [
  | inl e ↦ rw e (nothing_settled d h)
  | inr e ↦ rw e (go (js.parse_json (js.trim line)))
]
  where
    go :
        (o : Option Response)
        → Accounts d (elim o [ none ↦ ([], d) | some msg ↦ dispatch_response msg d ])
    go none = nothing_settled d h
    go (some msg) = dispatch_response-Accounts msg d h

Accounts-then :
    (d : Daemon) (p : List Settled × Daemon) (q : List Settled × Daemon)
    → Accounts d p
    → Accounts p.1 q
    → Accounts d (p.0 ++ q.0, q.1)
Accounts-then d p q first second =
    (second.0, λ t. omega (arith, times_settled-append t p.0 q.0, first.1 t, second.1 t))

on_lines-Accounts :
    (js : Js) (lines : List String) (d : Daemon) → IsCoherent d → Accounts d (on_lines js lines d)
unfolding on_lines
on_lines-Accounts js [] d h = nothing_settled d h
on_lines-Accounts js (line ∷ lines) d h =
    let first = on_line-Accounts js line d h in
    Accounts-then d (on_line js line d) (on_lines js lines (on_line js line d).1) first
      (on_lines-Accounts js lines (on_line js line d).1 first.0)

pub on_data-Accounts :
    (js : Js) (chunk : String) (d : Daemon) → IsCoherent d → Accounts d (on_data js chunk d)
unfolding on_data
on_data-Accounts js chunk d h =
    on_lines-Accounts js _ (record d { line_buffer = _ })
      (record { once = h.once; armed = h.armed })

delete_absent : (id : String) (m : Dict String ℕ) → has id m ≡ false → delete id m ≡ m
unfolding get delete
delete_absent id [] h = refl
delete_absent id ((j, v) ∷ m) h = ground (arith, h, delete_absent id m)

get_first : (id : String) (k : ℕ) (m : Dict String ℕ) → get id ((id, k) ∷ m) ≡ some k
unfolding get
get_first id k m = rw (==_refl id) refl

delete_first :
    (id : String) (k : ℕ) (m : Dict String ℕ)
    → IsDistinct ((id, k) ∷ m)
    → delete id ((id, k) ∷ m) ≡ m
unfolding delete
delete_first id k m d = rw (==_refl id) (delete_absent id m d.0)

pub reject_each-Accounts :
    (reason : Reason) (requests : Dict String ℕ) (d : Daemon)
    → d.pending ≡ requests
    → IsCoherent d
    → Accounts d (reject_each reason requests d) × ((reject_each reason requests d).1.pending ≡ [])
unfolding reject_each
reject_each-Accounts reason [] d e h = (nothing_settled d h, e)
reject_each-Accounts reason ((id, k) ∷ requests) d e h =
    let left : Daemon = record d {
      pending = delete id d.pending;
      timers = clear_timeout k d.timers;
    } in
    let first = gone d id k (rejected k reason) refl h (rw e (get_first id k requests)) in
    let shrunk : left.pending ≡ requests =
      rw e (delete_first id k requests (subst (λ m. IsDistinct m) e h.once)) in
    let rest = reject_each-Accounts reason requests left shrunk first.0 in
    (
      Accounts-then d (rejected k reason ∷ [], left) (reject_each reason requests left) first
          rest.0,
      rest.1,
    )
