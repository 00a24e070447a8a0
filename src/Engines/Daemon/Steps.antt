-- ===== src/Engines/Daemon/Steps.antt =====
-- What the end of the process, the timers and a new request do to the pending requests.
use safari_pilot.Prelude.{
  refl, List, String, ℕ, ◌≡◌, [], true, arith, some, false, Bool-cases, ◌+◌, inl, not, ◌==◌, ◌||◌,
  ap, inr, eq_iff, ◌∙◌, string_eq, Bool, if◌then◌else◌,
}
use safari_pilot.Prelude.Dict.{
  Dict, get, set, delete, has, IsDistinct, get-set_ne, get-delete_ne, get-set_self, set-IsDistinct,
  delete-IsDistinct,
}
use safari_pilot.Engines.Daemon.Settles.{
  Accounts, IsCoherent, gone, times_pending-set, reject_each-Accounts, nothing_settled,
  times_settled, times_pending, All-weaken, IsArmed, times_pending-delete, same,
}
use safari_pilot.Engines.Daemon.{
  Timer, fire, on_error, on_exit, reject_all_pending, send_as, shutdown, Reason, Daemon, Settled,
  failed, rejected, shutting_down, timed_out, exited,
}

reject_all_pending-Accounts :
    (reason : Reason) (d : Daemon)
    → IsCoherent d
    → Accounts d (reject_all_pending reason d) × ((reject_all_pending reason d).1.pending ≡ [])
unfolding reject_all_pending
reject_all_pending-Accounts reason d h = reject_each-Accounts reason d.pending d refl h

pub on_exit-Accounts : (d : Daemon) → IsCoherent d → Accounts d (on_exit d)
unfolding on_exit
on_exit-Accounts d h = go d.is_shutting_down
  where
    go :
        (b : Bool)
        → Accounts d (
            if b then ([], d) else (
              (reject_all_pending exited d).0,
              record (reject_all_pending exited d).1 {
                has_proc = false;
                reconnect_attempted = true;
              },
            ))
    go true = nothing_settled d h
    go false =
        let (coherent, counts) = (reject_all_pending-Accounts exited d h).0 in
        (record { once = coherent.once; armed = coherent.armed }, counts)

pub on_error-Accounts :
    (message : String) (d : Daemon) → IsCoherent d → Accounts d (on_error message d)
unfolding on_error
on_error-Accounts message d h =
    let (coherent, counts) = (reject_all_pending-Accounts (failed message) d h).0 in
    (record { once = coherent.once; armed = coherent.armed }, counts)

pub shutdown-Accounts : (d : Daemon) → IsCoherent d → Accounts d (shutdown d)
unfolding shutdown
shutdown-Accounts d h =
    let stopping : Daemon = record d { is_shutting_down = true } in
    let (coherent, counts) =
      (reject_all_pending-Accounts shutting_down stopping
        (record { once = h.once; armed = h.armed })).0 in
    (record { once = coherent.once; armed = coherent.armed }, counts)

pub fire-Accounts :
    (timer : Timer) (d : Daemon)
    → IsCoherent d
    → get timer.id d.pending ≡ some timer.ticket
    → Accounts d (fire timer d)
unfolding fire
fire-Accounts timer d h found =
    gone d timer.id timer.ticket (rejected timer.ticket timed_out) refl h found

armed-other :
    (id : String) (m : Dict String ℕ) (timer : Timer)
    → has id m ≡ false
    → IsArmed m timer
    → (id == timer.id) ≡ false
armed-other id m timer absent armed = elim (Bool-cases (id == timer.id)) [
  | inl e ↦ absurd (ground (arith, ap (λ i. get i m) ((eq_iff id timer.id).0 e), absent, armed))
  | inr e ↦ e
]

-- A request is settled at once or pending.
abbrev Opens : ℕ → Daemon → List Settled × Daemon → Type 0
Opens ticket d (settled, after) =
    IsCoherent after
    × ((t : ℕ)
        → times_settled t settled + times_pending t after.pending
          ≡ same t ticket + times_pending t d.pending)

pub send_as-Opens :
    (id : String) (ticket : ℕ) (d : Daemon)
    → IsCoherent d
    → has id d.pending ≡ false
    → Opens ticket d (send_as id ticket d)
unfolding send_as
send_as-Opens id ticket d h absent = elim (Bool-cases (not d.has_proc || not d.is_writable)) [
  | inl closed ↦ rw closed (
    record {
      once = delete-IsDistinct id (set id ticket d.pending) distinct;
      armed =
          All-weaken (IsArmed d.pending) (IsArmed (delete id (set id ticket d.pending))) d.timers
            (λ timer armed.
              let other = armed-other id d.pending timer absent armed in
              get-delete_ne id timer.id (set id ticket d.pending) other
              ∙ get-set_ne id timer.id ticket d.pending other
              ∙ armed)
            h.armed;
    },
    λ t. omega (
      arith,
      times_pending-set t id ticket d.pending absent,
      times_pending-delete t id ticket (set id ticket d.pending) distinct
          (get-set_self id ticket d.pending),
    ),
  )
  | inr alive ↦ rw alive (
    record {
      once = distinct;
      armed = (
        get-set_self id ticket d.pending,
        All-weaken (IsArmed d.pending) (IsArmed (set id ticket d.pending)) d.timers
            (λ timer armed.
              get-set_ne id timer.id ticket d.pending (armed-other id d.pending timer absent armed)
              ∙ armed)
            h.armed,
      );
    },
    λ t. omega (arith, times_pending-set t id ticket d.pending absent),
  )
]
  where
    distinct : IsDistinct (set id ticket d.pending)
    distinct = set-IsDistinct id ticket d.pending h.once
