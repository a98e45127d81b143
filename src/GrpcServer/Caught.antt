-- ===== src/GrpcServer/Caught.antt =====
-- Where the option `grpc.enabled` is on, the thread of a backup ends without the exit of the process.
use cassandra_medusa.Base.{
  ℕ, Bool, true, Option, none, some, List, [], ◌∷◌, ◌≡◌, inl, inr, refl, arith, subst, Bool-cases,
  Option-cases,
}
use cassandra_medusa.Base.{Exception, Result, ok, err}
use cassandra_medusa.Base.Dict.{lookup}
use cassandra_medusa.Utils.{evaluate_boolean, handle_exception}
use cassandra_medusa.Base.Text.{Text}
use cassandra_medusa.BackupManager.{
  Status, Manager, status_in_progress, status_success, status_failed, update_backup_status,
}
use cassandra_medusa.Base.{is_caught}
use cassandra_medusa.GrpcServer.Worker.{
  Phase, queued, running, stored, failing, ended, Work, System, advance_from, Action, work, request,
  act, run_schedule, advance, moved, left_by,
}

-- No exception that leaves the thread, nor one on its way, is the exit of the process.
abbrev pub AreCaught : Phase → Type 0
AreCaught (failing e) = is_caught e ≡ true
AreCaught (ended (some e)) = is_caught e ≡ true
AreCaught _ = Unit

abbrev pub IsCaught : Option Exception → Type 0
IsCaught none = Unit
IsCaught (some e) = is_caught e ≡ true

-- The registry raises nothing but RuntimeError.
update-IsCaught :
    (name : Text) (st : Status) (m : Manager) (e : Exception)
    → (update_backup_status name st m).0 ≡ err e
    → is_caught e ≡ true
unfolding update_backup_status is_caught
update-IsCaught [] st m e h = ground arith
update-IsCaught (c ∷ name) st none e h = ground arith
update-IsCaught (c ∷ name) st (some d) e h = elim (Option-cases (lookup (c ∷ name) d)) [
  | inl k ↦ ground arith
  | inr (x, k) ↦ ground arith
]

moved-AreCaught :
    (y : System) (next : Phase) (u : Result (Unit {0}) × Manager)
    → ((e : Exception) → u.0 ≡ err e → is_caught e ≡ true)
    → AreCaught next
    → AreCaught (moved y next u).phase
moved-AreCaught y next (ok v, m) h k = k
moved-AreCaught y next (err e, m) h k = h e refl

left_by-IsCaught :
    (u : Result (Unit {0})) (e : Exception)
    → ((x : Exception) → u ≡ err x → is_caught x ≡ true)
    → is_caught e ≡ true
    → is_caught (left_by u e) ≡ true
left_by-IsCaught (ok v) e h k = k
left_by-IsCaught (err x) e h k = h x refl

handle_exception-enabled :
    (e : Exception) (grpc : Text) → evaluate_boolean grpc ≡ ok true → handle_exception e grpc ≡ e
unfolding handle_exception
handle_exception-enabled e grpc h = rw (h, handle_exception) refl

module _ (name : Text) (w : Work) (enabled : evaluate_boolean w.grpc_enabled ≡ ok true)
    (no_exit : IsCaught w.failure) where
  advance-AreCaught :
      (y : System) (p : Phase)
      → y.phase ≡ p
      → AreCaught p
      → AreCaught (advance_from name w y p).phase
  unfolding advance_from is_caught
  advance-AreCaught y queued e h = elim (Bool-cases w.exists_already) [
    | inl b ↦ rw b refl
    | inr b ↦
        rw b (moved-AreCaught y running _ (update-IsCaught name status_in_progress y.manager) tt)
  ]
  advance-AreCaught y running e h = elim (Option-cases w.failure) [
    | inl b ↦ rw b tt
    | inr (x, b) ↦ rw b (subst IsCaught b no_exit)
  ]
  advance-AreCaught y stored e h =
      moved-AreCaught y (ended none) _ (update-IsCaught name status_success y.manager) tt
  advance-AreCaught y (failing x) e h =
      left_by-IsCaught (update_backup_status name status_failed y.manager).0
        (handle_exception x w.grpc_enabled) (update-IsCaught name status_failed y.manager)
        (rw (handle_exception-enabled x w.grpc_enabled enabled) h)
  advance-AreCaught y (ended o) e h = rw e h

  pub schedule-AreCaught :
      (cancel_raises : ℕ → Bool) (schedule : List Action) (y : System)
      → AreCaught y.phase
      → AreCaught (run_schedule cancel_raises name w schedule y).phase
  unfolding run_schedule
  schedule-AreCaught cancel_raises [] y h = h
  schedule-AreCaught cancel_raises (work ∷ rest) y h =
      schedule-AreCaught cancel_raises rest (advance name w y) (advance-AreCaught y y.phase refl h)
  schedule-AreCaught cancel_raises (request c ∷ rest) y h =
      schedule-AreCaught cancel_raises rest (act cancel_raises name w (request c) y) h
