-- ===== src/GrpcServer/Thread.antt =====
-- The steps of the backup's thread against `handle_backup` of medusa/backup_node.py.
use cassandra_medusa.Base.{
  ℕ, Bool, true, false, not, ◌&&◌, Option, none, some, List, [], ◌∷◌, ◌≡◌, inl, inr, refl,
  Bool-cases,
}
use cassandra_medusa.Base.{Exception, Result, ok, err, io_error}
use cassandra_medusa.Base.Text.{Text}
use cassandra_medusa.BackupManager.{
  Manager, status_in_progress, status_success, status_failed, update_backup_status,
}
use cassandra_medusa.Utils.{handle_exception}
use cassandra_medusa.Storage.Driver.{Driver}
use cassandra_medusa.Storage.NodeBackup.{NodeBackup, backup_exists}
use cassandra_medusa.BackupNode.Run.{
  Host, set_after, fail_with, on_failure, after_start, when_in_progress, try_backup, handle_backup,
}
use cassandra_medusa.GrpcServer.Worker.{
  queued, running, stored, failing, ended, Work, System, Action, work, advance, moved, advance_from,
  run_schedule, left_by,
}

abbrev pub four_steps : List Action
four_steps = work ∷ work ∷ work ∷ work ∷ []

abbrev pub error_of : {A : Type 0} → Result A → Option Exception
error_of (ok a) = none
error_of (err e) = some e

module _ (cancel_raises : ℕ → Bool) (D : Driver) (grpc : Text) (A : Type 0) where
  -- The same registry at the end, and a result on both sides or the same exception.
  abbrev pub Agrees : Result A × Host D.State → System → Type 0
  Agrees out y = (out.1.manager ≡ y.manager) × (y.phase ≡ ended (error_of out.0))

  fail_with-Agrees :
      (e : Exception) (u : Result (Unit {0}) × Manager) (h : Host D.State) (fin : Option ℕ)
      → Agrees
          (fail_with D grpc (err e) u h)
          (record { manager = u.1; phase = ended (some (left_by u.0 e)); finished = fin })
  fail_with-Agrees e (ok v, m) h fin = (refl, refl)
  fail_with-Agrees e (err e', m) h fin = (refl, refl)

  abbrev work_of : Bool → Option Exception → ℕ → Work
  work_of exists_already failure end_time = record {
    exists_already = exists_already;
    failure = failure;
    end_time = end_time;
    grpc_enabled = grpc;
  }

  failing-Agrees :
      (name : Text) (b : Bool) (o : Option Exception) (end_time : ℕ) (e : Exception)
      (h : Host D.State) (fin : Option ℕ)
      → Agrees (on_failure D grpc name (err e, h)) (
          advance name
            (work_of b o end_time)
            (record { manager = h.manager; phase = failing e; finished = fin }))
  unfolding on_failure advance_from
  failing-Agrees name b o end_time e h fin =
      fail_with-Agrees (handle_exception e grpc) (update_backup_status name status_failed h.manager)
        h fin

  stored-Agrees :
      (name : Text) (b : Bool) (end_time : ℕ) (a : A) (u : Result (Unit {0}) × Manager)
      (s : D.State) (marker : Bool) (fin : Option ℕ) (m : Manager)
      → Agrees (on_failure D grpc name (set_after D grpc (ok a) u s marker)) (
          advance name
            (work_of b none end_time)
            (moved (record { manager = m; phase = stored; finished = fin }) (ended none) u))
  unfolding on_failure advance_from
  stored-Agrees name b end_time a (ok v, m') s marker fin m = (refl, refl)
  stored-Agrees name b end_time a (err e, m') s marker fin m =
      failing-Agrees name b none end_time e (record { store = s; manager = m'; marker = marker })
        fin

  running-Agrees :
      (name : Text) (end_time : ℕ) (b : Bool) (out : Result A × D.State) (m : Manager)
      (marker : Bool) (fin : Option ℕ)
      → Agrees (on_failure D grpc name (after_start D grpc name out m marker)) (
          run_schedule cancel_raises name
            (work_of b (error_of out.0) end_time)
            (work ∷ work ∷ work ∷ [])
            (record { manager = m; phase = running; finished = fin }))
  unfolding after_start run_schedule advance_from
  running-Agrees name end_time b (ok a, s) m marker fin =
      stored-Agrees name b end_time a (update_backup_status name status_success m) s marker
        (some end_time) m
  running-Agrees name end_time b (err e, s) m marker fin =
      failing-Agrees name b (some e) end_time e (record { store = s; manager = m; marker = marker })
        fin

  begun-Agrees :
      (name : Text) (end_time : ℕ) (start : D.State → Result A × D.State)
      (u : Result (Unit {0}) × Manager) (s : D.State) (marker : Bool) (fin : Option ℕ) (m : Manager)
      → Agrees (on_failure D grpc name (when_in_progress D grpc name start s marker u)) (
          run_schedule cancel_raises name
            (work_of false (error_of (start s).0) end_time)
            (work ∷ work ∷ work ∷ [])
            (moved (record { manager = m; phase = queued; finished = fin }) running u))
  unfolding when_in_progress run_schedule advance_from
  begun-Agrees name end_time start (ok v, m') s marker fin m =
      running-Agrees name end_time false (start s) m' marker fin
  begun-Agrees name end_time start (err e, m') s marker fin m =
      failing-Agrees name false (error_of (start s).0) end_time e
        (record { store = s; manager = m'; marker = marker }) fin

  -- Four steps of the backup's thread, with no call of another thread between them, leave the
  -- registry as `handle_backup` does, and end with a result where it returns one, and else with
  -- the exception that it raises. What the backup meets is read off the store: whether the backup
  -- exists and no existing snapshot is to be used, and what `start_backup` raises.
  pub handle_backup-steps :
      (name : Text) (nb : NodeBackup) (use_existing : Bool) (start : D.State → Result A × D.State)
      (h : Host D.State) (end_time : ℕ) (fin : Option ℕ)
      → Agrees (handle_backup D grpc name nb use_existing start h) (
          run_schedule cancel_raises name
            (record {
              exists_already = backup_exists D nb h.store && not use_existing;
              failure = error_of (start h.store).0;
              end_time = end_time;
              grpc_enabled = grpc;
            })
            four_steps
            (record { manager = h.manager; phase = queued; finished = fin }))
  unfolding handle_backup try_backup run_schedule advance_from
  handle_backup-steps name nb use_existing start h end_time fin =
      elim (Bool-cases (backup_exists D nb h.store && not use_existing)) [
        | inl e ↦ rw e (
            failing-Agrees name true (error_of (start h.store).0) end_time io_error
              (record h { marker = true }) fin)
        | inr e ↦ rw e (
            begun-Agrees name end_time start
              (update_backup_status name status_in_progress h.manager) h.store true fin h.manager)
      ]
