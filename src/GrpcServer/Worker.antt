-- ===== src/GrpcServer/Worker.antt =====
-- The thread of an asynchronous backup (`handle_backup` of medusa/backup_node.py under
-- `run_in_executor`) beside the calls of other threads: each action of a schedule is one step of
-- the backup or one call on the registry.
use cassandra_medusa.Base.{ℕ, Bool, Option, none, some, List, [], ◌∷◌, ◌==◌, if◌then◌else◌}
use cassandra_medusa.Base.{Exception, Result, ok, err, io_error}
use cassandra_medusa.Base.Text.{Text}
use cassandra_medusa.BackupManager.{
  Manager, status_in_progress, status_success, status_failed, update_backup_status,
}
use cassandra_medusa.Utils.{handle_exception}
use cassandra_medusa.BackupManager.Refinement.{Call, call}
use cassandra_medusa.GrpcServer.Query.{FutureState, pending, returned, raised}

-- Where the backup stands: not begun, in progress, its data and manifest stored, failing with an
-- exception, and ended with a result or with the exception that leaves the thread.
pub data Phase : Type 0 where
  queued running stored : Phase
  failing : Exception → Phase
  ended : Option Exception → Phase

-- What the backup meets: whether it is there already, the exception of `start_backup` if it raises
-- one, the time at which the manifest is stored, and the option `grpc.enabled`.
pub record Work : Type 0 where
  pub exists_already : Bool
  pub failure : Option Exception
  pub end_time : ℕ
  pub grpc_enabled : Text

pub record System : Type 0 where
  pub manager : Manager
  pub phase : Phase
  pub finished : Option ℕ

abbrev pub moved : System → Phase → Result (Unit {0}) × Manager → System
moved y next (err e, m) = record y { manager = m; phase = failing e }
moved y next (ok u, m) = record y { manager = m; phase = next }

-- The exception that leaves the thread: that of the registry, or that of `handle_exception`.
abbrev pub left_by : Result (Unit {0}) → Exception → Exception
left_by (err e) handled = e
left_by (ok u) handled = handled

-- One step of the backup's thread.
unfoldable pub advance_from : Text → Work → System → Phase → System
unfolding update_backup_status handle_exception
advance_from name w y queued =
    if w.exists_already
    then record y { phase = failing io_error }
    else moved y running (update_backup_status name status_in_progress y.manager)
advance_from name w y running = elim w.failure [
  | none ↦ record y { phase = stored; finished = some w.end_time }
  | some e ↦ record y { phase = failing e }
]
advance_from name w y stored =
    moved y (ended none) (update_backup_status name status_success y.manager)
advance_from name w y (failing e) =
    let u = update_backup_status name status_failed y.manager in
    record y {
      manager = u.1;
      phase = ended (some (left_by u.0 (handle_exception e w.grpc_enabled)));
    }
advance_from name w y (ended o) = y

abbrev pub advance : Text → Work → System → System
unfolding advance_from
advance name w y = advance_from name w y y.phase

pub data Action : Type 0 where
  work : Action
  request : Call → Action

module _ (cancel_raises : ℕ → Bool) (name : Text) (w : Work) where
  abbrev pub act : Action → System → System
  unfolding advance
  act work y = advance name w y
  act (request c) y = record y { manager = call cancel_raises c y.manager }

  unfoldable pub run_schedule : List Action → System → System
  unfolding act
  run_schedule [] y = y
  run_schedule (a ∷ rest) y = run_schedule rest (act a y)

-- What the future of the backup's thread answers, as long as nobody cancels it, and the other
-- futures. The registry cancels a future only as it drops the entry that holds it.
abbrev pub phase_future : Phase → FutureState
phase_future (ended none) = returned
phase_future (ended (some e)) = raised e
phase_future _ = pending

abbrev pub futures : ℕ → (ℕ → FutureState) → Phase → ℕ → FutureState
futures f others phase g = if g == f then phase_future phase else others g
