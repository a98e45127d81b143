-- ===== src/GrpcServer/Query.antt =====
-- The status calls of medusa/service/grpc/server.py.
use cassandra_medusa.Base.{ℕ, zero, suc, Bool, false, Option, none, some, [], truthy, if◌then◌else◌}
use cassandra_medusa.Base.{Exception, Result, ok, err, key_error, is_caught, ◌>>=◌}
use cassandra_medusa.Base.Text.{Text}
use cassandra_medusa.BackupManager.{
  Status, status_unknown, status_in_progress, status_success, status_failed, Manager,
  get_backup_future, register_backup, update_backup_status,
}
use cassandra_medusa.Storage.Driver.{Driver}
use cassandra_medusa.Storage.NodeBackup
use cassandra_medusa.Storage.NodeBackup.{NodeBackup}
use cassandra_medusa.GrpcServer.{
  StatusType, in_progress, unknown, not_found, Reply, BackupStatusResponse,
  record_status_in_response,
}

-- A future of `run_in_executor`: not done, or done with a result or an exception, CancelledError
-- among them.
pub data FutureState : Type 0 where
  pending returned : FutureState
  raised : Exception → FutureState

abbrev pub by_finish : Option ℕ → Status
by_finish finished = if truthy finished then status_success else status_failed

-- `future_state f` is what the future `f` answers now. An exception that `except Exception` does
-- not catch goes on.
unfoldable pub determine_backup_status : (ℕ → FutureState) → Option ℕ → Option ℕ → Result Status
unfolding is_caught
determine_backup_status future_state finished none = ok (by_finish finished)
determine_backup_status future_state finished (some f) = elim (future_state f) [
  | pending ↦ ok status_in_progress
  | returned ↦ ok (by_finish finished)
  | raised e ↦ if is_caught e then ok status_failed else err e
]

-- The correction of a status UNKNOWN by the times of the backup.
unfoldable pub known_status : Option ℕ → Option ℕ → Status → Status
known_status started finished status_unknown =
    if truthy finished
    then status_success
    else if truthy started
    then status_in_progress
    else status_unknown
known_status started finished status = status

abbrev pub finish_text : (ℕ → Text) → Option ℕ → Text
finish_text show none = []
finish_text show (some zero) = []
finish_text show (some (suc t)) = show (suc t)

module _ (cancel_raises : ℕ → Bool) where
  -- `_get_backup_status`, the `started` and `finished` of the backup given.
  abbrev pub status_with :
      (ℕ → FutureState) → Option ℕ → Option ℕ → Result (Option ℕ) → Result Status
  unfolding determine_backup_status known_status
  status_with future_state started finished (err e) = err e
  status_with future_state started finished (ok future) =
      determine_backup_status future_state finished future >>= λ st.
      ok (known_status started finished st)

  abbrev pub with_registered :
      Text
      → (ℕ → FutureState)
      → Option ℕ
      → Option ℕ
      → Result (Unit {0}) × Manager
      → Result Status × Manager
  unfolding status_with get_backup_future
  with_registered name future_state started finished (err e, m) = (err e, m)
  with_registered name future_state started finished (ok u, m) =
      (status_with future_state started finished (get_backup_future name m), m)

  unfoldable pub current_status :
      Text → (ℕ → FutureState) → Option ℕ → Option ℕ → Manager → Result Status × Manager
  unfolding with_registered register_backup
  current_status name future_state started finished m =
      with_registered name future_state started finished
        (register_backup cancel_raises name false false m)

  -- BackupStatus; `show` is the format of a time, `started` and `finished` what the node backup
  -- of this host answers. Only a KeyError is caught.
  abbrev not_found_reply :
      Text → Text → Manager → Exception → Result (Reply BackupStatusResponse) × Manager
  not_found_reply start finish m key_error = (
    ok (record {
      response = record { status = unknown; start_time = start; finish_time = finish };
      code = some not_found;
    }),
    m,
  )
  not_found_reply start finish m e = (err e, m)

  abbrev pub status_reply :
      Text → Text → Result StatusType → Manager → Result (Reply BackupStatusResponse) × Manager
  status_reply start finish (err e) m = not_found_reply start finish m e
  status_reply start finish (ok status) m = (
    ok (record {
      response = record { status = status; start_time = start; finish_time = finish };
      code = none;
    }),
    m,
  )

  abbrev pub after_update :
      Text
      → Text
      → Text
      → Result (Unit {0}) × Manager
      → Result (Reply BackupStatusResponse) × Manager
  unfolding record_status_in_response
  after_update name start finish (err e, m) = not_found_reply start finish m e
  after_update name start finish (ok u, m) =
      status_reply start finish (record_status_in_response in_progress name m) m

  abbrev pub after_status :
      Text → Text → Text → Result Status × Manager → Result (Reply BackupStatusResponse) × Manager
  unfolding after_update update_backup_status
  after_status name start finish (err e, m) = not_found_reply start finish m e
  after_status name start finish (ok status, m) =
      after_update name start finish (update_backup_status name status m)

  unfoldable pub status_of_times :
      (ℕ → Text)
      → (ℕ → FutureState)
      → Text
      → Option ℕ
      → Option ℕ
      → Manager
      → Result (Reply BackupStatusResponse) × Manager
  unfolding after_status current_status
  status_of_times show future_state name none finished m = not_found_reply [] [] m key_error
  status_of_times show future_state name (some t) finished m =
      after_status name (show t) (finish_text show finished)
        (current_status name future_state (some t) finished m)

  unfoldable pub backup_status :
      (D : Driver)
      → (ℕ → Text)
      → (ℕ → FutureState)
      → NodeBackup
      → D.State
      → Manager
      → Result (Reply BackupStatusResponse) × Manager
  unfolding status_of_times NodeBackup.started NodeBackup.finished
  backup_status D show future_state nb s m =
      status_of_times show future_state nb.name (NodeBackup.started D nb s)
        (NodeBackup.finished D nb s) m
