-- ===== src/GrpcServer.antt =====
-- medusa/service/grpc/server.py: the remote calls of the gRPC service on the registry of backups.
-- A call gives its reply, or the exception that leaves it, and the registry after it.
pub mod Query
pub mod Summary
pub mod Overall
pub mod Deletion
pub mod Answer
pub mod Worker
pub mod Running
pub mod Replies
pub mod Thread
pub mod Caught
pub mod Owned
pub mod Liveness
pub mod Preparation
use cassandra_medusa.Base.{
  ℕ, Bool, true, false, Option, none, some, List, [], ◌∷◌, truthy, is_some, if◌then◌else◌,
}
use cassandra_medusa.Base.{
  Exception, Result, ok, err, key_error, runtime_error, system_exit, is_caught, ◌>>=◌,
}
use cassandra_medusa.Base.Text.{Text}
use cassandra_medusa.BackupManager.{
  Status, status_unknown, status_in_progress, status_success, status_failed, Manager, is_active,
  get_backup_status, get_backup_future, set_backup_future, set_backup_result, register_backup,
  remove_backup, remove_all_backups, update_backup_status,
}
use cassandra_medusa.BackupManager.Refinement.{Call, calls}
use cassandra_medusa.BackupNode.Run.{Host}
use cassandra_medusa.Storage.Driver.{Driver}
use cassandra_medusa.Storage.NodeBackup
use cassandra_medusa.Storage.NodeBackup.{NodeBackup}

-- StatusType of medusa.proto; a new message has the first of them.
pub data StatusType : Type 0 where
  in_progress success failed unknown : StatusType

-- The codes that the service sets in the context of a call; `none` stands for OK.
pub data StatusCode : Type 0 where
  internal not_found : StatusCode

pub record Reply (R : Type 0) : Type 0 where
  pub response : R
  pub code : Option StatusCode

pub record BackupResponse : Type 0 where
  pub backup_name : Text
  pub status : StatusType

pub record BackupStatusResponse : Type 0 where
  pub status : StatusType
  pub start_time : Text
  pub finish_time : Text

-- `record_status_in_response`, given the status that the response has.
unfoldable pub status_type : Status → StatusType → StatusType
status_type status_in_progress before = in_progress
status_type status_failed before = failed
status_type status_success before = success
status_type status_unknown before = before

unfoldable pub record_status_in_response : StatusType → Text → Manager → Result StatusType
unfolding status_type
record_status_in_response before name m = do
  status ← get_backup_status name m
  ok (status_type status before)

abbrev pub reply_of : Text → StatusType → Option StatusCode → Reply BackupResponse
reply_of name status code = record {
  response = record { backup_name = name; status = status };
  code = code;
}

-- The `except` clause of both backup calls.
unfoldable pub failed_reply : Text → Manager → Result (Reply BackupResponse) × Manager
unfolding update_backup_status
failed_reply [] m = (ok (reply_of [] failed (some internal)), m)
failed_reply (c ∷ name) m =
    let (r, m') = update_backup_status (c ∷ name) status_failed m in
    ((r >>= λ _. ok (reply_of (c ∷ name) failed (some internal))), m')

unfoldable pub on_exception : Text → Exception → Manager → Result (Reply BackupResponse) × Manager
unfolding is_caught failed_reply
on_exception name e m = if is_caught e then failed_reply name m else (err e, m)

-- `record_backup_info`: the future's exception, or whether it has a result, and the name in it.
unfoldable pub record_backup_info : Result (Option Text) → Manager → Manager
unfolding set_backup_result
record_backup_info (err e) m = m
record_backup_info (ok none) m = m
record_backup_info (ok (some name)) m = (set_backup_result name true m).1

module _ (cancel_raises : ℕ → Bool) where
  -- AsyncBackup. `spawned` is what `run_in_executor` gives; `others` are the calls that other
  -- threads, the one of the backup among them, make before the future is set.
  abbrev after_future : Text → Result (Unit {0}) × Manager → Result (Reply BackupResponse) × Manager
  unfolding on_exception
  after_future name (err e, m) = on_exception name e m
  after_future name (ok u, m) = (ok (reply_of name in_progress none), m)

  abbrev after_spawn : Text → Result ℕ → Manager → Result (Reply BackupResponse) × Manager
  unfolding on_exception set_backup_future after_future
  after_spawn name (err e) m = on_exception name e m
  after_spawn name (ok f) m = after_future name (set_backup_future name (some f) m)

  abbrev after_register :
      Text
      → Result ℕ
      → List Call
      → Result (Unit {0}) × Manager
      → Result (Reply BackupResponse) × Manager
  unfolding on_exception after_spawn calls
  after_register name spawned others (err e, m) = on_exception name e m
  after_register name spawned others (ok u, m) =
      after_spawn name spawned (calls cancel_raises others m)

  unfoldable pub async_backup :
      Text → Result ℕ → List Call → Manager → Result (Reply BackupResponse) × Manager
  unfolding after_register register_backup
  async_backup name spawned others m =
      after_register name spawned others (register_backup cancel_raises name true true m)

  -- Backup: the work is `handle_backup` on the host.
  abbrev hosted :
      {S : Type 0}
      → Host S
      → Result (Reply BackupResponse) × Manager
      → Result (Reply BackupResponse) × Host S
  hosted h (r, m) = (r, record h { manager = m })

  abbrev recorded :
      {S : Type 0} → Text → Host S → Result StatusType → Result (Reply BackupResponse) × Host S
  unfolding on_exception
  recorded name h (err e) = hosted h (on_exception name e h.manager)
  recorded name h (ok status) = (ok (reply_of name status none), h)

  abbrev pub after_work :
      {S A : Type 0} → Text → Result A × Host S → Result (Reply BackupResponse) × Host S
  unfolding recorded record_status_in_response on_exception
  after_work name (err e, h) = hosted h (on_exception name e h.manager)
  after_work name (ok a, h) = recorded name h (record_status_in_response in_progress name h.manager)

  abbrev pub registered_then :
      {S A : Type 0}
      → Text
      → (Host S → Result A × Host S)
      → Host S
      → Result (Unit {0}) × Manager
      → Result (Reply BackupResponse) × Host S
  unfolding on_exception after_work
  registered_then name work h (err e, m) = hosted h (on_exception name e m)
  registered_then name work h (ok u, m) = after_work name (work (record h { manager = m }))

  unfoldable pub backup :
      {S A : Type 0}
      → Text
      → (Host S → Result A × Host S)
      → Host S
      → Result (Reply BackupResponse) × Host S
  unfolding registered_then register_backup
  backup name work h =
      registered_then name work h (register_backup cancel_raises name false true h.manager)
