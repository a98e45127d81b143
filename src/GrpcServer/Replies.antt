-- ===== src/GrpcServer/Replies.antt =====
-- The replies of `Backup` and of a failing `AsyncBackup` of medusa/service/grpc/server.py.
use cassandra_medusa.Base.{
  ℕ, Bool, true, false, not, ◌&&◌, none, some, [], ◌∷◌, ◌≡◌, inl, inr, refl, arith, Option-cases,
  Bool-cases, if◌then◌else◌,
}
use cassandra_medusa.Base.{Exception, Result, ok, err, io_error}
use cassandra_medusa.Base.{is_caught}
use cassandra_medusa.Base.Text.{Text}
use cassandra_medusa.Base.Dict.{lookup}
use cassandra_medusa.BackupManager.{
  Status, Manager, status_failed, status_success, get_backup_status,
}
use cassandra_medusa.Utils.{handle_exception}
use cassandra_medusa.Storage.Driver.{Driver}
use cassandra_medusa.Storage.NodeBackup.{NodeBackup, backup_exists}
use cassandra_medusa.BackupNode.Run.{Host, handle_backup}
use cassandra_medusa.BackupNode.Run.Outcome.{
  IsRegistered, IsOutcome, update-IsRegistered, handle_backup-IsOutcome,
}
use cassandra_medusa.GrpcServer.{
  BackupResponse, Reply, success, failed, internal, reply_of, async_backup, backup, after_work,
  on_exception, failed_reply, record_status_in_response,
}
use cassandra_medusa.GrpcServer.Running.{register-IsRegistered}

status-IsRegistered :
    (c : ℕ) (name : Text) (m : Manager) (st : Status)
    → get_backup_status (c ∷ name) m ≡ ok st
    → IsRegistered (c ∷ name) m
unfolding get_backup_status
status-IsRegistered c name none st h = ground arith
status-IsRegistered c name (some d) st h = ground (arith, Option-cases (lookup (c ∷ name) d))

-- What an exception of the body becomes: a reply FAILED with the code INTERNAL and the status
-- FAILED, or the exit of the process.
abbrev pub IsFailure : Text → Exception → Result (Reply BackupResponse) × Manager → Type 0
IsFailure name e (r, m) =
    if is_caught e
    then (r ≡ ok (reply_of name failed (some internal)))
      × (get_backup_status name m ≡ ok status_failed)
    else r ≡ err e

on_exception-IsFailure :
    (c : ℕ) (name : Text) (e : Exception) (m : Manager)
    → IsRegistered (c ∷ name) m
    → IsFailure (c ∷ name) e (on_exception (c ∷ name) e m)
unfolding on_exception failed_reply
on_exception-IsFailure c name e m reg =
    let (m', u, reg', g) = update-IsRegistered (c ∷ name) status_failed m reg in
    elim (Bool-cases (is_caught e)) [ inl b ↦ rw (b, u) (refl, g) | inr b ↦ rw b refl ]

-- An empty name gives the reply FAILED with the code INTERNAL, and the registry stays. For any
-- other name, where the thread cannot be started and no other thread has made a call in between,
-- an exception that `except Exception` catches gives that reply and the status FAILED.
pub async_backup-fails :
    (cancel_raises : ℕ → Bool) (c : ℕ) (name : Text) (e : Exception) (m : Manager)
    → ((spawned : Result ℕ)
        → async_backup cancel_raises [] spawned [] m ≡ (ok (reply_of [] failed (some internal)), m))
      × IsFailure (c ∷ name) e (async_backup cancel_raises (c ∷ name) (err e) [] m)
unfolding async_backup
async_backup-fails cancel_raises c name e m =
    let (m', r, reg) = register-IsRegistered cancel_raises c name true m in
    (λ _. refl, rw r (on_exception-IsFailure c name e m' reg))

-- What the call Backup makes of the result of the backup.
abbrev pub IsReplied :
    {S A : Type 0} → Text → Text → Result A → Result (Reply BackupResponse) × Host S → Type 0
IsReplied name grpc (ok a) (r, h) =
    (r ≡ ok (reply_of name success none)) × (get_backup_status name h.manager ≡ ok status_success)
IsReplied name grpc (err e) (r, h) = IsFailure name (handle_exception e grpc) (r, h.manager)

module _ (D : Driver) (grpc : Text) {A : Type 0} where
  after_work-IsReplied :
      (cancel_raises : ℕ → Bool) (c : ℕ) (name : Text) (r : Result A)
      (out : Result A × Host D.State)
      → IsOutcome D grpc (c ∷ name) r out
      → IsReplied (c ∷ name) grpc r (after_work cancel_raises (c ∷ name) out)
  unfolding after_work record_status_in_response
  after_work-IsReplied cancel_raises c name (ok a) (r, h) (e, g) = rw (e, g) (refl, g)
  after_work-IsReplied cancel_raises c name (err x) (r, h) (e, g) = rw e (
      on_exception-IsFailure c name (handle_exception x grpc) h.manager
        (status-IsRegistered c name h.manager status_failed g))

  -- Backup for a name that is not empty, on whatever registry: it replies SUCCESS without an error
  -- code, and leaves that status, where `start_backup` returns and the backup does not exist
  -- already or an existing snapshot is used. Else the exception goes through `handle_exception`,
  -- and gives the reply FAILED with the code INTERNAL and that status, or the exit.
  pub backup-IsReplied :
      (cancel_raises : ℕ → Bool) (c : ℕ) (name : Text) (nb : NodeBackup) (use_existing : Bool)
      (start : D.State → Result A × D.State) (h : Host D.State)
      → IsReplied
          (c ∷ name)
          grpc
          (if backup_exists D nb h.store && not use_existing
            then err io_error
            else (start h.store).0)
          (backup cancel_raises
            (c ∷ name)
            (handle_backup D grpc (c ∷ name) nb use_existing start)
            h)
  unfolding backup
  backup-IsReplied cancel_raises c name nb use_existing start h =
      let (m, e, reg) = register-IsRegistered cancel_raises c name false h.manager in
      rw e (
        after_work-IsReplied cancel_raises c name _ _
          (handle_backup-IsOutcome D grpc (c ∷ name) nb use_existing start
            (record h { manager = m }) reg).0)
