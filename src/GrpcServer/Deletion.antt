-- ===== src/GrpcServer/Deletion.antt =====
-- The removal calls of medusa/service/grpc/server.py: DeleteBackup, PurgeBackups, and the shutdown.
use cassandra_medusa.Base.{ℕ, Bool, true, false, Option, none, some, if◌then◌else◌}
use cassandra_medusa.Base.{Result, ok, err, value_error, ◌>>=◌}
use cassandra_medusa.Base.{is_caught}
use cassandra_medusa.Base.Text.{Text}
use cassandra_medusa.BackupManager.{
  Status, status_in_progress, Manager, is_active, get_backup_status, remove_backup,
  remove_all_backups,
}
use cassandra_medusa.GrpcServer.{StatusType, in_progress, failed, unknown, internal, Reply}

abbrev pub is_in_progress : Status → Bool
is_in_progress status_in_progress = true
is_in_progress _ = false

module _ (cancel_raises : ℕ → Bool) where
  -- `handle_backup_removal` and `handle_backup_removal_all` log a failure and go on.
  unfoldable pub handle_backup_removal : Text → Manager → Manager
  unfolding remove_backup
  handle_backup_removal name m = (remove_backup cancel_raises name m).1

  unfoldable pub handle_backup_removal_all : Manager → Manager
  unfolding remove_all_backups
  handle_backup_removal_all m = (remove_all_backups cancel_raises m).1

  module _ {S : Type 0} where
    -- The `try` of DeleteBackup. A response that the code leaves alone has the first status.
    abbrev pub after_delete :
        Text → Result (Unit {0}) × S → Manager → Result (Reply StatusType) × S × Manager
    unfolding handle_backup_removal is_caught
    after_delete name (ok u, s) m =
        (ok (record { response = unknown; code = none }), s, handle_backup_removal name m)
    after_delete name (err e, s) m = (
      (if is_caught e then ok (record { response = in_progress; code = some internal }) else err e),
      s,
      m,
    )

    abbrev pub delete_unless_running :
        Text
        → (S → Result (Unit {0}) × S)
        → S
        → Manager
        → Result Status
        → Result (Reply StatusType) × S × Manager
    unfolding after_delete
    delete_unless_running name delete s m (err e) = (err e, s, m)
    delete_unless_running name delete s m (ok status) =
        if is_in_progress status
        then (ok (record { response = failed; code = none }), s, m)
        else after_delete name (delete s) m

    -- DeleteBackup; `delete` is the call of `purge.delete_backup` on the store.
    unfoldable pub delete_backup :
        Text → (S → Result (Unit {0}) × S) → S → Manager → Result (Reply StatusType) × S × Manager
    unfolding delete_unless_running is_active get_backup_status
    delete_backup name delete s m =
        if is_active m
        then delete_unless_running name delete s m (get_backup_status name m)
        else (ok (record { response = failed; code = none }), s, m)

-- The numbers that `purge.main` returns, and the response of PurgeBackups.
pub record Purged : Type 0 where
  pub nb_objects_purged : ℕ
  pub total_purged_size : ℕ
  pub total_objects_within_gc_grace : ℕ
  pub nb_backups_purged : ℕ

abbrev pub no_purged : Purged
no_purged = record {
  nb_objects_purged = 0;
  total_purged_size = 0;
  total_objects_within_gc_grace = 0;
  nb_backups_purged = 0;
}

-- `int(...)` of an option of the configuration, `none` where it is no number.
abbrev pub int_option : Option ℕ → Result ℕ
int_option none = err value_error
int_option (some n) = ok n

abbrev pub purge_reply : Result Purged → Result (Reply Purged)
unfolding is_caught
purge_reply (ok p) = ok (record { response = p; code = none })
purge_reply (err e) =
    if is_caught e then ok (record { response = no_purged; code = some internal }) else err e

abbrev purge_with :
    {S : Type 0} → (ℕ → ℕ → S → Result Purged × S) → Result (ℕ × ℕ) → S → Result (Reply Purged) × S
unfolding purge_reply
purge_with purge (err e) s = (purge_reply (err e), s)
purge_with purge (ok (age, count)) s = let (r, s') = purge age count s in (purge_reply r, s')

-- PurgeBackups; `purge` is the call of `purge.main`.
unfoldable pub purge_backups :
    {S : Type 0}
    → Option ℕ
    → Option ℕ
    → (ℕ → ℕ → S → Result Purged × S)
    → S
    → Result (Reply Purged) × S
unfolding purge_with
purge_backups max_backup_age max_backup_count purge s =
    purge_with purge
      (do age ← int_option max_backup_age; count ← int_option max_backup_count; ok (age, count)) s
