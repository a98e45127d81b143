-- ===== src/BackupManager.antt =====
-- medusa/backup_manager.py: the registry of the backups that the gRPC service runs. The class
-- keeps one instance with a dict; `none` stands for no instance. A backup name that is missing or
-- empty is the empty text. Each method returns its result and the registry that it leaves.
pub mod Refinement
pub mod Lifecycle
use cassandra_medusa.Base.{ℕ, Bool, true, false, Option, none, some, List, [], ◌∷◌, if◌then◌else◌}
use cassandra_medusa.Base.{Result, ok, err, runtime_error, key_error, attribute_error}
use cassandra_medusa.Base.Text.{Text}
use cassandra_medusa.Base.Dict.{Dict, lookup, has_key, insert, remove, keys}

-- STATUS_UNKNOWN, STATUS_IN_PROGRESS, STATUS_SUCCESS, STATUS_FAILED
pub data Status : Type 0 where
  status_unknown status_in_progress status_success status_failed : Status

-- The list [future, status, is_async]; a future is named by a number.
pub record BackupState : Type 0 where
  pub future : Option ℕ
  pub status : Status
  pub is_async : Bool

abbrev pub Manager : Type 0
Manager = Option (Dict BackupState)

abbrev pub Outcome : Type 0 → Type 0
Outcome A = Result A × Manager

-- `BackupMan()`, where there is no instance.
unfoldable pub ensure : Manager → Dict BackupState
ensure none = []
ensure (some d) = d

unfoldable pub is_active : Manager → Bool
is_active none = false
is_active (some d) = true

-- `__backups[backup_name]`
unfoldable pub subscript : Text → Dict BackupState → Result BackupState
subscript name d = elim (lookup name d) [ none ↦ err key_error | some s ↦ ok s ]

unfoldable pub is_async_mode : Text → Manager → Result Bool
unfolding subscript
is_async_mode [] m = err runtime_error
is_async_mode (c ∷ name) none = err attribute_error
is_async_mode (c ∷ name) (some d) = elim (subscript (c ∷ name) d) [
  | ok s ↦ ok s.is_async
  | err e ↦ err e
]

unfoldable pub get_backup_status : Text → Manager → Result Status
get_backup_status [] m = err runtime_error
get_backup_status (c ∷ name) none = err attribute_error
get_backup_status (c ∷ name) (some d) = elim (lookup (c ∷ name) d) [
  | none ↦ err runtime_error
  | some s ↦ ok s.status
]

unfoldable pub set_backup_future : Text → Option ℕ → Manager → Outcome (Unit {0})
unfolding ensure
set_backup_future [] future m = (err runtime_error, m)
set_backup_future (c ∷ name) none m = (err runtime_error, m)
set_backup_future (c ∷ name) (some f) m = (
  ok tt,
  some (
      insert (c ∷ name) (record { future = some f; status = status_unknown; is_async = true })
        (ensure m)),
)

unfoldable pub get_backup_future : Text → Manager → Result (Option ℕ)
unfolding subscript
get_backup_future name none = err runtime_error
get_backup_future name (some d) = elim (subscript name d) [ ok s ↦ ok s.future | err e ↦ err e ]

abbrev pub fresh_state : Bool → BackupState
fresh_state is_async = record { future = none; status = status_unknown; is_async = is_async }

-- `cancel_raises f`: the call `future.cancel(...)` of asyncio raises for the future `f`.
module _ (cancel_raises : ℕ → Bool) where
  unfoldable pub cancelled : Option ℕ → Bool
  cancelled none = true
  cancelled (some f) = if cancel_raises f then false else true

  -- `__clean`: an exception is logged, and the backup stays registered.
  unfoldable pub clean : Text → Dict BackupState → Bool × Dict BackupState
  unfolding cancelled
  clean name d = elim (lookup name d) [
    | none ↦ (false, d)
    | some s ↦ if cancelled s.future then (true, remove name d) else (false, d)
  ]

  unfoldable pub register_backup : Text → Bool → Bool → Manager → Outcome (Unit {0})
  unfolding ensure clean has_key
  register_backup [] is_async overwrite m = (err runtime_error, m)
  register_backup (c ∷ name) is_async overwrite m =
      let d = ensure m in
      if has_key (c ∷ name) d
      then (if overwrite
          then (ok tt, some (insert (c ∷ name) (fresh_state is_async) (clean (c ∷ name) d).1))
          else (ok tt, some d))
      else (ok tt, some (insert (c ∷ name) (fresh_state is_async) d))

  unfoldable pub remove_backup : Text → Manager → Bool × Manager
  unfolding clean has_key
  remove_backup name none = (true, none)
  remove_backup name (some d) =
      if has_key name d then ((clean name d).0, some (clean name d).1) else (true, some d)

  -- The loop over a copy of the names.
  unfoldable pub clean_all : List Text → Dict BackupState → Bool → Bool × Dict BackupState
  unfolding clean
  clean_all [] d successful = (successful, d)
  clean_all (name ∷ names) d successful =
      clean_all names (clean name d).1 (if (clean name d).0 then successful else false)

  unfoldable pub remove_all_backups : Manager → Bool × Manager
  unfolding clean_all
  remove_all_backups none = (true, none)
  remove_all_backups (some d) = ((clean_all (keys d) d true).0, none)

unfoldable pub update_backup_status : Text → Status → Manager → Outcome (Unit {0})
update_backup_status [] status m = (err runtime_error, m)
update_backup_status (c ∷ name) status none = (err runtime_error, none)
update_backup_status (c ∷ name) status (some d) = elim (lookup (c ∷ name) d) [
  | none ↦ (err runtime_error, some d)
  | some s ↦ (ok tt, some (insert (c ∷ name) (record s { status = status }) d))
]

-- The method checks its arguments and does nothing else; `result` is whether a result is given.
unfoldable pub set_backup_result : Text → Bool → Manager → Outcome (Unit {0})
set_backup_result [] result m = (err runtime_error, m)
set_backup_result (c ∷ name) true m = (ok tt, m)
set_backup_result (c ∷ name) false m = (err runtime_error, m)
