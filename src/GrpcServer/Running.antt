-- ===== src/GrpcServer/Running.antt =====
-- `AsyncBackup` and `DeleteBackup` of medusa/service/grpc/server.py for a backup that runs.
use cassandra_medusa.Base.{
  ℕ, Bool, true, false, none, some, List, ◌∷◌, ◌≡◌, inl, inr, refl, arith, All, ◌∙◌, Option-cases,
}
use cassandra_medusa.Base.{Result, ok, err}
use cassandra_medusa.Base.Text.{Text}
use cassandra_medusa.Base.Dict.{lookup, insert, has_key, lookup-insert_self}
use cassandra_medusa.BackupManager.{
  Status, is_active, BackupState, Manager, ensure, fresh_state, clean, status_unknown,
  status_in_progress, get_backup_status, set_backup_future, register_backup,
}
use cassandra_medusa.BackupManager.Refinement.{Call, update, call, calls, view}
use cassandra_medusa.BackupNode.Run.Outcome.{IsRegistered, update-IsRegistered}
use cassandra_medusa.GrpcServer.{in_progress, failed, reply_of, async_backup}
use cassandra_medusa.GrpcServer.Deletion.{delete_backup, is_in_progress, after_delete}
use cassandra_medusa.BackupManager.Lifecycle.{get_backup_status-view, view-calls, Spares}

module _ (cancel_raises : ℕ → Bool) where
  pub register-IsRegistered :
      (c : ℕ) (name : Text) (is_async : Bool) (m : Manager)
      → (m' : Manager) × (register_backup cancel_raises (c ∷ name) is_async true m ≡ (ok tt, m'))
        × IsRegistered (c ∷ name) m'
  unfolding register_backup has_key
  register-IsRegistered c name is_async m = elim (Option-cases (lookup (c ∷ name) (ensure m))) [
    | inl e ↦
        let d = insert (c ∷ name) (fresh_state is_async) (ensure m) in
        (
          some d,
          rw e refl,
          rw (lookup-insert_self (c ∷ name) (fresh_state is_async) (ensure m)) refl,
        )
    | inr (s, e) ↦
        let rest = (clean cancel_raises (c ∷ name) (ensure m)).1 in
        (
          some (insert (c ∷ name) (fresh_state is_async) rest),
          rw e refl,
          rw (lookup-insert_self (c ∷ name) (fresh_state is_async) rest) refl,
        )
  ]

  -- AsyncBackup for a name that is not empty, once the thread is started, replies IN_PROGRESS
  -- without an error code. Whatever calls other threads have made before the future was set, the
  -- registry then has the name with the future and the status UNKNOWN.
  pub async_backup-overwrites :
      (c : ℕ) (name : Text) (f : ℕ) (others : List Call) (m : Manager)
      → let out = async_backup cancel_raises (c ∷ name) (ok f) others m in
        (out.0 ≡ ok (reply_of (c ∷ name) in_progress none))
        × (view out.1 (c ∷ name)
            ≡ some (record { future = some f; status = status_unknown; is_async = true }))
  unfolding async_backup set_backup_future view
  async_backup-overwrites c name f others m =
      let (m', e, reg) = register-IsRegistered c name true m in
      rw e (refl, lookup-insert_self (c ∷ name) _ _)

  delete_runs :
      {S : Type 0} (c : ℕ) (name : Text) (m : Manager) (x : BackupState)
      → view m (c ∷ name) ≡ some x
      → is_in_progress x.status ≡ false
      → (delete : S → Result (Unit {0}) × S) (s : S)
      → (delete_backup cancel_raises (c ∷ name) delete s m).1 ≡ (delete s).1
  unfolding delete_backup view is_active
  delete_runs c name none x h e delete s = ground arith
  delete_runs {S = S} c name (some d) x h e delete s =
      rw (get_backup_status-view c name (some d) x h, e) (ran (delete s))
    where
      ran : (u : Result (Unit {0}) × S) → (after_delete cancel_raises (c ∷ name) u (some d)).1 ≡ u.1
      ran (ok v, s') = refl
      ran (err e', s') = refl

  -- DeleteBackup for the name of a backup that AsyncBackup has just started is not refused, even
  -- where the thread of the backup has set the status IN_PROGRESS before the future was set:
  -- the deletion runs on the store.
  pub delete-async_backup :
      {S : Type 0} (c : ℕ) (name : Text) (f : ℕ) (others : List Call) (m : Manager)
      (delete : S → Result (Unit {0}) × S) (s : S)
      → (delete_backup cancel_raises
          (c ∷ name)
          delete
          s
          (async_backup cancel_raises (c ∷ name) (ok f) others m).1).1
        ≡ (delete s).1
  delete-async_backup c name f others m delete s =
      delete_runs c name _ _ (async_backup-overwrites c name f others m).1 refl delete s

  status-view :
      (c : ℕ) (name : Text) (m : Manager) (st : Status)
      → get_backup_status (c ∷ name) m ≡ ok st
      → (x : BackupState) × (view m (c ∷ name) ≡ some x) × (x.status ≡ st)
  unfolding get_backup_status view
  status-view c name none st h = ground arith
  status-view c name (some d) st h = elim (Option-cases (lookup (c ∷ name) d)) [
    | inl e ↦ ground arith
    | inr (x, e) ↦ (x, e, ground arith)
  ]

  delete_refused :
      {S : Type 0} (c : ℕ) (name : Text) (m : Manager) (x : BackupState)
      → view m (c ∷ name) ≡ some x
      → x.status ≡ status_in_progress
      → (delete : S → Result (Unit {0}) × S) (s : S)
      → delete_backup cancel_raises (c ∷ name) delete s m
        ≡ (ok (record { response = failed; code = none }), s, m)
  unfolding delete_backup view is_active
  delete_refused c name none x h e delete s = ground arith
  delete_refused c name (some d) x h e delete s =
      rw (get_backup_status-view c name (some d) x h, e) refl

  -- While the status of a registered backup is IN_PROGRESS, whatever calls about other names,
  -- short of the removal of all, come between, DeleteBackup replies FAILED, and neither the store
  -- nor the registry changes.
  pub delete_in_progress :
      {S : Type 0} (c : ℕ) (name : Text) (cs : List Call) (m : Manager)
      (delete : S → Result (Unit {0}) × S) (s : S)
      → IsRegistered (c ∷ name) m
      → All (Spares (c ∷ name)) cs
      → let m' = calls cancel_raises (update (c ∷ name) status_in_progress ∷ cs) m in
        delete_backup cancel_raises (c ∷ name) delete s m'
        ≡ (ok (record { response = failed; code = none }), s, m')
  unfolding calls call
  delete_in_progress c name cs m delete s reg h =
      let (m1, u, reg1, g) = update-IsRegistered (c ∷ name) status_in_progress m reg in
      let (x, v, e) = status-view c name m1 status_in_progress g in
      let m2 : Manager = call cancel_raises (update (c ∷ name) status_in_progress) m in
      let v' : view m2 (c ∷ name) ≡ some x = rw (call, u) v in
      delete_refused c name (calls cancel_raises cs m2) x
        (view-calls cancel_raises (c ∷ name) cs m2 h ∙ v') e delete s
