-- ===== src/BackupManager/Lifecycle.antt =====
-- The life of a backup in the registry, as `medusa/service/grpc/server.py` and
-- `medusa/backup_node.py` drive it: registered, updated, queried, removed.
use cassandra_medusa.Base.{
  ℕ, Bool, true, Option, none, some, List, [], ◌∷◌, ◌≡◌, ◌≢◌, refl, arith, All, ◌∙◌,
}
use cassandra_medusa.Base.{ok}
use cassandra_medusa.Base.Text.{Text, text_eq_iff}
use cassandra_medusa.Base.Dict.{lookup}
use cassandra_medusa.BackupManager.{Status, BackupState, Manager, get_backup_status, fresh_state}
use cassandra_medusa.BackupManager.Refinement.{
  Call, register, update, view, call, calls, call-refines, effect,
}

-- A status query answers from the view.
pub get_backup_status-view :
    (c : ℕ) (name : Text) (m : Manager) (s : BackupState)
    → view m (c ∷ name) ≡ some s
    → get_backup_status (c ∷ name) m ≡ ok s.status
unfolding view get_backup_status lookup
get_backup_status-view c name none s h = ground arith
get_backup_status-view c name (some d) s h = ground arith

-- A call is about another name.
abbrev pub Spares : Text → Call → Type 0
Spares name (Call.set_future n f) = n ≢ name
Spares name (Call.register n a o) = n ≢ name
Spares name (Call.remove_one n) = n ≢ name
Spares name Call.remove_all = ⊥
Spares name (Call.update n s) = n ≢ name

module _ (cancel_raises : ℕ → Bool) where
  effect-Spares :
      (name : Text) (c : Call) (o : Option BackupState)
      → Spares name c
      → effect cancel_raises c name o ≡ o
  unfolding effect
  effect-Spares name (Call.set_future [] f) o h = refl
  effect-Spares name (Call.set_future (c ∷ n) none) o h = refl
  effect-Spares name (Call.set_future (c ∷ n) (some f)) o h =
      ground (arith, text_eq_iff (c ∷ n) name)
  effect-Spares name (Call.register [] a w) o h = refl
  effect-Spares name (Call.register (c ∷ n) a w) o h = ground (arith, text_eq_iff (c ∷ n) name)
  effect-Spares name (Call.remove_one n) o h = ground (arith, text_eq_iff n name)
  effect-Spares name Call.remove_all o h = absurd h
  effect-Spares name (Call.update [] s) o h = refl
  effect-Spares name (Call.update (c ∷ n) s) o h = ground (arith, text_eq_iff (c ∷ n) name)

  pub view-calls :
      (name : Text) (cs : List Call) (m : Manager)
      → All (Spares name) cs
      → view (calls cancel_raises cs m) name ≡ view m name
  unfolding calls
  view-calls name [] m h = refl
  view-calls name (c ∷ cs) m h =
      view-calls name cs (call cancel_raises c m) h.1
      ∙ call-refines cancel_raises c m name
      ∙ effect-Spares name c (view m name) h.0

  -- Once a backup with a name that is not empty is registered, in place of an older one if there
  -- is one, and its status updated, the status stays through any calls about other backups, the
  -- removal of all aside.
  pub status_of_update :
      (c : ℕ) (name : Text) (is_async : Bool) (status : Status) (cs : List Call) (m : Manager)
      → All (Spares (c ∷ name)) cs
      → get_backup_status (c ∷ name) (
          calls cancel_raises (register (c ∷ name) is_async true ∷ update (c ∷ name) status ∷ cs) m)
        ≡ ok status
  unfolding calls effect
  status_of_update c name is_async status cs m h =
      get_backup_status-view c name _ (record (fresh_state is_async) { status = status })
        (view-calls (c ∷ name) cs (call cancel_raises (update (c ∷ name) status) m') h
          ∙ call-refines cancel_raises (update (c ∷ name) status) m' (c ∷ name)
          ∙ update_of_register)
    where
      m' : Manager
      m' = call cancel_raises (register (c ∷ name) is_async true) m

      update_of_register :
          effect cancel_raises (update (c ∷ name) status) (c ∷ name) (view m' (c ∷ name))
          ≡ some (record (fresh_state is_async) { status = status })
      update_of_register = ground (
        arith,
        call-refines cancel_raises (register (c ∷ name) is_async true) m (c ∷ name),
        text_eq_iff (c ∷ name) (c ∷ name),
      )
