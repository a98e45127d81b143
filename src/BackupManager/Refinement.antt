-- ===== src/BackupManager/Refinement.antt =====
-- The registry against a map from names to states: what each method does to every name.
use cassandra_medusa.Base.{
  ℕ, Bool, true, Option, none, some, List, [], ◌∷◌, ◌≡◌, refl, arith, inl, inr, Option-cases,
  if◌then◌else◌,
}
use cassandra_medusa.Base.Text.{Text, text_eq, text_eq_iff}
use cassandra_medusa.Base.Dict.{Dict, lookup, lookup-insert, lookup-remove}
use cassandra_medusa.BackupManager.{
  Status, status_unknown, BackupState, Manager, ensure, fresh_state, cancelled, clean,
  set_backup_future, register_backup, remove_backup, remove_all_backups, update_backup_status,
}

-- The calls that change the registry.
pub data Call : Type 0 where
  set_future : Text → Option ℕ → Call
  register : Text → Bool → Bool → Call
  remove_one : Text → Call
  remove_all : Call
  update : Text → Status → Call

-- What a client can look up.
unfoldable pub view : Manager → Text → Option BackupState
unfolding ensure
view m name = lookup name (ensure m)

module _ (cancel_raises : ℕ → Bool) where
  unfoldable pub call : Call → Manager → Manager
  call (set_future name f) m = (set_backup_future name f m).1
  call (register name is_async overwrite) m =
      (register_backup cancel_raises name is_async overwrite m).1
  call (remove_one name) m = (remove_backup cancel_raises name m).1
  call remove_all m = (remove_all_backups cancel_raises m).1
  call (update name status) m = (update_backup_status name status m).1

  unfoldable pub calls : List Call → Manager → Manager
  calls [] m = m
  calls (c ∷ cs) m = calls cs (call c m)

  -- The state after a removal: it stays if the cancellation of its future raises.
  abbrev pub removed : Option BackupState → Option BackupState
  removed none = none
  removed (some s) = if cancelled cancel_raises s.future then none else some s

  abbrev pub updated : Status → Option BackupState → Option BackupState
  updated status none = none
  updated status (some s) = some (record s { status = status })

  abbrev pub registered : Bool → Bool → Option BackupState → Option BackupState
  registered is_async overwrite none = some (fresh_state is_async)
  registered is_async overwrite (some s) = if overwrite then some (fresh_state is_async) else some s

  -- The specification: the new state of the name `j`, given its old state.
  unfoldable pub effect : Call → Text → Option BackupState → Option BackupState
  effect (set_future [] f) j o = o
  effect (set_future (c ∷ name) none) j o = o
  effect (set_future (c ∷ name) (some f)) j o =
      if text_eq (c ∷ name) j
      then some (record { future = some f; status = status_unknown; is_async = true })
      else o
  effect (register [] is_async overwrite) j o = o
  effect (register (c ∷ name) is_async overwrite) j o =
      if text_eq (c ∷ name) j then registered is_async overwrite o else o
  effect (remove_one name) j o = if text_eq name j then removed o else o
  effect remove_all j o = none
  effect (update [] status) j o = o
  effect (update (c ∷ name) status) j o = if text_eq (c ∷ name) j then updated status o else o

  lookup-clean :
      (name j : Text) (d : Dict BackupState)
      → lookup j (clean cancel_raises name d).1
        ≡ (if text_eq name j then removed (lookup j d) else lookup j d)
  unfolding clean
  lookup-clean name j d = ground (arith, lookup-remove name j d, text_eq_iff name j)

  -- Every call has the effect of the specification on every name.
  pub call-refines : (c : Call) (m : Manager) (j : Text) → view (call c m) j ≡ effect c j (view m j)
  unfolding view call effect set_backup_future register_backup remove_backup remove_all_backups
      update_backup_status
  call-refines (set_future [] f) m j = refl
  call-refines (set_future (c ∷ name) none) m j = refl
  call-refines (set_future (c ∷ name) (some f)) m j = simp lookup-insert
  call-refines (register [] is_async overwrite) m j = refl
  call-refines (register (c ∷ name) is_async overwrite) m j =
      let d = ensure m in
      ground (
        arith,
        lookup-insert (c ∷ name) j (fresh_state is_async) (clean cancel_raises (c ∷ name) d).1,
        lookup-insert (c ∷ name) j (fresh_state is_async) d,
        lookup-clean (c ∷ name) j d,
        text_eq_iff (c ∷ name) j,
      )
  call-refines (remove_one name) none j = ground arith
  call-refines (remove_one name) (some d) j =
      ground (arith, lookup-clean name j d, text_eq_iff name j)
  call-refines remove_all none j = refl
  call-refines remove_all (some d) j = refl
  call-refines (update [] status) m j = refl
  call-refines (update (c ∷ name) status) none j = ground arith
  call-refines (update (c ∷ name) status) (some d) j = elim (Option-cases (lookup (c ∷ name) d)) [
    | inl e ↦ ground (arith, text_eq_iff (c ∷ name) j)
    | inr (s, e) ↦ ground (
      arith,
      text_eq_iff (c ∷ name) j,
      lookup-insert (c ∷ name) j (record s { status = status }) d,
    )
  ]
