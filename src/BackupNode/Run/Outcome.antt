-- ===== src/BackupNode/Run/Outcome.antt =====
-- What `handle_backup` leaves behind.
use cassandra_medusa.Base.{
  Bool, true, false, not, ◌&&◌, none, some, [], ◌∷◌, ◌≡◌, inl, inr, refl, arith, Bool-cases,
  Option-cases, is_some, if◌then◌else◌,
}
use cassandra_medusa.Base.{Exception, Result, ok, err, io_error}
use cassandra_medusa.Base.Text.{Text, text_eq_iff}
use cassandra_medusa.Base.Dict.{lookup, insert, lookup-insert}
use cassandra_medusa.BackupManager.{
  Status, BackupState, Manager, status_in_progress, status_success, status_failed,
  update_backup_status, get_backup_status,
}
use cassandra_medusa.Utils.{handle_exception}
use cassandra_medusa.Storage.Driver.{Driver}
use cassandra_medusa.Storage.NodeBackup.{NodeBackup, backup_exists}
use cassandra_medusa.BackupNode.Run.{Host, after_start, try_backup, on_failure, handle_backup}

-- The name is registered with the manager.
abbrev pub IsRegistered : Text → Manager → Type 0
IsRegistered [] m = ⊥
IsRegistered (c ∷ name) none = ⊥
IsRegistered (c ∷ name) (some d) = is_some (lookup (c ∷ name) d) ≡ true

pub update-IsRegistered :
    (name : Text) (st : Status) (m : Manager)
    → IsRegistered name m
    → (m' : Manager) × (update_backup_status name st m ≡ (ok tt, m'))
      × IsRegistered name m'
      × (get_backup_status name m' ≡ ok st)
unfolding update_backup_status get_backup_status
update-IsRegistered [] st m h = absurd h
update-IsRegistered (c ∷ name) st none h = absurd h
update-IsRegistered (c ∷ name) st (some d) h = elim (Option-cases (lookup (c ∷ name) d)) [
  | inl e ↦ ground arith
  | inr (old, e) ↦
      let new : BackupState = record old { status = st } in
      let there : lookup (c ∷ name) (insert (c ∷ name) new d) ≡ some new =
        ground
          (arith, lookup-insert (c ∷ name) (c ∷ name) new d, text_eq_iff (c ∷ name) (c ∷ name)) in
      (
        some (insert (c ∷ name) new d),
        ground arith,
        rw there refl,
        rw (there, get_backup_status) refl,
      )
]

module _ (D : Driver) (grpc : Text) {A : Type 0} where
  -- The status that a result of the body leaves, and what the caller sees.
  abbrev pub IsOutcome : Text → Result A → Result A × Host D.State → Type 0
  IsOutcome name (ok a) (r, h) = (r ≡ ok a) × (get_backup_status name h.manager ≡ ok status_success)
  IsOutcome name (err e) (r, h) =
      (r ≡ err (handle_exception e grpc)) × (get_backup_status name h.manager ≡ ok status_failed)

  fail-IsOutcome :
      (name : Text) (e : Exception) (h : Host D.State)
      → IsRegistered name h.manager
      → IsOutcome name (err e) (on_failure D grpc {A = A} name (err e, h))
  unfolding on_failure
  fail-IsOutcome name e h reg =
      let (m, u, reg', g) = update-IsRegistered name status_failed h.manager reg in rw u (refl, g)

  marked :
      (name : Text) (r : Result A) (out : Result A × Host D.State)
      → IsOutcome name r out
      → IsOutcome name r (out.0, record out.1 { marker = false })
  marked name (ok a) out o = o
  marked name (err e) out o = o

  after-IsOutcome :
      (name : Text) (out : Result A × D.State) (m : Manager) (marker : Bool)
      → IsRegistered name m
      → IsOutcome name out.0 (on_failure D grpc name (after_start D grpc name out m marker))
  unfolding on_failure after_start get_backup_status
  after-IsOutcome name (err e, s) m marker reg =
      fail-IsOutcome name e (record { store = s; manager = m; marker = marker }) reg
  after-IsOutcome name (ok a, s) m marker reg =
      let (m2, u2, reg2, g2) = update-IsRegistered name status_success m reg in rw u2 (refl, g2)

  try-IsOutcome :
      (name : Text) (nb : NodeBackup) (use_existing : Bool) (start : D.State → Result A × D.State)
      (h : Host D.State)
      → IsRegistered name h.manager
      → IsOutcome name
          (if backup_exists D nb h.store && not use_existing
            then err io_error
            else (start h.store).0)
          (on_failure D grpc name (try_backup D grpc name nb use_existing start h))
  unfolding try_backup
  try-IsOutcome name nb use_existing start h reg =
      elim (Bool-cases (backup_exists D nb h.store && not use_existing)) [
        | inl e ↦ rw e (fail-IsOutcome name io_error h reg)
        | inr e ↦
            let (m1, u1, reg1, g1) = update-IsRegistered name status_in_progress h.manager reg in
            rw (e, u1) (after-IsOutcome name (start h.store) m1 h.marker reg1)
      ]

  -- For a registered backup, `handle_backup` fails with the IOError where the backup exists
  -- already and no existing snapshot is to be used, and else as `start_backup` does: its result
  -- is passed on with the status SUCCESS, its exception goes through `handle_exception` with
  -- the status FAILED. The marker file is gone at the end, and was no obstacle if it was there.
  pub handle_backup-IsOutcome :
      (name : Text) (nb : NodeBackup) (use_existing : Bool) (start : D.State → Result A × D.State)
      (h : Host D.State)
      → IsRegistered name h.manager
      → IsOutcome name
          (if backup_exists D nb h.store && not use_existing
            then err io_error
            else (start h.store).0)
          (handle_backup D grpc name nb use_existing start h)
        × ((handle_backup D grpc name nb use_existing start h).1.marker ≡ false)
  unfolding handle_backup
  handle_backup-IsOutcome name nb use_existing start h reg = (
    marked _ _ _ (try-IsOutcome name nb use_existing start (record h { marker = true }) reg),
    refl,
  )
