-- ===== src/GrpcServer/Answer.antt =====
-- What `BackupStatus` of medusa/service/grpc/server.py answers.
use cassandra_medusa.Base.{
  ℕ, Bool, false, Option, none, some, ◌∷◌, ◌≡◌, inl, inr, refl, arith, Option-cases,
}
use cassandra_medusa.Base.{Result, ok, ◌>>=◌}
use cassandra_medusa.Base.Text.{Text, text_eq_iff}
use cassandra_medusa.Base.Dict.{Dict, lookup, insert, has_key, lookup-insert}
use cassandra_medusa.BackupManager.{
  Status, BackupState, Manager, ensure, fresh_state, get_backup_status, get_backup_future,
  register_backup, subscript,
}
use cassandra_medusa.BackupManager.Refinement.{view}
use cassandra_medusa.BackupNode.Run.Outcome.{IsRegistered, update-IsRegistered}
use cassandra_medusa.GrpcServer.{in_progress, record_status_in_response, status_type}
use cassandra_medusa.GrpcServer.Query.{
  FutureState, determine_backup_status, known_status, current_status, finish_text, status_of_times,
}

-- The future that the registry has for a name.
abbrev pub future_of : Option BackupState → Option ℕ
future_of none = none
future_of (some s) = s.future

-- The status that the call finds: by the future, and by the times of the backup.
abbrev pub found_status :
    (ℕ → FutureState) → Option ℕ → Option ℕ → Option BackupState → Result Status
found_status future_state started finished o =
    determine_backup_status future_state finished (future_of o) >>= λ st.
    ok (known_status started finished st)

module _ (cancel_raises : ℕ → Bool) where
  -- A name that is registered without overwriting keeps its future.
  register-keeps :
      (c : ℕ) (name : Text) (m : Manager)
      → (m' : Manager) × (register_backup cancel_raises (c ∷ name) false false m ≡ (ok tt, m'))
        × IsRegistered (c ∷ name) m'
        × (get_backup_future (c ∷ name) m' ≡ ok (future_of (view m (c ∷ name))))
  unfolding register_backup view has_key get_backup_future subscript
  register-keeps c name m = elim (Option-cases (lookup (c ∷ name) (ensure m))) [
    | inl e ↦
        let d' : Dict BackupState = insert (c ∷ name) (fresh_state false) (ensure m) in
        let there : lookup (c ∷ name) d' ≡ some (fresh_state false) = ground (
          arith,
          lookup-insert (c ∷ name) (c ∷ name) (fresh_state false) (ensure m),
          text_eq_iff (c ∷ name) (c ∷ name),
        ) in
        (some d', rw e refl, rw there refl, ground arith)
    | inr (s, e) ↦ (some (ensure m), rw e refl, rw e refl, ground arith)
  ]

  current_status-eq :
      (c : ℕ) (name : Text) (future_state : ℕ → FutureState) (started finished : Option ℕ)
      (m : Manager)
      → (m' : Manager) × (current_status cancel_raises (c ∷ name) future_state started finished m
          ≡ (found_status future_state started finished (view m (c ∷ name)), m'))
        × IsRegistered (c ∷ name) m'
  unfolding current_status
  current_status-eq c name future_state started finished m =
      let (m', r, reg, f) = register-keeps c name m in (m', rw (r, f) refl, reg)

  -- For a backup with a name that is not empty and that has started, BackupStatus replies where
  -- the future of the registry gives a status: with the times of the backup and the status that
  -- the future and the end give, and it leaves that status in the registry.
  pub status_of_times-eq :
      (show : ℕ → Text) (future_state : ℕ → FutureState) (c : ℕ) (name : Text) (t : ℕ)
      (finished : Option ℕ) (m : Manager) (st : Status)
      → found_status future_state (some t) finished (view m (c ∷ name)) ≡ ok st
      → (m' : Manager) × (status_of_times cancel_raises show future_state
            (c ∷ name)
            (some t)
            finished
            m
          ≡ (
            ok (record {
              response = record {
                status = status_type st in_progress;
                start_time = show t;
                finish_time = finish_text show finished;
              };
              code = none;
            }),
            m',
          ))
        × (get_backup_status (c ∷ name) m' ≡ ok st)
  unfolding status_of_times record_status_in_response
  status_of_times-eq show future_state c name t finished m st f =
      let (m1, e1, reg1) = current_status-eq c name future_state (some t) finished m in
      let (m2, e2, reg2, g2) = update-IsRegistered (c ∷ name) st m1 reg1 in
      (m2, rw (e1, f, e2, g2) refl, g2)
