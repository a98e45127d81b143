-- ===== src/GrpcServer/Liveness.antt =====
-- A backup that `AsyncBackup` has started ends, and `BackupStatus` says so.
use cassandra_medusa.Base.{
  ℕ, suc, ◌-◌, ◌≤◌, Bool, true, Option, none, some, List, [], ◌∷◌, ◌≡◌, ◌⊎◌, inl, inr, refl, arith,
  subst, sym, Bool-cases, Option-cases, truthy,
}
use cassandra_medusa.Base.{Exception, Result, ok, err}
use cassandra_medusa.Utils.{evaluate_boolean}
use cassandra_medusa.Base.Text.{Text}
use cassandra_medusa.BackupManager.{Status, BackupState, Manager, status_success, status_failed}
use cassandra_medusa.BackupManager.Refinement.{view}
use cassandra_medusa.GrpcServer.{
  in_progress, success, failed, BackupStatusResponse, Reply, status_type,
}
use cassandra_medusa.GrpcServer.Query.{
  FutureState, by_finish, determine_backup_status, known_status, status_of_times,
}
use cassandra_medusa.GrpcServer.Caught.{AreCaught, IsCaught, schedule-AreCaught}
use cassandra_medusa.GrpcServer.Answer.{found_status, status_of_times-eq}
use cassandra_medusa.GrpcServer.Worker.{
  Phase, queued, running, stored, failing, ended, Work, System, advance_from, Action, work, request,
  act, run_schedule, futures, phase_future, advance, moved,
}
use cassandra_medusa.GrpcServer.Owned.{HasOnly, AreOwn, schedule-HasOnly}

-- The steps that a phase still has at most, and the steps of the backup in a schedule.
abbrev pub remaining : Phase → ℕ
remaining queued = 4
remaining running = 3
remaining stored = 2
remaining (failing e) = 1
remaining (ended b) = 0

abbrev pub work_count : List Action → ℕ
work_count [] = 0
work_count (work ∷ rest) = suc (work_count rest)
work_count (request c ∷ rest) = work_count rest

moved-remaining :
    (y : System) (next : Phase) (u : Result (Unit {0}) × Manager) (n : ℕ)
    → remaining next ≤ n
    → 1 ≤ n
    → remaining (moved y next u).phase ≤ n
moved-remaining y next (ok v, m) n h k = h
moved-remaining y next (err e, m) n h k = k

advance-remaining :
    (name : Text) (w : Work) (y : System) (p : Phase)
    → y.phase ≡ p
    → remaining (advance_from name w y p).phase ≤ remaining p - 1
unfolding advance_from
advance-remaining name w y queued e = elim (Bool-cases w.exists_already) [
  | inl b ↦ rw b (omega arith)
  | inr b ↦ rw b (moved-remaining y running _ 3 (omega arith) (omega arith))
]
advance-remaining name w y running e = elim (Option-cases w.failure) [
  | inl b ↦ rw b (omega arith)
  | inr (x, b) ↦ rw b (omega arith)
]
advance-remaining name w y stored e = moved-remaining y (ended none) _ 1 (omega arith) (omega arith)
advance-remaining name w y (failing x) e = omega arith
advance-remaining name w y (ended b) e = rw e (omega arith)

module _ (cancel_raises : ℕ → Bool) (name : Text) (w : Work) where
  schedule-remaining :
      (schedule : List Action) (y : System)
      → remaining (run_schedule cancel_raises name w schedule y).phase
        ≤ remaining y.phase - work_count schedule
  unfolding run_schedule
  schedule-remaining [] y = omega arith
  schedule-remaining (request c ∷ rest) y =
      schedule-remaining rest (act cancel_raises name w (request c) y)
  schedule-remaining (work ∷ rest) y =
      omega
        (arith, advance-remaining name w y y.phase refl, schedule-remaining rest (advance name w y))

steps_le : (p : Phase) → remaining p ≤ 4
steps_le queued = omega arith
steps_le running = omega arith
steps_le stored = omega arith
steps_le (failing e) = omega arith
steps_le (ended b) = omega arith

no_steps : (p : Phase) → remaining p ≤ 0 → (o : Option Exception) × (p ≡ ended o)
no_steps queued h = absurd (omega arith)
no_steps running h = absurd (omega arith)
no_steps stored h = absurd (omega arith)
no_steps (failing e) h = absurd (omega arith)
no_steps (ended b) h = (b, refl)

-- The status of an ended backup is SUCCESS, with an end, or FAILED.
abbrev pub IsFinal : Option ℕ → Status → Type 0
IsFinal finished st = ((st ≡ status_success) × (truthy finished ≡ true)) ⊎ (st ≡ status_failed)

by_finish-IsFinal :
    (started finished : Option ℕ)
    → IsFinal finished (known_status started finished (by_finish finished))
unfolding known_status
by_finish-IsFinal started finished = ground arith

determine-ended :
    (future_state : ℕ → FutureState) (finished : Option ℕ) (f : ℕ) (e : Option Exception)
    → future_state f ≡ phase_future (ended e)
    → AreCaught (ended e)
    → (st : Status) × (determine_backup_status future_state finished (some f) ≡ ok st)
      × ((st ≡ by_finish finished) ⊎ (st ≡ status_failed))
unfolding determine_backup_status
determine-ended future_state finished f none h k =
    (_, rw (h, determine_backup_status) refl, inl refl)
determine-ended future_state finished f (some e) h k =
    (_, rw (h, k, determine_backup_status) refl, inr refl)

futures_own : (f : ℕ) (others : ℕ → FutureState) (p : Phase) → futures f others p f ≡ phase_future p
futures_own f others p = ground arith

known-IsFinal :
    (started finished : Option ℕ) (st : Status)
    → (st ≡ by_finish finished) ⊎ (st ≡ status_failed)
    → IsFinal finished (known_status started finished st)
unfolding known_status
known-IsFinal started finished st (inl e) = rw e (by_finish-IsFinal started finished)
known-IsFinal started finished st (inr e) = rw e (inr refl)

found-IsFinal :
    (f : ℕ) (others : ℕ → FutureState) (e : Option Exception) (started finished : Option ℕ)
    (o : Option BackupState)
    → HasOnly f o
    → AreCaught (ended e)
    → (st : Status) × (found_status (futures f others (ended e)) started finished o ≡ ok st)
      × IsFinal finished st
unfolding determine_backup_status known_status
found-IsFinal f others e started finished none h k = (_, refl, by_finish-IsFinal started finished)
found-IsFinal f others e started finished (some s) (inl g) k =
    rw g (_, refl, by_finish-IsFinal started finished)
found-IsFinal f others e started finished (some s) (inr g) k =
    let (st, d, h) =
      determine-ended (futures f others (ended e)) finished f e (futures_own f others (ended e))
        k in
    (known_status started finished st, rw (g, d) refl, known-IsFinal started finished st h)

final_type :
    (finished : Option ℕ) (st : Status)
    → IsFinal finished st
    → ((status_type st in_progress ≡ success) × (truthy finished ≡ true))
      ⊎ (status_type st in_progress ≡ failed)
unfolding status_type
final_type finished st (inl (e, h)) = inl (rw e refl, h)
final_type finished st (inr e) = inr (rw e refl)

-- With gRPC enabled in the configuration, a backup that does not exit the process, with a name
-- that is not empty and the future `f`, gets four steps or more in a schedule, in any order with
-- calls on the registry that give the name no future and `f` to no other name. Then BackupStatus,
-- asked after the schedule for a backup that has started, replies without an error code, SUCCESS
-- only with an end, and else FAILED.
pub status_after_schedule :
    (cancel_raises : ℕ → Bool) (c : ℕ) (name : Text) (w : Work) (show : ℕ → Text) (f : ℕ)
    (others : ℕ → FutureState) (t : ℕ) (schedule : List Action) (y : System)
    → evaluate_boolean w.grpc_enabled ≡ ok true
    → IsCaught w.failure
    → AreCaught y.phase
    → HasOnly f (view y.manager (c ∷ name))
    → AreOwn f (c ∷ name) schedule
    → 4 ≤ work_count schedule
    → let y' = run_schedule cancel_raises (c ∷ name) w schedule y in
      (m' : Manager) × (reply : Reply BackupStatusResponse) × (status_of_times cancel_raises show
          (futures f others y'.phase)
          (c ∷ name)
          (some t)
          y'.finished
          y'.manager
        ≡ (ok reply, m'))
      × (reply.code ≡ none)
      × (((reply.response.status ≡ success) × (truthy y'.finished ≡ true))
          ⊎ (reply.response.status ≡ failed))
status_after_schedule cancel_raises c name w show f others t schedule y enabled fine caught h own
      n =
    let y' : System = run_schedule cancel_raises (c ∷ name) w schedule y in
    let (o, e) = no_steps y'.phase (
      omega
        (arith, n, steps_le y.phase, schedule-remaining cancel_raises (c ∷ name) w schedule y)) in
    let k : AreCaught (ended o) =
      subst AreCaught e
        (schedule-AreCaught (c ∷ name) w enabled fine cancel_raises schedule y caught) in
    let (st, found, final) =
      found-IsFinal f others o (some t) y'.finished _
        (schedule-HasOnly cancel_raises f (c ∷ name) w schedule y own h) k in
    let (m', r, g) =
      status_of_times-eq cancel_raises show (futures f others y'.phase) c name t y'.finished
        y'.manager st
        (subst
          (λ p.
            found_status (futures f others p) (some t) y'.finished (view y'.manager (c ∷ name))
            ≡ ok st)
          (sym e) found) in
    (m', _, r, refl, final_type y'.finished st final)
