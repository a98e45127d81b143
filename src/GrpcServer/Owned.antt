-- ===== src/GrpcServer/Owned.antt =====
-- The future that the registry has for a backup's name, under the calls of other threads.
use cassandra_medusa.Base.{
  ℕ, Bool, Option, none, some, List, [], ◌∷◌, ◌≡◌, ◌≢◌, ◌⊎◌, inl, inr, refl, arith, subst, sym,
  Bool-cases, Option-cases,
}
use cassandra_medusa.Base.{Result, ok, err}
use cassandra_medusa.Base.Text.{Text, text_eq_iff}
use cassandra_medusa.BackupManager.{
  BackupState, Manager, status_in_progress, status_success, status_failed,
}
use cassandra_medusa.BackupManager.Refinement.{
  Call, set_future, register, remove_one, remove_all, update, view, call, effect, call-refines,
}
use cassandra_medusa.GrpcServer.Worker.{
  Phase, queued, running, stored, failing, ended, Work, System, advance_from, Action, work, request,
  act, run_schedule, advance, moved,
}

-- The registry has no other future than `f` for the name.
abbrev pub HasOnly : ℕ → Option BackupState → Type 0
HasOnly f none = Unit
HasOnly f (some s) = (s.future ≡ none) ⊎ (s.future ≡ some f)

-- A call gives the name no future, and `f` to no other name: so `f` is cancelled only as the
-- entry of the name is dropped.
abbrev pub IsOwn : ℕ → Text → Call → Type 0
IsOwn f name (set_future n g) = ((n ≢ name) × (g ≢ some f)) ⊎ (g ≡ none)
IsOwn f name (register n a o) = Unit
IsOwn f name (remove_one n) = Unit
IsOwn f name remove_all = Unit
IsOwn f name (update n s) = Unit

abbrev pub AreOwn : ℕ → Text → List Action → Type 0
AreOwn f name [] = Unit
AreOwn f name (work ∷ rest) = AreOwn f name rest
AreOwn f name (request c ∷ rest) = IsOwn f name c × AreOwn f name rest

module _ (cancel_raises : ℕ → Bool) (f : ℕ) (name : Text) where
  effect-HasOnly :
      (c : Call) (o : Option BackupState)
      → IsOwn f name c
      → HasOnly f o
      → HasOnly f (effect cancel_raises c name o)
  unfolding effect
  effect-HasOnly (set_future [] g) o own h = h
  effect-HasOnly (set_future (c ∷ n) none) o own h = h
  effect-HasOnly (set_future (c ∷ n) (some g)) o own h = ground (arith, text_eq_iff (c ∷ n) name)
  effect-HasOnly (register [] a w) o own h = h
  effect-HasOnly (register (c ∷ n) a w) none own h = ground arith
  effect-HasOnly (register (c ∷ n) a w) (some s) own h = ground arith
  effect-HasOnly (remove_one n) none own h = ground arith
  effect-HasOnly (remove_one n) (some s) own h = ground arith
  effect-HasOnly remove_all o own h = tt
  effect-HasOnly (update [] s) o own h = h
  effect-HasOnly (update (c ∷ n) s) none own h = ground arith
  effect-HasOnly (update (c ∷ n) s) (some x) own h = ground arith

  call-HasOnly :
      (c : Call) (m : Manager)
      → IsOwn f name c
      → HasOnly f (view m name)
      → HasOnly f (view (call cancel_raises c m) name)
  call-HasOnly c m own h =
      subst (HasOnly f) (sym (call-refines cancel_raises c m name))
        (effect-HasOnly c (view m name) own h)

  moved-manager :
      (y : System) (next : Phase) (u : Result (Unit {0}) × Manager) → (moved y next u).manager ≡ u.1
  moved-manager y next (ok v, m) = refl
  moved-manager y next (err e, m) = refl

  -- Whatever the backup does to the registry is an update of its status, or nothing.
  advance-HasOnly :
      (w : Work) (y : System) (p : Phase)
      → HasOnly f (view y.manager name)
      → HasOnly f (view (advance_from name w y p).manager name)
  unfolding advance_from call
  advance-HasOnly w y queued h = elim (Bool-cases w.exists_already) [
    | inl b ↦ rw b h
    | inr b ↦ rw (b, moved-manager) (call-HasOnly (update name status_in_progress) y.manager tt h)
  ]
  advance-HasOnly w y running h = elim (Option-cases w.failure) [
    | inl b ↦ rw b h
    | inr (x, b) ↦ rw b h
  ]
  advance-HasOnly w y stored h =
      rw moved-manager (call-HasOnly (update name status_success) y.manager tt h)
  advance-HasOnly w y (failing e) h = call-HasOnly (update name status_failed) y.manager tt h
  advance-HasOnly w y (ended b) h = h

  pub schedule-HasOnly :
      (w : Work) (schedule : List Action) (y : System)
      → AreOwn f name schedule
      → HasOnly f (view y.manager name)
      → HasOnly f (view (run_schedule cancel_raises name w schedule y).manager name)
  unfolding run_schedule
  schedule-HasOnly w [] y own h = h
  schedule-HasOnly w (work ∷ rest) y own h =
      schedule-HasOnly w rest (advance name w y) own (advance-HasOnly w y y.phase h)
  schedule-HasOnly w (request c ∷ rest) y own h =
      schedule-HasOnly w rest (act cancel_raises name w (request c) y) own.1
        (call-HasOnly c y.manager own.0 h)
