-- ===== src/Cassandra/Snapshots.antt =====
-- The snapshots of medusa/cassandra_utils.py (class Cassandra), taken by one of the services.
use cassandra_medusa.Base.{
  Bool, true, false, ◌++◌, ◌≡◌, ◌⊎◌, ◌∙◌, ap, false≢true, inl, inr, refl, arith, Bool-cases,
  if◌then◌else◌,
}
use cassandra_medusa.Base.{Result, ok, err, key_error}
use cassandra_medusa.Base.Text.{Text, text_eq, mem}
use cassandra_medusa.Cassandra.Services.{
  Answer, done, Node, Service, ccm, nodetool, jolokia, management_api, answered, service_create,
  service_delete,
}
use cassandra_medusa.Cassandra.Commands.{snapshot_prefix}

module _ (N : Node) (service : Service) where
  unfoldable pub snapshot_exists : Text → N.State → Bool
  unfolding mem
  snapshot_exists tag s = mem tag (N.tags s)

  unfoldable pub create_snapshot : Text → N.State → Result (Unit {0}) × N.State
  unfolding snapshot_exists service_create
  create_snapshot tag s =
      if snapshot_exists tag s then (ok tt, s) else service_create N service tag s

  unfoldable pub delete_snapshot : Text → N.State → Result (Unit {0}) × N.State
  unfolding snapshot_exists service_delete
  delete_snapshot tag s =
      if snapshot_exists tag s then service_delete N service tag s else (ok tt, s)

  -- `get_snapshot` gives a snapshot that exists.
  unfoldable pub get_snapshot : Text → N.State → Result Text
  unfolding snapshot_exists
  get_snapshot tag s = if snapshot_exists tag s then ok tag else err key_error

  -- `Snapshot.__exit__`
  unfoldable pub exit_snapshot : Bool → Text → N.State → Result (Unit {0}) × N.State
  unfolding delete_snapshot
  exit_snapshot keep_snapshot tag s = if keep_snapshot then (ok tt, s) else delete_snapshot tag s

  -- An exception of the exit is raised in place of the body's result.
  abbrev pub left : {A : Type 0} → Result A → Result (Unit {0}) × N.State → Result A × N.State
  left r (ok u, s) = (r, s)
  left r (err e, s) = (err e, s)

  abbrev pub exited : {A : Type 0} → Bool → Text → Result A × N.State → Result A × N.State
  unfolding exit_snapshot
  exited keep_snapshot tag (r, s) = left r (exit_snapshot keep_snapshot tag s)

  abbrev pub entered :
      {A : Type 0}
      → Bool
      → Text
      → (N.State → Result A × N.State)
      → Result (Unit {0}) × N.State
      → Result A × N.State
  unfolding exited
  entered keep_snapshot tag body (err e, s) = (err e, s)
  entered keep_snapshot tag body (ok u, s) = exited keep_snapshot tag (body s)

  -- `with cassandra.create_snapshot(backup_name, keep_snapshot) as snapshot: body`
  unfoldable pub with_snapshot :
      {A : Type 0} → Text → Bool → (N.State → Result A × N.State) → N.State → Result A × N.State
  unfolding entered create_snapshot
  with_snapshot backup_name keep_snapshot body s =
      let tag = snapshot_prefix ++ backup_name in
      entered keep_snapshot tag body (create_snapshot tag s)

  create-others :
      (tag x : Text) (s : N.State)
      → text_eq tag x ≡ false
      → mem x (N.tags (create_snapshot tag s).1) ≡ mem x (N.tags s)
  unfolding create_snapshot snapshot_exists service_create
  create-others tag x s h = elim (Bool-cases (mem tag (N.tags s))) [
    | inl e ↦ rw e refl
    | inr e ↦ rw e (N.take-others tag x s h)
  ]

  delete-others :
      (tag x : Text) (s : N.State)
      → text_eq tag x ≡ false
      → mem x (N.tags (delete_snapshot tag s).1) ≡ mem x (N.tags s)
  unfolding delete_snapshot snapshot_exists service_delete
  delete-others tag x s h = elim (Bool-cases (mem tag (N.tags s))) [
    | inl e ↦ rw e (N.clear-others tag x s h)
    | inr e ↦ rw e refl
  ]

  exit-others :
      (keep : Bool) (tag x : Text) (s : N.State)
      → text_eq tag x ≡ false
      → mem x (N.tags (exit_snapshot keep tag s).1) ≡ mem x (N.tags s)
  unfolding exit_snapshot
  exit-others true tag x s h = refl
  exit-others false tag x s h = delete-others tag x s h

  left-state : {A : Type 0} (r : Result A) (u : Result (Unit {0}) × N.State) → (left r u).1 ≡ u.1
  left-state r (ok v, s) = refl
  left-state r (err e, s) = refl

  -- Whatever the service, its answers and the result of the body: where the body makes and removes
  -- no snapshot, a run of it inside `with cassandra.create_snapshot(...)` leaves every snapshot of
  -- another name as it was.
  pub with_snapshot-others :
      {A : Type 0} (backup_name : Text) (keep : Bool) (body : N.State → Result A × N.State)
      (s : N.State) (x : Text)
      → ((t : N.State) (y : Text) → mem y (N.tags (body t).1) ≡ mem y (N.tags t))
      → text_eq (snapshot_prefix ++ backup_name) x ≡ false
      → mem x (N.tags (with_snapshot backup_name keep body s).1) ≡ mem x (N.tags s)
  unfolding with_snapshot entered exited
  with_snapshot-others backup_name keep body s x neutral h =
      let tag = snapshot_prefix ++ backup_name in
      entered-others (create_snapshot tag s) (create-others tag x s h)
    where
      entered-others :
          (u : Result (Unit {0}) × N.State)
          → mem x (N.tags u.1) ≡ mem x (N.tags s)
          → mem x (N.tags (entered keep (snapshot_prefix ++ backup_name) body u).1)
            ≡ mem x (N.tags s)
      entered-others (err e, t) k = k
      entered-others (ok v, t) k =
          ap (λ z. mem x (N.tags z)) (left-state (body t).0 _)
          ∙ exit-others keep (snapshot_prefix ++ backup_name) x (body t).1 h
          ∙ neutral t x
          ∙ k

  -- The commands that are sent are done.
  abbrev pub IsTaken : Text → N.State → Type 0
  IsTaken tag s = (mem tag (N.tags s) ≡ true) ⊎ ((N.take tag s).0 ≡ done)

  abbrev pub IsCleared : Text → N.State → Type 0
  IsCleared tag s = (mem tag (N.tags s) ≡ false) ⊎ ((N.clear tag s).0 ≡ done)

  answered-done : (a : Answer) → a ≡ done → answered service a ≡ ok tt
  unfolding answered
  answered-done a h = rw h (by_service service)
    where
      by_service : (k : Service) → answered k done ≡ ok tt
      by_service ccm = refl
      by_service nodetool = refl
      by_service jolokia = refl
      by_service management_api = refl

  create-done :
      (tag : Text) (s : N.State)
      → IsTaken tag s
      → ((create_snapshot tag s).0 ≡ ok tt) × (mem tag (N.tags (create_snapshot tag s).1) ≡ true)
  unfolding create_snapshot snapshot_exists service_create
  create-done tag s h = elim (Bool-cases (mem tag (N.tags s))) [
    | inl e ↦ rw e (refl, e)
    | inr e ↦ elim h [
      | inl k ↦ absurd (ground arith)
      | inr k ↦ rw e (answered-done (N.take tag s).0 k, N.take-done tag s k)
    ]
  ]

  delete-done :
      (tag : Text) (s : N.State)
      → IsCleared tag s
      → ((delete_snapshot tag s).0 ≡ ok tt) × (mem tag (N.tags (delete_snapshot tag s).1) ≡ false)
  unfolding delete_snapshot snapshot_exists service_delete
  delete-done tag s h = elim (Bool-cases (mem tag (N.tags s))) [
    | inr e ↦ rw e (refl, e)
    | inl e ↦ elim h [
      | inl k ↦ absurd (ground arith)
      | inr k ↦ rw e (answered-done (N.clear tag s).0 k, N.clear-done tag s k)
    ]
  ]

  exit-done :
      (keep : Bool) (tag : Text) (s : N.State)
      → mem tag (N.tags s) ≡ true
      → (keep ≡ true) ⊎ IsCleared tag s
      → ((exit_snapshot keep tag s).0 ≡ ok tt)
        × (mem tag (N.tags (exit_snapshot keep tag s).1) ≡ keep)
  unfolding exit_snapshot
  exit-done true tag s there h = (refl, there)
  exit-done false tag s there (inl k) = absurd (false≢true k)
  exit-done false tag s there (inr k) = delete-done tag s k

  left-eq :
      {A : Type 0} (r : Result A) (u : Result (Unit {0}) × N.State)
      → u.0 ≡ ok tt
      → left r u ≡ (r, u.1)
  left-eq r (ok v, s) h = refl
  left-eq r (err e, s) h = absurd (ground arith)

  entered-eq :
      {A : Type 0} (keep : Bool) (tag : Text) (body : N.State → Result A × N.State)
      (u : Result (Unit {0}) × N.State)
      → u.0 ≡ ok tt
      → (exit_snapshot keep tag (body u.1).1).0 ≡ ok tt
      → entered keep tag body u ≡ ((body u.1).0, (exit_snapshot keep tag (body u.1).1).1)
  unfolding entered exited
  entered-eq keep tag body (err e, s) h k = absurd (ground arith)
  entered-eq keep tag body (ok v, s) h k = left-eq (body s).0 (exit_snapshot keep tag (body s).1) k

  -- A body that makes and removes no snapshot runs inside `with cassandra.create_snapshot(...)`.
  -- Whatever the service, where the snapshot is there already or its taking is done, and it is to
  -- be kept or its clearing is done: the body runs with the snapshot there, the result is that of
  -- the body, an exception included, and afterwards the snapshot is there exactly if it is to be
  -- kept, even if it was there before.
  pub with_snapshot-tags :
      {A : Type 0} (backup_name : Text) (keep : Bool) (body : N.State → Result A × N.State)
      (s : N.State)
      → ((t : N.State) (y : Text) → mem y (N.tags (body t).1) ≡ mem y (N.tags t))
      → IsTaken (snapshot_prefix ++ backup_name) s
      → (keep ≡ true)
        ⊎ IsCleared
            (snapshot_prefix ++ backup_name)
            (body (create_snapshot (snapshot_prefix ++ backup_name) s).1).1
      → let tag = snapshot_prefix ++ backup_name in
        let t = (create_snapshot tag s).1 in
        let out = with_snapshot backup_name keep body s in
        (mem tag (N.tags t) ≡ true) × (out.0 ≡ (body t).0) × (mem tag (N.tags out.1) ≡ keep)
  unfolding with_snapshot
  with_snapshot-tags backup_name keep body s neutral taken cleared =
      let tag = snapshot_prefix ++ backup_name in
      let t : N.State = (create_snapshot tag s).1 in
      let (c, there) = create-done tag s taken in
      let (d, kept) = exit-done keep tag (body t).1 (neutral t tag ∙ there) cleared in
      let e = entered-eq keep tag body (create_snapshot tag s) c d in (there, rw e refl, rw e kept)
