-- ===== src/Purge/Sweep.antt =====
-- `purge_backups` and `main` of medusa/purge.py.
-- Python iterates over its sets in no fixed order; here it is the order of insertion.
pub mod Names
pub mod Delete
use cassandra_medusa.Base.{
  ℕ, ◌+◌, Bool, true, false, not, ◌&&◌, Option, none, some, List, [], ◌∷◌, ◌++◌, length, filter,
  map, if◌then◌else◌,
}
use cassandra_medusa.Base.{Exception, Result, ok, err, key_error, system_exit, is_caught, ◌>>=◌}
use cassandra_medusa.Base.Text.{Text, text_eq, set_add}
use cassandra_medusa.Base.Dict.{Dict, lookup, insert}
use cassandra_medusa.Storage.Driver.{Driver}
use cassandra_medusa.Storage.NodeBackup.{Json, NodeBackup}
use cassandra_medusa.Storage.Listing.{list_node_backups, list_backup_index_blobs}
use cassandra_medusa.Purge.{
  backups_to_purge_by_age, backups_to_purge_by_count, purge_backup, cleanup_obsolete_files,
}

-- Objects purged, their total size, objects within the grace period.
abbrev pub Counts : Type 0
Counts = ℕ × ℕ × ℕ

abbrev pub add_counts : Counts → Counts → Counts
add_counts (n, z, g) (m, y, h) = (n + m, z + y, g + h)

-- A backup in a set is the one of its node and its name.
abbrev pub same_backup : NodeBackup → NodeBackup → Bool
same_backup a b = text_eq a.fqdn b.fqdn && text_eq a.name b.name

unfoldable pub in_set : NodeBackup → List NodeBackup → Bool
in_set b [] = false
in_set b (x ∷ xs) = if same_backup x b then true else in_set b xs

-- `s |= set(backups)`
unfoldable pub update_set : List NodeBackup → List NodeBackup → List NodeBackup
unfolding in_set
update_set s [] = s
update_set s (b ∷ bs) = update_set (if in_set b s then s else s ++ (b ∷ [])) bs

module _ (D : Driver) (J : Json) (prefix : Text) (now_us grace : ℕ) where
  -- The first loop of `purge_backups`: the counts, and the set of the nodes.
  unfoldable pub purge_each : List NodeBackup → List Text → D.State → Counts × List Text × D.State
  purge_each [] fqdns s = ((0, 0, 0), fqdns, s)
  purge_each (b ∷ bs) fqdns s =
      let ((n, z), s₁) = purge_backup D prefix b s in
      let (c, fqdns', s₂) = purge_each bs (set_add b.fqdn fqdns) s₁ in
      (add_counts (n, z, 0) c, fqdns', s₂)

  -- The second loop: an exception ends it.
  unfoldable pub cleanup_each : List Text → D.State → Result Counts × D.State
  cleanup_each [] s = (ok (0, 0, 0), s)
  cleanup_each (fqdn ∷ fqdns) s =
      let (r, s₁) = cleanup_obsolete_files D J prefix now_us fqdn grace s in
      let (r', s₂) = cleanup_each fqdns s₁ in
      elim r [ err e ↦ (err e, s₁) | ok c ↦ ((r' >>= λ c'. ok (add_counts c c')), s₂) ]

  abbrev pub or_local : Text → List Text → List Text
  or_local local_fqdn [] = local_fqdn ∷ []
  or_local local_fqdn (f ∷ fs) = f ∷ fs

  unfoldable pub purge_backups : List NodeBackup → Text → D.State → Result Counts × D.State
  unfolding purge_each cleanup_each
  purge_backups backups local_fqdn s =
      let (c, fqdns, s₁) = purge_each backups [] s in
      let (r, s₂) = cleanup_each (or_local local_fqdn fqdns) s₁ in
      ((r >>= λ c'. ok (add_counts c c')), s₂)

  -- The backups that `main` chooses.
  unfoldable pub chosen :
      {Date : Type 0}
      → (ℕ → Result Date)
      → (Date → Result ℕ)
      → ℕ
      → ℕ
      → Result (List NodeBackup)
      → D.State
      → Result (List NodeBackup)
  unfolding update_set
  chosen days_ago timestamp max_age max_count listed s = do
    backups ← listed
    by_age ← backups_to_purge_by_age D days_ago timestamp backups max_age s
    ok (update_set (update_set [] by_age) (backups_to_purge_by_count D backups max_count s))

  -- The values of the metric purge-error that are sent, and the result: an exception that
  -- `except Exception` catches ends in `sys.exit(1)`.
  unfoldable pub reported {ℓ} : {A : Type ℓ} → Result A → List ℕ × Result A
  unfolding is_caught
  reported (ok a) = (0 ∷ [], ok a)
  reported (err e) = if is_caught e then (1 ∷ [], err (system_exit 1)) else ([], err e)

  unfoldable pub purge_chosen :
      Text → Result (List NodeBackup) → D.State → Result (Counts × ℕ) × D.State
  unfolding purge_backups
  purge_chosen fqdn (err e) s = (err e, s)
  purge_chosen fqdn (ok backups) s =
      let (r, s') = purge_backups backups fqdn s in ((r >>= λ c. ok (c, length backups)), s')

  unfoldable pub main :
      {Date : Type 0}
      → (ℕ → Result Date)
      → (Date → Result ℕ)
      → Text
      → ℕ
      → ℕ
      → D.State
      → (List ℕ × Result (Counts × ℕ)) × D.State
  unfolding chosen purge_chosen reported
  main days_ago timestamp fqdn max_backup_age max_backup_count s =
      let index = list_backup_index_blobs D prefix s in
      let (listed, s₁) = list_node_backups D prefix (some fqdn) (some index) s in
      let (r, s₂) =
        purge_chosen fqdn (chosen days_ago timestamp max_backup_age max_backup_count listed s₁)
          s₁ in
      (reported r, s₂)
