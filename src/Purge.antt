-- ===== src/Purge.antt =====
-- medusa/purge.py: which backups to purge, and the deletion of their objects, of their entries in
-- the index, and of the files that no manifest names. Times: `now_us` is the clock in
-- microseconds since the epoch, all others are in seconds.
pub mod Deletion
pub mod Selection
pub mod Cleanup
pub mod Backup
pub mod Sweep
use cassandra_medusa.Base.{
  ℕ, zero, suc, ◌+◌, ◌-◌, ◌*◌, Bool, true, false, not, ◌&&◌, Option, none, some, List, [], ◌∷◌,
  ◌++◌, ◌==◌, leb, ltb, is_some, length, take, filter, map, if◌then◌else◌,
}
use cassandra_medusa.Base.{Result, ok, err, type_error, key_error, json_error, ◌>>=◌}
use cassandra_medusa.Base.Text.{Text, codes, mem, set_add, text_eq}
use cassandra_medusa.Base.Dict.{Dict, lookup, insert, keys, values}
use cassandra_medusa.Base.Sort.{sorted}
use cassandra_medusa.Manifest.{ManifestObject, Section, Manifest}
use cassandra_medusa.ClusterBackup.{NodeInfo, ClusterBackup}
use cassandra_medusa.Storage.Driver.{Blob, Driver, list_objects, delete_each}
use cassandra_medusa.Storage.NodeBackup.{Json, NodeBackup, started, manifest}
use cassandra_medusa.Storage.Listing.{list_node_backups, list_backup_index_blobs, prefix_path_of}
use cassandra_medusa.Index.{clean_backup_from_index}

abbrev pub day : ℕ
day = 86400

abbrev pub micro : ℕ
micro = 1000000

-- `xs[:n - m]`: a negative end counts from the end of the list.
unfoldable pub slice_to_difference {ℓ} : {A : Type ℓ} → ℕ → ℕ → List A → List A
slice_to_difference n m xs = if leb m n then take (n - m) xs else take (length xs - (m - n)) xs

-- `datetime.timestamp(blob_datetime) <= datetime.timestamp(datetime.now()) - gc_grace * 86400`
unfoldable pub is_older_than_gc_grace : ℕ → ℕ → ℕ → Bool
is_older_than_gc_grace now_us blob_time gc_grace = leb ((blob_time + gc_grace * day) * micro) now_us

-- The paths of all objects of a manifest.
unfoldable pub object_paths : List ManifestObject → List Text
object_paths [] = []
object_paths (o ∷ os) = o.path ∷ object_paths os

unfoldable pub manifest_paths : Manifest → List Text
unfolding object_paths
manifest_paths [] = []
manifest_paths (s ∷ m) = object_paths s.objects ++ manifest_paths m

abbrev pub names : List Blob → List Text
names bs = map (λ (b : Blob). b.name) bs

-- `{blob.name: blob for blob in blobs}`
unfoldable pub blobs_by_name : List Blob → Dict Blob → Dict Blob
blobs_by_name [] d = d
blobs_by_name (b ∷ bs) d = blobs_by_name bs (insert b.name b d)

unfoldable pub total_size : List Blob → ℕ
total_size [] = 0
total_size (b ∷ bs) = b.size + total_size bs

-- `filter_files_within_gc_grace`: the candidates that are old enough to go.
unfoldable pub filter_files_within_gc_grace : ℕ → List Text → Dict Blob → ℕ → List Text
unfolding is_older_than_gc_grace
filter_files_within_gc_grace now_us candidates paths_in_storage grace =
    filter
      (λ path. elim (lookup path paths_in_storage) [
        | none ↦ false
        | some b ↦ is_older_than_gc_grace now_us b.last_modified grace
      ])
      candidates

abbrev pub candidates_of : List Text → Dict Blob → List Text
candidates_of in_manifest in_storage = filter (λ path. not (mem path in_manifest)) (keys in_storage)

module _ (D : Driver) where
  -- backup.started < max_date.timestamp(), the latter in microseconds; comparing with None raises
  -- TypeError.
  unfoldable pub older_than : Result ℕ → List NodeBackup → D.State → Result (List NodeBackup)
  older_than max_date [] s = ok []
  older_than max_date (nb ∷ nbs) s =
      let rest = older_than max_date nbs s in
      max_date >>= λ date. elim (started D nb s) [
        | none ↦ err type_error
        | some t ↦ (rest >>= λ r. ok (if ltb (t * micro) date then nb ∷ r else r))
      ]

  -- `days_ago n` is `datetime.now() - timedelta(days=n)`, and `timestamp` its time in microseconds,
  -- both in the local time, which may be shifted in between; either may raise.
  unfoldable pub backups_to_purge_by_age :
      {Date : Type 0}
      → (ℕ → Result Date)
      → (Date → Result ℕ)
      → List NodeBackup
      → ℕ
      → D.State
      → Result (List NodeBackup)
  unfolding older_than
  backups_to_purge_by_age days_ago timestamp backups max_backup_age s =
      if ltb 0 max_backup_age
      then (days_ago max_backup_age >>= λ max_date. older_than (timestamp max_date) backups s)
      else ok []

  abbrev pub start_or_zero : D.State → NodeBackup → ℕ
  start_or_zero s nb = elim (started D nb s) [ none ↦ 0 | some t ↦ t ]

  -- sorted(filter(started is not None), key=started)
  unfoldable pub dated_by_start : List NodeBackup → D.State → List NodeBackup
  dated_by_start backups s =
      sorted (λ a b. leb (start_or_zero s a) (start_or_zero s b))
        (filter (λ nb. is_some (started D nb s)) backups)

  unfoldable pub backups_to_purge_by_count : List NodeBackup → ℕ → D.State → List NodeBackup
  unfolding dated_by_start slice_to_difference
  backups_to_purge_by_count backups max_backup_count s =
      let dated = dated_by_start backups s in
      if ltb 0 max_backup_count && ltb max_backup_count (length backups)
      then slice_to_difference (length dated) max_backup_count dated
      else []

  -- `purge_backup`: the number and the size of the objects that are deleted.
  unfoldable pub purge_backup : Text → NodeBackup → D.State → (ℕ × ℕ) × D.State
  unfolding total_size
  purge_backup prefix backup s =
      let objects = list_objects D s backup.node_backup_path in
      (
        (length objects, total_size objects),
        clean_backup_from_index D (prefix_path_of prefix) backup (delete_each D objects s),
      )

  unfoldable pub get_file_paths_from_storage : Text → Text → D.State → Dict Blob
  unfolding blobs_by_name
  get_file_paths_from_storage prefix fqdn s =
      blobs_by_name (list_objects D s (prefix_path_of prefix ++ fqdn ++ codes "/data")) []

  -- The paths of the manifests of the differential backups that have one.
  unfoldable pub get_file_paths_from_manifests_for_complete_differential_backups :
      Json → List NodeBackup → D.State → Result (List Text)
  unfolding manifest_paths
  get_file_paths_from_manifests_for_complete_differential_backups J [] s = ok []
  get_file_paths_from_manifests_for_complete_differential_backups J (nb ∷ nbs) s =
      let rest = get_file_paths_from_manifests_for_complete_differential_backups J nbs s in
      if nb.is_differential
      then (elim (manifest D nb s) [
        | none ↦ rest
        | some text ↦ elim (J.loads_manifest text) [
          | none ↦ err json_error
          | some m ↦ (rest >>= λ paths. ok (manifest_paths m ++ paths))
        ]
      ])
      else rest

  -- The loop that deletes: it stats each path again.
  unfoldable pub delete_paths : List Text → D.State → (ℕ × ℕ) × D.State
  delete_paths [] s = ((0, 0), s)
  delete_paths (path ∷ paths) s = elim (D.get_blob s path) [
    | none ↦ delete_paths paths s
    | some b ↦
        let ((n, z), s') = delete_paths paths (D.delete b.name s) in ((n + 1, z + b.size), s')
  ]

  -- The second half of `cleanup_obsolete_files`: objects deleted, their size, and candidates
  -- within the grace period.
  unfoldable pub cleanup_files :
      Text → ℕ → Text → ℕ → Result (List Text) → D.State → Result (ℕ × ℕ × ℕ) × D.State
  cleanup_files prefix now_us fqdn grace (err e) s = (err e, s)
  cleanup_files prefix now_us fqdn grace (ok in_manifest) s =
      let in_storage = get_file_paths_from_storage prefix fqdn s in
      let candidates = candidates_of in_manifest in_storage in
      let to_delete = filter_files_within_gc_grace now_us candidates in_storage grace in
      let deleted = delete_paths to_delete s in
      (
        ok (deleted.0.0, deleted.0.1, length (filter (λ c. not (mem c to_delete)) candidates)),
        deleted.1,
      )

  unfoldable pub cleanup_listed :
      Json → Text → ℕ → Text → ℕ → Result (List NodeBackup) × D.State → Result (ℕ × ℕ × ℕ) × D.State
  unfolding cleanup_files
  cleanup_listed J prefix now_us fqdn grace (err e, s) = (err e, s)
  cleanup_listed J prefix now_us fqdn grace (ok backups, s) =
      cleanup_files prefix now_us fqdn grace
        (get_file_paths_from_manifests_for_complete_differential_backups J backups s) s

  unfoldable pub cleanup_obsolete_files :
      Json → Text → ℕ → Text → ℕ → D.State → Result (ℕ × ℕ × ℕ) × D.State
  unfolding cleanup_listed
  cleanup_obsolete_files J prefix now_us fqdn grace s =
      cleanup_listed J prefix now_us fqdn grace (list_node_backups D prefix (some fqdn) none s)
