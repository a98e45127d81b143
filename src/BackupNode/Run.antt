-- ===== src/BackupNode/Run.antt =====
-- `handle_backup`, `start_backup` and `do_backup` of medusa/backup_node.py.
pub mod Outcome
use cassandra_medusa.Base.{
  ℕ, zero, suc, Bool, true, false, not, ◌&&◌, Option, none, some, List, [], ◌∷◌, ◌++◌,
  if◌then◌else◌,
}
use cassandra_medusa.Base.{Result, ok, err, io_error, ◌>>=◌}
use cassandra_medusa.Base.Text.{Text, codes, text_eq}
use cassandra_medusa.Manifest.{ManifestObject, Section, Manifest}
use cassandra_medusa.TokenMap.{TokenMap}
use cassandra_medusa.BackupManager.{
  Manager, status_in_progress, status_success, status_failed, update_backup_status,
}
use cassandra_medusa.Utils.{new_temp_file, marker_exists, create, delete, handle_exception}
use cassandra_medusa.Storage.Driver.{Driver}
use cassandra_medusa.Storage.NodeBackup.{
  Json, NodeBackup, backup_exists, differential_path, manifest_path, schema_path, server_version,
  server_version_path, tokenmap_path,
}
use cassandra_medusa.Storage.Tables.{FilesPerTable, list_files_per_table}
use cassandra_medusa.Index.{
  continue, add_backup_start_to_index, add_backup_finish_to_index, set_latest_backup_in_index,
}
use cassandra_medusa.BackupNode.{SnapshotPath, Progress, and_then, backup_snapshots}
use cassandra_medusa.BackupNode.Stagger.{stagger, stagger_loop}

abbrev pub no_progress : Progress
no_progress = record { num_files = 0; replaced = 0; kept = 0; manifest = [] }

-- What Cassandra gives for a backup: the directories of its snapshots, the schema, the token map
-- as a value and as text, and the server's version.
pub record Node : Type 0 where
  pub snapshot : List SnapshotPath
  pub dse_snapshot : List SnapshotPath
  pub schema : Text
  pub tokenmap : TokenMap
  pub tokenmap_text : Text
  pub version : Text
  pub snapshot_exists : Bool

module _ (D : Driver) (J : Json) (file_matches_storage : Text → ManifestObject → Bool)
    (upload_blobs : List Text → Text → D.State → List ManifestObject × D.State)
    (prefix prefix_path : Text) where
  abbrev pub files_of : NodeBackup → D.State → Result FilesPerTable
  unfolding list_files_per_table
  files_of nb s = if nb.is_differential then list_files_per_table D prefix nb.fqdn s else ok []

  abbrev pub snapshots_with :
      NodeBackup
      → List SnapshotPath
      → Progress
      → D.State
      → Result FilesPerTable
      → Result Progress × D.State
  unfolding backup_snapshots
  snapshots_with nb dirs p s (err e) = (err e, s)
  snapshots_with nb dirs p s (ok stored) =
      backup_snapshots file_matches_storage upload_blobs prefix_path nb stored dirs p s

  unfoldable pub save_snapshots :
      NodeBackup → List SnapshotPath → Progress → D.State → Result Progress × D.State
  unfolding files_of snapshots_with
  save_snapshots nb dirs p s = snapshots_with nb dirs p s (files_of nb s)

  -- The manifest is stored after all files, the finish in the index after the manifest.
  unfoldable pub finish_backup : NodeBackup → Progress → D.State → Result Progress × D.State
  unfolding add_backup_finish_to_index set_latest_backup_in_index manifest_path
  finish_backup nb p s =
      let (r, s') =
        continue D prefix_path
          (add_backup_finish_to_index D prefix_path nb
            (D.upload (manifest_path nb) (J.dumps_manifest p.manifest) s))
          (set_latest_backup_in_index D prefix_path nb) in
      ((r >>= λ _. ok p), s')

  unfoldable pub do_backup : NodeBackup → Node → D.State → Result Progress × D.State
  unfolding save_snapshots finish_backup server_version
  do_backup nb node s =
      and_then file_matches_storage upload_blobs prefix_path
        (and_then file_matches_storage upload_blobs prefix_path
          (save_snapshots nb node.snapshot no_progress s)
          λ p s.
            if text_eq (server_version D J nb s).0 (codes "dse")
            then save_snapshots nb node.dse_snapshot p s
            else (ok p, s))
        (finish_backup nb)

  -- The wait for the other nodes: `looks i` is the store at the i-th look, as they have left it.
  unfoldable pub wait_for_turn :
      ℕ → (ℕ → D.State) → (ℕ → Bool) → Text → TokenMap → Result (Unit {0}) × D.State
  unfolding stagger_loop stagger
  wait_for_turn fuel looks before_end fqdn tokenmap =
      elim (stagger_loop fuel (λ i. (stagger D prefix fqdn tokenmap (looks i)).0) before_end 0) [
        | err e ↦ (err e, looks 0)
        | ok n ↦ (ok tt, (stagger D prefix fqdn tokenmap (looks n)).1)
      ]

  -- The objects written before the data: schema, token map, version, and the differential marker.
  unfoldable pub save_metadata : NodeBackup → Node → D.State → D.State
  unfolding schema_path tokenmap_path server_version_path differential_path
  save_metadata nb node s =
      let s1 = D.upload (schema_path nb) node.schema s in
      let s2 = D.upload (tokenmap_path nb) node.tokenmap_text s1 in
      let s3 = D.upload (server_version_path nb) node.version s2 in
      if nb.is_differential then D.upload (differential_path nb) (codes "differential") s3 else s3

  -- `start_backup`; `turn` is `wait_for_turn`, or what a backup without stagger time does.
  unfoldable pub start_backup :
      NodeBackup
      → Node
      → Bool
      → (D.State → Result (Unit {0}) × D.State)
      → D.State
      → Result Progress × D.State
  unfolding do_backup save_metadata add_backup_start_to_index
  start_backup nb node use_existing_snapshot turn s =
      if use_existing_snapshot && not node.snapshot_exists
      then (err io_error, s)
      else and_then file_matches_storage upload_blobs prefix_path
          (continue D prefix_path
            (add_backup_start_to_index D prefix_path nb (save_metadata nb node s)) turn)
          (λ _. do_backup nb node)

-- The store, the manager of running backups, and whether the marker file is there.
pub record Host (S : Type 0) : Type 0 where
  pub store : S
  pub manager : Manager
  pub marker : Bool

module _ (D : Driver) (grpc_enabled : Text) where
  -- The status of the backup, set after the step before it has ended well.
  abbrev pub set_after :
      {A : Type 0}
      → Result A
      → Result (Unit {0}) × Manager
      → D.State
      → Bool
      → Result A × Host D.State
  set_after r (err e, m) s marker = (err e, record { store = s; manager = m; marker = marker })
  set_after r (ok u, m) s marker = (r, record { store = s; manager = m; marker = marker })

  -- The body of the `try`, once the backup is in progress.
  unfoldable pub after_start :
      {A : Type 0} → Text → Result A × D.State → Manager → Bool → Result A × Host D.State
  unfolding update_backup_status
  after_start name (err e, s) m marker = (err e, record { store = s; manager = m; marker = marker })
  after_start name (ok a, s) m marker =
      set_after (ok a) (update_backup_status name status_success m) s marker

  unfoldable pub when_in_progress :
      {A : Type 0}
      → Text
      → (D.State → Result A × D.State)
      → D.State
      → Bool
      → Result (Unit {0}) × Manager
      → Result A × Host D.State
  unfolding after_start
  when_in_progress name start s marker (err e, m) =
      (err e, record { store = s; manager = m; marker = marker })
  when_in_progress name start s marker (ok u, m) = after_start name (start s) m marker

  unfoldable pub try_backup :
      {A : Type 0}
      → Text
      → NodeBackup
      → Bool
      → (D.State → Result A × D.State)
      → Host D.State
      → Result A × Host D.State
  unfolding when_in_progress update_backup_status
  try_backup name nb use_existing_snapshot start h =
      if backup_exists D nb h.store && not use_existing_snapshot
      then (err io_error, h)
      else when_in_progress name start h.store h.marker
          (update_backup_status name status_in_progress h.manager)

  -- The `except` clause: the update may raise in its turn.
  abbrev pub fail_with :
      {A : Type 0} → Result A → Result (Unit {0}) × Manager → Host D.State → Result A × Host D.State
  fail_with r (err e, m) h = (err e, record h { manager = m })
  fail_with r (ok u, m) h = (r, record h { manager = m })

  unfoldable pub on_failure :
      {A : Type 0} → Text → Result A × Host D.State → Result A × Host D.State
  unfolding handle_exception
  on_failure name (ok a, h) = (ok a, h)
  on_failure name (err e, h) =
      fail_with (err (handle_exception e grpc_enabled))
        (update_backup_status name status_failed h.manager) h

  -- `handle_backup`; `start` is the call of `start_backup`. The marker is a new object in each
  -- call.
  unfoldable pub handle_backup :
      {A : Type 0}
      → Text
      → NodeBackup
      → Bool
      → (D.State → Result A × D.State)
      → Host D.State
      → Result A × Host D.State
  unfolding try_backup on_failure marker_exists create delete
  handle_backup name nb use_existing_snapshot start h =
      if marker_exists new_temp_file h.marker
      then (err io_error, h)
      else (let (t, file) = create new_temp_file h.marker in
          let (r, h') =
            on_failure name
              (try_backup name nb use_existing_snapshot start (record h { marker = file })) in
          (r, record h' { marker = delete t h'.marker }))
