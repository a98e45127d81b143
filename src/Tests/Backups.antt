-- ===== src/Tests/Backups.antt =====
-- The backup of a node: its files, its run, and where the files are found again.
use cassandra_medusa.Base.{
  ℕ, ◌+◌, ◌≤◌, ◌<◌, Bool, true, false, not, ◌&&◌, Option, none, some, List, [], ◌∷◌, ◌++◌, ◌≡◌,
  refl, inl, inr, map, length, arith, if◌then◌else◌, ltb, ◌==◌,
}
use cassandra_medusa.Base.{Exception, Result, ok, err, io_error, runtime_error}
use cassandra_medusa.Base.Text.{Text, codes}
use cassandra_medusa.Manifest.{ManifestObject}
use cassandra_medusa.ClusterBackup.{section_counts}
use cassandra_medusa.BackupManager.{status_unknown}
use cassandra_medusa.Storage.NodeBackup.{NodeBackup, backup_exists}
use cassandra_medusa.Storage.Tables.{sanitize_keyspace_and_table_name}
use cassandra_medusa.Storage.Tables.RoundTrip.{sanitize-stored_path}
use cassandra_medusa.Tests.Fixture.{store_driver, one_backup, backup_b1, kept_file}
use cassandra_medusa.BackupNode.{SnapshotPath, Progress, backup_snapshots}
use cassandra_medusa.BackupNode.Upload.{total_files, backup_snapshots_conserves}
use cassandra_medusa.BackupNode.Stagger.{stagger_loop, stagger_loop_ends}
use cassandra_medusa.BackupNode.Run.{Host, no_progress, handle_backup}
use cassandra_medusa.BackupNode.Run.Outcome.{IsOutcome, handle_backup-IsOutcome}

-- An upload that puts each file under its table's folder; the store counts the files.
abbrev upload_all : List Text → Text → ℕ → List ManifestObject × ℕ
upload_all srcs dst n =
    (map (λ src. record { path = dst ++ src; size = 1; md5 = codes "x" }) srcs, n + length srcs)

length-upload_all :
    (srcs : List Text) (dst : Text) (n : ℕ) → length (upload_all srcs dst n).0 ≡ length srcs
length-upload_all [] dst n = refl
length-upload_all (src ∷ srcs) dst n = omega (arith, length-upload_all srcs dst n)

abbrev table_dir : SnapshotPath
table_dir = record {
  keyspace = codes "ks";
  columnfamily = codes "t";
  files =
      codes "/d/ks/t/snapshots/b1/f1"
      ∷ codes "/d/ks/t/snapshots/b1/f2"
      ∷ codes "/d/ks/t/snapshots/b1/manifest.json"
      ∷ [];
}

-- f1 is in the storage already, f2 is not, and manifest.json is not backed up.
abbrev one_table : Progress
one_table = record {
  num_files = 1;
  replaced = 0;
  kept = 1;
  manifest =
      record {
        keyspace = codes "ks";
        columnfamily = codes "t";
        objects =
            record { path = codes "n1/data/ks/t/d/ks/t/snapshots/b1/f2"; size = 1; md5 = codes "x" }
            ∷ kept_file
            ∷ [];
      }
      ∷ [];
}

one_table_run :
    backup_snapshots
      (λ _ _. true)
      upload_all
      []
      backup_b1
      ((codes "ks", (codes "t", (codes "f1", kept_file) ∷ []) ∷ []) ∷ [])
      (table_dir ∷ [])
      no_progress
      0
    ≡ (ok one_table, 1)
unfolding backup_snapshots cassandra_medusa.Base.Dict.lookup cassandra_medusa.Base.Text.path_join
one_table_run = refl

backup_snapshots_conserves_example :
    (1 + 1 ≡ 0 + 0 + total_files (table_dir ∷ []))
    × (section_counts one_table.manifest + (0 + 0) ≡ section_counts [] + (1 + 1))
    × (0 + 0 ≤ 0 + 1)
backup_snapshots_conserves_example =
    backup_snapshots_conserves (λ _ _. true) upload_all [] length-upload_all backup_b1
      ((codes "ks", (codes "t", (codes "f1", kept_file) ∷ []) ∷ []) ∷ []) (table_dir ∷ [])
      no_progress one_table 0 1 one_table_run

-- The node in front finishes before the third look.
abbrev third_look : ℕ → Result Bool
third_look k = ok (ltb 1 k)

stagger_loop_ends_example :
    stagger_loop 9 third_look (λ _. true) 0 ≡ (if true then ok 2 else err io_error)
stagger_loop_ends_example =
    stagger_loop_ends third_look (λ _. true) 9 2 true (omega arith) (λ k h. (ground arith, refl))
      refl (λ e. ground arith)

abbrev host : Host store_driver.State
host = record {
  store = one_backup;
  manager =
      some ((codes "b2", record { future = none; status = status_unknown; is_async = false }) ∷ []);
  marker = true;
}

abbrev backup_b2 : NodeBackup
backup_b2 = record backup_b1 {
  name = codes "b2";
  meta_path = codes "n1/b2/meta";
  schema_blob = none;
}

-- A backup whose snapshot cannot be taken.
handle_backup-IsOutcome_example :
    IsOutcome store_driver
      (codes "false")
      (codes "b2")
      (if backup_exists store_driver backup_b2 one_backup && not false
        then err io_error
        else err runtime_error)
      (handle_backup store_driver
        (codes "false")
        {A = ℕ}
        (codes "b2")
        backup_b2
        false
        (λ s. (err runtime_error, s))
        host)
    × ((handle_backup store_driver
          (codes "false")
          {A = ℕ}
          (codes "b2")
          backup_b2
          false
          (λ s. (err runtime_error, s))
          host).1.marker
        ≡ false)
unfolding cassandra_medusa.Base.Dict.lookup cassandra_medusa.Base.Text.text_eq
handle_backup-IsOutcome_example =
    handle_backup-IsOutcome store_driver (codes "false") (codes "b2") backup_b2 false
      (λ s. (err runtime_error, s)) host refl

sanitize-stored_path_example :
    sanitize_keyspace_and_table_name (codes "n1/data/ks/t/f1") ≡ ok (codes "ks", codes "t")
unfolding cassandra_medusa.Base.Text.starts_with cassandra_medusa.Storage.Tables.is_2i_or_dse
sanitize-stored_path_example =
    sanitize-stored_path (codes "n1/data") (codes "ks") (codes "t") (codes "f1") refl
      (refl, (refl, tt)) (refl, tt) (refl, (refl, tt)) refl
