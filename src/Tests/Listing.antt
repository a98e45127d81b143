-- ===== src/Tests/Listing.antt =====
-- The listing of the storage of the fixture, and what depends on it.
use cassandra_medusa.Base.{
  ℕ, Bool, true, false, Option, none, some, List, [], ◌∷◌, ◌++◌, ◌≡◌, ◌↔◌, refl, ap, inl, map, All,
  is_some, length, if◌then◌else◌,
}
use cassandra_medusa.Base.{Result, ok, err}
use cassandra_medusa.Base.Sort.{IsSorted}
use cassandra_medusa.Base.Text.{Text, codes, mem}
use cassandra_medusa.Base.Dict.{keys}
use cassandra_medusa.Manifest.{ManifestObject}
use cassandra_medusa.Tests.Fixture.{store_driver, json, one_backup, backup_b1, one_manifest}
use cassandra_medusa.Storage.Driver.{list_objects}
use cassandra_medusa.Storage.LocalStorage.{local_blob_matches_manifest}
use cassandra_medusa.Storage.NodeBackup.{manifest, started}
use cassandra_medusa.Storage.Listing.{list_node_backups}
use cassandra_medusa.Storage.Listing.Existing.{started_before, list_node_backups-IsSorted}
use cassandra_medusa.Purge.{
  get_file_paths_from_manifests_for_complete_differential_backups, get_file_paths_from_storage,
  cleanup_obsolete_files, manifest_paths, purge_backup, total_size,
}
use cassandra_medusa.Purge.Cleanup.{obsolete, cleanup_exact, cleanup_keeps_referenced}
use cassandra_medusa.Purge.Backup.{purged_names, purge_backup_exact}
use cassandra_medusa.Verify.{
  validate_manifest, objects_in_storage, objects_in_manifest, load_manifest,
}
use cassandra_medusa.Verify.Consistency.{Stored, validate_manifest_exact}

list_one_backup :
    list_node_backups store_driver [] (some (codes "n1")) none one_backup
    ≡ (ok (backup_b1 ∷ []), one_backup)
unfolding list_node_backups cassandra_medusa.Base.filter list_objects
    cassandra_medusa.Storage.LocalStorage.local_list_blobs
    cassandra_medusa.Storage.Names.get_fqdn_from_any_index_blob cassandra_medusa.Base.Dict.lookup
    cassandra_medusa.Base.Sort.groupby cassandra_medusa.Base.Sort.sorted
    cassandra_medusa.Base.Text.leb_text cassandra_medusa.Base.Dict.insert
    cassandra_medusa.Storage.Names.get_timestamp_from_blob_name started
    cassandra_medusa.Storage.NodeBackup.node_backup
    cassandra_medusa.Storage.NodeBackup.backup_exists
    cassandra_medusa.Storage.LocalStorage.local_get_object
    cassandra_medusa.Storage.NodeBackup.schema_path
list_one_backup = refl

list_node_backups-IsSorted_example :
    IsSorted (started_before store_driver [] one_backup) (backup_b1 ∷ [])
    × All (λ nb. is_some (started store_driver nb one_backup) ≡ true) (backup_b1 ∷ [])
list_node_backups-IsSorted_example =
    list_node_backups-IsSorted store_driver [] (some (codes "n1")) none one_backup one_backup
      (backup_b1 ∷ []) list_one_backup

paths_in_manifest :
    get_file_paths_from_manifests_for_complete_differential_backups store_driver json
      (backup_b1 ∷ [])
      one_backup
    ≡ ok (codes "n1/data/ks/t/f1" ∷ [])
unfolding get_file_paths_from_manifests_for_complete_differential_backups manifest
    cassandra_medusa.Storage.Driver.get_blob_content_as_string
    cassandra_medusa.Storage.LocalStorage.local_get_object cassandra_medusa.Base.Dict.lookup
    cassandra_medusa.Base.Text.text_eq cassandra_medusa.Storage.NodeBackup.manifest_path
    cassandra_medusa.Base.Text.path_join
paths_in_manifest = refl

-- At a time long after the backup, and without a grace period, f2 is deleted.
cleanup_exact_example :
    store_driver.get_blob
      (cleanup_obsolete_files store_driver json [] 1000000000000 (codes "n1") 0 one_backup).1
      (codes "n1/data/ks/t/f2")
    ≡ (if obsolete 1000000000000 0
          (codes "n1/data/ks/t/f1" ∷ [])
          (get_file_paths_from_storage store_driver [] (codes "n1") one_backup)
          (codes "n1/data/ks/t/f2")
        then none
        else store_driver.get_blob one_backup (codes "n1/data/ks/t/f2"))
cleanup_exact_example =
    cleanup_exact store_driver json [] 1000000000000 (codes "n1") 0 one_backup one_backup
      (backup_b1 ∷ []) (codes "n1/data/ks/t/f1" ∷ []) (codes "n1/data/ks/t/f2") list_one_backup
      paths_in_manifest

manifest_b1 : manifest store_driver backup_b1 one_backup ≡ some (codes "m")
unfolding manifest cassandra_medusa.Storage.Driver.get_blob_content_as_string
    cassandra_medusa.Storage.LocalStorage.local_get_object cassandra_medusa.Base.Dict.lookup
    cassandra_medusa.Base.Text.text_eq cassandra_medusa.Storage.NodeBackup.manifest_path
    cassandra_medusa.Base.Text.path_join cassandra_medusa.Storage.LocalStorage.local_read_blob
manifest_b1 = refl

f1_in_manifest : mem (codes "n1/data/ks/t/f1") (manifest_paths one_manifest) ≡ true
unfolding mem manifest_paths cassandra_medusa.Base.Text.text_eq
f1_in_manifest = refl

cleanup_keeps_referenced_example :
    store_driver.get_blob
      (cleanup_obsolete_files store_driver json [] 1000000000000 (codes "n1") 0 one_backup).1
      (codes "n1/data/ks/t/f1")
    ≡ store_driver.get_blob one_backup (codes "n1/data/ks/t/f1")
cleanup_keeps_referenced_example =
    cleanup_keeps_referenced store_driver json [] 1000000000000 (codes "n1") 0 one_backup one_backup
      (backup_b1 ∷ []) backup_b1 (codes "m") one_manifest (codes "n1/data/ks/t/f1") list_one_backup
      (inl refl) refl manifest_b1 refl f1_in_manifest

validate_manifest_exact_example :
    (validate_manifest store_driver json
        (λ _. [])
        (λ b o _. local_blob_matches_manifest b o)
        backup_b1
        false
        one_backup
      ≡ [])
    ↔ (All
          (Stored store_driver json
            (λ _. [])
            (λ b o _. local_blob_matches_manifest b o)
            []
            (objects_in_storage store_driver json
              (λ _. [])
              (λ b o _. local_blob_matches_manifest b o)
              backup_b1
              one_backup)
            false)
          (objects_in_manifest one_manifest)
        × (backup_b1.is_differential ≡ false
            → All
                (λ p.
                  mem p
                    (map (λ (o : ManifestObject). [] ++ o.path) (objects_in_manifest one_manifest))
                  ≡ true)
                (keys (
                  objects_in_storage store_driver json
                    (λ _. [])
                    (λ b o _. local_blob_matches_manifest b o)
                    backup_b1
                    one_backup))))
validate_manifest_exact_example =
    validate_manifest_exact store_driver json (λ _. []) (λ b o _. local_blob_matches_manifest b o)
      backup_b1 false one_backup one_manifest
      (ap (load_manifest store_driver json (λ _. []) (λ b o _. local_blob_matches_manifest b o))
        manifest_b1)

-- Backups of a second node whose path begins with that of b1.
purge_backup_exact_example :
    ((purge_backup store_driver [] backup_b1 one_backup).0 ≡ (
      length (list_objects store_driver one_backup (codes "n1/b1")),
      total_size (list_objects store_driver one_backup (codes "n1/b1")),
    ))
    × (store_driver.get_blob
          (purge_backup store_driver [] backup_b1 one_backup).1
          (codes "n1/data/ks/t/f1")
        ≡ (if mem (codes "n1/data/ks/t/f1") (purged_names store_driver [] backup_b1 one_backup)
            then none
            else store_driver.get_blob one_backup (codes "n1/data/ks/t/f1")))
purge_backup_exact_example =
    purge_backup_exact store_driver [] backup_b1 one_backup (codes "n1/data/ks/t/f1")
