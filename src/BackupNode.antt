-- ===== src/BackupNode.antt =====
-- medusa/backup_node.py: the backup of a node. The snapshot of Cassandra, the upload of files and
-- the comparison of a file with the storage (`file_matches_storage`) are parameters.
pub mod Upload
pub mod Run
pub mod Stagger
use cassandra_medusa.Base.{
  ℕ, zero, suc, ◌+◌, ◌-◌, Bool, true, false, not, ◌&&◌, ◌||◌, Option, none, some, List, [], ◌∷◌,
  ◌++◌, ◌==◌, length, filter, map, any, truthy, get_elem?, drop, is_some, if◌then◌else◌,
}
use cassandra_medusa.Base.{Result, ok, err, key_error, value_error, io_error, ◌>>=◌}
use cassandra_medusa.Base.Int.{ℤ, leb_ℤ, eq_ℤ}
use cassandra_medusa.Base.Text.{Text, codes, text_eq, mem, split, join}
use cassandra_medusa.Base.Dict.{Dict, lookup}
use cassandra_medusa.Base.Sort.{sorted}
use cassandra_medusa.Manifest.{ManifestObject, Section, Manifest}
use cassandra_medusa.TokenMap.{RingItem, TokenMap}
use cassandra_medusa.Storage.Driver.{Driver}
use cassandra_medusa.Storage.NodeBackup.{Json, NodeBackup, datapath, finished}
use cassandra_medusa.Storage.Listing.{list_node_backups}
use cassandra_medusa.Storage.Tables.{FilesPerTable, name_of, sanitize_keyspace_and_table_name}

-- A table's directory of the snapshot.
pub record SnapshotPath : Type 0 where
  pub keyspace : Text
  pub columnfamily : Text
  pub files : List Text

-- The three lists of `check_already_uploaded`.
pub record Checked : Type 0 where
  pub needs_backup : List Text
  pub needs_reupload : List Text
  pub already_backed_up : List ManifestObject

unfoldable pub never_backed_up : Text → Bool
unfolding mem name_of
never_backed_up src = mem (name_of src) (codes "manifest.json" ∷ codes "schema.cql" ∷ [])

abbrev or_empty : {V : Type 0} → Option (Dict V) → Dict V
or_empty none = []
or_empty (some d) = d

module _ (file_matches_storage : Text → ManifestObject → Bool) where
  -- One round of the loop over the files, with what the storage has under the file's name.
  unfoldable pub sort_file : Text → Option ManifestObject → Checked → Checked
  sort_file src none c = record c { needs_backup = src ∷ c.needs_backup }
  sort_file src (some item) c =
      if file_matches_storage src item
      then record c { already_backed_up = item ∷ c.already_backed_up }
      else record c { needs_reupload = src ∷ c.needs_reupload }

  -- `files_in_storage.get(table, {}).get(name)`
  unfoldable pub item_in_storage : Dict (Dict ManifestObject) → Text → Text → Option ManifestObject
  item_in_storage stored table name = lookup name (or_empty (lookup table stored))

  -- The three lists are filled from the front, in the order of the files.
  unfoldable pub check_files : Dict (Dict ManifestObject) → List Text → Result Checked
  unfolding sort_file item_in_storage never_backed_up sanitize_keyspace_and_table_name
  check_files stored [] =
      ok (record { needs_backup = []; needs_reupload = []; already_backed_up = [] })
  check_files stored (src ∷ srcs) =
      let rest = check_files stored srcs in
      if never_backed_up src
      then rest
      else (sanitize_keyspace_and_table_name src >>= λ place.
          rest >>= λ c. ok (sort_file src (item_in_storage stored place.1 (name_of src)) c))

  unfoldable pub check_already_uploaded : Bool → FilesPerTable → Text → List Text → Result Checked
  unfolding check_files
  check_already_uploaded is_differential files_in_storage keyspace srcs =
      if is_differential
      then check_files (or_empty (lookup keyspace files_in_storage)) srcs
      else ok (record {
        needs_backup = filter (λ src. not (never_backed_up src)) srcs;
        needs_reupload = [];
        already_backed_up = [];
      })

-- The chunks of a list from the first that is `x` on; ValueError where none is.
unfoldable pub from_index : Text → List Text → Result (List Text)
from_index x [] = err value_error
from_index x (y ∷ ys) = let rest = from_index x ys in if text_eq y x then ok (y ∷ ys) else rest

unfoldable pub url_to_path : Text → Text → Text → Result Text
unfolding from_index split join
url_to_path prefix_path url fqdn =
    from_index fqdn (split b'/' url) >>= λ parts. ok (prefix_path ++ join (codes "/") parts)

unfoldable pub manifest_objects : Text → Text → List ManifestObject → Result (List ManifestObject)
unfolding url_to_path
manifest_objects prefix_path fqdn [] = ok []
manifest_objects prefix_path fqdn (o ∷ os) = url_to_path prefix_path o.path fqdn >>= λ path.
    manifest_objects prefix_path fqdn os >>= λ rest. ok (record o { path = path } ∷ rest)

unfoldable pub make_manifest_object :
    Text → Text → SnapshotPath → List ManifestObject → Result Section
unfolding manifest_objects
make_manifest_object prefix_path fqdn dir os = manifest_objects prefix_path fqdn os >>= λ objects.
    ok (record { keyspace = dir.keyspace; columnfamily = dir.columnfamily; objects = objects })

-- The three counts of `backup_snapshots`, and the manifest that it extends.
pub record Progress : Type 0 where
  pub num_files : ℕ
  pub replaced : ℕ
  pub kept : ℕ
  pub manifest : Manifest

module _ {S : Type 0} (file_matches_storage : Text → ManifestObject → Bool)
    (upload_blobs : List Text → Text → S → List ManifestObject × S) (prefix_path : Text) where
  -- Nothing is uploaded where nothing needs it.
  unfoldable pub upload_needed : List Text → Text → S → List ManifestObject × S
  upload_needed [] dst s = ([], s)
  upload_needed (src ∷ srcs) dst s = upload_blobs (src ∷ srcs) dst s

  -- The objects of the manifest: in a differential backup also those already in the storage.
  unfoldable pub table_objects : NodeBackup → Checked → List ManifestObject → List ManifestObject
  table_objects nb c uploaded =
      if nb.is_differential then uploaded ++ c.already_backed_up else uploaded

  unfoldable pub count_table :
      NodeBackup → SnapshotPath → Checked → Progress → List ManifestObject → Result Progress
  unfolding make_manifest_object
  count_table nb dir c p objects =
      make_manifest_object prefix_path nb.fqdn dir objects >>= λ section. ok (record {
        num_files = p.num_files + (length c.needs_backup + length c.needs_reupload);
        replaced = p.replaced + length c.needs_reupload;
        kept = p.kept + length c.already_backed_up;
        manifest = p.manifest ++ (section ∷ []);
      })

  -- One round, after the check of the table's files.
  unfoldable pub backup_table :
      NodeBackup → SnapshotPath → Checked → Progress → S → Result Progress × S
  unfolding count_table table_objects upload_needed datapath
  backup_table nb dir c p s =
      let dst = datapath nb dir.keyspace dir.columnfamily in
      let (uploaded, s') = upload_needed (c.needs_backup ++ c.needs_reupload) dst s in
      (count_table nb dir c p (table_objects nb c uploaded), s')

  abbrev backup_checked :
      NodeBackup → SnapshotPath → Result Checked → Progress → S → Result Progress × S
  unfolding backup_table
  backup_checked nb dir (err e) p s = (err e, s)
  backup_checked nb dir (ok c) p s = backup_table nb dir c p s

  abbrev pub and_then : {A B : Type 0} → Result A × S → (A → S → Result B × S) → Result B × S
  and_then (err e, s) f = (err e, s)
  and_then (ok a, s) f = f a s

  unfoldable pub backup_snapshots :
      NodeBackup → FilesPerTable → List SnapshotPath → Progress → S → Result Progress × S
  unfolding backup_checked check_already_uploaded
  backup_snapshots nb files_in_storage [] p s = (ok p, s)
  backup_snapshots nb files_in_storage (dir ∷ dirs) p s =
      and_then
        (backup_checked nb dir
          (check_already_uploaded file_matches_storage nb.is_differential files_in_storage
            dir.keyspace dir.files)
          p s)
        (backup_snapshots nb files_in_storage dirs)
