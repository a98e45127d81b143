-- ===== src/Verify.antt =====
-- medusa/verify.py: a backup against the storage. `get_path_prefix` and `blob_matches_manifest`
-- are those of the storage driver.
pub mod Consistency
use cassandra_medusa.Base.{
  Bool, true, false, not, ◌&&◌, Option, none, some, List, [], ◌∷◌, ◌++◌, ◌≡◌, filter, map, flat_map,
  if◌then◌else◌,
}
use cassandra_medusa.Base.{Result, ok, err, runtime_error, ◌>>=◌}
use cassandra_medusa.Base.Text.{Text, codes, contains, mem}
use cassandra_medusa.Base.Dict.{Dict, lookup, insert, keys, values}
use cassandra_medusa.Manifest.{ManifestObject, Section, Manifest}
use cassandra_medusa.Storage.Driver.{Blob, Driver, list_objects}
use cassandra_medusa.Storage.NodeBackup.{Json, NodeBackup, manifest}

-- The errors that the source prints, with the path that each names.
pub data Problem : Type 0 where
  does_not_exist blob_different not_in_manifest : Text → Problem

abbrev pub is_statistics : Text → Bool
is_statistics path = contains (codes "-Statistics.db") path

abbrev pub blobs_dict : List Blob → Dict Blob → Dict Blob
blobs_dict [] d = d
blobs_dict (b ∷ bs) d = blobs_dict bs (insert b.name b d)

unfoldable pub objects_in_manifest : Manifest → List ManifestObject
objects_in_manifest [] = []
objects_in_manifest (s ∷ m) =
    filter (λ o. not (is_statistics o.path)) s.objects ++ objects_in_manifest m

module _ (D : Driver) (J : Json) (get_path_prefix : Text → Text)
    (blob_matches_manifest : Blob → ManifestObject → Bool → Bool) where
  -- `json.loads(node_backup.manifest)`, `none` where it raises.
  abbrev pub load_manifest : Option Text → Option Manifest
  load_manifest none = none
  load_manifest (some t) = J.loads_manifest t

  unfoldable pub objects_in_storage : NodeBackup → D.State → Dict Blob
  objects_in_storage nb s =
      blobs_dict (filter (λ b. not (is_statistics b.name)) (list_objects D s nb.data_path)) []

  -- One round of the loop over the objects of the manifest.
  unfoldable pub compare_object : Bool → ManifestObject → Option Blob → List Problem
  compare_object enable_md5_checks o none = does_not_exist o.path ∷ []
  compare_object enable_md5_checks o (some blob) =
      if blob_matches_manifest blob o enable_md5_checks
      then []
      else if contains (codes "-Summary.db") blob.name
      then []
      else blob_different o.path ∷ []

  unfoldable pub check_object : Text → Dict Blob → Bool → ManifestObject → List Problem
  unfolding compare_object
  check_object data_path_prefix stored enable_md5_checks o =
      compare_object enable_md5_checks o (lookup (data_path_prefix ++ o.path) stored)

  unfoldable pub check_objects : Text → Dict Blob → Bool → List ManifestObject → List Problem
  unfolding check_object
  check_objects data_path_prefix stored enable_md5_checks [] = []
  check_objects data_path_prefix stored enable_md5_checks (o ∷ os) =
      check_object data_path_prefix stored enable_md5_checks o
      ++ check_objects data_path_prefix stored enable_md5_checks os

  unfoldable pub check_extras : Text → Dict Blob → List ManifestObject → List Problem
  check_extras data_path_prefix stored os =
      let paths_in_manifest = map (λ (o : ManifestObject). data_path_prefix ++ o.path) os in
      map not_in_manifest (filter (λ p. not (mem p paths_in_manifest)) (keys stored))

  -- A manifest that cannot be read gives no problem.
  abbrev pub validate_loaded : NodeBackup → Bool → D.State → Option Manifest → List Problem
  validate_loaded nb enable_md5_checks s none = []
  validate_loaded nb enable_md5_checks s (some m) =
      let data_path_prefix = get_path_prefix nb.data_path in
      let stored = objects_in_storage nb s in
      let os = objects_in_manifest m in
      check_objects data_path_prefix stored enable_md5_checks os
      ++ (if nb.is_differential then [] else check_extras data_path_prefix stored os)

  unfoldable pub validate_manifest : NodeBackup → Bool → D.State → List Problem
  unfolding check_objects check_extras objects_in_storage objects_in_manifest
  validate_manifest nb enable_md5_checks s =
      validate_loaded nb enable_md5_checks s (load_manifest (manifest D nb s))

  -- The end of `verify`: the backups of the nodes, once the cluster backup is complete.
  unfoldable pub verify_nodes : List NodeBackup → Bool → D.State → Result (List Problem)
  unfolding validate_manifest
  verify_nodes nbs enable_md5 s = elim (flat_map (λ nb. validate_manifest nb enable_md5 s) nbs) [
    | [] ↦ ok []
    | e ∷ es ↦ err runtime_error
  ]
