-- ===== src/Download.antt =====
-- medusa/download.py: the files of a backup that are fetched, and the checks before. A call of the
-- storage driver is listed instead of made.
use cassandra_medusa.Base.{
  ℕ, Bool, true, ◌&&◌, Option, List, [], ◌∷◌, ◌++◌, ltb, map, if◌then◌else◌,
}
use cassandra_medusa.Base.{Exception, Result, ok, err, runtime_error, system_exit}
use cassandra_medusa.Base.Text.{Text, codes, mem, path_join, set_add, starts_with}
use cassandra_medusa.Manifest.{Section, Manifest}
use cassandra_medusa.Filtering.{filter_fqtns, fqtn_with_id}
use cassandra_medusa.Effects.{Run, done, raise, lift, attempt, for_each, ◌>>=◌}
use cassandra_medusa.ClusterBackup.{section_sizes}

-- What is done on the host and with the storage.
pub data Fetch : Type 0 where
  made_folder : Text → Fetch
  downloaded : List Text → Text → Fetch

-- `_get_download_size` and `_check_available_space`; `available` is the free space.
unfoldable pub get_download_size : Manifest → ℕ
unfolding section_sizes
get_download_size = section_sizes

unfoldable pub check_available_space : ℕ → Manifest → Result (Unit {0})
unfolding get_download_size
check_available_space available manifest =
    if ltb available (get_download_size manifest) then err runtime_error else ok tt

abbrev pub is_wanted : List Text → Section → Bool
unfolding mem fqtn_with_id
is_wanted [] s = true
is_wanted (f ∷ fqtns) s = mem (fqtn_with_id s) (f ∷ fqtns)

-- The hidden folders that the files of a table are in, each once; `parent` is the name of the folder
-- of a path.
unfoldable pub subfolders : (Text → Text) → Text → List Text → List Text → List Text
unfolding set_add path_join starts_with
subfolders parent dst [] found = found
subfolders parent dst (src ∷ srcs) found = subfolders parent dst srcs (
    if starts_with (parent src) (codes ".")
    then set_add (path_join dst (parent src)) found
    else found)

module _ (fails : Fetch → Option Exception) (parent : Text → Text) (prefix : Text) where
  abbrev act : Fetch → Run Fetch (Unit {0})
  act = attempt fails

  abbrev pub sources : Section → List Text
  sources s = map (λ o. prefix ++ o.path) s.objects

  abbrev fetch_files : Text → List Text → Run Fetch (Unit {0})
  unfolding subfolders for_each
  fetch_files dst [] = done tt
  fetch_files dst (src ∷ srcs) = do
    _ ← act (made_folder dst)
    _ ← for_each (λ d. act (made_folder d)) (subfolders parent dst (src ∷ srcs) [])
    act (downloaded (src ∷ srcs) dst)

  unfoldable pub download_section : List Text → Text → Section → Run Fetch (Unit {0})
  unfolding fetch_files is_wanted path_join
  download_section fqtns destination s =
      if is_wanted fqtns s
      then fetch_files (path_join (path_join destination s.keyspace) s.columnfamily) (sources s)
      else done tt

  -- `metadata` are the paths of the manifest, the schema and the token map.
  unfoldable pub download_data :
      ℕ → Result Manifest → List Text → Text → List Text → Run Fetch (Unit {0})
  unfolding check_available_space download_section for_each
  download_data available manifest fqtns destination metadata = do
    m ← lift manifest
    _ ← lift (check_available_space available m)
    _ ← for_each (download_section fqtns destination) m
    act (downloaded metadata destination)

  -- `download_cmd`; `exists_` tells whether the node backup exists.
  unfoldable pub download_cmd :
      ℕ
      → Bool
      → Bool
      → Result Manifest
      → List Text
      → List Text
      → Bool
      → Text
      → List Text
      → Run Fetch (Unit {0})
  unfolding download_data filter_fqtns
  download_cmd available is_dir exists_ manifest keyspaces tables ignore_system destination
        metadata =
      if is_dir && exists_
      then (lift manifest >>= λ m.
          download_data available (ok m) (filter_fqtns keyspaces tables m ignore_system).0
            destination metadata)
      else raise (system_exit 1)
