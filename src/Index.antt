-- ===== src/Index.antt =====
-- medusa/index.py: the entries of the backup index.
pub mod Build
use cassandra_medusa.Base.{
  ℕ, Bool, Option, none, some, List, ◌++◌, leb, filter, length, ltb, if◌then◌else◌,
}
use cassandra_medusa.Base.{Result, ok, err, type_error, ◌>>=◌}
use cassandra_medusa.Base.Text.{Text, codes, contains, decimal}
use cassandra_medusa.Base.Dict.{Dict, lookup, insert}
use cassandra_medusa.Storage.Driver.{Blob, Driver, list_objects, delete_each}
use cassandra_medusa.Storage.NodeBackup.{NodeBackup, tokenmap, schema, manifest, started, finished}

-- '{}index/backup_index/{}/'
unfoldable pub entry_path : Text → Text → Text → Text
entry_path prefix_path name file =
    prefix_path ++ codes "index/backup_index/" ++ name ++ codes "/" ++ file

unfoldable pub latest_path : Text → Text → Text → Text
latest_path prefix_path fqdn file =
    prefix_path ++ codes "index/latest_backup/" ++ fqdn ++ codes "/" ++ file

-- str(None) is 'None'.
unfoldable pub optional_number : Option ℕ → Text
unfolding decimal
optional_number none = codes "None"
optional_number (some n) = decimal n

module _ (D : Driver) (prefix_path : Text) where
  -- Encoding None raises TypeError, and what was uploaded before stays.
  unfoldable pub upload_text : Text → Result Text → D.State → Result (Unit {0}) × D.State
  upload_text dst (err e) s = (err e, s)
  upload_text dst (ok t) s = (ok tt, D.upload dst t s)

  abbrev pub or_type_error : Option Text → Result Text
  or_type_error none = err type_error
  or_type_error (some t) = ok t

  abbrev pub continue :
      Result (Unit {0}) × D.State
      → (D.State → Result (Unit {0}) × D.State)
      → Result (Unit {0}) × D.State
  continue (ok a, s) f = f s
  continue (err e, s) f = (err e, s)

  unfoldable pub add_backup_start_to_index : NodeBackup → D.State → Result (Unit {0}) × D.State
  unfolding upload_text entry_path optional_number
  add_backup_start_to_index nb s =
      continue
        (upload_text
          (entry_path prefix_path nb.name (codes "tokenmap_" ++ nb.fqdn ++ codes ".json"))
          (tokenmap D nb s) s)
        λ s.
          continue
            (upload_text
              (entry_path prefix_path nb.name (codes "schema_" ++ nb.fqdn ++ codes ".cql"))
              (or_type_error (schema D nb s)) s)
            λ s.
              continue
                (upload_text
                  (entry_path prefix_path nb.name (
                    codes "started_"
                    ++ nb.fqdn
                    ++ codes "_"
                    ++ optional_number (started D nb s)
                    ++ codes ".timestamp"))
                  (ok (optional_number (started D nb s))) s)
                λ s.
                  if nb.is_differential
                  then upload_text
                      (entry_path prefix_path nb.name (codes "differential_" ++ nb.fqdn))
                      (ok (codes "differential")) s
                  else (ok tt, s)

  unfoldable pub add_backup_finish_to_index : NodeBackup → D.State → Result (Unit {0}) × D.State
  unfolding upload_text entry_path optional_number
  add_backup_finish_to_index nb s =
      continue
        (upload_text
          (entry_path prefix_path nb.name (codes "manifest_" ++ nb.fqdn ++ codes ".json"))
          (or_type_error (manifest D nb s)) s)
        λ s.
          upload_text
            (entry_path prefix_path nb.name (
              codes "finished_"
              ++ nb.fqdn
              ++ codes "_"
              ++ optional_number (finished D nb s)
              ++ codes ".timestamp"))
            (ok (optional_number (finished D nb s))) s

  unfoldable pub set_latest_backup_in_index : NodeBackup → D.State → Result (Unit {0}) × D.State
  unfolding upload_text latest_path
  set_latest_backup_in_index nb s =
      continue
        (upload_text (latest_path prefix_path nb.fqdn (codes "tokenmap.json")) (tokenmap D nb s) s)
        λ s. upload_text (latest_path prefix_path nb.fqdn (codes "backup_name.txt")) (ok nb.name) s

  unfoldable pub update_backup_index : NodeBackup → D.State → Result (Unit {0}) × D.State
  unfolding add_backup_start_to_index add_backup_finish_to_index set_latest_backup_in_index
  update_backup_index nb s =
      continue (add_backup_start_to_index nb s)
        λ s. continue (add_backup_finish_to_index nb s) λ s. set_latest_backup_in_index nb s

  -- The entries of the backup that name the node.
  unfoldable pub index_files_of : NodeBackup → D.State → List Blob
  index_files_of nb s =
      filter (λ b. contains (codes "_" ++ nb.fqdn) b.name)
        (list_objects D s (prefix_path ++ codes "index/backup_index/" ++ nb.name))

  unfoldable pub clean_backup_from_index : NodeBackup → D.State → D.State
  unfolding index_files_of
  clean_backup_from_index nb s = delete_each D (index_files_of nb s) s

  unfoldable pub index_exists : D.State → Bool
  index_exists s = ltb 0 (length (list_objects D s (prefix_path ++ codes "index")))

  -- `process_backup`: the latest finished backup of each node.
  -- Comparing with None raises TypeError.
  unfoldable pub newer : NodeBackup → Dict NodeBackup → D.State → ℕ → Result (Dict NodeBackup)
  newer nb latest s f = elim (lookup nb.fqdn latest) [
    | none ↦ ok (insert nb.fqdn nb latest)
    | some old ↦ elim (finished D old s) [
      | none ↦ err type_error
      | some g ↦ ok (if leb g f then insert nb.fqdn nb latest else latest)
    ]
  ]

  unfoldable pub process_backup :
      NodeBackup → Bool → Dict NodeBackup → D.State → Result (Dict NodeBackup) × D.State
  unfolding newer add_backup_start_to_index add_backup_finish_to_index
  process_backup nb noop latest s = elim (finished D nb s) [
    | none ↦ (ok latest, s)
    | some f ↦ elim (newer nb latest s f) [
      | err e ↦ (err e, s)
      | ok latest' ↦
          if noop
          then (ok latest', s)
          else (let (r, s') =
                continue (add_backup_start_to_index nb s) (λ s. add_backup_finish_to_index nb s) in
              (r >>= (λ _. ok latest'), s'))
    ]
  ]
