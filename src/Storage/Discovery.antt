-- ===== src/Storage/Discovery.antt =====
-- `discover_node_backups` of medusa/storage/__init__.py: the node backups, found from their files.
use cassandra_medusa.Base.{
  Bool, false, Option, none, some, List, [], ◌∷◌, ◌++◌, filter, map, any, if◌then◌else◌,
}
use cassandra_medusa.Base.{Result, ok, err, value_error, ◌>>=◌}
use cassandra_medusa.Base.Text.{Text, codes, contains, ends_with, leb_text, split}
use cassandra_medusa.Base.Sort.{sorted, groupby}
use cassandra_medusa.Storage.Driver.{Blob, Driver, list_objects}
use cassandra_medusa.Storage.NodeBackup.{NodeBackup, node_backup, nothing_preloaded}
use cassandra_medusa.Storage.Listing.{bind_all, prefix_path_of}

-- A blob with the node and the name of its backup.
pub record Located : Type 0 where
  pub fqdn : Text
  pub backup : Text
  pub blob : Blob

abbrev is_schema_blob : Blob → Bool
unfolding ends_with
is_schema_blob b = ends_with b.name (codes "/schema.cql")

abbrev includes_schema_blob : List Blob → Bool
unfolding is_schema_blob any
includes_schema_blob blobs = any is_schema_blob blobs

-- `fqdn, name, *_ = parts`
abbrev first_two : Blob → List Text → Result Located
first_two b (fqdn ∷ name ∷ rest) = ok (record { fqdn = fqdn; backup = name; blob = b })
first_two b _ = err value_error

abbrev without_first : List Text → List Text
without_first [] = []
without_first (p ∷ ps) = ps

-- Names of blobs are relative and have no empty part.
unfoldable pub get_backup_name_from_blob : Text → Blob → Result Located
unfolding split
get_backup_name_from_blob [] b = first_two b (split b'/' b.name)
get_backup_name_from_blob (c ∷ prefix_path) b = first_two b (without_first (split b'/' b.name))

abbrev path_of : Option Text → Text
path_of none = []
path_of (some fqdn) = fqdn

-- The blobs of a group make a backup where the schema is one of them.
abbrev discovered : Text → List Located → List NodeBackup
unfolding node_backup includes_schema_blob
discovered prefix [] = []
discovered prefix (l ∷ ls) =
    let blobs = map (λ (x : Located). x.blob) (l ∷ ls) in
    if includes_schema_blob blobs
    then node_backup prefix l.fqdn l.backup false (record nothing_preloaded { blobs = blobs }) ∷ []
    else []

abbrev discover_groups : Text → List (Text × List Located) → List NodeBackup
unfolding discovered
discover_groups prefix [] = []
discover_groups prefix (g ∷ gs) = discovered prefix g.1 ++ discover_groups prefix gs

module _ (D : Driver) (prefix : Text) where
  unfoldable pub discover_node_backups : Option Text → D.State → Result (List NodeBackup)
  unfolding get_backup_name_from_blob sorted groupby discover_groups contains prefix_path_of
  discover_node_backups fqdn s =
      let metas =
        filter (λ (b : Blob). contains (codes "meta") b.name) (list_objects D s (path_of fqdn)) in
      let all_blobs = sorted (λ (a b : Blob). leb_text a.name b.name) metas in
      bind_all (get_backup_name_from_blob (prefix_path_of prefix)) all_blobs >>= λ located.
      ok (
        discover_groups prefix (groupby (λ (l : Located). l.fqdn ++ codes "/" ++ l.backup) located))
