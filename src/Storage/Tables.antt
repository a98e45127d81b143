-- ===== src/Storage/Tables.antt =====
-- medusa/storage/__init__.py: the keyspace and the table of a file, and the files of a node by
-- table. A path is its text, without a final slash.
pub mod RoundTrip
use cassandra_medusa.Base.{
  ℕ, zero, suc, ◌-◌, Bool, true, false, ◌&&◌, ◌||◌, Option, none, some, List, [], ◌∷◌, ◌++◌, ltb,
  length, get_elem?, map, if◌then◌else◌,
}
use cassandra_medusa.Base.{Result, ok, err, runtime_error, ◌>>=◌}
use cassandra_medusa.Base.Text.{Text, codes, starts_with, ends_with, split, text_eq}
use cassandra_medusa.Base.Dict.{Dict, insert}
use cassandra_medusa.Base.Sort.{groupby}
use cassandra_medusa.Manifest.{ManifestObject}
use cassandra_medusa.Storage.Driver.{Blob, Driver}

abbrev pub chunk_or_empty : Option Text → Text
chunk_or_empty none = []
chunk_or_empty (some c) = c

-- The chunk `chunks[-i]`; the empty text where a path has fewer, as `.name` of pathlib is.
unfoldable pub from_end : ℕ → List Text → Text
from_end i chunks =
    if ltb (length chunks) i then [] else chunk_or_empty (get_elem? chunks (length chunks - i))

-- `path.name`
unfoldable pub name_of : Text → Text
unfolding from_end split
name_of path = from_end 1 (split b'/' path)

unfoldable pub is_2i_or_dse : Text → Bool
unfolding starts_with ends_with
is_2i_or_dse parent = starts_with parent (codes ".") || ends_with parent (codes "nodes")

abbrev dotted_table : Text → Text → Text
dotted_table table index_name = table ++ codes "." ++ index_name

-- The keyspace and the table of a local path, with its snapshot, or of a path in the storage.
unfoldable pub sanitize_keyspace_and_table_name : Text → Result (Text × Text)
unfolding from_end is_2i_or_dse split
sanitize_keyspace_and_table_name path =
    let chunks = split b'/' path in
    let index = is_2i_or_dse (from_end 2 chunks) in
    if starts_with path (codes "/")
    then (if (ltb (length chunks) 7 && index) || ltb (length chunks) 6
        then err runtime_error
        else if index
        then ok (from_end 6 chunks, dotted_table (from_end 5 chunks) (from_end 2 chunks))
        else ok (from_end 5 chunks, from_end 4 chunks))
    else if index
    then ok (from_end 4 chunks, dotted_table (from_end 3 chunks) (from_end 2 chunks))
    else ok (from_end 3 chunks, from_end 2 chunks)

-- `{Path(path).name: object}`
abbrev pub by_file_name : List ManifestObject → Dict ManifestObject → Dict ManifestObject
by_file_name [] d = d
by_file_name (o ∷ os) d = by_file_name os (insert (name_of o.path) o d)

abbrev pub Placed : Type 0
Placed = (Text × Text) × ManifestObject

unfoldable pub get_keyspace_and_table : List ManifestObject → Result (List Placed)
unfolding sanitize_keyspace_and_table_name
get_keyspace_and_table [] = ok []
get_keyspace_and_table (o ∷ os) = sanitize_keyspace_and_table_name o.path >>= λ place.
    get_keyspace_and_table os >>= λ rest. ok ((place, o) ∷ rest)

abbrev tables_of :
    List (Text × List Placed) → Dict (Dict ManifestObject) → Dict (Dict ManifestObject)
unfolding name_of
tables_of [] d = d
tables_of ((t, files) ∷ groups) d =
    tables_of groups (insert t (by_file_name (map (λ (f : Placed). f.1) files) []) d)

abbrev pub FilesPerTable : Type 0
FilesPerTable = Dict (Dict (Dict ManifestObject))

abbrev keyspaces_of : List (Text × List Placed) → FilesPerTable → FilesPerTable
unfolding tables_of groupby
keyspaces_of [] d = d
keyspaces_of ((k, files) ∷ groups) d =
    keyspaces_of groups (insert k (tables_of (groupby (λ (f : Placed). f.0.1) files) []) d)

unfoldable pub get_table_prefix : Text → Text → Text
get_table_prefix [] fqdn = fqdn ++ codes "/data/"
get_table_prefix (c ∷ prefix) fqdn = (c ∷ prefix) ++ codes "/" ++ fqdn ++ codes "/data/"

-- The hash of a blob is its MD5; the empty text stands for None.
abbrev as_object : Blob → ManifestObject
as_object b = record { path = b.name; size = b.size; md5 = elim b.hash [ none ↦ [] | some h ↦ h ] }

unfoldable pub list_files_per_table : (D : Driver) → Text → Text → D.State → Result FilesPerTable
unfolding get_keyspace_and_table keyspaces_of get_table_prefix groupby
list_files_per_table D prefix fqdn s =
    get_keyspace_and_table (map as_object (D.list_blobs s (get_table_prefix prefix fqdn)))
    >>= λ files. ok (keyspaces_of (groupby (λ (f : Placed). f.0.0) files) [])
