-- ===== src/RestoreNode.antt =====
-- medusa/restore_node.py: what is restored on one node. Commands that the code runs are listed
-- instead of run.
pub mod Sections
pub mod Waiting
pub mod Local
pub mod Loader
pub mod Order
use cassandra_medusa.Base.{
  ℕ, zero, suc, ◌+◌, Bool, true, false, not, ◌&&◌, ◌||◌, Option, none, some, List, [], ◌∷◌, ◌++◌,
  any, map, ltb, if◌then◌else◌,
}
use cassandra_medusa.Base.{Result, ok, err, key_error, system_exit, ◌>>=◌}
use cassandra_medusa.Base.Int.{ℤ, pos, negsuc}
use cassandra_medusa.Base.Text.{
  Text, codes, text_eq, mem, starts_with, before_char, path_join, decimal,
}
use cassandra_medusa.Base.Dict.{lookup}
use cassandra_medusa.Manifest.{Section, ManifestObject}
use cassandra_medusa.TokenMap.{TokenMap, RingItem}

-- The effects of `maybe_restore_section` on the file system, in order.
pub data Command : Type 0 where
  remove_tree make_folder take_ownership : Text → Command
  move : Text → Text → Command

abbrev pub is_nil : List ManifestObject → Bool
is_nil [] = true
is_nil (o ∷ os) = false

-- The test of the code: `a and b or c`.
unfoldable pub skips_files : Section → Bool
unfolding text_eq starts_with
skips_files s =
    (text_eq s.keyspace (codes "system") && starts_with s.columnfamily (codes "local-"))
    || starts_with s.columnfamily (codes "peers")

unfoldable pub is_dse_section : Section → Bool
unfolding text_eq
is_dse_section s = text_eq s.keyspace (codes "dse")

unfoldable pub source_path : Text → Section → Text
unfolding path_join
source_path download_dir s = path_join (path_join download_dir s.keyspace) s.columnfamily

-- `data_parent` is the parent of the data directory.
unfoldable pub destination_path : Text → Text → Section → Text
unfolding path_join is_dse_section
destination_path data_dir data_parent s =
    if is_dse_section s
    then path_join data_parent s.columnfamily
    else path_join (path_join data_dir s.keyspace) s.columnfamily

-- `destination_exists` tells whether the table has a folder already.
unfoldable pub maybe_restore_section :
    Section → Text → Text → Text → (Text → Bool) → Bool → Bool → List Command
unfolding skips_files source_path destination_path
maybe_restore_section s download_dir data_dir data_parent destination_exists in_place keep_auth =
    let dst = destination_path data_dir data_parent s in
    let prepare : List Command =
      (if destination_exists dst
        then remove_tree dst ∷ []
        else make_folder (path_join data_dir s.keyspace) ∷ []) in
    let restore : List Command =
      (if is_nil s.objects
        then prepare
        else prepare ++ (move (source_path download_dir s) dst ∷ take_ownership dst ∷ [])) in
    if in_place
    then restore
    else if text_eq s.keyspace (codes "system_auth") && keep_auth
    then []
    else if skips_files s
    then prepare
    else restore

unfoldable pub keyspace_is_allowed_to_restore : Text → Bool → List Text → Bool
unfolding text_eq mem before_char
keyspace_is_allowed_to_restore keyspace keep_auth fqtns_to_restore =
    if text_eq keyspace (codes "system") || text_eq keyspace (codes "system_schema")
    then false
    else if text_eq keyspace (codes "system_auth") && keep_auth
    then false
    else mem keyspace (map (before_char b'.') fqtns_to_restore)

-- '{}.{}'.format(keyspace, table)
unfoldable pub table_is_allowed_to_restore : Text → Text → List Text → Bool
unfolding mem
table_is_allowed_to_restore keyspace table fqtns_to_restore =
    mem (keyspace ++ codes "." ++ table) fqtns_to_restore

-- `str(token)`
unfoldable pub token_text : ℤ → Text
unfolding decimal
token_text (pos n) = decimal n
token_text (negsuc n) = codes "-" ++ decimal (n + 1)

unfoldable pub get_node_tokens : Text → TokenMap → Result (List Text)
unfolding token_text
get_node_tokens fqdn token_map = elim (lookup fqdn token_map) [
  | none ↦ err key_error
  | some item ↦ ok (map token_text item.tokens)
]

abbrev pub max_attempts : ℕ
max_attempts = 60

-- The loop of `wait_for_seeds`: `is_up i` tells whether a seed is up at the i-th look. The
-- result is the number of looks before the end.
unfoldable pub wait_loop : ℕ → (ℕ → Bool) → ℕ → Result ℕ
wait_loop zero is_up attempts = err (system_exit 1)
wait_loop (suc fuel) is_up attempts =
    let again = wait_loop fuel is_up (attempts + 1) in
    if is_up attempts
    then ok attempts
    else if ltb max_attempts (attempts + 1)
    then err (system_exit 1)
    else again

unfoldable pub wait_for_seeds : (Text → ℕ → Bool) → List Text → Result ℕ
unfolding wait_loop
wait_for_seeds is_node_up seeds =
    wait_loop (suc max_attempts) (λ i. any (λ seed. is_node_up seed i) seeds) 0
