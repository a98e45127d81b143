-- ===== src/Storage/Listing.antt =====
-- medusa/storage/__init__.py: class Storage, its listings of node backups and cluster backups.
pub mod Existing
use cassandra_medusa.Base.{
  ℕ, zero, suc, ◌+◌, Bool, true, false, not, ◌&&◌, Option, none, some, List, [], ◌∷◌, ◌++◌, ◌==◌,
  leb, is_some, length, ltb, filter, get_elem?, map, if◌then◌else◌,
}
use cassandra_medusa.Base.{
  Exception, Result, ok, err, key_error, value_error, index_error, type_error, unbound_local_error,
  ◌>>=◌,
}
use cassandra_medusa.Base.Text.{Text, codes, contains, text_eq, leb_text, split}
use cassandra_medusa.Base.Dict.{Dict, lookup, insert}
use cassandra_medusa.Base.Sort.{sorted, groupby}
use cassandra_medusa.Storage.Driver.{
  Blob, Driver, list_objects, get_blob_content_as_string, delete_each,
}
use cassandra_medusa.Storage.Names.{get_fqdn_from_any_index_blob, get_timestamp_from_blob_name}
use cassandra_medusa.Storage.NodeBackup.{
  Json, NodeBackup, Preloaded, nothing_preloaded, node_backup, started, backup_exists, info,
}
use cassandra_medusa.Index.{clean_backup_from_index}

-- `str(prefix) + '/' if len(str(prefix)) > 1 else ''`, where no prefix is the path '.'.
unfoldable pub prefix_path_of : Text → Text
prefix_path_of prefix = if ltb 1 (length prefix) then prefix ++ codes "/" else []

abbrev pub bind_all : {A B : Type 0} → (A → Result B) → List A → Result (List B)
bind_all f [] = ok []
bind_all f (x ∷ xs) = do y ← f x; ys ← bind_all f xs; ok (y ∷ ys)

-- `chunks[i]`
abbrev pub chunk : List Text → ℕ → Result Text
chunk chunks i = elim (get_elem? chunks i) [ none ↦ err index_error | some c ↦ ok c ]

abbrev no_prefix : Text → Bool
no_prefix prefix_path = leb (length prefix_path) 1

-- `has_proper_name`, `get_backup_name`, `name_and_fqdn` of group_backup_index_by_backup_and_node
unfoldable pub has_proper_name : Text → Blob → Bool
unfolding split
has_proper_name prefix_path b =
    length (split b'/' b.name) == (if no_prefix prefix_path then 4 else 5)

unfoldable pub get_backup_name : Text → Blob → Result Text
unfolding split
get_backup_name prefix_path b = chunk (split b'/' b.name) (if no_prefix prefix_path then 2 else 3)

-- An index blob with the backup and the node that its name tells.
pub record Keyed : Type 0 where
  pub backup : Text
  pub fqdn : Text
  pub blob : Blob

unfoldable pub keyed : Text → Blob → Result Keyed
unfolding get_backup_name
keyed prefix_path b = do
  backup ← get_backup_name prefix_path b
  fqdn ← get_fqdn_from_any_index_blob b.name
  ok (record { backup = backup; fqdn = fqdn; blob = b })

-- The order of pairs: by the backup, then by the node.
unfoldable pub keyed_before : Keyed → Keyed → Bool
keyed_before a b =
    if text_eq a.backup b.backup then leb_text a.fqdn b.fqdn else leb_text a.backup b.backup

abbrev pub BlobsByBackup : Type 0
BlobsByBackup = Dict (Dict (List Blob))

abbrev into_dict : {V : Type 0} → List (Text × V) → Dict V → Dict V
into_dict [] d = d
into_dict ((k, v) ∷ kvs) d = into_dict kvs (insert k v d)

unfoldable pub group_backup_index_by_backup_and_node : Text → List Blob → Result BlobsByBackup
unfolding has_proper_name keyed keyed_before
group_backup_index_by_backup_and_node prefix_path blobs = do
  ks ← bind_all (keyed prefix_path) (filter (has_proper_name prefix_path) blobs)
  let by_name = groupby (λ (k : Keyed). k.backup) (sorted keyed_before ks)
  let by_node = λ (group : List Keyed).
      into_dict
        (map (λ (g : Text × List Keyed). (g.0, map (λ (k : Keyed). k.blob) g.1))
          (groupby (λ (k : Keyed). k.fqdn) group))
        []
  ok (into_dict (map (λ (g : Text × List Keyed). (g.0, by_node g.1)) by_name) [])

-- `lookup_blob`: the first blob whose name, path included, has the word in it.
unfoldable pub lookup_blob : List Blob → Text → Option Blob
unfolding contains
lookup_blob [] word = none
lookup_blob (b ∷ bs) word = if contains word b.name then some b else lookup_blob bs word

abbrev timestamp_of : Option Blob → Result (Option ℕ)
timestamp_of none = ok none
timestamp_of (some b) = do t ← get_timestamp_from_blob_name b.name; ok (some t)

-- What the index says of one backup of one node.
unfoldable pub preloaded : List Blob → Result Preloaded
unfolding lookup_blob
preloaded blobs = do
  start ← timestamp_of (lookup_blob blobs (codes "started"))
  end ← timestamp_of (lookup_blob blobs (codes "finished"))
  let differential = lookup_blob blobs (codes "differential")
  ok (record {
    blobs = [];
    manifest_blob = lookup_blob blobs (codes "manifest");
    schema_blob = lookup_blob blobs (codes "schema");
    tokenmap_blob = lookup_blob blobs (codes "tokenmap");
    started_timestamp = start;
    finished_timestamp = end;
    differential_blob = elim differential [
      | none ↦ lookup_blob blobs (codes "incremental")
      | some b ↦ some b
    ];
  })

-- The unpacking `_, _, backup_name, tokenmap_file = entry.split('/')`.
unfoldable pub unpack_entry : Text → Text → Result (Text × Text)
unfolding split
unpack_entry prefix_path entry =
    let chunks = split b'/' entry in
    let i : ℕ = if length prefix_path == 0 then 2 else 3 in
    if length chunks == i + 2
    then (do a ← chunk chunks i; b ← chunk chunks (suc i); ok (a, b))
    else err value_error

abbrev or_raise : {A : Type 0} → Exception → Option A → Result A
or_raise e none = err e
or_raise e (some a) = ok a

-- One round of the loop over the index entries. The dict of the groups raises KeyError for a
-- backup that it lacks; a node that it lacks leaves `differential_blob` unbound or stale.
unfoldable pub entry_backup : Text → Text → BlobsByBackup → Text → Result NodeBackup
unfolding unpack_entry preloaded
entry_backup prefix prefix_path groups entry = do
  names ← unpack_entry prefix_path entry
  fqdn ← get_fqdn_from_any_index_blob names.1
  group ← or_raise key_error (lookup names.0 groups)
  blobs ← or_raise unbound_local_error (lookup fqdn group)
  pre ← preloaded blobs
  ok (node_backup prefix fqdn names.0 false pre)

abbrev tokenmap_entries : List Blob → List Text
tokenmap_entries blobs = filter (contains (codes "tokenmap")) (map (λ (b : Blob). b.name) blobs)

abbrev entries_for : Option Text → List Text → List Text
entries_for none entries = entries
entries_for (some fqdn) entries = filter (contains (codes "_" ++ fqdn ++ codes ".")) entries

module _ (D : Driver) (prefix : Text) where
  abbrev prefix_path : Text
  unfolding prefix_path_of
  prefix_path = prefix_path_of prefix

  unfoldable pub list_backup_index_blobs : D.State → List Blob
  unfolding prefix_path_of
  list_backup_index_blobs s = list_objects D s (prefix_path_of prefix ++ codes "index/backup_index")

  abbrev pub start_or_zero : D.State → NodeBackup → ℕ
  start_or_zero s nb = elim (started D nb s) [ none ↦ 0 | some t ↦ t ]

  -- sorted(filter(started is not None), key=started)
  unfoldable pub sorted_by_start : List NodeBackup → D.State → List NodeBackup
  sorted_by_start nbs s =
      sorted (λ a b. leb (start_or_zero s a) (start_or_zero s b))
        (filter (λ nb. is_some (started D nb s)) nbs)

  -- The last loop: from the first backup that exists on, all are taken to exist; the index
  -- entries of those before it are removed.
  unfoldable pub existing : List NodeBackup → D.State → List NodeBackup × D.State
  existing [] s = ([], s)
  existing (nb ∷ nbs) s =
      let rest = existing nbs (clean_backup_from_index D (prefix_path_of prefix) nb s) in
      if backup_exists D nb s then (nb ∷ nbs, s) else rest

  -- The backups that the index names, before they are sorted.
  unfoldable pub indexed_backups : Option Text → List Blob → Result (List NodeBackup)
  unfolding entry_backup group_backup_index_by_backup_and_node
  indexed_backups fqdn blobs =
      group_backup_index_by_backup_and_node (prefix_path_of prefix) blobs >>= λ groups.
      bind_all (entry_backup prefix (prefix_path_of prefix) groups)
        (entries_for fqdn (tokenmap_entries blobs))

  abbrev pub index_or_listed : Option (List Blob) → D.State → List Blob
  index_or_listed none s = list_backup_index_blobs s
  index_or_listed (some blobs) s = blobs

  unfoldable pub sort_and_pick :
      Result (List NodeBackup) → D.State → Result (List NodeBackup) × D.State
  unfolding existing sorted_by_start
  sort_and_pick (err e) s = (err e, s)
  sort_and_pick (ok nbs) s = let (found, s') = existing (sorted_by_start nbs s) s in (ok found, s')

  -- `list_node_backups`, run to its end.
  unfoldable pub list_node_backups :
      Option Text → Option (List Blob) → D.State → Result (List NodeBackup) × D.State
  unfolding sort_and_pick indexed_backups list_backup_index_blobs
  list_node_backups fqdn index s = sort_and_pick (indexed_backups fqdn (index_or_listed index s)) s
