-- ===== src/Purge/Backup.antt =====
-- `purge_backup`: the objects under the path of the backup go, whoever they belong to.
use cassandra_medusa.Base.{
  true, none, List, ◌++◌, ◌≡◌, refl, In, In-map, In-filter, length, arith, if◌then◌else◌,
}
use cassandra_medusa.Base.Text.{Text, mem, mem-append, In→mem, starts_with, starts_with_trans}
use cassandra_medusa.Storage.Driver.{Blob, Driver, list_objects, delete_each}
use cassandra_medusa.Storage.NodeBackup.{NodeBackup}
use cassandra_medusa.Storage.Listing.{prefix_path_of}
use cassandra_medusa.Index.{clean_backup_from_index, index_files_of}
use cassandra_medusa.Purge.{names, total_size, purge_backup}
use cassandra_medusa.Purge.Deletion.{get-delete_each}

module _ (D : Driver) (prefix : Text) where
  -- What `purge_backup` deletes: the objects listed under the path of the backup, then the files
  -- of the index for it.
  abbrev pub purged_names : NodeBackup → D.State → List Text
  purged_names nb s =
      let objects = list_objects D s nb.node_backup_path in
      names (index_files_of D (prefix_path_of prefix) nb (delete_each D objects s)) ++ names objects

  -- `purge_backup` reports the number and the size of the listed objects, deletes these and the
  -- index files of the backup, and changes no other object.
  pub purge_backup_exact :
      (nb : NodeBackup) (s : D.State) (n : Text)
      → ((purge_backup D prefix nb s).0 ≡ (
        length (list_objects D s nb.node_backup_path),
        total_size (list_objects D s nb.node_backup_path),
      ))
        × (D.get_blob (purge_backup D prefix nb s).1 n
            ≡ (if mem n (purged_names nb s) then none else D.get_blob s n))
  unfolding purge_backup clean_backup_from_index
  purge_backup_exact nb s n =
      let objects = list_objects D s nb.node_backup_path in
      let s₁ = delete_each D objects s in
      let files = index_files_of D (prefix_path_of prefix) nb s₁ in
      (
        refl,
        ground (
          arith,
          get-delete_each D files s₁ n,
          get-delete_each D objects s n,
          mem-append n (names files) (names objects),
        ),
      )

  -- The path of a backup is used as a plain prefix: every non-empty object of a backup whose own
  -- path begins with it, such as b10 after b1, is deleted too.
  pub purge_backup_takes_longer_names :
      (nb other : NodeBackup) (s : D.State) (b : Blob)
      → starts_with other.node_backup_path nb.node_backup_path ≡ true
      → In b (list_objects D s other.node_backup_path)
      → D.get_blob (purge_backup D prefix nb s).1 b.name ≡ none
  unfolding list_objects
  purge_backup_takes_longer_names nb other s b longer m =
      let q = nb.node_backup_path in
      let (listed, filled) = (In-filter _ b (D.list_blobs s other.node_backup_path)).0 m in
      let under = (D.list_sound s other.node_backup_path b listed).0 in
      let under_q = starts_with_trans b.name other.node_backup_path q under longer in
      let listed_q = D.list_prefix s other.node_backup_path q b listed under_q in
      let object = (In-filter _ b (D.list_blobs s q)).1 (listed_q, filled) in
      let named = In→mem b.name (names (list_objects D s q)) (In-map (λ c. c.name) b _ object) in
      ground (
        arith,
        named,
        (purge_backup_exact nb s b.name).1,
        mem-append b.name
            (names
              (index_files_of D (prefix_path_of prefix) nb (delete_each D (list_objects D s q) s)))
            (names (list_objects D s q)),
      )
