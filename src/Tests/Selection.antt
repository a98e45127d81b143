-- ===== src/Tests/Selection.antt =====
-- The purge by count, by age, by name and of one backup, on dated backups.
use cassandra_medusa.Base.{
  ℕ, ◌+◌, ◌-◌, ◌*◌, ◌≤◌, ◌<◌, Bool, true, false, Option, none, some, List, [], ◌∷◌, ◌++◌, ◌≡◌, refl,
  inl, inr, All, In, all, length, filter, ltb, arith, is_ok,
}
use cassandra_medusa.Base.{Result, ok, err, key_error, system_exit}
use cassandra_medusa.Base.Text.{Text, codes, mem, starts_with}
use cassandra_medusa.ClusterBackup.{NodeInfo, ClusterBackup}
use cassandra_medusa.Storage.Driver.{Blob, list_objects}
use cassandra_medusa.Storage.LocalStorage.{Files}
use cassandra_medusa.Storage.NodeBackup.{NodeBackup}
use cassandra_medusa.Tests.Fixture.{json, store_driver, one_backup, backup_b1, file}
use cassandra_medusa.Purge.{start_or_zero, dated_by_start, backups_to_purge_by_count, purge_backup}
use cassandra_medusa.Purge.Selection.{IsDated, kept_by_count, by_count_takes_oldest}
use cassandra_medusa.Decommissioned.{get_all_nodes, purge_decommissioned}
use cassandra_medusa.Decommissioned.Nodes.{purge_decommissioned_none}
use cassandra_medusa.Storage.Listing.{prefix_path_of}
use cassandra_medusa.Purge.Backup.{purge_backup_takes_longer_names}

abbrev backup_at : Option ℕ → NodeBackup
backup_at t = record backup_b1 {
  started_timestamp = t;
  schema_blob = none;
  name = codes "b2";
  meta_path = codes "n1/b2/meta";
}

abbrev three : List NodeBackup
three = backup_at (some 30) ∷ backup_at (some 10) ∷ backup_at (some 20) ∷ []

three-IsDated : All (IsDated store_driver one_backup) three
unfolding cassandra_medusa.Storage.NodeBackup.started
three-IsDated = (refl, (refl, (refl, tt)))

by_count_takes_oldest_example :
    (length (backups_to_purge_by_count store_driver three 2 one_backup) ≡ 1)
    × (backups_to_purge_by_count store_driver three 2 one_backup
          ++ kept_by_count store_driver one_backup three 2
        ≡ dated_by_start store_driver three one_backup)
    × ((p k : NodeBackup)
        → In p (backups_to_purge_by_count store_driver three 2 one_backup)
        → In k (kept_by_count store_driver one_backup three 2)
        → start_or_zero store_driver one_backup p ≤ start_or_zero store_driver one_backup k)
by_count_takes_oldest_example =
    by_count_takes_oldest store_driver one_backup three 2 (omega arith) three-IsDated

-- The backups b1 and b10 of n1.
abbrev two_backups : Files
two_backups = record {
  clock = 1;
  files = (codes "n1/b1/x", file (codes "x")) ∷ (codes "n1/b10/x", file (codes "y")) ∷ [];
}

abbrev backup_b10 : NodeBackup
backup_b10 = record backup_b1 { name = codes "b10"; node_backup_path = codes "n1/b10" }

abbrev blob_b10 : Blob
blob_b10 = record { name = codes "n1/b10/x"; size = 1; hash = none; last_modified = 50 }

b10_begins_with_b1 : starts_with (codes "n1/b10") (codes "n1/b1") ≡ true
unfolding starts_with
b10_begins_with_b1 = refl

b10_listed : In blob_b10 (list_objects store_driver two_backups (codes "n1/b10"))
unfolding list_objects filter cassandra_medusa.Storage.LocalStorage.local_list_blobs starts_with
b10_listed = inl refl

purge_backup_takes_longer_names_example :
    store_driver.get_blob (purge_backup store_driver [] backup_b1 two_backups).1 (codes "n1/b10/x")
    ≡ none
purge_backup_takes_longer_names_example =
    purge_backup_takes_longer_names store_driver [] backup_b1 backup_b10 two_backups blob_b10
      b10_begins_with_b1 b10_listed

abbrev node_b1 : NodeInfo
node_b1 = record {
  fqdn = codes "n1";
  name = codes "b1";
  started = some 1;
  finished = some 2;
  is_differential = false;
  manifest = none;
  tokenmap = ok [];
  server_type = codes "cassandra";
  release_version = codes "4";
}

abbrev cluster_b1 : ClusterBackup
cluster_b1 = record {
  name = codes "b1";
  first_nodebackup = node_b1;
  node_backups = (codes "n1", node_b1) ∷ [];
}

-- A storage with the prefix p1 that holds a file of the node n1.
abbrev with_prefix : Files
with_prefix = record { clock = 1; files = (codes "p1/n1/b1/x", file (codes "x")) ∷ [] }

nodes_with_prefix :
    get_all_nodes (list_objects store_driver with_prefix (prefix_path_of (codes "p1")))
    ≡ ok (codes "n1" ∷ [])
unfolding get_all_nodes list_objects filter cassandra_medusa.Storage.LocalStorage.local_list_blobs
    starts_with prefix_path_of cassandra_medusa.Base.Text.contains
    cassandra_medusa.Base.Text.set_add
nodes_with_prefix = refl

n1_live : mem (codes "n1") (codes "n1" ∷ codes "n2" ∷ []) ≡ true
unfolding mem cassandra_medusa.Base.Text.text_eq
n1_live = refl

purge_decommissioned_none_example :
    purge_decommissioned store_driver json
      (codes "p1")
      7
      0
      (codes "n1" ∷ codes "n2" ∷ [])
      with_prefix
    ≡ ((0 ∷ 1 ∷ [], err (system_exit 1)), with_prefix)
purge_decommissioned_none_example =
    purge_decommissioned_none store_driver json (codes "p1") 7 0 (codes "n1" ∷ codes "n2" ∷ [])
      (codes "n1" ∷ []) with_prefix nodes_with_prefix (n1_live, tt)
