-- ===== src/Storage/Clusters.antt =====
-- medusa/storage/__init__.py: the cluster backups of a Storage, and the latest backups.
pub mod Search
use cassandra_medusa.Base.{
  ℕ, Bool, true, false, ◌||◌, ◌&&◌, Option, none, some, List, [], ◌∷◌, ◌++◌, leb, ltb, map, filter,
  truthy, is_some, if◌then◌else◌,
}
use cassandra_medusa.Base.{Result, ok, err, key_error, type_error, ◌>>=◌}
use cassandra_medusa.Base.Text.{Text, codes, text_eq, leb_text}
use cassandra_medusa.Base.Sort.{sorted, groupby}
use cassandra_medusa.ClusterBackup.{
  NodeInfo, ClusterBackup, cluster_backup, finished, value_or_zero,
}
use cassandra_medusa.Storage.Driver.{
  Blob, Driver, list_objects, get_blob_content_as_string, delete_each,
}
use cassandra_medusa.Storage.NodeBackup.{
  Json, NodeBackup, Preloaded, nothing_preloaded, node_backup, backup_exists, info,
}
use cassandra_medusa.Storage.Listing.{list_node_backups, bind_all, prefix_path_of}

-- The order of pairs: by the name, then by the start, which every listed backup has.
unfoldable pub named_before : NodeInfo → NodeInfo → Bool
named_before a b =
    if text_eq a.name b.name
    then leb (elim a.started [ none ↦ 0 | some t ↦ t ]) (elim b.started [ none ↦ 0 | some t ↦ t ])
    else leb_text a.name b.name

unfoldable pub group_by_name : List NodeInfo → Result (List ClusterBackup)
unfolding named_before groupby sorted
group_by_name nbs =
    bind_all (λ (g : Text × List NodeInfo). cluster_backup g.0 g.1)
      (groupby (λ (nb : NodeInfo). nb.name) (sorted named_before nbs))

-- `max(..., key=..., default=None)`, the first of the greatest, with the keys at hand.
unfoldable pub max_by : List (ClusterBackup × ℕ) → Option (ClusterBackup × ℕ)
max_by [] = none
max_by (c ∷ cs) = elim (max_by cs) [
  | none ↦ some c
  | some d ↦ if ltb c.1 d.1 then some d else some c
]

-- The backups whose key is true, each with it; the key may raise.
unfoldable pub keyed_by :
    (ClusterBackup → Result (Option ℕ)) → List ClusterBackup → Result (List (ClusterBackup × ℕ))
keyed_by key [] = ok []
keyed_by key (c ∷ cs) = key c >>= λ k.
    keyed_by key cs >>= λ rest. ok (if truthy k then (c, value_or_zero k) ∷ rest else rest)

-- `latest_complete_cluster_backup` on the backups listed.
unfoldable pub latest_by :
    (ClusterBackup → Result (Option ℕ)) → List ClusterBackup → Result (Option (ClusterBackup × ℕ))
unfolding keyed_by max_by
latest_by key cs = keyed_by key cs >>= λ keyed. ok (max_by keyed)

unfoldable pub find_cluster : Text → List ClusterBackup → Result ClusterBackup
find_cluster name [] = err key_error
find_cluster name (c ∷ cs) =
    let rest = find_cluster name cs in if text_eq c.name name then ok c else rest

module _ (D : Driver) (J : Json) (prefix : Text) where
  abbrev infos_of : Result (List NodeBackup) × D.State → Result (List NodeInfo) × D.State
  unfolding info
  infos_of (err e, s) = (err e, s)
  infos_of (ok nbs, s) = (ok (map (λ nb. info D J nb s) nbs), s)

  -- `list_cluster_backups`, run to its end.
  unfoldable pub list_cluster_backups :
      Option (List Blob) → D.State → Result (List ClusterBackup) × D.State
  unfolding infos_of group_by_name
  list_cluster_backups index s =
      let (r, s') = infos_of (list_node_backups D prefix none index s) in
      ((r >>= group_by_name), s')

  unfoldable pub get_cluster_backup : Text → D.State → Result ClusterBackup × D.State
  unfolding list_cluster_backups find_cluster
  get_cluster_backup name s =
      let (r, s') = list_cluster_backups none s in ((r >>= find_cluster name), s')

  unfoldable pub latest_complete_cluster_backup :
      Option (List Blob) → D.State → Result (Option (ClusterBackup × ℕ)) × D.State
  unfolding list_cluster_backups latest_by
  latest_complete_cluster_backup index s =
      let (r, s') = list_cluster_backups index s in ((r >>= latest_by finished), s')

  -- Deletes the markers of the node's latest backup.
  unfoldable pub remove_latest_backup_marker : Text → D.State → D.State
  remove_latest_backup_marker fqdn s =
      delete_each D
        (list_objects D s
          (prefix_path_of prefix ++ codes "index/latest_backup/" ++ fqdn ++ codes "/"))
        s

  -- `get_node_backup`: the constructor looks for the blob `differential` or `incremental`.
  unfoldable pub get_node_backup : Text → Text → Bool → D.State → NodeBackup
  unfolding node_backup prefix_path_of
  get_node_backup fqdn name differential_mode s =
      let meta = prefix_path_of prefix ++ fqdn ++ codes "/" ++ name ++ codes "/meta/" in
      node_backup prefix fqdn name differential_mode (record nothing_preloaded {
        differential_blob = elim (D.get_blob s (meta ++ codes "differential")) [
          | none ↦ D.get_blob s (meta ++ codes "incremental")
          | some b ↦ some b
        ];
      })

  abbrev checked_marker : Text → D.State → Option Text → Option NodeBackup × D.State
  unfolding get_node_backup remove_latest_backup_marker
  checked_marker fqdn s none = (none, s)
  checked_marker fqdn s (some name) =
      let nb = get_node_backup fqdn name false s in
      if backup_exists D nb s then (some nb, s) else (none, remove_latest_backup_marker fqdn s)

  unfoldable pub latest_node_backup : Text → D.State → Option NodeBackup × D.State
  unfolding checked_marker
  latest_node_backup fqdn s = checked_marker fqdn s (
      get_blob_content_as_string D s
        (prefix_path_of prefix ++ codes "index/latest_backup/" ++ fqdn ++ codes "/backup_name.txt"))
