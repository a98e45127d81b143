-- ===== src/Purge/Sweep/Delete.antt =====
-- `delete_backup` of medusa/purge.py.
use cassandra_medusa.Base.{ℕ, Bool, none, List, [], ◌∷◌, map, if◌then◌else◌}
use cassandra_medusa.Base.{Result, ok, err, is_caught, ◌>>=◌}
use cassandra_medusa.Base.Text.{Text}
use cassandra_medusa.ClusterBackup.{NodeInfo}
use cassandra_medusa.Storage.Driver.{Driver}
use cassandra_medusa.Storage.NodeBackup.{Json, NodeBackup, node_backup, nothing_preloaded}
use cassandra_medusa.Storage.Clusters.{list_cluster_backups}
use cassandra_medusa.Utils.{handle_exception}
use cassandra_medusa.Purge.Sweep.{Counts, purge_backups}
use cassandra_medusa.Purge.Sweep.Names.{backups_to_purge_by_name}

-- The node backup of its properties; purging reads its node, its name and its path only.
abbrev as_node_backup : Text → NodeInfo → NodeBackup
unfolding node_backup
as_node_backup prefix nb = node_backup prefix nb.fqdn nb.name nb.is_differential nothing_preloaded

-- The values of the metric delete-error that are sent, and the end. `grpc_enabled` is the option that
-- `handle_exception` looks at.
unfoldable pub delete_reported : Text → Result Counts → List ℕ × Result (Unit {0})
unfolding handle_exception is_caught
delete_reported grpc_enabled (ok c) = (0 ∷ [], ok tt)
delete_reported grpc_enabled (err e) =
    if is_caught e then (1 ∷ [], err (handle_exception e grpc_enabled)) else ([], err e)

module _ (D : Driver) (J : Json) (prefix grpc_enabled : Text) (now_us grace : ℕ) where
  abbrev purge_named : Text → Result (List NodeInfo) → D.State → Result Counts × D.State
  unfolding purge_backups as_node_backup
  purge_named local_fqdn (err e) s = (err e, s)
  purge_named local_fqdn (ok nbs) s =
      purge_backups D J prefix now_us grace (map (as_node_backup prefix) nbs) local_fqdn s

  unfoldable pub delete_backup :
      Text → List Text → Bool → D.State → (List ℕ × Result (Unit {0})) × D.State
  unfolding list_cluster_backups backups_to_purge_by_name purge_named delete_reported
  delete_backup local_fqdn backup_names all_nodes s =
      let (r, s₁) = list_cluster_backups D J prefix none s in
      let chosen = r >>= λ cbs. backups_to_purge_by_name local_fqdn cbs backup_names all_nodes in
      let (counts, s₂) = purge_named local_fqdn chosen s₁ in
      (delete_reported grpc_enabled counts, s₂)
