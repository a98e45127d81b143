-- ===== src/Decommissioned/Nodes.antt =====
-- Which nodes `purge_decommissioned` purges, and what it does where there are none.
use cassandra_medusa.Base.{ℕ, true, List, [], ◌∷◌, ◌≡◌, refl, filter, All, arith}
use cassandra_medusa.Base.{ok, err, system_exit}
use cassandra_medusa.Base.Text.{Text, mem}
use cassandra_medusa.Storage.Driver.{Driver, list_objects}
use cassandra_medusa.Storage.NodeBackup.{Json}
use cassandra_medusa.Storage.Listing.{prefix_path_of}
use cassandra_medusa.Decommissioned.{
  get_all_nodes, purge_nodes, purge_those, ended, get_decommissioned_nodes, purge_decommissioned,
}

get_decommissioned_nodes-nil :
    (all_nodes live_nodes : List Text)
    → All (λ n. mem n live_nodes ≡ true) all_nodes
    → get_decommissioned_nodes all_nodes live_nodes ≡ []
unfolding get_decommissioned_nodes filter
get_decommissioned_nodes-nil [] live h = refl
get_decommissioned_nodes-nil (n ∷ nodes) live h =
    ground (arith, get_decommissioned_nodes-nil nodes live)

module _ (D : Driver) (J : Json) (prefix : Text) (now_us grace : ℕ) where
  -- Where every node with backups is live, `purge_decommissioned` changes nothing. It sends the
  -- metric 0 for success, then the metric 1 for an error, and exits with 1: the variables of its
  -- loop are unbound.
  pub purge_decommissioned_none :
      (live_nodes all_nodes : List Text) (s : D.State)
      → get_all_nodes (list_objects D s (prefix_path_of prefix)) ≡ ok all_nodes
      → All (λ n. mem n live_nodes ≡ true) all_nodes
      → purge_decommissioned D J prefix now_us grace live_nodes s
        ≡ ((0 ∷ 1 ∷ [], err (system_exit 1)), s)
  unfolding purge_decommissioned purge_those purge_nodes ended
  purge_decommissioned_none live all_nodes s e h =
      rw (e, get_decommissioned_nodes-nil all_nodes live h) refl
