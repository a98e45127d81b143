-- ===== src/Decommissioned.antt =====
-- medusa/purge_decommissioned.py: purging the backups of the nodes that have left the cluster.
pub mod Nodes
use cassandra_medusa.Base.{
  ℕ, not, Option, none, some, List, [], ◌∷◌, ◌++◌, length, filter, get_elem?, if◌then◌else◌,
}
use cassandra_medusa.Base.{
  Result, ok, err, index_error, unbound_local_error, system_exit, is_caught, ◌>>=◌,
}
use cassandra_medusa.Base.Text.{Text, codes, contains, mem, set_add, split}
use cassandra_medusa.Storage.Driver.{Blob, Driver, list_objects}
use cassandra_medusa.Storage.NodeBackup.{Json, NodeBackup}
use cassandra_medusa.Storage.Listing.{list_node_backups, prefix_path_of}
use cassandra_medusa.Purge.Sweep.{Counts, update_set, purge_backups}

-- blob.name.split('/')[1]
unfoldable pub second_chunk : Text → Result Text
unfolding split
second_chunk name = elim (get_elem? (split b'/' name) 1) [ none ↦ err index_error | some c ↦ ok c ]

unfoldable pub get_all_nodes : List Blob → Result (List Text)
unfolding second_chunk
get_all_nodes [] = ok []
get_all_nodes (b ∷ bs) =
    let rest = get_all_nodes bs in
    if contains (codes "/index/") b.name
    then rest
    else (do node ← second_chunk b.name; nodes ← rest; ok (set_add node nodes))

-- all_nodes.difference(live_nodes)
unfoldable pub get_decommissioned_nodes : List Text → List Text → List Text
get_decommissioned_nodes all_nodes live_nodes = filter (λ n. not (mem n live_nodes)) all_nodes

module _ (D : Driver) (J : Json) (prefix : Text) (now_us grace : ℕ) where
  -- One round: the counts, and the number of backups of the node.
  abbrev purge_listed : Text → Result (List NodeBackup) × D.State → Result (Counts × ℕ) × D.State
  purge_listed node (err e, s) = (err e, s)
  purge_listed node (ok listed, s) =
      let backups = update_set [] listed in
      let (r, s') = purge_backups D J prefix now_us grace backups node s in
      ((r >>= λ c. ok (c, length backups)), s')

  -- The loop over the nodes, with the variables of the last round, none before the first.
  unfoldable pub purge_nodes :
      List Text → Option (Counts × ℕ) → D.State → Result (Option (Counts × ℕ)) × D.State
  purge_nodes [] last s = (ok last, s)
  purge_nodes (node ∷ nodes) last s =
      let (r, s') = purge_listed node (list_node_backups D prefix (some node) none s) in
      elim r [ err e ↦ (err e, s') | ok c ↦ purge_nodes nodes (some c) s' ]

  -- Reading a variable that is unbound raises UnboundLocalError.
  abbrev object_counts : Option (Counts × ℕ) → Result (Counts × ℕ)
  object_counts none = err unbound_local_error
  object_counts (some c) = ok c

  -- The values of the metric purge-error that are sent, and the end: an exception, before the
  -- first of them or after it, sends another and exits, where `except Exception` catches it.
  abbrev pub ended : {A : Type 0} → List ℕ → Result A → List ℕ × Result A
  unfolding is_caught
  ended sent (ok a) = (sent, ok a)
  ended sent (err e) =
      if is_caught e then (sent ++ (1 ∷ []), err (system_exit 1)) else (sent, err e)

  -- After the loop the metric 0 is sent, and then the variables are read.
  abbrev after_nodes :
      List Text → Result (Option (Counts × ℕ)) → List ℕ × Result (List Text × (Counts × ℕ))
  after_nodes nodes (err e) = ended [] (err e)
  after_nodes nodes (ok last) = ended (0 ∷ []) (object_counts last >>= λ c. ok (nodes, c))

  -- The steps after the listing of the nodes.
  abbrev purge_those :
      List Text
      → Result (List Text)
      → D.State
      → (List ℕ × Result (List Text × (Counts × ℕ))) × D.State
  unfolding purge_nodes get_decommissioned_nodes
  purge_those live_nodes (err e) s = (ended [] (err e), s)
  purge_those live_nodes (ok all_nodes) s =
      let nodes = get_decommissioned_nodes all_nodes live_nodes in
      let (r, s') = purge_nodes nodes none s in (after_nodes nodes r, s')

  unfoldable pub purge_decommissioned :
      List Text → D.State → (List ℕ × Result (List Text × (Counts × ℕ))) × D.State
  unfolding purge_those get_all_nodes
  purge_decommissioned live_nodes s =
      purge_those live_nodes (get_all_nodes (list_objects D s (prefix_path_of prefix))) s
