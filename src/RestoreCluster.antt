-- ===== src/RestoreCluster.antt =====
-- medusa/restore_cluster.py: which backup is restored on which target node (class RestoreJob).
-- `resolve` is the fully qualified name of a host, `cassandra_seeds` the seeds of the node's
-- configuration, and `arrange` the order in which Python iterates over a set: none of them is
-- code of the repository.
pub mod Rings
pub mod Groups
pub mod Racks
pub mod Decision
pub mod Execution
pub mod Preparation
use cassandra_medusa.Base.{
  ℕ, zero, suc, ◌+◌, ◌%◌, Bool, true, false, not, ◌&&◌, ◌||◌, Option, none, some, List, [], ◌∷◌,
  ◌++◌, ◌==◌, length, filter, map, any, all, leb, ltb, is_some, if◌then◌else◌,
}
use cassandra_medusa.Base.{
  Result, ok, err, runtime_error, value_error, index_error, zero_division_error, io_error, ◌>>=◌,
}
use cassandra_medusa.Base.Int.{ℤ, leb_ℤ}
use cassandra_medusa.Base.Text.{Text, codes, text_eq, mem, leb_text, join, split, starts_with}
use cassandra_medusa.Base.Dict.{Dict, lookup, has_key, insert, keys}
use cassandra_medusa.Base.Sort.{sorted}
use cassandra_medusa.RestoreCluster.Rings.{
  Node, first_token, first_tokens, tokenmap_to_sorted_nodes, rack_of, append_to, nodes_per_rack,
  tokenmap_to_nodes_per_rack, ringmap_to_rack_topology, numbers_eq, validate_ringmap,
  tokens_from_ringitem, token_keys, same_keys, token_counts_per_host, option_eq, check_token_counts,
}
use cassandra_medusa.TokenMap.{RingItem, TokenMap}
use cassandra_medusa.RestoreNode.{token_text}

-- An entry of `host_map`: the backup hosts to restore on a target node.
pub record Entry : Type 0 where
  pub source : List Text
  pub seed : Bool

abbrev pub HostMap : Type 0
HostMap = Dict Entry

-- The fields of `RestoreJob` that the mapping changes.
pub record Job : Type 0 where
  pub host_map : HostMap
  pub in_place : Bool
  pub keep_auth : Bool
  pub use_sstableloader : Bool

-- `_chunk`: `groups[i % nb_chunks].append(x)`, for i from 0.
unfoldable pub append_at : ℕ → Text → List (List Text) → List (List Text)
append_at i x [] = []
append_at zero x (g ∷ groups) = (g ++ (x ∷ [])) ∷ groups
append_at (suc i) x (g ∷ groups) = g ∷ append_at i x groups

unfoldable pub empty_groups : ℕ → List (List Text)
empty_groups zero = []
empty_groups (suc n) = [] ∷ empty_groups n

unfoldable pub deal : ℕ → ℕ → List Text → List (List Text) → Result (List (List Text))
unfolding append_at
deal nb_chunks i [] groups = ok groups
deal zero i (x ∷ xs) groups = err zero_division_error
deal (suc k) i (x ∷ xs) groups = deal (suc k) (i + 1) xs (append_at (i % suc k) x groups)

unfoldable pub chunk_hosts : List Text → List Text → Result (List (List Text))
unfolding deal empty_groups
chunk_hosts backup_hosts restore_hosts =
    let nb_chunks =
      if leb (length restore_hosts) (length backup_hosts)
      then length restore_hosts
      else length backup_hosts in
    deal nb_chunks 0 backup_hosts (empty_groups nb_chunks)

-- The loop of `_map_different_topologies`, as far as both lists go.
unfoldable pub assign_groups : List Text → List (List Text) → HostMap → HostMap
assign_groups [] groups hm = hm
assign_groups (r ∷ rs) [] hm = hm
assign_groups (r ∷ rs) (g ∷ groups) hm =
    assign_groups rs groups (insert r (record { source = g; seed = false }) hm)

unfoldable pub is_restore_in_place : TokenMap → TokenMap → Bool
is_restore_in_place backup_tokenmap target_tokenmap =
    ltb 0 (length (filter (λ k. mem k (keys target_tokenmap)) (keys backup_tokenmap)))

-- `_handle_auth_decision` reads answers until one is 'Y' or 'n', or the checks are bypassed.
unfoldable pub really_keep_auth : Bool → List Text → Result Bool
really_keep_auth true answers = ok false
really_keep_auth false [] = err io_error
really_keep_auth false (a ∷ answers) =
    let later = really_keep_auth false answers in
    if text_eq a (codes "Y") then ok true else if text_eq a (codes "n") then ok false else later

unfoldable pub handle_auth_decision : Bool → Bool → List Text → Result Bool
unfolding really_keep_auth
handle_auth_decision bypass_checks keep_auth answers =
    if keep_auth then ok true else really_keep_auth bypass_checks answers

module _ (resolve : Text → Text) (cassandra_seeds : List Text) where
  unfoldable pub get_seeds_fqdn : List Text
  get_seeds_fqdn = map resolve cassandra_seeds

  -- `self.host_map[restore_host] = {'source': [backup_host], 'seed': is_seed}`
  unfoldable pub map_host : Node → Node → HostMap → HostMap
  unfolding get_seeds_fqdn
  map_host backup restore hm =
      insert restore.0
        (record { source = backup.0 ∷ []; seed = mem (resolve restore.0) get_seeds_fqdn }) hm

  -- The loop over the indices of the backup's nodes.
  unfoldable pub map_nodes : List Node → List Node → HostMap → Result HostMap
  unfolding map_host
  map_nodes [] targets hm = ok hm
  map_nodes (b ∷ backups) [] hm = err index_error
  map_nodes (b ∷ backups) (t ∷ targets) hm = map_nodes backups targets (map_host b t hm)

  unfoldable pub map_ignored_racks : TokenMap → TokenMap → HostMap → Result HostMap
  unfolding map_nodes tokenmap_to_sorted_nodes
  map_ignored_racks tokenmap target_tokenmap hm = tokenmap_to_sorted_nodes tokenmap >>= λ backups.
      tokenmap_to_sorted_nodes target_tokenmap >>= λ targets. map_nodes backups targets hm

  unfoldable pub map_racks : Dict (List Node) → Dict (List Node) → HostMap → Result HostMap
  unfolding map_nodes
  map_racks [] targets hm = ok hm
  map_racks (b ∷ backups) [] hm = err index_error
  map_racks (b ∷ backups) (t ∷ targets) hm =
      map_nodes b.1 t.1 hm >>= λ hm'. map_racks backups targets hm'

  unfoldable pub map_with_racks : TokenMap → TokenMap → HostMap → Result HostMap
  unfolding map_racks tokenmap_to_nodes_per_rack
  map_with_racks tokenmap target_tokenmap hm = tokenmap_to_nodes_per_rack tokenmap >>= λ backups.
      tokenmap_to_nodes_per_rack target_tokenmap >>= λ targets. map_racks backups targets hm

  module _ (arrange : List Text → List Text) where
    unfoldable pub map_different_topologies : TokenMap → TokenMap → Job → Result Job
    unfolding chunk_hosts assign_groups
    map_different_topologies tokenmap target_tokenmap job =
        let restore_hosts = arrange (keys target_tokenmap) in
        chunk_hosts (arrange (keys tokenmap)) restore_hosts >>= λ groups. ok (record job {
          host_map = assign_groups restore_hosts groups job.host_map;
          use_sstableloader = true;
        })

    -- The last part of `_populate_ringmap`, after the decision about the topology.
    unfoldable pub map_matching : Bool → TokenMap → TokenMap → Job → Result Job
    unfolding map_ignored_racks map_with_racks
    map_matching ignore_racks tokenmap target_tokenmap job =
        (if ignore_racks
          then map_ignored_racks tokenmap target_tokenmap job.host_map
          else map_with_racks tokenmap target_tokenmap job.host_map)
        >>= λ hm. ok (record job { host_map = hm })

    unfoldable pub tokens_suit : TokenMap → TokenMap → Bool
    unfolding check_token_counts token_keys same_keys
    tokens_suit tokenmap target_tokenmap =
        let (tokens_match, backup_tokens_per_host) = check_token_counts tokenmap target_tokenmap in
        tokens_match
        && not (
            option_eq backup_tokens_per_host (some 1)
            && not (same_keys (token_keys target_tokenmap) (token_keys tokenmap)))

    unfoldable pub map_ring : Bool → Bool → TokenMap → TokenMap → Job → Result Job
    unfolding map_different_topologies map_matching
    map_ring rings_match ignore_racks tokenmap target_tokenmap job =
        if rings_match
        then map_matching ignore_racks tokenmap target_tokenmap job
        else map_different_topologies tokenmap target_tokenmap job

    unfoldable pub populate_ringmap :
        Bool → Bool → List Text → TokenMap → TokenMap → Job → Result Job
    unfolding validate_ringmap is_restore_in_place handle_auth_decision map_ring tokens_suit
    populate_ringmap ignore_racks bypass_checks answers tokenmap target_tokenmap job =
        validate_ringmap ignore_racks tokenmap target_tokenmap >>= λ topology_matches.
        let in_place = is_restore_in_place tokenmap target_tokenmap in
        (if in_place then ok false else handle_auth_decision bypass_checks job.keep_auth answers)
        >>= λ keep_auth.
            let job' = record job { in_place = in_place; keep_auth = keep_auth } in
            map_ring (topology_matches && tokens_suit tokenmap target_tokenmap) ignore_racks
              tokenmap target_tokenmap job'
