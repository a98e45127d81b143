-- ===== src/ClusterBackup/Report.antt =====
-- The report of `to_json_dict` against the other methods of the cluster backup.
use cassandra_medusa.Base.{
  ℕ, ◌+◌, List, [], ◌∷◌, ◌++◌, ◌≡◌, inl, inr, Bool-cases, filter, length, length-append, ◌-◌, ◌≤◌,
  Option-cases, truthy, arith,
}
use cassandra_medusa.Base.{ok, >>=-eq-ok}
use cassandra_medusa.ClusterBackup.{
  NodeInfo, ClusterBackup, nodes, size, num_objects, sum_finished, node_size, node_num_objects,
  complete_nodes, missing_nodes, section_sizes, section_counts,
}
use cassandra_medusa.ClusterBackup.Json.{
  Totals, node_dict, gather, JsonDict, to_json_dict, no_totals,
}

-- The accumulators after a finished node, and after an unfinished one.
abbrev add_complete : NodeInfo → ℕ → ℕ → Totals → Totals
add_complete nb size objects acc = record acc {
  nodes_list = acc.nodes_list ++ (node_dict nb size objects ∷ []);
  total_size = acc.total_size + size;
  total_objects = acc.total_objects + objects;
}

abbrev add_incomplete : NodeInfo → Totals → Totals
add_incomplete nb acc = record acc {
  incomplete_nodes_list = acc.incomplete_nodes_list ++ (node_dict nb 0 0 ∷ []);
}

-- The loop adds to its totals what the sums over the finished nodes say.
record Gathered (nbs : List NodeInfo) (acc totals : Totals) : Type 0 where
  size_grows : acc.total_size ≤ totals.total_size
  objects_grow : acc.total_objects ≤ totals.total_objects
  sizes : sum_finished node_size nbs ≡ ok (totals.total_size - acc.total_size)
  objects : sum_finished node_num_objects nbs ≡ ok (totals.total_objects - acc.total_objects)
  completed :
      length totals.nodes_list
      ≡ length acc.nodes_list + length (filter (λ nb. truthy nb.finished) nbs)
  listed :
      length totals.nodes_list + length totals.incomplete_nodes_list
      ≡ length acc.nodes_list + length acc.incomplete_nodes_list + length nbs

gather-Gathered :
    (nbs : List NodeInfo) (acc totals : Totals)
    → gather nbs acc ≡ ok totals
    → Gathered nbs acc totals
unfolding gather sum_finished filter node_size node_num_objects
gather-Gathered [] acc totals h = ground arith
gather-Gathered (nb ∷ nbs) acc totals h = elim (Bool-cases (truthy nb.finished)) [
  | inr e ↦ ground (
    arith,
    gather-Gathered nbs (add_incomplete nb acc) totals,
    length-append acc.incomplete_nodes_list (node_dict nb 0 0 ∷ []),
  )
  | inl e ↦ elim (Option-cases nb.manifest) [
    | inl none_e ↦ absurd (ground arith)
    | inr (m, some_e) ↦
        let nd = node_dict nb (section_sizes m) (section_counts m) in
        ground (
          arith,
          gather-Gathered nbs (add_complete nb (section_sizes m) (section_counts m) acc) totals,
          length-append acc.nodes_list (nd ∷ []),
        )
  ]
]

-- Where the report is made without an exception, it agrees with the other methods: its sizes are
-- those of `size` and `num_objects`, its number of completed nodes that of `complete_nodes`, its
-- completed and incomplete nodes are together as many as the nodes, and its missing nodes are
-- those of `missing_nodes`.
pub to_json_dict_agrees :
    (cb : ClusterBackup) (json : JsonDict)
    → to_json_dict cb ≡ ok json
    → (size cb ≡ ok json.size)
      × (num_objects cb ≡ ok json.num_objects)
      × (json.completed_nodes ≡ length (complete_nodes cb))
      × (json.completed_nodes + json.incomplete_nodes ≡ length (nodes cb))
      × (missing_nodes cb ≡ ok json.missing_nodes_list)
      × (json.missing_nodes ≡ length json.missing_nodes_list)
unfolding to_json_dict size num_objects complete_nodes
to_json_dict_agrees cb json h =
    let (totals, g, h') = >>=-eq-ok (gather (nodes cb) no_totals) _ h in
    let (missing, m, h'') = >>=-eq-ok (missing_nodes cb) _ h' in
    ground (arith, gather-Gathered (nodes cb) no_totals totals g)
