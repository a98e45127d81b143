-- ===== src/Tests/Clusters.antt =====
-- Cluster backups of two nodes.
use cassandra_medusa.Base.{
  ℕ, ◌+◌, ◌≤◌, Bool, true, false, Option, none, some, List, [], ◌∷◌, ◌≡◌, ◌≢◌, ◌⊎◌, refl, inl, inr,
  All, In, any, map, length, arith, truthy,
}
use cassandra_medusa.Base.{Result, ok, err}
use cassandra_medusa.Base.Text.{Text, codes}
use cassandra_medusa.Base.Int.{pos}
use cassandra_medusa.TokenMap.{RingItem, TokenMap}
use cassandra_medusa.ClusterBackup.{
  NodeInfo, ClusterBackup, nodes, missing_nodes, nonempty, finished, is_complete, max_finished,
  complete_nodes, incomplete_nodes, value_or_zero, size, num_objects,
}
use cassandra_medusa.ClusterBackup.Completion.{finished-is_complete, finished_latest}
use cassandra_medusa.ClusterBackup.Json.{NodeDict, JsonDict, to_json_dict}
use cassandra_medusa.ClusterBackup.Report.{to_json_dict_agrees}
use cassandra_medusa.Storage.Clusters.{latest_by}
use cassandra_medusa.Storage.Clusters.Search.{IsLatest, latest_by_finished}

abbrev ring_item : RingItem
ring_item = record { tokens = pos 1 ∷ []; is_up = true; rack = none; dc = none }

abbrev two_nodes : TokenMap
two_nodes = (codes "n1", ring_item) ∷ (codes "n2", ring_item) ∷ []

abbrev node : Text → ℕ → NodeInfo
node fqdn end = record {
  fqdn = fqdn;
  name = codes "b1";
  started = some 1;
  finished = some end;
  is_differential = false;
  manifest = some [];
  tokenmap = ok two_nodes;
  server_type = codes "cassandra";
  release_version = codes "4";
}

abbrev whole : ClusterBackup
whole = record {
  name = codes "b1";
  first_nodebackup = node (codes "n1") 5;
  node_backups = (codes "n1", node (codes "n1") 5) ∷ (codes "n2", node (codes "n2") 7) ∷ [];
}

none_missing : missing_nodes whole ≡ ok []
unfolding missing_nodes cassandra_medusa.Base.filter cassandra_medusa.Base.Text.mem
    cassandra_medusa.Base.Text.text_eq
none_missing = refl

whole_finished : finished whole ≡ ok (some 7)
unfolding finished any cassandra_medusa.Base.filter cassandra_medusa.Base.Text.mem
    cassandra_medusa.Base.Text.text_eq
whole_finished = refl

finished-is_complete_example :
    (is_complete whole ≡ ok true × (finished whole ≡ ok (some (max_finished (nodes whole)))))
    ⊎ (is_complete whole ≡ ok false × (finished whole ≡ ok none))
finished-is_complete_example =
    finished-is_complete whole [] (node (codes "n1") 5) (node (codes "n2") 7 ∷ []) none_missing tt
      refl

finished_latest_example :
    (any nonempty [] ≡ false)
    × In (some 7) (map (λ nb. nb.finished) (nodes whole))
    × ((nb : NodeInfo)
        → In nb (nodes whole)
        → (truthy nb.finished ≡ true) × (value_or_zero nb.finished ≤ 7))
finished_latest_example = finished_latest whole [] 7 none_missing whole_finished

latest_example : latest_by finished (whole ∷ []) ≡ ok (some (whole, 7))
unfolding latest_by finished any cassandra_medusa.Base.filter cassandra_medusa.Base.Text.mem
    cassandra_medusa.Base.Text.text_eq
latest_example = refl

latest_by_finished_example : IsLatest (whole ∷ []) (some (whole, 7))
latest_by_finished_example = latest_by_finished (whole ∷ []) (some (whole, 7)) latest_example

abbrev entry_of : Text → ℕ → NodeDict
entry_of fqdn end = record {
  fqdn = fqdn;
  started = some 1;
  finished = some end;
  server_type = codes "cassandra";
  release_version = codes "4";
  size = 0;
  num_objects = 0;
}

abbrev whole_json : JsonDict
whole_json = record {
  name = codes "b1";
  started = some 1;
  finished = some 7;
  backup_type = codes "full";
  size = 0;
  num_objects = 0;
  completed_nodes = 2;
  nodes = entry_of (codes "n1") 5 ∷ entry_of (codes "n2") 7 ∷ [];
  incomplete_nodes = 0;
  incomplete_nodes_list = [];
  missing_nodes = 0;
  missing_nodes_list = [];
}

to_json_whole : to_json_dict whole ≡ ok whole_json
unfolding to_json_dict missing_nodes cassandra_medusa.ClusterBackup.started finished any
    cassandra_medusa.Base.filter cassandra_medusa.Base.Text.mem cassandra_medusa.Base.Text.text_eq
to_json_whole = refl

to_json_dict_agrees_example :
    (size whole ≡ ok 0)
    × (num_objects whole ≡ ok 0)
    × (2 ≡ length (complete_nodes whole))
    × (2 + 0 ≡ length (nodes whole))
    × (missing_nodes whole ≡ ok [])
    × (0 ≡ length {A = Text} [])
to_json_dict_agrees_example = to_json_dict_agrees whole whole_json to_json_whole
