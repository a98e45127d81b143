-- ===== src/ClusterBackup/Json.antt =====
-- `ClusterBackup.to_json_dict`.
use cassandra_medusa.Base.{ℕ, ◌+◌, Option, List, [], ◌∷◌, ◌++◌, truthy, length, if◌then◌else◌}
use cassandra_medusa.Base.{Result, ok, ◌>>=◌}
use cassandra_medusa.Base.Text.{Text}
use cassandra_medusa.ClusterBackup.{
  NodeInfo, ClusterBackup, nodes, node_size, node_num_objects, missing_nodes, started, finished,
  backup_type,
}

pub record NodeDict : Type 0 where
  pub fqdn : Text
  pub started : Option ℕ
  pub finished : Option ℕ
  pub server_type : Text
  pub release_version : Text
  pub size : ℕ
  pub num_objects : ℕ

-- The entry of a node backup, with its size and its number of objects.
unfoldable pub node_dict : NodeInfo → ℕ → ℕ → NodeDict
node_dict nb size num_objects = record {
  fqdn = nb.fqdn;
  started = nb.started;
  finished = nb.finished;
  server_type = nb.server_type;
  release_version = nb.release_version;
  size = size;
  num_objects = num_objects;
}

-- What the loop over the node backups gathers.
pub record Totals : Type 0 where
  pub nodes_list : List NodeDict
  pub incomplete_nodes_list : List NodeDict
  pub total_size : ℕ
  pub total_objects : ℕ

unfoldable pub gather : List NodeInfo → Totals → Result Totals
unfolding node_dict node_size node_num_objects
gather [] acc = ok acc
gather (nb ∷ nbs) acc =
    if truthy nb.finished
    then (do
      size ← node_size nb
      objects ← node_num_objects nb
      gather nbs (record acc {
        nodes_list = acc.nodes_list ++ (node_dict nb size objects ∷ []);
        total_size = acc.total_size + size;
        total_objects = acc.total_objects + objects;
      }))
    else gather nbs (record acc {
      incomplete_nodes_list = acc.incomplete_nodes_list ++ (node_dict nb 0 0 ∷ []);
    })

pub record JsonDict : Type 0 where
  pub name : Text
  pub started : Option ℕ
  pub finished : Option ℕ
  pub backup_type : Text
  pub size : ℕ
  pub num_objects : ℕ
  pub completed_nodes : ℕ
  pub nodes : List NodeDict
  pub incomplete_nodes : ℕ
  pub incomplete_nodes_list : List NodeDict
  pub missing_nodes : ℕ
  pub missing_nodes_list : List Text

abbrev pub no_totals : Totals
no_totals = record {
  nodes_list = [];
  incomplete_nodes_list = [];
  total_size = 0;
  total_objects = 0;
}

unfoldable pub to_json_dict : ClusterBackup → Result JsonDict
unfolding gather
to_json_dict cb = do
  totals ← gather (nodes cb) no_totals
  missing ← missing_nodes cb
  start ← started cb
  end ← finished cb
  ok (record {
    name = cb.name;
    started = start;
    finished = end;
    backup_type = backup_type cb;
    size = totals.total_size;
    num_objects = totals.total_objects;
    completed_nodes = length totals.nodes_list;
    nodes = totals.nodes_list;
    incomplete_nodes = length totals.incomplete_nodes_list;
    incomplete_nodes_list = totals.incomplete_nodes_list;
    missing_nodes = length missing;
    missing_nodes_list = missing;
  })
