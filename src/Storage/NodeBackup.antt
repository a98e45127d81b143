-- ===== src/Storage/NodeBackup.antt =====
-- medusa/storage/node_backup.py: the backup of one node. Its properties are read against a state
-- of the object store; what an object has memoised is not kept from one state to the next.
use cassandra_medusa.Base.{ℕ, Bool, ◌||◌, Option, none, some, List, [], ◌∷◌, is_some, if◌then◌else◌}
use cassandra_medusa.Base.{Result, ok, err, attribute_error, json_error, ◌>>=◌}
use cassandra_medusa.Base.Text.{Text, codes, text_eq, path_join}
use cassandra_medusa.Manifest.{Manifest}
use cassandra_medusa.TokenMap.{TokenMap}
use cassandra_medusa.ClusterBackup.{NodeInfo}
use cassandra_medusa.Storage.Driver.{Blob, Driver, get_blob_content_as_string}

-- `json.loads` at the documents that the program reads, `none` where it raises, and `json.dumps`
-- of a manifest.
pub record Json : Type 0 where
  pub loads_manifest : Text → Option Manifest
  pub loads_tokenmap : Text → Option TokenMap
  -- server_type and release_version of server_version.json
  pub loads_server_version : Text → Option (Text × Text)
  pub dumps_manifest : Manifest → Text

pub record NodeBackup : Type 0 where
  pub fqdn : Text
  pub name : Text
  pub node_backup_path : Text
  pub meta_path : Text
  pub data_path : Text
  pub is_differential : Bool
  pub cached_blobs : List Blob
  pub manifest_blob : Option Blob
  pub schema_blob : Option Blob
  pub tokenmap_blob : Option Blob
  pub started_timestamp : Option ℕ
  pub finished_timestamp : Option ℕ

-- The blobs and the times that the index gives to the constructor.
pub record Preloaded : Type 0 where
  pub blobs : List Blob
  pub manifest_blob : Option Blob
  pub schema_blob : Option Blob
  pub tokenmap_blob : Option Blob
  pub started_timestamp : Option ℕ
  pub finished_timestamp : Option ℕ
  pub differential_blob : Option Blob

abbrev pub nothing_preloaded : Preloaded
nothing_preloaded = record {
  blobs = [];
  manifest_blob = none;
  schema_blob = none;
  tokenmap_blob = none;
  started_timestamp = none;
  finished_timestamp = none;
  differential_blob = none;
}

-- `NodeBackup(...)`; `prefix` is the configured prefix, empty for the path '.'.
unfoldable pub node_backup : Text → Text → Text → Bool → Preloaded → NodeBackup
unfolding path_join
node_backup prefix fqdn name differential_mode pre =
    let node_base_path = path_join prefix fqdn in
    let node_backup_path = path_join node_base_path name in
    let differential = differential_mode || is_some pre.differential_blob in
    record {
      fqdn = fqdn;
      name = name;
      node_backup_path = node_backup_path;
      meta_path = path_join node_backup_path (codes "meta");
      data_path =
          path_join (if differential then node_base_path else node_backup_path) (codes "data");
      is_differential = differential;
      cached_blobs = pre.blobs;
      manifest_blob = pre.manifest_blob;
      schema_blob = pre.schema_blob;
      tokenmap_blob = pre.tokenmap_blob;
      started_timestamp = pre.started_timestamp;
      finished_timestamp = pre.finished_timestamp;
    }

unfoldable pub tokenmap_path : NodeBackup → Text
tokenmap_path nb = path_join nb.meta_path (codes "tokenmap.json")

unfoldable pub schema_path : NodeBackup → Text
schema_path nb = path_join nb.meta_path (codes "schema.cql")

unfoldable pub manifest_path : NodeBackup → Text
manifest_path nb = path_join nb.meta_path (codes "manifest.json")

unfoldable pub differential_path : NodeBackup → Text
differential_path nb = path_join nb.meta_path (codes "differential")

unfoldable pub server_version_path : NodeBackup → Text
server_version_path nb = path_join nb.meta_path (codes "server_version.json")

unfoldable pub datapath : NodeBackup → Text → Text → Text
datapath nb keyspace columnfamily = path_join (path_join nb.data_path keyspace) columnfamily

unfoldable pub find_blob : Text → List Blob → Option Blob
find_blob path [] = none
find_blob path (b ∷ bs) = if text_eq b.name path then some b else find_blob path bs

module _ (D : Driver) where
  -- `_blob`: the cache first, then the store.
  unfoldable pub blob : NodeBackup → Text → D.State → Option Blob
  unfolding find_blob
  blob nb path s = elim (find_blob path nb.cached_blobs) [
    | some b ↦ some b
    | none ↦ D.get_blob s path
  ]

  -- A timestamp of the constructor, or the time of a blob.
  abbrev timestamp : Option ℕ → Option Blob → Option Blob → Option ℕ
  timestamp (some t) cached found = some t
  timestamp none (some b) found = some b.last_modified
  timestamp none none none = none
  timestamp none none (some b) = some b.last_modified

  unfoldable pub started : NodeBackup → D.State → Option ℕ
  unfolding blob
  started nb s = timestamp nb.started_timestamp nb.schema_blob (blob nb (schema_path nb) s)

  unfoldable pub finished : NodeBackup → D.State → Option ℕ
  unfolding blob
  finished nb s = timestamp nb.finished_timestamp nb.manifest_blob (blob nb (manifest_path nb) s)

  -- `exists()`
  unfoldable pub backup_exists : NodeBackup → D.State → Bool
  unfolding blob
  backup_exists nb s = is_some (blob nb (schema_path nb) s)

  unfoldable pub manifest : NodeBackup → D.State → Option Text
  manifest nb s = get_blob_content_as_string D s (manifest_path nb)

  unfoldable pub schema : NodeBackup → D.State → Option Text
  schema nb s = get_blob_content_as_string D s (schema_path nb)

  -- Reading the blob None raises.
  unfoldable pub tokenmap : NodeBackup → D.State → Result Text
  unfolding blob
  tokenmap nb s = elim nb.tokenmap_blob [
    | some b ↦ ok (D.read s b.name)
    | none ↦ elim (blob nb (tokenmap_path nb) s) [
      | none ↦ err attribute_error
      | some b ↦ ok (D.read s b.name)
    ]
  ]

  module _ (J : Json) where
    -- `server_type` and `release_version`, with the default of old backups.
    unfoldable pub server_version : NodeBackup → D.State → Text × Text
    unfolding blob
    server_version nb s =
        let default : Text × Text = (codes "cassandra", codes "unknown") in
        elim (blob nb (server_version_path nb) s) [
          | none ↦ default
          | some b ↦ elim (J.loads_server_version (D.read s b.name)) [ none ↦ default | some v ↦ v ]
        ]

    -- The values of the properties of a node backup.
    unfoldable pub info : NodeBackup → D.State → NodeInfo
    unfolding started finished manifest tokenmap server_version
    info nb s = record {
      fqdn = nb.fqdn;
      name = nb.name;
      started = started nb s;
      finished = finished nb s;
      is_differential = nb.is_differential;
      manifest = elim (manifest nb s) [ none ↦ none | some t ↦ J.loads_manifest t ];
      tokenmap = do
        t ← tokenmap nb s
        elim (J.loads_tokenmap t) [ none ↦ err json_error | some m ↦ ok m ];
      server_type = (server_version nb s).0;
      release_version = (server_version nb s).1;
    }
