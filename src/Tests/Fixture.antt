-- ===== src/Tests/Fixture.antt =====
-- A storage with one differential backup b1 of the node n1, one of whose two files is in the
-- manifest.
use cassandra_medusa.Base.{true, none, some, [], ◌∷◌, ◌++◌}
use cassandra_medusa.Base.Text.{Text, codes}
use cassandra_medusa.Manifest.{ManifestObject, Manifest}
use cassandra_medusa.Storage.Driver.{Blob, Driver}
use cassandra_medusa.Storage.NodeBackup.{Json, NodeBackup}
use cassandra_medusa.Storage.LocalStorage.{File, Files, local_storage}

abbrev pub store_driver : Driver
store_driver = local_storage (λ t. t)

abbrev pub file : Text → File
file c = record { content = c; mtime = 50 }

abbrev pub kept_file : ManifestObject
kept_file = record { path = codes "n1/data/ks/t/f1"; size = 1; md5 = codes "x" }

abbrev pub one_manifest : Manifest
one_manifest =
    record { keyspace = codes "ks"; columnfamily = codes "t"; objects = kept_file ∷ [] } ∷ []

abbrev pub json : Json
json = record {
  loads_manifest = λ _. some one_manifest;
  loads_tokenmap = λ _. none;
  loads_server_version = λ _. none;
  dumps_manifest = λ _. codes "m";
}

abbrev pub entry : Text → Text
entry name = codes "index/backup_index/b1/" ++ name

abbrev pub one_backup : Files
one_backup = record {
  clock = 60;
  files =
      (entry (codes "tokenmap_n1.json"), file (codes "t"))
      ∷ (entry (codes "schema_n1.cql"), file (codes "s"))
      ∷ (entry (codes "manifest_n1.json"), file (codes "m"))
      ∷ (entry (codes "started_n1_100.timestamp"), file (codes "100"))
      ∷ (entry (codes "finished_n1_200.timestamp"), file (codes "200"))
      ∷ (entry (codes "differential_n1"), file (codes "d"))
      ∷ (codes "n1/b1/meta/schema.cql", file (codes "s"))
      ∷ (codes "n1/b1/meta/manifest.json", file (codes "m"))
      ∷ (codes "n1/data/ks/t/f1", file (codes "x"))
      ∷ (codes "n1/data/ks/t/f2", file (codes "y"))
      ∷ [];
}

abbrev pub index_blob : Text → Blob
index_blob name = record { name = entry name; size = 1; hash = none; last_modified = 50 }

abbrev pub backup_b1 : NodeBackup
backup_b1 = record {
  fqdn = codes "n1";
  name = codes "b1";
  node_backup_path = codes "n1/b1";
  meta_path = codes "n1/b1/meta";
  data_path = codes "n1/data";
  is_differential = true;
  cached_blobs = [];
  manifest_blob = some (index_blob (codes "manifest_n1.json"));
  schema_blob = some (index_blob (codes "schema_n1.cql"));
  tokenmap_blob = some (index_blob (codes "tokenmap_n1.json"));
  started_timestamp = some 100;
  finished_timestamp = some 200;
}
