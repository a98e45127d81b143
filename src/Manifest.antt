-- ===== src/Manifest.antt =====
-- The manifest of a node backup (medusa/backup_node.py, make_manifest_object), as `json.loads`
-- gives it, and `ManifestObject` of medusa/storage/abstract_storage.py.
use cassandra_medusa.Base.{ℕ, List}
use cassandra_medusa.Base.Text.{Text}

-- A file of a table, and where it is in the storage.
pub record ManifestObject : Type 0 where
  pub path : Text
  pub size : ℕ
  pub md5 : Text

-- The files of one table.
pub record Section : Type 0 where
  pub keyspace : Text
  pub columnfamily : Text
  pub objects : List ManifestObject

abbrev pub Manifest : Type 0
Manifest = List Section
