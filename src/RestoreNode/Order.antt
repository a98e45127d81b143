-- ===== src/RestoreNode/Order.antt =====
-- The order in which `restore_node_locally` acts.
use cassandra_medusa.Base.{ℕ, Bool, true, false}
use cassandra_medusa.Base.Text.{Text}
use cassandra_medusa.Manifest.{Manifest}
use cassandra_medusa.Storage.Driver.{Driver}
use cassandra_medusa.RestoreNode.Local.{
  Event, captured_version, downloaded, shut_down, waited_down, cleaned, restored,
  started_with_implicit_token, started, rebuilt_search_index, replaced_tokens, loaded_tables,
  verified,
}

-- The place of an action in the restore.
abbrev pub stage : Event → ℕ
stage (captured_version v) = 0
stage (downloaded fqtns) = 0
stage shut_down = 1
stage waited_down = 2
stage (cleaned path true) = 3
stage (restored commands) = 4
stage (started tokens) = 5
stage started_with_implicit_token = 5
stage (replaced_tokens tokens) = 5
stage rebuilt_search_index = 6
stage (loaded_tables path) = 6
stage (cleaned path false) = 7
stage verified = 8

-- What waits for Cassandra to be down, and what changes its files.
abbrev pub is_down_event : Event → Bool
is_down_event waited_down = true
is_down_event _ = false

abbrev pub changes_files : Event → Bool
changes_files (cleaned path true) = true
changes_files (restored commands) = true
changes_files _ = false
