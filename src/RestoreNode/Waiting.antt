-- ===== src/RestoreNode/Waiting.antt =====
-- `wait_for_seeds` looks at the seeds at most 61 times.
use cassandra_medusa.Base.Text.{Text}
