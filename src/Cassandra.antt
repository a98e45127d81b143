-- ===== src/Cassandra.antt =====
-- medusa/cassandra_utils.py with medusa/nodetool.py, medusa/host_man.py and
-- medusa/network/hostname_resolver.py: what the program asks of the Cassandra on its host.
pub mod Config
pub mod Commands
pub mod Ring
pub mod Services
pub mod Snapshots
pub mod Health
pub mod Tokens
