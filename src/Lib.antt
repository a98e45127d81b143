-- ===== src/Lib.antt =====
-- Cassandra Medusa: backups of Apache Cassandra nodes to an object store (medusa/).
--
-- A node backup is made by medusa/backup_node.py: it writes metadata, uploads the files of a
-- snapshot through a storage driver, writes a manifest and names the backup in an index of the
-- store. The class Storage reads the index back as node backups and cluster backups; purging,
-- verification and restore work on these. The commands for a whole cluster run those of the nodes
-- over SSH. The gRPC service runs backups in threads and keeps their status in a registry.
--
-- Files and what they model:
--   Base                  helpers: tests, lists, exceptions as values, integers, texts, dicts,
--                         sorting
--   Manifest, TokenMap    the documents of a backup, and the token map of a ring
--   Filtering             medusa/filtering.py
--   BackupManager         medusa/backup_manager.py; the class attributes are a state that each
--                         method takes and returns; Refinement is its specification, a map from
--                         names
--   Storage.Driver        the interface of medusa/storage/abstract_storage.py that the rest uses: a
--                         record of operations on a state of the store, with laws
--   Storage.LocalStorage  medusa/storage/local_storage.py, an instance of it
--   Storage.Names, Storage.Listing, Storage.Clusters, Storage.Tables
--                         medusa/storage/__init__.py: names of the index, node backups, cluster
--                         backups, the files by table
--   Storage.NodeBackup    medusa/storage/node_backup.py
--   ClusterBackup         medusa/storage/cluster_backup.py, on the values of the node backups'
--                         properties
--   Storage.Discovery     discover_node_backups of medusa/storage/__init__.py
--   Index                 medusa/index.py
--   Purge                 medusa/purge.py: selection, clean-up, and the sweep of main (Purge.Sweep)
--   Decommissioned        medusa/purge_decommissioned.py
--   Storage.Hashing, Storage.Transfers
--                         the digests and the chunks of medusa/storage/abstract_storage.py, and the
--                         comparisons of s3_base_storage.py, google_storage.py and azure_storage.py
--   Storage.S3            medusa/storage/s3_base_storage.py: what it chooses before it calls boto
--   BackupNode            medusa/backup_node.py: the files and the manifest, Stagger, and the run
--                         (Run)
--   BackupCluster         medusa/backup_cluster.py; the SSH run of a command is a parameter
--   RestoreNode           medusa/restore_node.py; Local is the restore on the node, Loader the one
--                         with sstableloader
--   RestoreCluster        medusa/restore_cluster.py: the mapping of backup hosts to target nodes;
--                         Rings holds the racks, the tokens and their validation, Preparation
--                         prepares a job, Execution runs it
--   VerifyRestore         medusa/verify_restore.py
--   Cassandra             medusa/cassandra_utils.py: Config reads cassandra.yaml, Tokens rewrites
--                         it, Ring is the session and medusa/network/hostname_resolver.py, Health
--                         the checks and waits, Snapshots the snapshots; Services is
--                         medusa/service/snapshot, over the commands of a node with laws; Commands
--                         is medusa/nodetool.py, host_man.py and the snapshot commands
--   GrpcServer            medusa/service/grpc/server.py: the handlers of a backup, Query its
--                         status, Deletion the removals, Summary the lists; Worker has the steps of
--                         a backup's thread between the calls of other threads
--   GrpcRestore           medusa/service/grpc/restore.py
--   Config                medusa/config.py
--   Listing, Status, ReportLatest, Download, Schema
--                         medusa/listing.py, status.py, report_latest.py, download.py, schema.py
--   Effects               helper: what a code does, as a list, and its result
--   Verify                medusa/verify.py
--   Orchestration         medusa/orchestration.py
--   Utils                 medusa/utils.py
--   Tests                 the theorems at concrete inputs
--
-- Conventions. A text is the list of its character codes, a dict an association list in the order
-- of insertion, a set of texts a list without repetitions. An exception is a value of Exception in
-- a Result. A function that changes the store takes the state of the driver and returns it.
-- Generators are run to their end. Times are numbers of seconds, or of microseconds where the name
-- says so.
--
-- Fuel. `chunks` has fuel for as many chunks as there are elements, `wait_loop` for the 61 looks
-- that the code allows, `digits_from` for one more digit than the number. `parts`, the loop of the
-- multipart digest, has one more than the bytes of the file, `session_loop` and `report_tries` the
-- attempts that are left. `stagger_loop` has the fuel of its caller, and its theorem holds for any
-- fuel beyond the look at which the loop ends.
--
-- Not modelled: the calls of the cloud vendors' libraries; Cassandra, nodetool, SSH, the requests
-- for snapshots, the resolver of host names, the local time of dates, regular expressions and
-- json, which are parameters; the command line, the gRPC client and the start of the server,
-- monitoring, log messages; DSE snapshots and the paths of tables; the INI file and the defaults
-- of the configuration; the memoised values of a node backup.
pub mod BackupCluster
pub mod BackupManager
pub mod BackupNode
pub mod Base
pub mod Cassandra
pub mod ClusterBackup
pub mod Config
pub mod Decommissioned
pub mod Download
pub mod Effects
pub mod Filtering
pub mod GrpcRestore
pub mod GrpcServer
pub mod Index
pub mod Listing
pub mod Manifest
pub mod Orchestration
pub mod Purge
pub mod ReportLatest
pub mod RestoreCluster
pub mod RestoreNode
pub mod Schema
pub mod Status
pub mod Storage
pub mod Tests
pub mod TokenMap
pub mod Utils
pub mod Verify
pub mod VerifyRestore
