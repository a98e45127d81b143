-- ===== src/GrpcServer/Preparation.antt =====
-- PrepareRestore of medusa/service/grpc/server.py. The mappings written so far are a map from the
-- keys of the requests, and writing a file does not fail.
use cassandra_medusa.Base.{none, some, if◌then◌else◌}
use cassandra_medusa.Base.{Result, ok, err, is_caught, ◌>>=◌}
use cassandra_medusa.Base.Text.{Text}
use cassandra_medusa.Base.Dict.{Dict, insert}
use cassandra_medusa.ClusterBackup.{ClusterBackup}
use cassandra_medusa.Storage.Driver.{Driver}
use cassandra_medusa.Storage.NodeBackup.{Json}
use cassandra_medusa.Storage.Clusters.{get_cluster_backup}
use cassandra_medusa.RestoreCluster.{Job}
use cassandra_medusa.GrpcRestore.{Mapping}
use cassandra_medusa.GrpcServer.{Reply, internal}

abbrev mapping_of : Job → Mapping
mapping_of job = record { in_place = job.in_place; host_map = job.host_map }

-- The reply of a prepared job, or of the exception, and the mappings.
unfoldable pub prepared_reply :
    Text → Result Job → Dict Mapping → Result (Reply (Unit {0})) × Dict Mapping
unfolding insert is_caught
prepared_reply key (ok job) written =
    (ok (record { response = tt; code = none }), insert key (mapping_of job) written)
prepared_reply key (err e) written =
    (if is_caught e then ok (record { response = tt; code = some internal }) else err e, written)

-- `prepare` is `prepare_restore` on the cluster backup.
unfoldable pub prepare_restore_reply :
    (D : Driver)
    → Json
    → Text
    → (ClusterBackup → Result Job)
    → Text
    → Text
    → Dict Mapping
    → D.State
    → (Result (Reply (Unit {0})) × Dict Mapping) × D.State
unfolding get_cluster_backup prepared_reply
prepare_restore_reply D J prefix prepare backup_name restore_key written s =
    let (r, s') = get_cluster_backup D J prefix backup_name s in
    (prepared_reply restore_key (r >>= prepare) written, s')
