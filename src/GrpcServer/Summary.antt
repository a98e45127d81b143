-- ===== src/GrpcServer/Summary.antt =====
-- The summaries of medusa/service/grpc/server.py: GetBackup, GetBackups, and their overall status.
use cassandra_medusa.Base.{
  ℕ, Bool, true, false, Option, none, some, List, [], ◌∷◌, map, length, all, any, if◌then◌else◌,
}
use cassandra_medusa.Base.{Result, ok, err, attribute_error, ◌>>=◌}
use cassandra_medusa.Base.Int.{ℤ}
use cassandra_medusa.Base.Text.{Text}
use cassandra_medusa.ClusterBackup
use cassandra_medusa.ClusterBackup.{
  ClusterBackup, value_or_zero, finished, complete_nodes, backup_type, size, num_objects,
}
use cassandra_medusa.TokenMap.{RingItem}
use cassandra_medusa.Storage.Driver.{Driver}
use cassandra_medusa.Storage.NodeBackup.{Json}
use cassandra_medusa.Storage.Clusters.{get_cluster_backup}
use cassandra_medusa.Storage.Listing.{bind_all}
use cassandra_medusa.Listing.{get_backups}
use cassandra_medusa.GrpcServer.{StatusType, in_progress, success, failed, unknown, internal, Reply}

-- A message BackupNode, which no gRPC call changes.
pub record TokenMapNode : Type 0 where
  pub host : Text
  pub datacenter : Text
  pub rack : Text
  pub tokens : List ℤ

abbrev or_empty : Option Text → Text
or_empty none = []
or_empty (some t) = t

unfoldable pub create_token_map_node : Text × RingItem → TokenMapNode
create_token_map_node (node, item) = record {
  host = node;
  datacenter = or_empty item.dc;
  rack = or_empty item.rack;
  tokens = item.tokens;
}

pub record BackupSummary : Type 0 where
  pub backup_name : Text
  pub start_time : ℕ
  pub finish_time : ℕ
  pub total_nodes : ℕ
  pub finished_nodes : ℕ
  pub nodes : List TokenMapNode
  pub status : StatusType
  pub backup_type : Text
  pub total_size : ℕ
  pub total_objects : ℕ

abbrev pub finish_status : Option ℕ → StatusType
finish_status none = in_progress
finish_status (some t) = success

unfoldable pub get_backup_summary : ClusterBackup → Result BackupSummary
unfolding ClusterBackup.started finished complete_nodes size num_objects create_token_map_node
get_backup_summary cb = do
  start ← ClusterBackup.started cb
  finish ← finished cb
  tokenmap ← cb.first_nodebackup.tokenmap
  total_size ← size cb
  total_objects ← num_objects cb
  ok (record {
    backup_name = cb.name;
    start_time = value_or_zero start;
    finish_time = value_or_zero finish;
    total_nodes = length tokenmap;
    finished_nodes = length (complete_nodes cb);
    nodes = map create_token_map_node tokenmap;
    status = finish_status finish;
    backup_type = backup_type cb;
    total_size = total_size;
    total_objects = total_objects;
  })

abbrev pub eq_type : StatusType → StatusType → Bool
eq_type in_progress in_progress = true
eq_type success success = true
eq_type failed failed = true
eq_type unknown unknown = true
eq_type _ _ = false

-- The assignments in their order: each test that holds overwrites the status before it.
unfoldable pub set_overall_status : List StatusType → StatusType
unfolding all any
set_overall_status [] = unknown
set_overall_status (x ∷ xs) =
    let backups = x ∷ xs in
    let s1 = if all (λ s. eq_type s success) backups then success else unknown in
    let s2 = if any (λ s. eq_type s in_progress) backups then in_progress else s1 in
    let s3 = if any (λ s. eq_type s failed) backups then failed else s2 in
    if any (λ s. eq_type s unknown) backups then unknown else s3

pub record GetBackupResponse : Type 0 where
  pub backup : Option BackupSummary
  pub status : StatusType

pub record GetBackupsResponse : Type 0 where
  pub backups : List BackupSummary
  pub overall_status : StatusType

-- GetBackup, given the cluster backup that the storage returns or raises. In the summary of a
-- failure only the status is set.
unfoldable pub reply_backup : Result ClusterBackup → Reply GetBackupResponse
unfolding get_backup_summary
reply_backup r = elim (r >>= get_backup_summary) [
  | ok summary ↦ record {
    response = record { backup = some summary; status = summary.status };
    code = none;
  }
  | err e ↦ record { response = record { backup = none; status = unknown }; code = some internal }
]

unfoldable pub get_backup :
    (D : Driver) → Json → Text → Text → D.State → Reply GetBackupResponse × D.State
unfolding reply_backup get_cluster_backup
get_backup D J prefix name s =
    let (r, s') = get_cluster_backup D J prefix name s in (reply_backup r, s')

-- GetBackups, given the list or its exception. The message has no field `status`, so the handler
-- of an exception raises AttributeError in its turn.
unfoldable pub reply_backups : Result (List ClusterBackup) → Result (Reply GetBackupsResponse)
unfolding get_backup_summary set_overall_status
reply_backups r = elim (r >>= bind_all get_backup_summary) [
  | ok summaries ↦ ok (record {
    response = record {
      backups = summaries;
      overall_status = set_overall_status (map (λ s. s.status) summaries);
    };
    code = none;
  })
  | err e ↦ err attribute_error
]

unfoldable pub get_backups_reply :
    (D : Driver) → Json → Text → Text → D.State → Result (Reply GetBackupsResponse) × D.State
unfolding reply_backups get_backups
get_backups_reply D J prefix fqdn s =
    let (r, s') = get_backups D J prefix fqdn true s in (reply_backups r, s')
