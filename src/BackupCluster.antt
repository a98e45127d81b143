-- ===== src/BackupCluster.antt =====
-- medusa/backup_cluster.py: the backup of all nodes of a cluster, over SSH. `pssh` gives what a
-- call of `Orchestration.pssh_run` on the hosts does (Orchestration); like the storage and the
-- session, it raises no SystemExit, which the handler would let through.
pub mod Outcome
use cassandra_medusa.Base.{
  ℕ, Bool, true, false, Option, none, some, List, [], ◌∷◌, ◌++◌, if◌then◌else◌,
}
use cassandra_medusa.Base.{Result, ok, err, value_error, key_error, runtime_error, system_exit}
use cassandra_medusa.Base.Text.{Text, codes, text_eq}
use cassandra_medusa.Base.Dict.{keys}
use cassandra_medusa.TokenMap.{TokenMap}
use cassandra_medusa.ClusterBackup.{ClusterBackup}
use cassandra_medusa.Effects.{Run, done, raise, lift, ◌>>=◌}

-- Which pool of connections runs a command.
pub data Pool : Type 0 where
  snapshots uploads : Pool

-- What is done: a command on hosts, and a metric with its tags and its value. The duration is not
-- told.
pub data Event : Type 0 where
  pssh_run : Pool → List Text → Text → Event
  sent_duration : Text → Event
  sent_error : Text → ℕ → Event

-- The job, and what it takes from the configuration.
pub record BackupJob : Type 0 where
  pub backup_name : Text
  pub stagger : Text
  pub enable_md5_checks : Bool
  pub mode : Text
  pub keep_snapshot : Bool
  pub use_existing_snapshot : Bool
  pub work_dir : Text
  pub use_sudo : Bool
  pub config_file : Text
  pub create_snapshot_command : Text
  pub delete_snapshot_command : Text

abbrev option_if : Bool → Text → Text
option_if true t = t
option_if false t = []

abbrev with_value : Text → Text → Text
with_value name [] = []
with_value name (c ∷ value) = name ++ (c ∷ value)

-- `_build_backup_cmd`
unfoldable pub build_backup_cmd : BackupJob → Text
build_backup_cmd j =
    codes "mkdir -p "
    ++ j.work_dir
    ++ codes "; cd "
    ++ j.work_dir
    ++ codes " && medusa-wrapper "
    ++ option_if j.use_sudo (codes "sudo")
    ++ codes " medusa "
    ++ with_value (codes "--config-file ") j.config_file
    ++ codes " -vvv backup-node --backup-name "
    ++ j.backup_name
    ++ codes " "
    ++ with_value (codes "--in-stagger ") j.stagger
    ++ codes " "
    ++ option_if j.enable_md5_checks (codes "--enable-md5-checks")
    ++ codes " --mode "
    ++ j.mode
    ++ codes " "
    ++ option_if j.keep_snapshot (codes "--keep-snapshot")
    ++ codes " "
    ++ option_if j.use_existing_snapshot (codes "--use-existing-snapshot")

-- The hosts of the job at the time of a failure: none before the token map is read.
abbrev pub hosts_of : Result TokenMap → List Text
unfolding keys
hosts_of (ok m) = keys m
hosts_of (err e) = []

module _ (pssh : Pool → List Text → Text → Result Bool) where
  -- A command on the hosts: all have succeeded, or not.
  abbrev pub on_hosts : Pool → List Text → Text → Run Event Bool
  on_hosts pool hosts command = (pssh_run pool hosts command ∷ [], pssh pool hosts command)

  abbrev pub all_or_raise : Bool → Run Event (Unit {0})
  all_or_raise true = done tt
  all_or_raise false = raise runtime_error

  unfoldable pub create_snapshots : BackupJob → List Text → Run Event (Unit {0})
  create_snapshots j hosts = on_hosts snapshots hosts j.create_snapshot_command >>= all_or_raise

  unfoldable pub upload_backup : BackupJob → List Text → Run Event (Unit {0})
  unfolding build_backup_cmd
  upload_backup j hosts = on_hosts uploads hosts (build_backup_cmd j) >>= all_or_raise

  -- Once the hosts are known.
  unfoldable pub execute_on : BackupJob → List Text → Run Event (Unit {0})
  unfolding create_snapshots upload_backup
  execute_on j hosts =
      if j.use_existing_snapshot
      then upload_backup j hosts
      else (create_snapshots j hosts >>= λ _. upload_backup j hosts)

  -- `execute`; the token map is that of the session, or the exception of connecting.
  unfoldable pub execute : BackupJob → Result TokenMap → Run Event (Unit {0})
  unfolding execute_on keys
  execute j tokenmap = lift tokenmap >>= λ m. execute_on j (keys m)

  -- The checks before the job: the node's own name, the directory, and the name of the backup.
  abbrev pub absent_or_raise : Text → Result ClusterBackup → Result (Unit {0})
  unfolding text_eq
  absent_or_raise name (ok cb) = if text_eq cb.name name then err value_error else ok tt
  absent_or_raise name (err key_error) = ok tt
  absent_or_raise name (err e) = err e

  unfoldable pub checks : Text → Bool → Text → Result ClusterBackup → Result (Unit {0})
  unfolding absent_or_raise
  checks [] is_dir name existing = err value_error
  checks (c ∷ fqdn) is_dir name existing =
      if is_dir then absent_or_raise name existing else err value_error

  -- The `except` clause: the metric, the removal of the snapshots on the job's hosts where there is
  -- a job, and the exit. An exception of the removal goes on.
  unfoldable pub give_up : BackupJob → Option (List Text) → Run Event (Unit {0})
  give_up j none = (sent_error j.backup_name 1 ∷ [], err (system_exit 1))
  give_up j (some hosts) = (sent_error j.backup_name 1 ∷ [], ok tt) >>= λ _.
      on_hosts uploads hosts j.delete_snapshot_command >>= λ cleaned. raise (system_exit 1)

  abbrev pub finish : BackupJob → Result TokenMap → Run Event (Unit {0}) → Run Event (Unit {0})
  unfolding give_up ◌>>=◌
  finish j tokenmap (es, ok u) =
      (es ++ (sent_duration j.backup_name ∷ sent_error j.backup_name 0 ∷ []), ok tt)
  finish j tokenmap (es, err e) =
      let (fs, r) = give_up j (some (hosts_of tokenmap)) in (es ++ fs, r)

  abbrev after_checks : BackupJob → Result TokenMap → Result (Unit {0}) → Run Event (Unit {0})
  unfolding finish execute give_up
  after_checks j tokenmap (err e) = give_up j none
  after_checks j tokenmap (ok u) = finish j tokenmap (execute j tokenmap)

  -- `orchestrate`, where the constructor of the job does not raise. `existing` is what
  -- `get_cluster_backup` gives for the name.
  unfoldable pub orchestrate :
      Text → Bool → Result ClusterBackup → BackupJob → Result TokenMap → Run Event (Unit {0})
  unfolding checks after_checks
  orchestrate fqdn is_dir existing j tokenmap =
      after_checks j tokenmap (checks fqdn is_dir j.backup_name existing)
