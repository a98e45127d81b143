-- ===== src/ReportLatest.antt =====
-- medusa/report_latest.py: the metrics on the latest backups. `now` is the time in whole seconds;
-- what the storage answers is given to each try.
pub mod Retries
use cassandra_medusa.Base.{
  ℕ, zero, suc, ◌-◌, Bool, Option, none, some, List, [], ◌∷◌, ◌++◌, length, leb, if◌then◌else◌,
}
use cassandra_medusa.Base.Int.{ℤ, pos, negsuc}
use cassandra_medusa.Base.{Result, ok, err, type_error, is_caught}
use cassandra_medusa.Base.Text.{Text, codes}
use cassandra_medusa.ClusterBackup.{
  ClusterBackup, NodeInfo, is_complete, complete_nodes, incomplete_nodes, missing_nodes,
  num_objects, size,
}
use cassandra_medusa.Effects.{Run, done, lift, ◌>>=◌}

-- A metric: its two fixed tags, the name of the backup, and the value.
pub record Metric : Type 0 where
  pub scope : Text
  pub tag : Text
  pub backup_name : Text
  pub value : ℤ

-- `int(now - finished)`, which may be negative.
unfoldable pub seconds_ago : ℕ → ℕ → ℤ
seconds_ago now t = if leb t now then pos (now - t) else negsuc (t - now - 1)

module _ (push_metrics : Bool) where
  abbrev pub send : Metric → Run Metric (Unit {0})
  send m = if push_metrics then (m ∷ [], ok tt) else done tt

  abbrev pub metric : Text → Text → Text → ℤ → Run Metric (Unit {0})
  metric scope tag name value =
      send (record { scope = scope; tag = tag; backup_name = name; value = value })

  abbrev end_of : Option ℕ → Result ℕ
  end_of none = err type_error
  end_of (some t) = ok t

  unfoldable pub report_node : ℕ → NodeInfo → Run Metric (Unit {0})
  unfolding seconds_ago
  report_node now nb = lift (end_of nb.finished) >>= λ t.
      metric (codes "medusa-node-backup") (codes "seconds-since-backup") nb.name (seconds_ago now t)

  -- `check_node_backup`: where there is no latest backup, the index is built anew and the look
  -- repeated; `rebuilt` is what it finds then, or the exception of the building.
  unfoldable pub check_node_backup :
      ℕ → Option NodeInfo → Result (Option NodeInfo) → Run Metric (Unit {0})
  unfolding report_node
  check_node_backup now (some nb) rebuilt = report_node now nb
  check_node_backup now none (err e) = lift (err e)
  check_node_backup now none (ok none) = done tt
  check_node_backup now none (ok (some nb)) = report_node now nb

  -- `check_complete_cluster_backup`, the end of the latest complete backup given with it.
  unfoldable pub check_complete_cluster_backup :
      ℕ → Option (ClusterBackup × ℕ) → Run Metric (Unit {0})
  unfolding seconds_ago
  check_complete_cluster_backup now none = done tt
  check_complete_cluster_backup now (some (cb, t)) =
      metric (codes "medusa-cluster-backup") (codes "seconds-since-backup") cb.name
        (seconds_ago now t)

  abbrev count : Text → Text → ℕ → Run Metric (Unit {0})
  count tag name n = metric (codes "medusa-cluster-backup") tag name (pos n)

  unfoldable pub check_latest_cluster_backup : Option ClusterBackup → Run Metric (Unit {0})
  unfolding is_complete complete_nodes incomplete_nodes missing_nodes size num_objects
  check_latest_cluster_backup none = done tt
  check_latest_cluster_backup (some cb) = lift (is_complete cb) >>= λ complete.
      lift (missing_nodes cb) >>= λ missing. lift (size cb) >>= λ bytes.
      lift (num_objects cb) >>= λ objects.
      count (codes "complete-backups-node-count") cb.name (length (complete_nodes cb)) >>= λ _.
      count (codes "incomplete-backups-node-count") cb.name (length (incomplete_nodes cb)) >>= λ _.
      count (codes "missing-backups-node-count") cb.name (length missing) >>= λ _.
      count (codes "backup-total-size") cb.name bytes >>= λ _.
      count (codes "backup-total-file-count") cb.name objects

  -- The value that is sent in place of a report.
  abbrev pub long_time_flag_value : ℕ
  long_time_flag_value = 315365400

  abbrev pub tracking_error : Run Metric (Unit {0})
  tracking_error =
      metric (codes "medusa-cluster-backup") (codes "seconds-since-backup") (codes "TRACKING-ERROR")
        (pos long_time_flag_value)

  -- The loop of `report_latest` with the tries that are left: an exception of the last is logged,
  -- one that `except Exception` does not catch, as the exit of `build_indices`, ends the loop at
  -- once. The number of pauses of 15 seconds is the second result.
  abbrev pub retried :
      List Metric → ℕ → List Metric × ℕ × Result (Unit {0}) → List Metric × ℕ × Result (Unit {0})
  retried ms zero rest = (ms ++ tracking_error.0, 0, ok tt)
  retried ms (suc left) (more, pauses, r) = (ms ++ more, suc pauses, r)

  abbrev pub after_try :
      Run Metric (Unit {0})
      → ℕ
      → List Metric × ℕ × Result (Unit {0})
      → List Metric × ℕ × Result (Unit {0})
  unfolding is_caught
  after_try (ms, ok u) left rest = (ms, 0, ok tt)
  after_try (ms, err e) left rest = if is_caught e then retried ms left rest else (ms, 0, err e)

  unfoldable pub report_tries :
      ℕ → (ℕ → Run Metric (Unit {0})) → ℕ → List Metric × ℕ × Result (Unit {0})
  unfolding after_try
  report_tries zero attempt retry = ([], 0, ok tt)
  report_tries (suc left) attempt retry =
      after_try (attempt retry) left (report_tries left attempt (suc retry))

  -- One try, on what the storage answers.
  unfoldable pub report_once :
      ℕ
      → Option NodeInfo
      → Result (Option NodeInfo)
      → Option (ClusterBackup × ℕ)
      → Option ClusterBackup
      → Run Metric (Unit {0})
  unfolding check_node_backup check_complete_cluster_backup check_latest_cluster_backup
  report_once now node rebuilt complete latest = check_node_backup now node rebuilt >>= λ _.
      check_complete_cluster_backup now complete >>= λ _. check_latest_cluster_backup latest

  -- MAX_RETRIES is 3.
  unfoldable pub report_latest : (ℕ → Run Metric (Unit {0})) → List Metric × ℕ × Result (Unit {0})
  unfolding report_tries
  report_latest attempt = report_tries 3 attempt 0
