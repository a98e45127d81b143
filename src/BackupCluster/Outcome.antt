-- ===== src/BackupCluster/Outcome.antt =====
-- How `orchestrate` of medusa/backup_cluster.py ends.
use cassandra_medusa.Base.{
  Bool, true, List, [], ◌∷◌, ◌++◌, ◌≡◌, ◌⊎◌, inl, inr, refl, arith, Result-cases, All, false, ap,
  if◌then◌else◌,
}
use cassandra_medusa.Base.{Exception, Result, ok, err, system_exit}
use cassandra_medusa.Base.Text.{Text}
use cassandra_medusa.Base.Dict.{keys}
use cassandra_medusa.TokenMap.{TokenMap}
use cassandra_medusa.ClusterBackup.{ClusterBackup}
use cassandra_medusa.Effects.{Run, ◌>>=◌}
use cassandra_medusa.BackupCluster.{
  Pool, snapshots, uploads, Event, pssh_run, sent_duration, sent_error, BackupJob, build_backup_cmd,
  hosts_of, create_snapshots, upload_backup, execute_on, execute, all_or_raise, finish, give_up,
  checks, orchestrate,
}

-- The commands of a backup on its hosts.
abbrev pub commands : BackupJob → List Text → List Event
unfolding build_backup_cmd
commands j hosts =
    if j.use_existing_snapshot
    then pssh_run uploads hosts (build_backup_cmd j) ∷ []
    else pssh_run snapshots hosts j.create_snapshot_command
      ∷ pssh_run uploads hosts (build_backup_cmd j)
      ∷ []

module _ (pssh : Pool → List Text → Text → Result Bool) where
  -- A command has succeeded on all hosts.
  abbrev pub HasSucceeded : Event → Type 0
  HasSucceeded (pssh_run pool hosts command) = pssh pool hosts command ≡ ok true
  HasSucceeded (sent_duration name) = Unit
  HasSucceeded (sent_error name v) = Unit

  -- The backup of the token map's hosts has run whole.
  abbrev pub IsDone : BackupJob → Result TokenMap → List Event × Result (Unit {0}) → Type 0
  IsDone j tokenmap (es, r) =
      (r ≡ ok tt)
      × (m : TokenMap) × (tokenmap ≡ ok m)
      × (es
          ≡ commands j (keys m) ++ (sent_duration j.backup_name ∷ sent_error j.backup_name 0 ∷ []))
      × All HasSucceeded (commands j (keys m))

  -- It has not begun: only the metric is sent.
  abbrev pub IsRefused : BackupJob → List Event × Result (Unit {0}) → Type 0
  IsRefused j (es, r) = (es ≡ sent_error j.backup_name 1 ∷ []) × (r ≡ err (system_exit 1))

  -- It has failed: after a first part of its commands the metric is sent and the snapshots are
  -- removed on the hosts.
  abbrev pub IsFailed : BackupJob → Result TokenMap → List Event × Result (Unit {0}) → Type 0
  IsFailed j tokenmap (es, r) =
      (before : List Event) × (es
        ≡ before
          ++ (sent_error j.backup_name 1
              ∷ pssh_run uploads (hosts_of tokenmap) j.delete_snapshot_command
              ∷ []))
      × ((rest : List Event) × (before ++ rest ≡ commands j (hosts_of tokenmap)))
      × ((e : Exception) × (r ≡ err e))

  execute_on-ok :
      (j : BackupJob) (hosts : List Text)
      → (execute_on pssh j hosts).1 ≡ ok tt
      → ((execute_on pssh j hosts).0 ≡ commands j hosts) × All HasSucceeded (commands j hosts)
  unfolding execute_on create_snapshots upload_backup ◌>>=◌ commands
  execute_on-ok j hosts h = ground arith

  execute-ok :
      (j : BackupJob) (tokenmap : Result TokenMap)
      → (execute pssh j tokenmap).1 ≡ ok tt
      → (m : TokenMap) × (tokenmap ≡ ok m)
        × ((execute pssh j tokenmap).0 ≡ commands j (keys m))
        × All HasSucceeded (commands j (keys m))
  unfolding execute ◌>>=◌
  execute-ok j (err e) h = absurd (ground arith)
  execute-ok j (ok m) h = let (e, a) = execute_on-ok j (keys m) h in (m, refl, e, a)

  abbrev checked : Event → Result Bool → Run Event (Unit {0})
  checked e u = (e ∷ [], u) >>= all_or_raise pssh

  one_command : (e : Event) (u : Result Bool) → (checked e u).0 ≡ e ∷ []
  unfolding ◌>>=◌
  one_command e (ok true) = refl
  one_command e (ok false) = refl
  one_command e (err x) = refl

  two_commands :
      (e f : Event) (u v : Result Bool)
      → (rest : List Event) × ((checked e u >>= λ _. checked f v).0 ++ rest ≡ e ∷ f ∷ [])
  unfolding ◌>>=◌
  two_commands e f (ok true) v = ([], rw (one_command f v) refl)
  two_commands e f (ok false) v = (f ∷ [], refl)
  two_commands e f (err x) v = (f ∷ [], refl)

  first_commands :
      (b : Bool) (e f : Event) (u v : Result Bool)
      → (rest : List Event) × ((if b then checked f v else (checked e u >>= λ _. checked f v)).0
            ++ rest
          ≡ (if b then f ∷ [] else e ∷ f ∷ []))
  first_commands true e f u v = ([], ap (λ es. es ++ []) (one_command f v))
  first_commands false e f u v = two_commands e f u v

  execute_on-first :
      (j : BackupJob) (hosts : List Text)
      → (rest : List Event) × ((execute_on pssh j hosts).0 ++ rest ≡ commands j hosts)
  unfolding execute_on create_snapshots upload_backup commands
  execute_on-first j hosts =
      first_commands j.use_existing_snapshot (pssh_run snapshots hosts j.create_snapshot_command)
        (pssh_run uploads hosts (build_backup_cmd j))
        (pssh snapshots hosts j.create_snapshot_command) (pssh uploads hosts (build_backup_cmd j))

  execute-first :
      (j : BackupJob) (tokenmap : Result TokenMap)
      → (rest : List Event) × ((execute pssh j tokenmap).0 ++ rest ≡ commands j (hosts_of tokenmap))
  unfolding execute ◌>>=◌
  execute-first j (err e) = (commands j [], refl)
  execute-first j (ok m) = execute_on-first j (keys m)

  finish-Outcome :
      (j : BackupJob) (tokenmap : Result TokenMap) (run : Run Event (Unit {0}))
      → (run.1 ≡ ok tt
          → (m : TokenMap) × (tokenmap ≡ ok m)
            × (run.0 ≡ commands j (keys m))
            × All HasSucceeded (commands j (keys m)))
      → ((rest : List Event) × (run.0 ++ rest ≡ commands j (hosts_of tokenmap)))
      → IsDone j tokenmap (finish pssh j tokenmap run)
        ⊎ IsFailed j tokenmap (finish pssh j tokenmap run)
  unfolding finish give_up ◌>>=◌
  finish-Outcome j tokenmap (es, ok u) h f =
      let (m, t, e, a) = h refl in inl (refl, m, t, rw e refl, a)
  finish-Outcome j tokenmap (es, err x) h f =
      elim (Result-cases (pssh uploads (hosts_of tokenmap) j.delete_snapshot_command)) [
        | inl (b, e) ↦ inr (es, rw e refl, f, (system_exit 1, rw e refl))
        | inr (x', e) ↦ inr (es, rw e refl, f, (x', rw e refl))
      ]

  -- The backup of a cluster ends in one of three ways. It is refused, with an error metric and the
  -- exit of the process, before any command is run. Or it returns: then the token map was read,
  -- exactly the commands of the backup ran on all its hosts, each with success, and the metrics
  -- say so. Or it raises: after a first part of its commands, all of them at most, the error metric
  -- is sent, and then the command that removes the snapshots runs on the hosts of the token map, if
  -- it was read.
  pub orchestrate-Outcome :
      (fqdn : Text) (is_dir : Bool) (existing : Result ClusterBackup) (j : BackupJob)
      (tokenmap : Result TokenMap)
      → let out = orchestrate pssh fqdn is_dir existing j tokenmap in
        IsRefused j out ⊎ IsDone j tokenmap out ⊎ IsFailed j tokenmap out
  unfolding orchestrate give_up
  orchestrate-Outcome fqdn is_dir existing j tokenmap =
      elim (Result-cases (checks pssh fqdn is_dir j.backup_name existing)) [
        | inl (u, e) ↦ rw e (
            inr (
              finish-Outcome j tokenmap (execute pssh j tokenmap) (execute-ok j tokenmap)
                (execute-first j tokenmap)))
        | inr (x, e) ↦ rw e (inl (refl, refl))
      ]
