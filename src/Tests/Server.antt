-- ===== src/Tests/Server.antt =====
-- The gRPC service on one backup b1 of the node n1, which a thread with the future 7 makes.
use cassandra_medusa.Base.{
  ℕ, Bool, true, false, not, ◌&&◌, none, some, List, [], ◌∷◌, ◌+◌, ◌≡◌, ◌⊎◌, inr, refl, arith,
  truthy, if◌then◌else◌,
}
use cassandra_medusa.Base.{Result, ok, err, io_error, is_ok}
use cassandra_medusa.Base.Text.{codes, decimal, text_eq}
use cassandra_medusa.Base.Dict.{lookup}
use cassandra_medusa.BackupManager.{
  BackupState, Manager, status_unknown, status_in_progress, ensure,
}
use cassandra_medusa.BackupManager.Refinement.{register, update, remove_one, view, calls}
use cassandra_medusa.Utils.{evaluate_boolean}
use cassandra_medusa.Storage.NodeBackup.{backup_exists}
use cassandra_medusa.Storage.LocalStorage.{Files}
use cassandra_medusa.BackupNode.Run.{Host, handle_backup}
use cassandra_medusa.GrpcServer.{BackupStatusResponse, Reply, success, failed, async_backup, backup}
use cassandra_medusa.GrpcServer.Query.{pending, status_of_times}
use cassandra_medusa.GrpcServer.Deletion.{delete_backup}
use cassandra_medusa.GrpcServer.Worker.{
  Work, System, queued, Action, work, request, run_schedule, futures,
}
use cassandra_medusa.GrpcServer.Owned.{HasOnly}
use cassandra_medusa.GrpcServer.Liveness.{status_after_schedule}
use cassandra_medusa.GrpcServer.Thread.{Agrees, error_of, four_steps, handle_backup-steps}
use cassandra_medusa.GrpcServer.Replies.{IsReplied, backup-IsReplied}
use cassandra_medusa.GrpcServer.Running.{delete-async_backup, delete_in_progress}
use cassandra_medusa.Tests.Fixture.{store_driver, one_backup, backup_b1}

abbrev never : ℕ → Bool
never f = false

abbrev in_future : BackupState
in_future = record { future = some 7; status = status_unknown; is_async = true }

abbrev one_future : Manager
one_future = some ((codes "b1", in_future) ∷ [])

abbrev good_work : Work
good_work = record {
  exists_already = false;
  failure = none;
  end_time = 200;
  grpc_enabled = codes "True";
}

abbrev begun : System
begun = record { manager = one_future; phase = queued; finished = none }

-- Other threads register b2, and remove b1 itself while its thread runs.
abbrev schedule : List Action
schedule =
    work
    ∷ request (register (codes "b2") false true)
    ∷ work
    ∷ request (remove_one (codes "b1"))
    ∷ work
    ∷ work
    ∷ []

begun-HasOnly : HasOnly 7 (view one_future (codes "b1"))
unfolding view ensure lookup text_eq
begun-HasOnly = inr refl

true_enabled : evaluate_boolean (codes "True") ≡ ok true
unfolding evaluate_boolean cassandra_medusa.Base.Text.text_eq
true_enabled = refl

status_after_schedule_example :
    let y' = run_schedule never (codes "b1") good_work schedule begun in
    (m' : Manager) × (reply : Reply BackupStatusResponse) × (status_of_times never decimal
        (futures 7 (λ _. pending) y'.phase)
        (codes "b1")
        (some 100)
        y'.finished
        y'.manager
      ≡ (ok reply, m'))
    × (reply.code ≡ none)
    × (((reply.response.status ≡ success) × (truthy y'.finished ≡ true))
        ⊎ (reply.response.status ≡ failed))
status_after_schedule_example =
    status_after_schedule never b'b' (codes "1") good_work decimal 7 (λ _. pending) 100 schedule
      begun true_enabled tt tt begun-HasOnly (tt, (tt, tt)) (omega arith)

abbrev host : Host Files
host = record { store = one_backup; manager = one_future; marker = false }

abbrev start : Files → Result ℕ × Files
start s = (ok 3, s)

handle_backup-steps_example :
    Agrees never store_driver
      (codes "True")
      ℕ
      (handle_backup store_driver (codes "True") (codes "b1") backup_b1 true start host)
      (run_schedule never
        (codes "b1")
        (record {
          exists_already = backup_exists store_driver backup_b1 one_backup && not true;
          failure = error_of (start one_backup).0;
          end_time = 200;
          grpc_enabled = codes "True";
        })
        four_steps
        (record { manager = one_future; phase = queued; finished = none }))
handle_backup-steps_example =
    handle_backup-steps never store_driver (codes "True") ℕ (codes "b1") backup_b1 true start host
      200 none

backup-IsReplied_example :
    IsReplied
      (codes "b1")
      (codes "True")
      (if backup_exists store_driver backup_b1 one_backup && not false
        then err io_error
        else (start one_backup).0)
      (backup never
        (codes "b1")
        (handle_backup store_driver (codes "True") (codes "b1") backup_b1 false start)
        host)
backup-IsReplied_example =
    backup-IsReplied store_driver (codes "True") never b'b' (codes "1") backup_b1 false start host

-- A deletion that counts.
abbrev delete : ℕ → Result (Unit {0}) × ℕ
delete n = (ok tt, n + 1)

delete-async_backup_example :
    (delete_backup never
      (codes "b1")
      delete
      0
      (async_backup never
        (codes "b1")
        (ok 7)
        (update (codes "b1") status_in_progress ∷ [])
        none).1).1
    ≡ (delete 0).1
delete-async_backup_example =
    delete-async_backup never b'b' (codes "1") 7 (update (codes "b1") status_in_progress ∷ []) none
      delete 0

delete_in_progress_example :
    let m' =
      calls never
        (update (codes "b1") status_in_progress ∷ remove_one (codes "b2") ∷ [])
        one_future in
    delete_backup never (codes "b1") delete 0 m'
    ≡ (ok (record { response = failed; code = none }), 0, m')
unfolding lookup text_eq
delete_in_progress_example =
    delete_in_progress never b'b' (codes "1") (remove_one (codes "b2") ∷ []) one_future delete 0
      refl ((λ e. ground (arith, e)), tt)
