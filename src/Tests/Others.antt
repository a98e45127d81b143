-- ===== src/Tests/Others.antt =====
-- The registry of running backups and the commands over SSH.
use cassandra_medusa.Base.{
  ℕ, ◌≤◌, true, false, none, List, [], ◌∷◌, ◌≡◌, ◌↔◌, refl, All, all, length, concat, map, filter,
  In, arith,
}
use cassandra_medusa.Base.{ok}
use cassandra_medusa.Base.Text.{Text, codes}
use cassandra_medusa.Manifest.{Section}
use cassandra_medusa.Filtering.{filter_fqtns, fqtn, fqtn_with_id}
use cassandra_medusa.Filtering.Decision.{want, unwanted, filter_fqtns_exact}
use cassandra_medusa.BackupManager.{status_success, get_backup_status}
use cassandra_medusa.BackupManager.Refinement.{
  view, call, calls, effect, register, update, remove_one, call-refines,
}
use cassandra_medusa.BackupManager.Lifecycle.{status_of_update}
use cassandra_medusa.Orchestration.{HostOutput, succeeded, pssh_run}
use cassandra_medusa.Orchestration.Outcome.{all_outputs, pssh_run_verdict}

abbrev section : Section
section = record { keyspace = codes "ks"; columnfamily = codes "t-1"; objects = [] }

filter_fqtns_exact_example :
    (In (codes "ks.t-1") (filter_fqtns [] (codes "ks.t" ∷ []) (section ∷ []) true).0
      ↔ In
          (codes "ks.t-1")
          (map fqtn_with_id (filter (want [] (codes "ks.t" ∷ []) true) (section ∷ []))))
    × (In (codes "ks.t-1") (filter_fqtns [] (codes "ks.t" ∷ []) (section ∷ []) true).1
        ↔ In
            (codes "ks.t-1")
            (map fqtn (filter (unwanted [] (codes "ks.t" ∷ []) true) (section ∷ []))))
filter_fqtns_exact_example =
    filter_fqtns_exact [] (codes "ks.t" ∷ []) (section ∷ []) true (codes "ks.t-1")

call-refines_example :
    view (call (λ _. false) (register (codes "b1") true true) none) (codes "b1")
    ≡ effect (λ _. false) (register (codes "b1") true true) (codes "b1") (view none (codes "b1"))
call-refines_example = call-refines (λ _. false) (register (codes "b1") true true) none (codes "b1")

status_of_update_example :
    get_backup_status (codes "b1") (
      calls
        (λ _. false)
        (register (codes "b1") false true
          ∷ update (codes "b1") status_success
          ∷ remove_one (codes "b2")
          ∷ [])
        none)
    ≡ ok status_success
status_of_update_example =
    status_of_update (λ _. false) b'b' (codes "1") false status_success
      (remove_one (codes "b2") ∷ []) none ((λ e. ground (arith, e)), tt)

-- Every host answers, h2 with an error.
abbrev run : List Text → ℕ → List HostOutput
run [] args = []
run (h ∷ hosts) args = record { host = h; exit_code = args } ∷ run hosts args

length-run : (hosts : List Text) → length (run hosts 1) ≡ length hosts
length-run [] = refl
length-run (h ∷ hosts) = omega (arith, length-run hosts)

abbrev three_hosts : List Text
three_hosts = codes "h1" ∷ codes "h2" ∷ codes "h3" ∷ []

pssh_run_verdict_example :
    (batches : List (List Text)) × (concat batches ≡ three_hosts)
    × All (λ b. length b ≤ 2) batches
    × (pssh_run run 2 three_hosts 1 ≡ ok (all succeeded (all_outputs run batches 1)))
pssh_run_verdict_example = pssh_run_verdict run 1 three_hosts 1 length-run
