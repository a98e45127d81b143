-- ===== src/RestoreCluster/Execution.antt =====
-- medusa/restore_cluster.py: what a restore job runs on the cluster. `pssh` gives what a call of
-- `Orchestration.pssh_run` does (Orchestration), and every statement of the schema returns.
use cassandra_medusa.Base.{
  ℕ, Bool, true, false, List, [], ◌∷◌, ◌++◌, map, filter, flat_map, if◌then◌else◌,
}
use cassandra_medusa.Base.{Result, ok, err, runtime_error, value_error, system_exit}
use cassandra_medusa.Base.Text.{Text, codes, text_eq, mem, join, split, starts_with}
use cassandra_medusa.Base.Dict.{Dict, insert, keys}
use cassandra_medusa.Effects.{Run, done, raise, lift, ◌>>=◌}
use cassandra_medusa.Schema.{Keyspace}
use cassandra_medusa.RestoreCluster.{Entry, HostMap, Job}

-- What is done: a command on hosts, with the variables of each host; a statement on the cluster;
-- and the metrics.
pub data Event : Type 0 where
  pssh_run : List Text → Text → List (Text × Text) → Event
  executed : Text → Event
  sent_duration : Text → Event
  sent_error : Text → ℕ → Event

-- `_populate_hostmap`; `strip` is `str.strip`, and `lines` are those of the file.
module _ (strip resolve : Text → Text) (separator : ℕ) where
  abbrev pub skips_line : Text → Bool
  unfolding starts_with
  skips_line [] = true
  skips_line (c ∷ line) = starts_with (c ∷ line) (codes "#")

  -- A line has three fields, or the code raises ValueError.
  abbrev add_fields : List Text → HostMap → Result HostMap
  unfolding insert text_eq
  add_fields (seed ∷ target ∷ source ∷ []) hm = ok (
      insert (resolve (strip target))
        (record { source = resolve (strip source) ∷ []; seed = text_eq seed (codes "True") }) hm)
  add_fields _ hm = err value_error

  abbrev add_line : Text → HostMap → Result HostMap
  unfolding add_fields split skips_line
  add_line line hm = if skips_line line then ok hm else add_fields (split separator line) hm

  abbrev then_lines : Result HostMap → (HostMap → Result HostMap) → Result HostMap
  then_lines (err e) next = err e
  then_lines (ok hm) next = next hm

  unfoldable pub populate_hostmap : List Text → HostMap → Result HostMap
  unfolding add_line
  populate_hostmap [] hm = ok hm
  populate_hostmap (line ∷ lines) hm =
      then_lines (add_line (strip line) hm) (populate_hostmap lines)

-- The statements of `_create_or_recreate_schema_objects`, in order.
unfoldable pub schema_statements : Bool → Text → Keyspace → List Text
schema_statements is_there keyspace k =
    let named = λ (what : Text) (e : Text × Text). what ++ keyspace ++ codes "." ++ e.0 in
    (if is_there then [] else k.create_statement ∷ [])
    ++ map (named (codes "DROP MATERIALIZED VIEW IF EXISTS ")) k.materialized_views
    ++ map (named (codes "DROP TABLE IF EXISTS ")) k.tables
    ++ flat_map (λ (e : Text × Text). named (codes "DROP TYPE IF EXISTS ") e ∷ e.1 ∷ []) k.udt
    ++ map (λ (e : Text × Text). e.1) k.tables
    ++ map (λ (e : Text × Text). e.1) k.indices
    ++ map (λ (e : Text × Text). e.1) k.materialized_views

-- `_restore_schema`; `present` are the keyspaces of the cluster.
unfoldable pub restore_schema : List Text → Dict Keyspace → List Text
unfolding schema_statements mem starts_with
restore_schema present = flat_map λ (e : Text × Keyspace).
    if starts_with e.0 (codes "system") then [] else schema_statements (mem e.0 present) e.0 e.1

-- `expand_repeatable_option`
unfoldable pub expand_repeatable_option : Text → List Text → Text
unfolding join
expand_repeatable_option option values =
    join (codes " ") (map (λ v. codes "--" ++ option ++ codes " " ++ v) values)

-- What the job has beside its host map.
pub record Options : Type 0 where
  pub backup_name : Text
  pub work_dir : Text
  pub temp_dir : Text
  pub use_sudo : Bool
  pub config_file : Text
  pub keyspaces : List Text
  pub tables : List Text
  pub bypass_checks : Bool
  pub verify : Bool
  pub stop_cmd : Text

abbrev option_if : Bool → Text → Text
option_if true t = t
option_if false t = []

abbrev config_option : Text → Text
config_option [] = []
config_option (c ∷ path) = codes "--config-file " ++ (c ∷ path)

unfoldable pub build_restore_cmd : Job → Options → Text
unfolding expand_repeatable_option
build_restore_cmd job o =
    codes "mkdir -p "
    ++ o.work_dir
    ++ codes "; cd "
    ++ o.work_dir
    ++ codes " && medusa-wrapper "
    ++ option_if o.use_sudo (codes "sudo")
    ++ codes " medusa "
    ++ config_option o.config_file
    ++ codes " --fqdn=%s -vvv restore-node "
    ++ (if job.in_place then codes "--in-place" else codes "--remote")
    ++ codes " "
    ++ option_if job.keep_auth (codes "--keep-auth")
    ++ codes " %s --no-verify --backup-name "
    ++ o.backup_name
    ++ codes " --temp-dir "
    ++ o.temp_dir
    ++ codes " "
    ++ option_if job.use_sstableloader (codes "--use-sstableloader")
    ++ codes " "
    ++ expand_repeatable_option (codes "keyspace") o.keyspaces
    ++ codes " "
    ++ expand_repeatable_option (codes "table") o.tables

unfoldable pub target_seeds : HostMap → List Text
target_seeds hm = map (λ (e : Text × Entry). e.0) (filter (λ (e : Text × Entry). e.1.seed) hm)

-- The variables of a host: its sources, and the seeds that it waits for. Seeds wait for none.
abbrev pub seeds_option : List Text → Text → Text
unfolding mem join
seeds_option [] target = []
seeds_option (s ∷ seeds) target =
    if mem target (s ∷ seeds) then [] else codes "--seeds " ++ join (codes ",") (s ∷ seeds)

unfoldable pub hosts_variables : HostMap → List (Text × Text)
unfolding seeds_option target_seeds join
hosts_variables hm =
    map (λ (e : Text × Entry). (join (codes ",") e.1.source, seeds_option (target_seeds hm) e.0)) hm

-- The loop over the answers of the operator, until one of them is 'Y' or 'n'; the input may end.
unfoldable pub ask : List Text → Result Bool
unfolding text_eq
ask [] = err runtime_error
ask (answer ∷ answers) =
    let rest = ask answers in
    if text_eq answer (codes "Y")
    then ok true
    else if text_eq answer (codes "n")
    then ok false
    else rest

unfoldable pub proceeds : Bool → List Text → Result Bool
unfolding ask
proceeds bypass_checks answers = if bypass_checks then ok true else ask answers

module _ (pssh : List Text → Text → List (Text × Text) → Result Bool) (present : List Text)
    (schema : Result (Dict Keyspace)) (verify_restore : List Text → Result (Unit {0})) where
  abbrev pub on_hosts : List Text → Text → List (Text × Text) → Run Event Bool
  on_hosts hosts command variables =
      (pssh_run hosts command variables ∷ [], pssh hosts command variables)

  -- Stops Cassandra on the targets, whatever the command answers, or brings the schema there.
  abbrev stop_or_load : Job → Options → Run Event (Unit {0})
  unfolding restore_schema keys
  stop_or_load job o =
      if job.use_sstableloader
      then (lift schema >>= λ s. (map executed (restore_schema present s), ok tt))
      else (on_hosts (keys job.host_map) o.stop_cmd [] >>= λ b. done tt)

  abbrev all_restored : Bool → Run Event (Unit {0})
  all_restored true = done tt
  all_restored false = raise runtime_error

  unfoldable pub restore_targets : Job → Options → Run Event (Unit {0})
  unfolding stop_or_load hosts_variables build_restore_cmd keys
  restore_targets job o = do
    _ ← stop_or_load job o
    b ← on_hosts (keys job.host_map) (build_restore_cmd job o) (hosts_variables job.host_map)
    _ ← all_restored b
    if o.verify then lift (verify_restore (keys job.host_map)) else done tt

  unfoldable pub restore_data : Job → Options → List Text → Run Event (Unit {0})
  unfolding restore_targets proceeds
  restore_data job o answers = do
    proceed ← lift (proceeds o.bypass_checks answers)
    if proceed then restore_targets job o else raise runtime_error

  -- `orchestrate`, from the job that `prepare_restore` gives, or its exception. An exit of the
  -- process that comes from inside is not caught.
  abbrev pub ended : Text → Run Event (Unit {0}) → Run Event (Unit {0})
  ended name (es, ok u) = (es ++ (sent_duration name ∷ sent_error name 0 ∷ []), ok tt)
  ended name (es, err (system_exit n)) = (es, err (system_exit n))
  ended name (es, err e) = (es ++ (sent_error name 1 ∷ []), err (system_exit 1))

  unfoldable pub orchestrate : Result Job → Options → List Text → Run Event (Unit {0})
  unfolding restore_data
  orchestrate prepared o answers =
      ended o.backup_name (lift prepared >>= λ job. restore_data job o answers)
