-- ===== src/Tests/Commands.antt =====
-- The commands: backups and restores on one node n1, snapshots, files and metrics.
use cassandra_medusa.Base.{
  inr, ℕ, zero, suc, ◌<◌, Bool, true, false, not, ◌&&◌, none, List, [], ◌∷◌, ◌++◌, ◌≡◌, ◌∙◌, ◌⊎◌,
  refl, arith, any, map, filter,
}
use cassandra_medusa.Base.{Result, ok, err, key_error, io_error}
use cassandra_medusa.Base.Int.{pos}
use cassandra_medusa.Base.Text.{Text, codes, text_eq, text_eq_iff, mem}
use cassandra_medusa.Base.Dict.{lookup}
use cassandra_medusa.TokenMap.{TokenMap}
use cassandra_medusa.Effects.{Run}
use cassandra_medusa.BackupCluster.{Pool, snapshots, BackupJob, orchestrate}
use cassandra_medusa.BackupCluster.Outcome.{IsRefused, IsDone, IsFailed, orchestrate-Outcome}
use cassandra_medusa.RestoreNode.Local.{Settings, Surroundings}
use cassandra_medusa.Cassandra.Commands.{snapshot_prefix}
use cassandra_medusa.Cassandra.Snapshots.{
  create_snapshot, with_snapshot, with_snapshot-others, with_snapshot-tags,
}
use cassandra_medusa.Cassandra.Services.{Node, done, nodetool}
use cassandra_medusa.Cassandra.Tokens.{
  is_initial, is_auto, File, all_lines, has_kind, replaced_line, replace_tokens,
}
use cassandra_medusa.Cassandra.Tokens.Lines.{kept_lines, closed}
use cassandra_medusa.Cassandra.Tokens.Replaced.{replace_tokens-sets}
use cassandra_medusa.ReportLatest.{Metric, tracking_error, report_latest}
use cassandra_medusa.ReportLatest.Retries.{sent, FirstEnd, AllFail, report_latest-outcome}
use cassandra_medusa.Config.{Config, Environ, get, handle_env_vars}
use cassandra_medusa.Config.Precedence.{cassandra, or_else, credentials_of_environ}

abbrev job : BackupJob
job = record {
  backup_name = codes "b1";
  stagger = [];
  enable_md5_checks = false;
  mode = codes "differential";
  keep_snapshot = false;
  use_existing_snapshot = false;
  work_dir = codes "/tmp";
  use_sudo = true;
  config_file = [];
  create_snapshot_command = codes "nodetool snapshot";
  delete_snapshot_command = codes "nodetool clearsnapshot";
}

abbrev one_node : TokenMap
one_node = (codes "n1", record { tokens = pos 1 ∷ []; is_up = true; rack = none; dc = none }) ∷ []

-- The upload fails.
abbrev pssh : Pool → List Text → Text → Result Bool
pssh snapshots hosts command = ok true
pssh _ hosts command = ok false

orchestrate-Outcome_example :
    let out = orchestrate pssh (codes "n1") true (err key_error) job (ok one_node) in
    IsRefused pssh job out ⊎ IsDone pssh job (ok one_node) out ⊎ IsFailed pssh job (ok one_node) out
orchestrate-Outcome_example =
    orchestrate-Outcome pssh (codes "n1") true (err key_error) job (ok one_node)

abbrev settings : Settings
settings = record {
  fqdn = codes "n1";
  backup_name = codes "b1";
  in_place = true;
  keep_auth = false;
  seeds = none;
  keyspaces = [];
  tables = [];
  is_kubernetes = false;
  use_sudo_for_restore = false;
  download_dir = codes "/tmp/d";
  data_dir = codes "/data";
  data_parent = codes "/";
  commit_logs_path = codes "/commitlog";
  dse_metadata_path = codes "/metadata";
  dse_search_path = codes "/search";
}

abbrev env : Surroundings
env = record {
  fails = λ event. none;
  destination_exists = λ path. true;
  is_node_up = λ host n. true;
}

-- The names of the snapshots, the new ones first.
abbrev without : Text → List Text → List Text
without tag = filter (λ t. not (text_eq tag t))

mem-without :
    (tag x : Text) (s : List Text) → mem x (without tag s) ≡ (not (text_eq tag x) && mem x s)
unfolding mem any filter
mem-without tag x [] = ground arith
mem-without tag x (t ∷ s) =
    ground (arith, mem-without tag x s, text_eq_iff tag t, text_eq_iff t x, text_eq_iff tag x)

mem-with : (tag x : Text) (s : List Text) → text_eq tag x ≡ false → mem x (tag ∷ s) ≡ mem x s
unfolding mem any
mem-with tag x s h = ground (arith, text_eq_iff tag x, text_eq_iff x tag)

mem-first : (tag : Text) (s : List Text) → mem tag (tag ∷ s) ≡ true
unfolding mem any
mem-first tag s = ground (arith, text_eq_iff tag tag)

mem-without_other :
    (tag x : Text) (s : List Text) → text_eq tag x ≡ false → mem x (without tag s) ≡ mem x s
mem-without_other tag x s h = mem-without tag x s ∙ rw h refl

not_without : (tag : Text) (s : List Text) → mem tag (without tag s) ≡ false
not_without tag s = mem-without tag tag s ∙ ground (arith, text_eq_iff tag tag)

abbrev list_node : Node
list_node = record {
  State = List Text;
  tags = λ s. s;
  take = λ tag s. (done, tag ∷ s);
  clear = λ tag s. (done, without tag s);
  take-others = λ tag x s h. mem-with tag x s h;
  take-done = λ tag s h. mem-first tag s;
  clear-others = λ tag x s h. mem-without_other tag x s h;
  clear-done = λ tag s h. not_without tag s;
}

abbrev b1_tag : Text
b1_tag = snapshot_prefix ++ codes "b1"

abbrev body : List Text → Result ℕ × List Text
body s = (err io_error, s)

with_snapshot-tags_example :
    let t = (create_snapshot list_node nodetool b1_tag []).1 in
    let out = with_snapshot list_node nodetool (codes "b1") false body [] in
    (mem b1_tag t ≡ true) × (out.0 ≡ (body t).0) × (mem b1_tag out.1 ≡ false)
with_snapshot-tags_example =
    with_snapshot-tags list_node nodetool (codes "b1") false body [] (λ t x. refl) (inr refl)
      (inr (inr refl))

b1_tag-other : text_eq b1_tag (codes "other") ≡ false
unfolding text_eq
b1_tag-other = refl

with_snapshot-others_example :
    mem
      (codes "other")
      (with_snapshot list_node nodetool (codes "b1") false body (codes "other" ∷ [])).1
    ≡ mem (codes "other") (codes "other" ∷ [])
with_snapshot-others_example =
    with_snapshot-others list_node nodetool (codes "b1") false body (codes "other" ∷ [])
      (codes "other") (λ t y. refl) b1_tag-other

-- A file whose last line does not end.
abbrev yaml : File
yaml = record { ended = codes "num_tokens: 256" ∷ []; rest = codes "cluster_name: c" }

abbrev tokens : List Text
tokens = codes "1" ∷ codes "-5" ∷ []

replace_tokens-sets_example :
    let out = replace_tokens tokens yaml in
    (has_kind is_initial out ≡ true)
    × (has_kind is_auto out ≡ true)
    × (map (replaced_line tokens) (all_lines out) ≡ all_lines out)
    × (kept_lines out ≡ kept_lines yaml)
    × (replace_tokens tokens out ≡ closed out)
replace_tokens-sets_example = replace_tokens-sets tokens yaml

-- Parts of two blocks of two bytes.
abbrev bytes : List ℕ
bytes = 1 ∷ 2 ∷ 3 ∷ 4 ∷ 5 ∷ []

-- The first try raises, the second returns.
abbrev attempts : ℕ → Run Metric (Unit {0})
attempts zero = ([], err io_error)
attempts (suc n) = ([], ok tt)

report_latest-outcome_example :
    ((n : ℕ) × (r : Result (Unit {0})) × (n < 3)
      × FirstEnd true attempts r n 0
      × (report_latest true attempts ≡ (sent true attempts (suc n) 0, n, r)))
    ⊎ (AllFail true attempts 3 0
        × (report_latest true attempts
            ≡ (sent true attempts 3 0 ++ (tracking_error true).0, 2, ok tt)))
report_latest-outcome_example = report_latest-outcome true attempts

abbrev environ : Environ
environ = (codes "CQL_USERNAME", codes "old") ∷ (codes "MEDUSA_CQL_USERNAME", codes "new") ∷ []

abbrev no_config : Config
no_config = []

credentials_of_environ_example :
    let c = handle_env_vars environ no_config in
    (get cassandra (codes "cql_username") c
      ≡ or_else (lookup (codes "MEDUSA_CQL_USERNAME") environ) (
          or_else
            (lookup (codes "CQL_USERNAME") environ)
            (get cassandra (codes "cql_username") no_config)))
    × (get cassandra (codes "cql_password") c
        ≡ or_else (lookup (codes "MEDUSA_CQL_PASSWORD") environ) (
            or_else
              (lookup (codes "CQL_PASSWORD") environ)
              (get cassandra (codes "cql_password") no_config)))
credentials_of_environ_example = credentials_of_environ environ no_config
