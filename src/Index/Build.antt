-- ===== src/Index/Build.antt =====
-- `build_indices` of medusa/index.py.
use cassandra_medusa.Base.{Bool, true, false, none, some, List, [], ◌∷◌, ◌++◌, if◌then◌else◌}
use cassandra_medusa.Base.{Result, ok, err, system_exit, ◌>>=◌}
use cassandra_medusa.Base.Text.{Text}
use cassandra_medusa.Base.Dict.{Dict, keys, values}
use cassandra_medusa.TokenMap.{TokenMap}
use cassandra_medusa.Storage.Driver.{Driver}
use cassandra_medusa.Storage.NodeBackup.{NodeBackup}
use cassandra_medusa.Storage.Listing.{prefix_path_of}
use cassandra_medusa.Storage.Discovery.{discover_node_backups}
use cassandra_medusa.Index.{process_backup, set_latest_backup_in_index}

module _ (D : Driver) (prefix : Text) where
  unfoldable pub discover_each : List Text → D.State → Result (List NodeBackup)
  unfolding discover_node_backups
  discover_each [] s = ok []
  discover_each (fqdn ∷ fqdns) s = do
    found ← discover_node_backups D prefix (some fqdn) s
    rest ← discover_each fqdns s
    ok (found ++ rest)

  -- With ccm the whole store is searched, else the nodes of the session's token map.
  unfoldable pub all_backups : Bool → Result TokenMap → D.State → Result (List NodeBackup)
  unfolding discover_each discover_node_backups keys
  all_backups true tokenmap s = discover_node_backups D prefix none s
  all_backups false tokenmap s = tokenmap >>= λ m. discover_each (keys m) s

  -- The rest of a loop, unless an exception has ended it.
  abbrev then_on :
      {A B : Type 0} → Result A × D.State → (A → D.State → Result B × D.State) → Result B × D.State
  then_on (ok a, s) next = next a s
  then_on (err e, s) next = (err e, s)

  unfoldable pub process_each :
      Bool → List NodeBackup → Dict NodeBackup → D.State → Result (Dict NodeBackup) × D.State
  unfolding process_backup
  process_each noop [] latest s = (ok latest, s)
  process_each noop (b ∷ bs) latest s =
      then_on (process_backup D (prefix_path_of prefix) b noop latest s) (process_each noop bs)

  unfoldable pub set_each : List NodeBackup → D.State → Result (Unit {0}) × D.State
  unfolding set_latest_backup_in_index
  set_each [] s = (ok tt, s)
  set_each (b ∷ bs) s =
      then_on (set_latest_backup_in_index D (prefix_path_of prefix) b s) (λ u. set_each bs)

  abbrev set_unless : Bool → Dict NodeBackup → D.State → Result (Unit {0}) × D.State
  unfolding set_each values
  set_unless noop latest s = if noop then (ok tt, s) else set_each (values latest) s

  abbrev build_from : Bool → Result (List NodeBackup) → D.State → Result (Unit {0}) × D.State
  unfolding set_unless process_each
  build_from noop (err e) s = (err e, s)
  build_from noop (ok backups) s = then_on (process_each noop backups [] s) (set_unless noop)

  -- Any exception ends the process.
  abbrev or_exit : Result (Unit {0}) → Result (Unit {0})
  or_exit (ok u) = ok tt
  or_exit (err (system_exit n)) = err (system_exit n)
  or_exit (err e) = err (system_exit 1)

  -- `is_ccm` is whether the option of that name is 1.
  unfoldable pub build_indices :
      Bool → Result TokenMap → Bool → D.State → Result (Unit {0}) × D.State
  unfolding build_from all_backups
  build_indices is_ccm tokenmap noop s =
      let (r, s') = build_from noop (all_backups is_ccm tokenmap s) s in (or_exit r, s')
