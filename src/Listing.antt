-- ===== src/Listing.antt =====
-- medusa/listing.py: the cluster backups in the order of their start, and what is printed of them.
use cassandra_medusa.Base.{
  ℕ, Bool, true, false, ◌||◌, Option, none, some, List, [], ◌∷◌, ◌++◌, leb, map, filter, length,
  if◌then◌else◌,
}
use cassandra_medusa.Base.{Result, ok, err, type_error, ◌>>=◌}
use cassandra_medusa.Base.Text.{Text, codes, decimal}
use cassandra_medusa.Base.Dict.{has_key}
use cassandra_medusa.Base.Sort.{sorted}
use cassandra_medusa.ClusterBackup
use cassandra_medusa.ClusterBackup.{ClusterBackup, NodeInfo, finished, complete_nodes}
use cassandra_medusa.ClusterBackup.Json.{JsonDict, to_json_dict}
use cassandra_medusa.Storage.Driver.{Driver}
use cassandra_medusa.Storage.NodeBackup.{Json}
use cassandra_medusa.Storage.Clusters.{list_cluster_backups}
use cassandra_medusa.Storage.Listing.{bind_all}

-- The backups with their keys; the key of one may raise.
unfoldable pub dated : List ClusterBackup → Result (List (ClusterBackup × Option ℕ))
unfolding ClusterBackup.started
dated [] = ok []
dated (cb ∷ cbs) = do t ← ClusterBackup.started cb; rest ← dated cbs; ok ((cb, t) ∷ rest)

-- A list with more than one element compares its keys, and None does not compare.
unfoldable pub starts : List (ClusterBackup × Option ℕ) → Result (List (ClusterBackup × ℕ))
starts [] = ok []
starts ((cb, none) ∷ rest) = err type_error
starts ((cb, some t) ∷ rest) = starts rest >>= λ l. ok ((cb, t) ∷ l)

unfoldable pub sorted_by_start : List (ClusterBackup × Option ℕ) → Result (List ClusterBackup)
unfolding starts sorted
sorted_by_start ((cb, t) ∷ []) = ok (cb ∷ [])
sorted_by_start l = starts l >>= λ keyed.
    ok (
      map (λ (e : ClusterBackup × ℕ). e.0)
        (sorted (λ (a b : ClusterBackup × ℕ). leb a.1 b.1) keyed))

-- `fqdn` is `config.storage.fqdn`.
unfoldable pub shown : Text → Bool → List ClusterBackup → List ClusterBackup
unfolding has_key filter
shown fqdn show_all cbs = if show_all then cbs else filter (λ cb. has_key fqdn cb.node_backups) cbs

-- What is done with the cluster backups of the storage.
unfoldable pub pick_backups : Text → Bool → List ClusterBackup → Result (List ClusterBackup)
unfolding dated sorted_by_start shown
pick_backups fqdn show_all cbs = do
  keyed ← dated cbs
  l ← sorted_by_start keyed
  ok (shown fqdn show_all l)

unfoldable pub get_backups :
    (D : Driver) → Json → Text → Text → Bool → D.State → Result (List ClusterBackup) × D.State
unfolding pick_backups list_cluster_backups
get_backups D J prefix fqdn show_all s =
    let (r, s') = list_cluster_backups D J prefix none s in ((r >>= pick_backups fqdn show_all), s')

-- The lines for one backup, and whether it is incomplete; `show` is the format of a time.
module _ (show : ℕ → Text) where
  abbrev pub incomplete_text : ℕ → ℕ → Text
  incomplete_text done total =
      codes "Incomplete ["
      ++ decimal done
      ++ codes " of "
      ++ decimal total
      ++ codes " nodes finished]"

  unfoldable pub finished_text : ClusterBackup → Option ℕ → Result (Text × Bool)
  unfolding complete_nodes
  finished_text cb (some t) = ok (show t, false)
  finished_text cb none = do
    tokenmap ← cb.first_nodebackup.tokenmap
    ok (incomplete_text (length (complete_nodes cb)) (length tokenmap), true)

  abbrev pub show_start : Option ℕ → Result Text
  show_start none = err type_error
  show_start (some t) = ok (show t)

  unfoldable pub backup_line : ClusterBackup → Result (Text × Bool)
  unfolding finished_text ClusterBackup.started finished
  backup_line cb = do
    end ← finished cb
    e ← finished_text cb end
    start ← ClusterBackup.started cb
    t ← show_start start
    ok (cb.name ++ codes " (started: " ++ t ++ codes ", finished: " ++ e.0 ++ codes ")", e.1)

  abbrev pub hint : List Text
  hint =
      []
      ∷ codes
          "Incomplete backups found. You can run \"medusa status --backup-name <name>\" for more details"
      ∷ []

  -- The lines printed before an exception, if there is one; then the hint, after any incomplete one.
  abbrev print_after :
      Result (Text × Bool) → (Bool → List Text × Result (Unit {0})) → List Text × Result (Unit {0})
  print_after (err e) next = ([], err e)
  print_after (ok (line, inc)) next = let (lines, r) = next inc in (line ∷ lines, r)

  unfoldable pub print_backups : List ClusterBackup → Bool → List Text × Result (Unit {0})
  unfolding backup_line
  print_backups [] incomplete = ((if incomplete then hint else []), ok tt)
  print_backups (cb ∷ cbs) incomplete =
      print_after (backup_line cb) λ inc. print_backups cbs (incomplete || inc)

-- With the output 'json'.
unfoldable pub json_backups : List ClusterBackup → Result (List JsonDict)
unfolding to_json_dict
json_backups = bind_all to_json_dict
