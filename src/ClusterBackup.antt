-- ===== src/ClusterBackup.antt =====
-- medusa/storage/cluster_backup.py: the backups of all nodes under one name. A node backup is
-- given by the values that its properties have (medusa/storage/node_backup.py).
pub mod Completion
pub mod Json
pub mod Report
use cassandra_medusa.Base.{
  ℕ, ◌+◌, Bool, true, false, not, Option, none, some, List, [], ◌∷◌, ◌==◌, leb, is_some, truthy,
  length, filter, any, all, map, if◌then◌else◌,
}
use cassandra_medusa.Base.{Result, ok, err, type_error, value_error, stop_iteration, ◌>>=◌}
use cassandra_medusa.Base.Text.{Text, mem, codes}
use cassandra_medusa.Base.Dict.{Dict, insert, keys, values}
use cassandra_medusa.Manifest.{ManifestObject, Section, Manifest}
use cassandra_medusa.TokenMap.{TokenMap}

-- The properties of a NodeBackup. `manifest` is none where the manifest cannot be read;
-- the token map is an error where its blob cannot be.
pub record NodeInfo : Type 0 where
  pub fqdn : Text
  pub name : Text
  pub started : Option ℕ
  pub finished : Option ℕ
  pub is_differential : Bool
  pub manifest : Option Manifest
  pub tokenmap : Result TokenMap
  pub server_type : Text
  pub release_version : Text

unfoldable pub sum_sizes : List ManifestObject → ℕ
sum_sizes [] = 0
sum_sizes (o ∷ os) = o.size + sum_sizes os

unfoldable pub section_sizes : Manifest → ℕ
unfolding sum_sizes
section_sizes [] = 0
section_sizes (s ∷ m) = sum_sizes s.objects + section_sizes m

unfoldable pub section_counts : Manifest → ℕ
section_counts [] = 0
section_counts (s ∷ m) = length s.objects + section_counts m

-- `NodeBackup.size` and `NodeBackup.num_objects`; json.loads(None) raises TypeError.
unfoldable pub node_size : NodeInfo → Result ℕ
unfolding section_sizes
node_size nb = elim nb.manifest [ none ↦ err type_error | some m ↦ ok (section_sizes m) ]

unfoldable pub node_num_objects : NodeInfo → Result ℕ
unfolding section_counts
node_num_objects nb = elim nb.manifest [ none ↦ err type_error | some m ↦ ok (section_counts m) ]

pub record ClusterBackup : Type 0 where
  pub name : Text
  pub first_nodebackup : NodeInfo
  pub node_backups : Dict NodeInfo

unfoldable pub by_fqdn : List NodeInfo → Dict NodeInfo → Dict NodeInfo
by_fqdn [] d = d
by_fqdn (nb ∷ nbs) d = by_fqdn nbs (insert nb.fqdn nb d)

-- `ClusterBackup(name, node_backups)`
unfoldable pub cluster_backup : Text → List NodeInfo → Result ClusterBackup
unfolding by_fqdn
cluster_backup name [] = err stop_iteration
cluster_backup name (nb ∷ nbs) =
    ok (record { name = name; first_nodebackup = nb; node_backups = by_fqdn (nb ∷ nbs) [] })

abbrev pub nodes : ClusterBackup → List NodeInfo
nodes cb = map (λ e. e.1) cb.node_backups

-- `min` over optional numbers: comparing with None raises TypeError.
unfoldable pub min_of : ℕ → List (Option ℕ) → Result (Option ℕ)
min_of a [] = ok (some a)
min_of a (none ∷ xs) = err type_error
min_of a (some b ∷ xs) = min_of (if leb a b then a else b) xs

unfoldable pub started : ClusterBackup → Result (Option ℕ)
unfolding min_of
started cb = elim (map (λ nb. nb.started) (nodes cb)) [
  | [] ↦ err value_error
  | none ∷ [] ↦ ok none
  | none ∷ (x ∷ xs) ↦ err type_error
  | some a ∷ xs ↦ min_of a xs
]

-- `set(self.tokenmap.keys()) - set(self.node_backups.keys())`, in the order of the token map.
unfoldable pub missing_nodes : ClusterBackup → Result (List Text)
unfolding keys
missing_nodes cb = do
  tokenmap ← cb.first_nodebackup.tokenmap
  ok (filter (λ h. not (mem h (keys cb.node_backups))) (keys tokenmap))

-- The truth of a text.
abbrev pub nonempty : Text → Bool
nonempty [] = false
nonempty (c ∷ s) = true

abbrev pub all_finished : List NodeInfo → Bool
all_finished [] = true
all_finished (nb ∷ nbs) = if truthy nb.finished then all_finished nbs else false

abbrev pub value_or_zero : Option ℕ → ℕ
value_or_zero none = 0
value_or_zero (some n) = n

unfoldable pub max_finished : List NodeInfo → ℕ
max_finished [] = 0
max_finished (nb ∷ nbs) =
    let rest = max_finished nbs in
    let f = value_or_zero nb.finished in if leb rest f then f else rest

-- `max` of no timestamps raises ValueError.
unfoldable pub finished : ClusterBackup → Result (Option ℕ)
unfolding missing_nodes max_finished
finished cb = do
  missing ← missing_nodes cb
  if any nonempty missing
      then ok none
      else if all_finished (nodes cb)
      then (elim (nodes cb) [ [] ↦ err value_error | _ ↦ ok (some (max_finished (nodes cb))) ])
      else ok none

abbrev pub is_nil {ℓ} : {A : Type ℓ} → List A → Bool
is_nil [] = true
is_nil (x ∷ xs) = false

unfoldable pub is_complete : ClusterBackup → Result Bool
unfolding missing_nodes
is_complete cb = do
  missing ← missing_nodes cb
  ok (if is_nil missing then all_finished (nodes cb) else false)

abbrev pub backup_type : ClusterBackup → Text
backup_type cb = if cb.first_nodebackup.is_differential then codes "differential" else codes "full"

unfoldable pub complete_nodes : ClusterBackup → List NodeInfo
complete_nodes cb = filter (λ nb. truthy nb.finished) (nodes cb)

unfoldable pub incomplete_nodes : ClusterBackup → List NodeInfo
incomplete_nodes cb = filter (λ nb. not (is_some nb.finished)) (nodes cb)

-- The sums over the node backups that are finished.
unfoldable pub sum_finished : (NodeInfo → Result ℕ) → List NodeInfo → Result ℕ
sum_finished f [] = ok 0
sum_finished f (nb ∷ nbs) =
    let rest = sum_finished f nbs in
    if truthy nb.finished then (do n ← f nb; r ← rest; ok (n + r)) else rest

unfoldable pub size : ClusterBackup → Result ℕ
unfolding sum_finished node_size
size cb = sum_finished node_size (nodes cb)

unfoldable pub num_objects : ClusterBackup → Result ℕ
unfolding sum_finished node_num_objects
num_objects cb = sum_finished node_num_objects (nodes cb)
