-- ===== src/ClusterBackup/Completion.antt =====
-- When a cluster backup counts as complete, and when it finished.
use cassandra_medusa.Base.{
  ℕ, ◌+◌, ◌≤◌, true, false, not, none, some, List, [], ◌∷◌, ◌≡◌, ◌≢◌, ◌⊎◌, refl, sym, false≢true,
  In, All, filter, any, length, truthy, is_some, arith, map,
}
use cassandra_medusa.Base.{ok}
use cassandra_medusa.Base.Text.{Text}
use cassandra_medusa.ClusterBackup.{
  NodeInfo, ClusterBackup, nodes, missing_nodes, nonempty, all_finished, value_or_zero,
  max_finished, finished, is_nil, is_complete, complete_nodes, incomplete_nodes,
}

any-nonempty-nil :
    (hs : List Text) → All (λ h. nonempty h ≡ true) hs → any nonempty hs ≡ not (is_nil hs)
unfolding any
any-nonempty-nil [] h = refl
any-nonempty-nil (x ∷ hs) h = ground arith

-- `finished` and `is_complete` agree: with no missing host of empty name, and at least one node,
-- a backup has an end exactly when it is complete.
pub finished-is_complete :
    (cb : ClusterBackup) (missing : List Text) (nb : NodeInfo) (nbs : List NodeInfo)
    → missing_nodes cb ≡ ok missing
    → All (λ h. nonempty h ≡ true) missing
    → nodes cb ≡ nb ∷ nbs
    → (is_complete cb ≡ ok true × (finished cb ≡ ok (some (max_finished (nodes cb)))))
      ⊎ (is_complete cb ≡ ok false × (finished cb ≡ ok none))
unfolding finished is_complete
finished-is_complete cb missing nb nbs m h n = ground (arith, any-nonempty-nil missing h)

all_finished→finished :
    (nb : NodeInfo) (nbs : List NodeInfo)
    → all_finished nbs ≡ true
    → In nb nbs
    → truthy nb.finished ≡ true
all_finished→finished nb [] h m = absurd m
all_finished→finished nb (x ∷ nbs) h m = ground (arith, all_finished→finished nb nbs)

max_finished-ge :
    (nb : NodeInfo) (nbs : List NodeInfo) → In nb nbs → value_or_zero nb.finished ≤ max_finished nbs
unfolding max_finished
max_finished-ge nb [] m = absurd m
max_finished-ge nb (x ∷ nbs) m = ground (arith, max_finished-ge nb nbs)

In-max_finished :
    (nbs : List NodeInfo)
    → all_finished nbs ≡ true
    → is_nil nbs ≡ false
    → In (some (max_finished nbs)) (map (λ nb. nb.finished) nbs)
unfolding max_finished
In-max_finished [] a h = absurd (false≢true (sym h))
In-max_finished (x ∷ []) a h = ground arith
In-max_finished (x ∷ y ∷ nbs) a h = ground (arith, In-max_finished (y ∷ nbs))

-- A finished cluster backup has no missing node of a non-empty name, its end is the end of one
-- of its nodes, and every node has finished no later.
pub finished_latest :
    (cb : ClusterBackup) (missing : List Text) (t : ℕ)
    → missing_nodes cb ≡ ok missing
    → finished cb ≡ ok (some t)
    → (any nonempty missing ≡ false)
      × In (some t) (map (λ nb. nb.finished) (nodes cb))
      × ((nb : NodeInfo)
          → In nb (nodes cb)
          → (truthy nb.finished ≡ true) × (value_or_zero nb.finished ≤ t))
unfolding finished
finished_latest cb missing t m f = (
  ground arith,
  ground (arith, In-max_finished (nodes cb)),
  λ nb i. ground (arith, all_finished→finished nb (nodes cb), max_finished-ge nb (nodes cb)),
)

partition :
    (nbs : List NodeInfo)
    → All (λ nb. nb.finished ≢ some 0) nbs
    → length (filter (λ nb. truthy nb.finished) nbs)
        + length (filter (λ nb. not (is_some nb.finished)) nbs)
      ≡ length nbs
unfolding filter
partition [] h = refl
partition (nb ∷ nbs) h = ground (arith, partition nbs)

-- Where no end of a node backup is 0, the complete and the incomplete nodes are together as many
-- as the nodes of the backup.
pub complete-incomplete_partition :
    (cb : ClusterBackup)
    → All (λ nb. nb.finished ≢ some 0) (nodes cb)
    → length (complete_nodes cb) + length (incomplete_nodes cb) ≡ length (nodes cb)
unfolding complete_nodes incomplete_nodes
complete-incomplete_partition cb h = partition (nodes cb) h
