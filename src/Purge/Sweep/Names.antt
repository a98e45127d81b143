-- ===== src/Purge/Sweep/Names.antt =====
-- `backups_to_purge_by_name`: the node backups of named cluster backups.
use cassandra_medusa.Base.{
  Bool, true, false, none, some, List, [], ◌∷◌, ◌++◌, ◌≡◌, ◌||◌, refl, sym, false≢true, filter, all,
  map, is_some, arith, if◌then◌else◌,
}
use cassandra_medusa.Base.{Result, ok, err, key_error, ◌>>=◌, is_ok}
use cassandra_medusa.Base.Text.{Text, text_eq, mem}
use cassandra_medusa.Base.Dict.{Dict, lookup, insert, lookup-insert}
use cassandra_medusa.ClusterBackup.{NodeInfo, ClusterBackup, nodes}

-- `{bk.name: bk for bk in cluster_backups}`
unfoldable pub by_name : List ClusterBackup → Dict ClusterBackup → Dict ClusterBackup
by_name [] d = d
by_name (cb ∷ cbs) d = by_name cbs (insert cb.name cb d)

unfoldable pub extend_each : List Text → Dict ClusterBackup → Result (List NodeInfo)
extend_each [] d = ok []
extend_each (n ∷ ns) d = elim (lookup n d) [
  | none ↦ err key_error
  | some cb ↦ (extend_each ns d >>= λ rest. ok (nodes cb ++ rest))
]

unfoldable pub backups_to_purge_by_name :
    Text → List ClusterBackup → List Text → Bool → Result (List NodeInfo)
unfolding by_name extend_each
backups_to_purge_by_name local_fqdn cluster_backups names all_nodes =
    extend_each names (by_name cluster_backups []) >>= λ found.
    ok (if all_nodes then found else filter (λ nb. text_eq local_fqdn nb.fqdn) found)

abbrev pub names_of : List ClusterBackup → List Text
names_of cbs = map (λ (cb : ClusterBackup). cb.name) cbs

known :
    (n : Text) (cbs : List ClusterBackup) (d : Dict ClusterBackup)
    → is_some (lookup n (by_name cbs d)) ≡ (mem n (names_of cbs) || is_some (lookup n d))
unfolding by_name mem
known n [] d = refl
known n (cb ∷ cbs) d =
    ground (arith, known n cbs (insert cb.name cb d), lookup-insert cb.name n cb d)

no_entry : (n : Text) → lookup {V = ClusterBackup} n [] ≡ none
unfolding lookup
no_entry n = refl

extend_each-known :
    (ns : List Text) (cbs : List ClusterBackup)
    → (all (λ n. mem n (names_of cbs)) ns ≡ true → is_ok (extend_each ns (by_name cbs [])) ≡ true)
      × (all (λ n. mem n (names_of cbs)) ns ≡ false
          → extend_each ns (by_name cbs []) ≡ err key_error)
unfolding extend_each all
extend_each-known [] cbs = (λ h. refl, λ h. absurd (false≢true (sym h)))
extend_each-known (n ∷ ns) cbs =
    let (fine, fails) = extend_each-known ns cbs in
    (
      λ h. ground (arith, fine, known n cbs [], no_entry n),
      λ h. ground (arith, fine, fails, known n cbs [], no_entry n),
    )

-- The selection by name succeeds if every name is that of a cluster backup, and raises KeyError
-- otherwise.
pub by_name_known :
    (local_fqdn : Text) (cluster_backups : List ClusterBackup) (names : List Text)
    (all_nodes : Bool)
    → (all (λ n. mem n (names_of cluster_backups)) names ≡ true
        → is_ok (backups_to_purge_by_name local_fqdn cluster_backups names all_nodes) ≡ true)
      × (all (λ n. mem n (names_of cluster_backups)) names ≡ false
          → backups_to_purge_by_name local_fqdn cluster_backups names all_nodes ≡ err key_error)
unfolding backups_to_purge_by_name
by_name_known local_fqdn cluster_backups names all_nodes =
    let (fine, fails) = extend_each-known names cluster_backups in
    (λ h. ground (arith, fine h), λ h. rw (fails h) refl)
