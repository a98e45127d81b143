-- ===== src/RestoreCluster/Preparation.antt =====
-- `prepare_restore` of medusa/restore_cluster.py. `ring` is `_populate_ringmap` on the token map of
-- the backup and that of the session, and `hosts` is `_populate_hostmap` on the host list.
use cassandra_medusa.Base.{Bool, true, false, Option, none, some, [], ◌∷◌}
use cassandra_medusa.Base.{Result, ok, err, runtime_error, ◌>>=◌}
use cassandra_medusa.Base.Text.{Text}
use cassandra_medusa.ClusterBackup.{ClusterBackup, is_complete}
use cassandra_medusa.RestoreCluster.{HostMap, Job}
use cassandra_medusa.RestoreNode.Local.{release_version}

-- A job, and the release version that HostMan keeps.
abbrev pub Prepared : Type 0
Prepared = Job × Option Text

-- The option is a text here, true unless it is empty: a text False skips the check too.
unfoldable pub check_complete : Text → ClusterBackup → Result Bool
unfolding is_complete
check_complete [] cb = is_complete cb
check_complete (c ∷ enabled) cb = ok true

-- The seed target: its session gives the version of the driver's API.
abbrev from_seed : Text → Option (Text × (Job → Result Job)) → Prepared → Result Prepared
unfolding release_version
from_seed target none p = ok p
from_seed target (some (api, ring)) (job, version) =
    ring job >>= λ job'. ok (job', some (release_version target api))

abbrev from_list : Text → Option (HostMap → Result HostMap) → Prepared → Result Prepared
unfolding release_version
from_list target none p = ok p
from_list target (some hosts) (job, version) = hosts job.host_map >>= λ hm.
    ok (record job { host_map = hm; in_place = false }, some (release_version target []))

abbrev or_incomplete : Bool → Result Bool
or_incomplete true = ok true
or_incomplete false = err runtime_error

unfoldable pub prepare_restore :
    Text
    → ClusterBackup
    → Text
    → Option (Text × (Job → Result Job))
    → Option (HostMap → Result HostMap)
    → Job
    → Result Prepared
unfolding check_complete from_seed from_list
prepare_restore kubernetes_enabled cb version_target seed_target host_list job =
    check_complete kubernetes_enabled cb >>= or_incomplete >>= λ complete.
    from_seed version_target seed_target (job, none) >>= from_list version_target host_list
