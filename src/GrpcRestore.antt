-- ===== src/GrpcRestore.antt =====
-- medusa/service/grpc/restore.py: the restore of a pod. The environment is a map from names, and
-- `loads` is `json.loads` of the variable RESTORE_MAPPING.
use cassandra_medusa.Base.{Bool, true, false, not, Option, none, some, List, [], ◌∷◌, if◌then◌else◌}
use cassandra_medusa.Base.{Result, ok, err, key_error, index_error, ◌>>=◌}
use cassandra_medusa.Base.Text.{Text, codes, text_eq}
use cassandra_medusa.Base.Dict.{Dict, lookup, insert}
use cassandra_medusa.RestoreCluster.{Entry, HostMap}
use cassandra_medusa.ClusterBackup.{ClusterBackup}

abbrev pub Environ : Type 0
Environ = Dict Text

-- The document that PrepareRestore writes.
pub record Mapping : Type 0 where
  pub in_place : Bool
  pub host_map : HostMap

abbrev variable : Text → Environ → Result Text
unfolding lookup
variable name env = elim (lookup name env) [ none ↦ err key_error | some v ↦ ok v ]

abbrev pub first_source : Entry → Result Text
first_source e = elim e.source [ [] ↦ err index_error | h ∷ hs ↦ ok h ]

-- A pod that the mapping has is restored as the host that it names.
abbrev pub map_pod : Text → Environ → Option Entry → Result (Option Bool × Environ)
unfolding insert
map_pod pod env none = ok (none, env)
map_pod pod env (some e) =
    first_source e >>= λ host. ok (some false, insert (codes "POD_IP") host env)

abbrev pub apply_mapping : Mapping → Environ → Result (Option Bool × Environ)
unfolding variable map_pod lookup
apply_mapping mapping env =
    if mapping.in_place
    then ok (some true, env)
    else (variable (codes "POD_NAME") env >>= λ pod. map_pod pod env (lookup pod mapping.host_map))

-- Whether to restore in place, `none` to skip the restore; and the environment.
unfoldable pub apply_mapping_env :
    (Text → Result Mapping) → Environ → Result (Option Bool × Environ)
unfolding apply_mapping lookup
apply_mapping_env loads env = elim (lookup (codes "RESTORE_MAPPING") env) [
  | none ↦ ok (some true, env)
  | some t ↦ loads t >>= λ mapping. apply_mapping mapping env
]

-- The arguments that the call of `restore_node` varies.
pub record Restore : Type 0 where
  pub backup_name : Text
  pub temp_dir : Text
  pub in_place : Bool
  pub keep_auth : Bool

abbrev temp_dir_of : Option Text → Text
temp_dir_of none = codes "/tmp"
temp_dir_of (some t) = t

-- The loop over the backups of this node: the first of the name is restored.
unfoldable pub restore_named : Text → Restore → List ClusterBackup → Option Restore
unfolding text_eq
restore_named name call [] = none
restore_named name call (cb ∷ cbs) =
    let rest = restore_named name call cbs in if text_eq cb.name name then some call else rest

-- The call of `restore_node`, `none` where the backup is skipped; the backups are those that
-- `get_backups` gives for this node.
unfoldable pub restore_backup :
    Bool → Environ → Result (List ClusterBackup) → Result (Option Restore)
unfolding restore_named variable lookup
restore_backup in_place env backups = do
  name ← variable (codes "BACKUP_NAME") env
  cbs ← backups
  ok (
      restore_named name
        (record {
          backup_name = name;
          temp_dir = temp_dir_of (lookup (codes "MEDUSA_TMP_DIR") env);
          in_place = in_place;
          keep_auth = not in_place;
        })
        cbs)

-- The body of the module: the backups are listed with the environment that the mapping has left.
abbrev pub restore_unless_skipped :
    (Environ → Result (List ClusterBackup)) → Option Bool × Environ → Result (Option Restore)
unfolding restore_backup
restore_unless_skipped backups (none, env) = ok none
restore_unless_skipped backups (some in_place, env) = restore_backup in_place env (backups env)

unfoldable pub restore_pod :
    (Text → Result Mapping)
    → (Environ → Result (List ClusterBackup))
    → Environ
    → Result (Option Restore)
unfolding restore_unless_skipped apply_mapping_env
restore_pod loads backups env = apply_mapping_env loads env >>= restore_unless_skipped backups
