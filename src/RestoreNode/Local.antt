-- ===== src/RestoreNode/Local.antt =====
-- medusa/restore_node.py: `restore_node` and `restore_node_locally` as the list of what they do on
-- the node. The files of the backup are read from the store.
use cassandra_medusa.Base.{
  ℕ, Bool, true, false, not, ◌&&◌, Option, none, some, List, [], ◌∷◌, is_some, if◌then◌else◌,
}
use cassandra_medusa.Base.{Exception, Result, ok, err, type_error, system_exit}
use cassandra_medusa.Base.Text.{Text, codes, text_eq, mem, path_join}
use cassandra_medusa.Manifest.{Section, Manifest}
use cassandra_medusa.Filtering.{filter_fqtns, fqtn_with_id}
use cassandra_medusa.Effects.{Run, done, raise, lift, attempt, for_each, ◌>>=◌}
use cassandra_medusa.ClusterBackup.{NodeInfo}
use cassandra_medusa.Storage.Driver.{Driver}
use cassandra_medusa.Storage.NodeBackup.{Json, NodeBackup, backup_exists, info}
use cassandra_medusa.Storage.Clusters.{get_node_backup}
use cassandra_medusa.RestoreNode.{Command, maybe_restore_section, get_node_tokens, wait_for_seeds}

-- What is done on the node. A path is cleaned with its folder kept or not.
pub data Event : Type 0 where
  captured_version : Text → Event
  downloaded : List Text → Event
  shut_down waited_down : Event
  cleaned : Text → Bool → Event
  restored : List Command → Event
  started_with_implicit_token : Event
  started : List Text → Event
  rebuilt_search_index : Event
  replaced_tokens : List Text → Event
  loaded_tables : Text → Event
  verified : Event

-- The arguments of the restore, and what the configuration says.
pub record Settings : Type 0 where
  pub fqdn : Text
  pub backup_name : Text
  pub in_place : Bool
  pub keep_auth : Bool
  pub seeds : Option (List Text)
  pub keyspaces : List Text
  pub tables : List Text
  pub is_kubernetes : Bool
  pub use_sudo_for_restore : Bool
  pub download_dir : Text
  pub data_dir : Text
  pub data_parent : Text
  pub commit_logs_path : Text
  pub dse_metadata_path : Text
  pub dse_search_path : Text

-- What the surroundings answer: the exceptions of the actions, the folders that exist, and the
-- seeds that are up at each look.
pub record Surroundings : Type 0 where
  pub fails : Event → Option Exception
  pub destination_exists : Text → Bool
  pub is_node_up : Text → ℕ → Bool

abbrev pub is_dse : NodeInfo → Bool
is_dse nb = text_eq nb.server_type (codes "dse")

abbrev pub manifest_of : NodeInfo → Result Manifest
manifest_of nb = elim nb.manifest [ none ↦ err type_error | some m ↦ ok m ]

abbrev seeds_result : Result ℕ → Result (Unit {0})
seeds_result (ok n) = ok tt
seeds_result (err e) = err e

abbrev pub nonempty : List Text → Bool
nonempty [] = false
nonempty (x ∷ xs) = true

module _ (env : Surroundings) (st : Settings) where
  abbrev pub act : Event → Run Event (Unit {0})
  act = attempt env.fails

  abbrev pub when : Bool → Run Event (Unit {0}) → Run Event (Unit {0})
  when true run = run
  when false run = done tt

  unfoldable pub stop_cassandra : Run Event (Unit {0})
  stop_cassandra = when (not st.is_kubernetes) (act shut_down >>= λ _. act waited_down)

  unfoldable pub clean_node : Bool → Run Event (Unit {0})
  clean_node dse = act (cleaned st.commit_logs_path true) >>= λ _.
      when dse
        (act (cleaned st.dse_metadata_path true) >>= λ _. act (cleaned st.dse_search_path true))

  unfoldable pub restore_section : List Text → Section → Run Event (Unit {0})
  unfolding mem fqtn_with_id maybe_restore_section
  restore_section fqtns s = when (mem (fqtn_with_id s) fqtns) (
      act (
        restored (
          maybe_restore_section s st.download_dir st.data_dir st.data_parent env.destination_exists
            st.in_place st.keep_auth)))

  abbrev wait_if_seeds : Option (List Text) → Run Event (Unit {0})
  unfolding wait_for_seeds
  wait_if_seeds none = done tt
  wait_if_seeds (some seeds) = lift (seeds_result (wait_for_seeds env.is_node_up seeds))

  unfoldable pub start_cassandra : Bool → List Text → Run Event (Unit {0})
  unfolding wait_if_seeds
  start_cassandra dse tokens =
      if st.is_kubernetes
      then when (not st.in_place) (act (replaced_tokens tokens))
      else (wait_if_seeds st.seeds >>= λ _.
          (if st.in_place then act started_with_implicit_token else act (started tokens)) >>= λ _.
          when dse (act rebuilt_search_index))

  -- Once the tables to restore are known.
  unfoldable pub restore_tables : NodeInfo → Manifest → List Text → Run Event (Unit {0})
  unfolding stop_cassandra clean_node restore_section start_cassandra for_each get_node_tokens
  restore_tables nb manifest fqtns = do
    _ ← act (downloaded fqtns)
    _ ← stop_cassandra
    _ ← clean_node (is_dse nb)
    _ ← for_each (restore_section fqtns) manifest
    tokenmap ← lift nb.tokenmap
    tokens ← lift (get_node_tokens st.fqdn tokenmap)
    _ ← start_cassandra (is_dse nb) tokens
    act (cleaned st.download_dir false)

  unfoldable pub restore_backup : NodeInfo → Bool → Run Event (Unit {0})
  unfolding restore_tables filter_fqtns
  restore_backup nb there =
      if there
      then (lift (manifest_of nb) >>= λ m.
          let fqtns = (filter_fqtns st.keyspaces st.tables m false).0 in
          if nonempty fqtns then restore_tables nb m fqtns else raise (system_exit 0))
      else raise (system_exit 1)

  module _ (D : Driver) (J : Json) (prefix : Text) where
    -- The look for the blob `differential` leaves the prefix of the storage out.
    unfoldable pub restored_node_backup : Text → D.State → NodeBackup
    unfolding get_node_backup path_join
    restored_node_backup fqdn s =
        get_node_backup D J prefix fqdn st.backup_name
          (is_some (
            D.get_blob s (
              path_join (path_join (path_join fqdn st.backup_name) (codes "meta"))
                (codes "differential"))))
          s

    unfoldable pub restore_node_locally : D.State → Run Event (Unit {0})
    unfolding restored_node_backup restore_backup info backup_exists
    restore_node_locally s =
        let nb = restored_node_backup st.fqdn s in
        restore_backup (info D J nb s) (backup_exists D nb s)

-- `HostMan.set_release_version` through `capture_release_version`: the target of the caller, the
-- version of the driver's API, or the default. An empty text is false.
unfoldable pub release_version : Text → Text → Text
release_version (c ∷ target) api = c ∷ target
release_version [] (c ∷ api) = c ∷ api
release_version [] [] = codes "3.11.9"

-- `restore_node`; `restore` is the local restore or the one with sstableloader.
unfoldable pub restore_node :
    (Event → Option Exception)
    → Settings
    → Text
    → Text
    → Bool
    → Run Event (Unit {0})
    → Run Event (Unit {0})
unfolding release_version
restore_node fails st target api verify restore =
    if st.in_place && st.keep_auth then raise (system_exit 1) else (do
      _ ← attempt fails (captured_version (release_version target api))
      _ ← restore
      if verify then attempt fails verified else done tt)
