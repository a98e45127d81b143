-- ===== src/RestoreNode/Loader.antt =====
-- medusa/restore_node.py: the restore with sstableloader, and `clean_path`. The calls of commands
-- are listed instead of run.
use cassandra_medusa.Base.{
  ℕ, Bool, false, ◌&&◌, Option, none, some, List, [], ◌∷◌, ◌++◌, ◌==◌, map, filter, flat_map,
  if◌then◌else◌,
}
use cassandra_medusa.Base.{Exception, system_exit}
use cassandra_medusa.Base.Text.{Text, codes, path_join, split, decimal}
use cassandra_medusa.Filtering.{filter_fqtns}
use cassandra_medusa.Effects.{Run, raise, lift, attempt, for_each, ◌>>=◌}
use cassandra_medusa.ClusterBackup.{NodeInfo}
use cassandra_medusa.Storage.Driver.{Driver}
use cassandra_medusa.Storage.NodeBackup.{Json, backup_exists, info}
use cassandra_medusa.RestoreNode.{keyspace_is_allowed_to_restore, table_is_allowed_to_restore}
use cassandra_medusa.RestoreNode.Local.{
  Event, downloaded, cleaned, loaded_tables, Settings, Surroundings, nonempty, manifest_of,
  restored_node_backup,
}

-- The part of the configuration that the loader's arguments come from.
pub record LoaderConfig : Type 0 where
  pub sstableloader_bin : Text
  pub config_file : Text
  pub cql_username : Option Text
  pub cql_password : Option Text
  pub is_ccm : ℕ
  pub own_fqdn : Text
  pub storage_port : ℕ
  pub native_port : ℕ
  pub ts : Option Text
  pub tspw : Option Text
  pub ks : Option Text
  pub kspw : Option Text

abbrev pub or_foo : Option Text → Text
or_foo none = codes "foo"
or_foo (some t) = t

abbrev pub ssl_args : Option Text → Option Text → Option Text → Option Text → List Text
ssl_args (some ts) (some tspw) (some ks) (some kspw) =
    codes "-ts" ∷ ts ∷ codes "-tspw" ∷ tspw ∷ codes "-ks" ∷ ks ∷ codes "-kspw" ∷ kspw ∷ []
ssl_args _ _ _ _ = []

-- The arguments of one call of sstableloader.
unfoldable pub sstableloader_args : LoaderConfig → Text → List Text
unfolding decimal
sstableloader_args c table_path =
    (c.sstableloader_bin
      ∷ codes "-d"
      ∷ (if c.is_ccm == 0 then c.own_fqdn else codes "127.0.0.1")
      ∷ codes "--conf-path"
      ∷ c.config_file
      ∷ codes "--username"
      ∷ or_foo c.cql_username
      ∷ codes "--password"
      ∷ or_foo c.cql_password
      ∷ codes "--no-progress"
      ∷ codes "--port"
      ∷ decimal c.native_port
      ∷ table_path
      ∷ [])
    ++ (if c.storage_port == 7000 then [] else codes "--storage-port" ∷ decimal c.storage_port ∷ [])
    ++ ssl_args c.ts c.tspw c.ks c.kspw

-- A folder of the download, with its entries: its name, and whether each is a folder itself.
pub record Folder : Type 0 where
  pub name : Text
  pub is_dir : Bool
  pub entries : List (Text × Bool)

unfoldable pub tables_to_load : Text → Bool → List Text → Folder → List Text
unfolding keyspace_is_allowed_to_restore table_is_allowed_to_restore
tables_to_load download_dir keep_auth fqtns k =
    if k.is_dir && keyspace_is_allowed_to_restore k.name keep_auth fqtns
    then map (λ (t : Text × Bool). path_join (path_join download_dir k.name) t.0)
        (filter (λ (t : Text × Bool). t.1 && table_is_allowed_to_restore k.name t.0 fqtns)
          k.entries)
    else []

-- `invoke_sstableloader`: the paths that are loaded, in order.
unfoldable pub invoke_sstableloader :
    (Event → Option Exception) → Text → Bool → List Text → List Folder → Run Event (Unit {0})
unfolding tables_to_load for_each
invoke_sstableloader fails download_dir keep_auth fqtns keyspaces =
    for_each (λ path. attempt fails (loaded_tables path))
      (flat_map (tables_to_load download_dir keep_auth fqtns) keyspaces)

module _ (env : Surroundings) (st : Settings) (folders : Text → List Folder) where
  -- One backup: `folders` is what the download of a host's backup has put into its directory.
  unfoldable pub load_backup : Text → NodeInfo → Bool → Run Event (Unit {0})
  unfolding invoke_sstableloader filter_fqtns
  load_backup fqdn nb there =
      if there
      then (lift (manifest_of nb) >>= λ m.
          let fqtns = (filter_fqtns st.keyspaces st.tables m false).0 in
          if nonempty fqtns
          then (do
            _ ← attempt env.fails (downloaded fqtns)
            _ ← invoke_sstableloader env.fails st.download_dir st.keep_auth fqtns (folders fqdn)
            attempt env.fails (cleaned st.download_dir false))
          else raise (system_exit 0))
      else raise (system_exit 1)

  -- `restore_node_sstableloader`: the configured name is a list of hosts.
  unfoldable pub restore_node_sstableloader :
      (D : Driver) → Json → Text → D.State → Run Event (Unit {0})
  unfolding load_backup restored_node_backup info backup_exists split for_each
  restore_node_sstableloader D J prefix s =
      for_each
        (λ fqdn.
          let nb = restored_node_backup env st D J prefix fqdn s in
          load_backup fqdn (info D J nb s) (backup_exists D nb s))
        (split b',' st.fqdn)

-- What `clean_path` runs: `entries` is none where there is no such directory. With sudo the
-- commands run as the owner of the path.
abbrev pub rm_command : Option Text → Text → List Text
rm_command none path = codes "rm" ∷ codes "-rf" ∷ path ∷ []
rm_command (some owner) path =
    codes "sudo" ∷ codes "-u" ∷ owner ∷ codes "rm" ∷ codes "-rf" ∷ path ∷ []

unfoldable pub clean_path : Text → Option (List Text) → Option Text → Bool → List (List Text)
unfolding path_join
clean_path path none owner keep_folder = []
clean_path path (some []) owner keep_folder = []
clean_path path (some (f ∷ fs)) owner keep_folder =
    if keep_folder
    then map (λ file. rm_command owner (path_join path file)) (f ∷ fs)
    else rm_command owner path ∷ []
