-- ===== src/Cassandra/Commands.antt =====
-- The command lines of medusa/nodetool.py and of the snapshots in medusa/cassandra_utils.py, and
-- the version that medusa/host_man.py keeps.
use cassandra_medusa.Base.{ℕ, Option, none, some, List, [], ◌∷◌, ◌++◌, ◌==◌, map, if◌then◌else◌}
use cassandra_medusa.Base.{Result, ok, err, runtime_error}
use cassandra_medusa.Base.Text.{Text, codes, text_eq, join, split}

pub record NodetoolConfig : Type 0 where
  pub executable : Text
  pub flags : Text
  pub ssl : Text
  pub username : Option Text
  pub password : Option Text
  pub password_file_path : Option Text
  pub host : Option Text
  pub port : Option Text

abbrev flag : Text → Option Text → List Text
flag name none = []
flag name (some v) = name ∷ v ∷ []

abbrev words : Text → List Text
unfolding split
words [] = []
words (c ∷ t) = split b' ' (c ∷ t)

-- `Nodetool(...)`
unfoldable pub nodetool : NodetoolConfig → List Text
unfolding words text_eq
nodetool c =
    (c.executable ∷ words c.flags)
    ++ (if text_eq c.ssl (codes "true") then codes "--ssl" ∷ [] else [])
    ++ flag (codes "-u") c.username
    ++ flag (codes "-pw") c.password
    ++ flag (codes "-pwf") c.password_file_path
    ++ flag (codes "-h") c.host
    ++ flag (codes "-p") c.port

-- A command: one text for ccm, else a list of words.
pub data Command : Type 0 where
  line : Text → Command
  args : List Text → Command

abbrev pub snapshot_prefix : Text
snapshot_prefix = codes "medusa-"

abbrev ccm_line : Text → Text → Text
ccm_line operation tag =
    codes "ccm node1 nodetool -- -Dcom.sun.jndi.rmiURLParsing=legacy \""
    ++ operation
    ++ codes " -t "
    ++ tag
    ++ codes "\""

unfoldable pub create_snapshot_command : ℕ → NodetoolConfig → Text → Command
unfolding nodetool
create_snapshot_command is_ccm c backup_name =
    let tag = snapshot_prefix ++ backup_name in
    if is_ccm == 1
    then line (ccm_line (codes "snapshot") tag)
    else args (nodetool c ++ (codes "snapshot" ∷ codes "-t" ∷ tag ∷ []))

unfoldable pub delete_snapshot_command : ℕ → NodetoolConfig → Text → Command
unfolding nodetool
delete_snapshot_command is_ccm c tag =
    if is_ccm == 1
    then line (ccm_line (codes "clearsnapshot") tag)
    else args (nodetool c ++ (codes "clearsnapshot" ∷ codes "-t" ∷ tag ∷ []))

-- `' '.join(command)`, as medusa/backup_cluster.py makes the text to run: a text is joined by its
-- characters.
unfoldable pub joined : Command → Text
unfolding join
joined (line t) = join (codes " ") (map (λ c. c ∷ []) t)
joined (args ws) = join (codes " ") ws

-- HostMan: the release version of the host, none where there is no instance.
unfoldable pub set_release_version : Text → Option Text → Result (Unit {0}) × Option Text
set_release_version [] instance_ = (err runtime_error, instance_)
set_release_version (c ∷ version) instance_ = (ok tt, some (c ∷ version))

unfoldable pub get_release_version : Option Text → Result Text
get_release_version none = err runtime_error
get_release_version (some version) = ok version
