-- ===== src/Config.antt =====
-- medusa/config.py: the configuration as sections of options. The file, the secrets and the names of
-- the host are read from outside; `environ` is the environment.
pub mod Precedence
use cassandra_medusa.Base.{
  ℕ, ◌-◌, Bool, true, false, not, ◌&&◌, ◌||◌, Option, none, some, List, [], ◌∷◌, ◌++◌, leb, map,
  is_some, if◌then◌else◌,
}
use cassandra_medusa.Base.{Result, ok, err, key_error, system_exit, ◌>>=◌}
use cassandra_medusa.Base.Text.{Text, codes, text_eq, contains}
use cassandra_medusa.Base.Dict.{Dict, lookup, insert, has_key}
use cassandra_medusa.Utils.{evaluate_boolean}

abbrev pub Config : Type 0
Config = Dict (Dict Text)

abbrev pub Environ : Type 0
Environ = Dict Text

unfoldable pub section : Text → Config → Dict Text
unfolding lookup
section name c = elim (lookup name c) [ none ↦ [] | some d ↦ d ]

-- `config[name].get(key)` and `config.set(name, key, value)`
unfoldable pub get : Text → Text → Config → Option Text
unfolding section lookup
get name key c = lookup key (section name c)

unfoldable pub set : Text → Text → Text → Config → Config
unfolding section insert
set name key value c = insert name (insert key value (section name c)) c

unfoldable pub get_or_raise : Text → Text → Config → Result Text
unfolding get
get_or_raise name key c = elim (get name key c) [ none ↦ err key_error | some v ↦ ok v ]

-- `_override_config_with_args`: the arguments of a section's fields that are given.
unfoldable pub override_section : Text → List Text → Dict Text → Config → Config
unfolding set lookup
override_section name [] args c = c
override_section name (field ∷ fields) args c =
    override_section name fields args
      (elim (lookup field args) [ none ↦ c | some v ↦ set name field v c ])

unfoldable pub override_config_with_args : List (Text × List Text) → Dict Text → Config → Config
unfolding override_section
override_config_with_args [] args c = c
override_config_with_args ((name, fields) ∷ sections) args c =
    override_config_with_args sections args (override_section name fields args c)

-- `value == 'True'` for an argument that may be missing.
abbrev is_true : Option Text → Bool
unfolding text_eq
is_true none = false
is_true (some t) = text_eq t (codes "True")

unfoldable pub evaluate_option : Text → Text → Config → Result Bool
unfolding evaluate_boolean get_or_raise
evaluate_option name key c = get_or_raise name key c >>= evaluate_boolean

abbrev set_if : Bool → Text → Text → Text → Config → Config
unfolding set
set_if true name key value c = set name key value c
set_if false name key value c = c

unfoldable pub set_given : Option Text → Text → Text → Config → Config
unfolding set
set_given none name key c = c
set_given (some v) name key c = set name key v c

-- In Kubernetes, sudo is off and the address of the pod is the name of the node.
abbrev kubernetes_settings : Environ → Config → Config
unfolding set set_given lookup
kubernetes_settings environ c =
    set_given (lookup (codes "POD_IP") environ) (codes "storage") (codes "fqdn") (
      set (codes "storage") (codes "use_sudo_for_restore") (codes "False")
        (set (codes "cassandra") (codes "use_sudo") (codes "False") c))

unfoldable pub handle_k8s_and_grpc_settings : Dict Text → Environ → Config → Result Config
unfolding evaluate_option set_if is_true lookup kubernetes_settings
handle_k8s_and_grpc_settings args environ c = do
  k8s ← evaluate_option (codes "kubernetes") (codes "enabled") c
  let c1 =
      set_if (is_true (lookup (codes "k8s_enabled") args) || k8s) (codes "kubernetes")
        (codes "enabled") (codes "True") c
  grpc ← evaluate_option (codes "grpc") (codes "enabled") c1
  let c2 =
      set_if (is_true (lookup (codes "grpc_enabled") args) || grpc) (codes "grpc") (codes "enabled")
        (codes "True") c1
  enabled ← evaluate_option (codes "kubernetes") (codes "enabled") c2
  sudo ← (if enabled then evaluate_option (codes "cassandra") (codes "use_sudo") c2 else ok false)
  ok (if enabled then kubernetes_settings environ c2 else c2)

-- `str.upper` on the letters of ASCII
unfoldable pub upper : Text → Text
upper = map (λ c. if leb b'a' c && leb c b'z' then c - 32 else c)

-- An option of the section `cassandra` from a variable of the environment, where it is there.
unfoldable pub set_from : Environ → Text → Text → Config → Config
unfolding set_given lookup
set_from environ variable key c = set_given (lookup variable environ) (codes "cassandra") key c

abbrev pub medusa_variable : Text → Text
unfolding upper
medusa_variable key = codes "MEDUSA_" ++ upper key

-- The two options with a deprecated variable: the new variable comes second, so it wins.
unfoldable pub set_credentials : Environ → List Text → Config → Config
unfolding set_from medusa_variable upper
set_credentials environ [] c = c
set_credentials environ (key ∷ keys) c =
    set_credentials environ keys
      (set_from environ (medusa_variable key) key (set_from environ (upper key) key c))

unfoldable pub set_others : Environ → List Text → Config → Config
unfolding set_from medusa_variable
set_others environ [] c = c
set_others environ (key ∷ keys) c =
    set_others environ keys (set_from environ (medusa_variable key) key c)

abbrev pub other_options : List Text
other_options =
    codes "nodetool_username"
    ∷ codes "nodetool_password"
    ∷ codes "sstableloader_tspw"
    ∷ codes "sstableloader_kspw"
    ∷ codes "resolve_ip_addresses"
    ∷ codes "cql_k8s_secrets_path"
    ∷ codes "nodetool_k8s_secrets_path"
    ∷ []

unfoldable pub handle_env_vars : Environ → Config → Config
unfolding set_credentials set_others
handle_env_vars environ c =
    set_others environ other_options
      (set_credentials environ (codes "cql_username" ∷ codes "cql_password" ∷ []) c)

-- `secrets path` are the user name and the password of a folder of secrets, `none` where a file
-- cannot be read.
module _ (secrets : Text → Result (Text × Text)) where
  abbrev load_secrets : Text → Text → Text → Config → Result Config
  unfolding set
  load_secrets [] user password c = ok c
  load_secrets (p ∷ path) user password c = secrets (p ∷ path) >>= λ s.
      ok (set (codes "cassandra") password s.1 (set (codes "cassandra") user s.0 c))

  abbrev load_given : Option Text → Text → Text → Config → Result Config
  unfolding load_secrets
  load_given none user password c = ok c
  load_given (some path) user password c = load_secrets path user password c

  unfoldable pub handle_k8s_secrets : Config → Result Config
  unfolding load_given get
  handle_k8s_secrets c =
      load_given (get (codes "cassandra") (codes "cql_k8s_secrets_path") c) (codes "cql_username")
        (codes "cql_password") c
      >>= λ c'.
          load_given (get (codes "cassandra") (codes "nodetool_k8s_secrets_path") c')
            (codes "nodetool_username") (codes "nodetool_password") c'

-- The name of the node, where it is the host's own: `resolved` is `resolve_fqdn()` of the resolver
-- for the text of the option and the mode, `address` the host's address. The test `not` is on the
-- text of the option, which is true unless it is empty.
abbrev is_empty : Text → Bool
is_empty [] = true
is_empty (c ∷ t) = false

unfoldable pub own_name : Text → Text → (Text → Bool → Text) → Text → Bool → Text → Text
unfolding text_eq
own_name host address resolved option k8s fqdn =
    if text_eq fqdn host then (if is_empty option then address else resolved option k8s) else fqdn

abbrev pub boolean_text : Bool → Text
boolean_text true = codes "True"
boolean_text false = codes "False"

unfoldable pub handle_hostname_resolution :
    Text → Text → (Text → Bool → Text) → Config → Result Config
unfolding own_name get_or_raise evaluate_option evaluate_boolean set
handle_hostname_resolution host address resolved c = do
  option ← get_or_raise (codes "cassandra") (codes "resolve_ip_addresses") c
  k8s ← evaluate_option (codes "kubernetes") (codes "enabled") c
  fqdn ← get_or_raise (codes "storage") (codes "fqdn") c
  let c1 = set (codes "storage") (codes "fqdn") (own_name host address resolved option k8s fqdn) c
  b ← evaluate_boolean option
  ok (
      set (codes "cassandra") (codes "resolve_ip_addresses") (boolean_text b)
        (set (codes "storage") (codes "k8s_mode") (boolean_text k8s) c1))

-- The checks of `load_config`: the options that must be there, and those without a slash.
unfoldable pub has_options : Text → List Text → Config → Bool
unfolding get
has_options name [] c = true
has_options name (key ∷ keys) c = is_some (get name key c) && has_options name keys c

abbrev without_slash : Option Text → Bool
unfolding contains
without_slash none = true
without_slash (some v) = not (contains (codes "/") v)

unfoldable pub check_config : Config → Result Config
unfolding has_options without_slash get
check_config c =
    if has_options (codes "storage") (codes "bucket_name" ∷ codes "storage_provider" ∷ []) c
      && has_options (codes "cassandra") (codes "start_cmd" ∷ codes "stop_cmd" ∷ []) c
      && has_options (codes "ssh") (codes "username" ∷ codes "key_file" ∷ []) c
      && without_slash (get (codes "storage") (codes "bucket_name") c)
      && without_slash (get (codes "storage") (codes "prefix") c)
    then ok c
    else err (system_exit 2)
