-- ===== src/Cassandra/Config.antt =====
-- CassandraConfigReader of medusa/cassandra_utils.py. `yaml` is the loaded cassandra.yaml: scalars
-- are texts, and a missing key is none.
use cassandra_medusa.Base.{
  Bool, true, false, not, Option, none, some, List, [], ◌∷◌, if◌then◌else◌, filter, ◌==◌,
}
use cassandra_medusa.Base.{Result, ok, err, runtime_error, key_error}
use cassandra_medusa.Base.Text.{Text, codes, text_eq, ends_with, split}

-- A value of the file: none where the key is missing, `some none` where it is null.
abbrev pub Value : Type 0
Value = Option (Option Text)

-- The keys that the reader looks at. The encryption options hold their one key, whose absence
-- raises; the seed provider is the class name and the seeds of the first entry.
pub record Yaml : Type 0 where
  pub data_file_directories : Option (List Text)
  pub commitlog_directory : Value
  pub saved_caches_directory : Value
  pub listen_address : Value
  pub internode_encryption : Option Value
  pub ssl_storage_port : Value
  pub storage_port : Value
  pub client_encryption : Option Value
  pub native_transport_port_ssl : Value
  pub native_transport_port : Value
  pub rpc_port : Value
  pub seed_provider : Option (Text × Text)

unfoldable pub root : Yaml → Result Text
root y = elim y.data_file_directories [
  | none ↦ ok (codes "/var/lib/cassandra/data")
  | some [] ↦ err runtime_error
  | some (d ∷ []) ↦ ok d
  | some (d ∷ e ∷ ds) ↦ err runtime_error
]

-- `config.get(key, default)`, which may not be empty.
unfoldable pub directory : Text → Value → Result Text
directory default none = ok default
directory default (some none) = err runtime_error
directory default (some (some [])) = err runtime_error
directory default (some (some (c ∷ d))) = ok (c ∷ d)

unfoldable pub commitlog_directory : Yaml → Result Text
unfolding directory
commitlog_directory y = directory (codes "/var/lib/cassandra/commitlog") y.commitlog_directory

unfoldable pub saved_caches_directory : Yaml → Result Text
unfolding directory
saved_caches_directory y =
    directory (codes "/var/lib/cassandra/saved_caches") y.saved_caches_directory

-- A value that is there, not null and not empty, or else the other.
unfoldable pub truthy_or : Text → Value → Text
truthy_or default none = default
truthy_or default (some none) = default
truthy_or default (some (some [])) = default
truthy_or default (some (some (c ∷ t))) = c ∷ t

-- A value that is there and not null, or else the other.
unfoldable pub given_or : Text → Value → Text
given_or default none = default
given_or default (some none) = default
given_or default (some (some t)) = t

-- `own_address` is the resolved name of the host.
unfoldable pub listen_address : Text → Yaml → Text
unfolding truthy_or
listen_address own_address y = truthy_or own_address y.listen_address

-- Encryption options without their key raise KeyError.
abbrev is_encrypted : (Text → Bool) → Option Value → Result Bool
is_encrypted test none = ok false
is_encrypted test (some none) = err key_error
is_encrypted test (some (some none)) = ok false
is_encrypted test (some (some (some t))) = ok (test t)

-- `is_4 `: a release version is known, and is 4 or later.
unfoldable pub secure_storage_port : Bool → Yaml → Text
unfolding given_or
secure_storage_port is_4 y =
    given_or (if is_4 then given_or (codes "7001") y.storage_port else codes "7001")
      y.ssl_storage_port

unfoldable pub storage_port : Bool → Yaml → Result Text
unfolding secure_storage_port given_or
storage_port is_4 y =
    elim (is_encrypted (λ t. not (text_eq t (codes "none"))) y.internode_encryption) [
      | err e ↦ err e
      | ok true ↦ ok (secure_storage_port is_4 y)
      | ok false ↦ ok (given_or (codes "7000") y.storage_port)
    ]

unfoldable pub native_port : Yaml → Result Text
unfolding given_or truthy_or
native_port y = elim (is_encrypted (λ t. text_eq t (codes "true")) y.client_encryption) [
  | err e ↦ err e
  | ok true ↦
      ok (given_or (given_or (codes "9142") y.native_transport_port) y.native_transport_port_ssl)
  | ok false ↦ ok (truthy_or (codes "9042") y.native_transport_port)
]

unfoldable pub rpc_port : Yaml → Text
unfolding truthy_or
rpc_port y = truthy_or (codes "9160") y.rpc_port

unfoldable pub seeds : Yaml → List Text
unfolding ends_with split filter
seeds y = elim y.seed_provider [
  | none ↦ []
  | some (class_name, text) ↦
      if ends_with class_name (codes "SimpleSeedProvider")
      then split b',' (filter (λ c. not (c == b' ')) text)
      else []
]
