-- ===== src/Storage/S3.antt =====
-- medusa/storage/s3_base_storage.py: the choices that S3BaseStorage makes before it calls boto.
use cassandra_medusa.Base.{
  Bool, true, false, not, ◌&&◌, ◌||◌, Option, none, some, List, [], ◌∷◌, ◌++◌, if◌then◌else◌,
}
use cassandra_medusa.Base.{Result, ok, err, value_error, key_error}
use cassandra_medusa.Base.Text.{Text, codes, text_eq, mem, split}
use cassandra_medusa.Base.Dict.{Dict, lookup}
use cassandra_medusa.Utils.{lower}

-- LIBCLOUD_REGION_NAME_MAP
abbrev pub region_names : Dict Text
region_names =
    (codes "S3_US_EAST", codes "us-east-1")
    ∷ (codes "S3_US_EAST1", codes "us-east-1")
    ∷ (codes "S3_US_EAST2", codes "us-east-2")
    ∷ (codes "S3_US_WEST", codes "us-west-1")
    ∷ (codes "S3_US_WEST2", codes "us-west-2")
    ∷ (codes "S3_US_WEST_OREGON", codes "us-west-2")
    ∷ (codes "S3_US_GOV_EAST", codes "us-gov-east-1")
    ∷ (codes "S3_US_GOV_WEST", codes "us-gov-west-1")
    ∷ (codes "S3_EU_WEST", codes "eu-west-1")
    ∷ (codes "S3_EU_WEST2", codes "eu-west-2")
    ∷ (codes "S3_EU_CENTRAL", codes "eu-central-1")
    ∷ (codes "S3_EU_NORTH1", codes "eu-north-1")
    ∷ (codes "S3_AP_SOUTH", codes "ap-south-1")
    ∷ (codes "S3_AP_SOUTHEAST", codes "ap-southeast-1")
    ∷ (codes "S3_AP_SOUTHEAST2", codes "ap-southeast-2")
    ∷ (codes "S3_AP_NORTHEAST", codes "ap-northeast-1")
    ∷ (codes "S3_AP_NORTHEAST1", codes "ap-northeast-1")
    ∷ (codes "S3_AP_NORTHEAST2", codes "ap-northeast-2")
    ∷ (codes "S3_SA_EAST", codes "sa-east-1")
    ∷ (codes "S3_SA_EAST2", codes "sa-east-2")
    ∷ (codes "S3_CA_CENTRAL", codes "ca-central-1")
    ∷ (codes "S3_CN_NORTH", codes "cn-north-1")
    ∷ (codes "S3_CN_NORTHWEST", codes "cn-northwest-1")
    ∷ (codes "S3_AF_SOUTH", codes "af-south-1")
    ∷ (codes "S3_ME_SOUTH", codes "me-south-1")
    ∷ []

-- `upper_name` is the name of the provider in capital letters.
unfoldable pub region_from_provider_name : Text → Result Text
unfolding lookup
region_from_provider_name upper_name = elim (lookup upper_name region_names) [
  | none ↦ err value_error
  | some region ↦ ok region
]

abbrev is_empty : Text → Bool
is_empty [] = true
is_empty (c ∷ t) = false

-- The region of `_consolidate_credentials`; `upper` is `str.upper`.
unfoldable pub credentials_region : (Text → Text) → Text → Text → Result Text
unfolding text_eq mem region_from_provider_name
credentials_region upper region storage_provider =
    if not (is_empty region) && not (text_eq region (codes "default"))
    then ok region
    else if not (mem storage_provider (codes "s3" ∷ codes "s3_compatible" ∷ []))
        && text_eq region (codes "default")
    then region_from_provider_name (upper storage_provider)
    else ok (codes "us-east-1")

-- `value or default`
abbrev pub or_default : Text → Option Text → Text
or_default default none = default
or_default default (some []) = default
or_default default (some (c ∷ t)) = c ∷ t

abbrev or_empty : Option Text → Text
or_empty none = []
or_empty (some t) = t

-- `_make_connection_arguments`: the URL of the endpoint, and whether its certificate is verified.
-- `host` and `port` are the texts that they are formatted as.
unfoldable pub make_connection_arguments :
    Text → Option Text → Option Text → Text → Option Text → Option (Text × Bool)
unfolding text_eq lower
make_connection_arguments storage_provider secure ssl_verify host port =
    if text_eq storage_provider (codes "s3_compatible")
    then some (
      (if text_eq (lower (or_default (codes "True") secure)) (codes "true")
            then codes "https"
            else codes "http")
          ++ codes "://"
          ++ host
          ++ codes ":"
          ++ or_empty port,
      text_eq (lower (or_default (codes "False") ssl_verify)) (codes "true"),
    )
    else none

-- The arguments beside the object that an upload and a request for metadata carry.
abbrev pub customer_key_args : Option Text → List (Text × Text)
customer_key_args none = []
customer_key_args (some key) =
    (codes "SSECustomerAlgorithm", codes "AES256") ∷ (codes "SSECustomerKey", key) ∷ []

abbrev pub kms_args : Option Text → List (Text × Text)
kms_args none = []
kms_args (some kms_id) =
    (codes "ServerSideEncryption", codes "aws:kms") ∷ (codes "SSEKMSKeyId", kms_id) ∷ []

abbrev class_args : Option Text → List (Text × Text)
class_args none = []
class_args (some storage_class) = (codes "StorageClass", storage_class) ∷ []

unfoldable pub upload_args : Option Text → Option Text → Option Text → List (Text × Text)
upload_args kms_id sse_c_key storage_class =
    kms_args kms_id ++ customer_key_args sse_c_key ++ class_args storage_class

-- `_stat_blob`: the codes that mean a missing object; another error gives no blob.
pub data Stat : Type 0 where
  found missing nothing : Stat

unfoldable pub stat_blob : Option Text → Stat
unfolding text_eq
stat_blob none = found
stat_blob (some code) =
    if text_eq code (codes "NoSuchKey") || text_eq code (codes "404") then missing else nothing

pub record BlobMetadata : Type 0 where
  pub name : Text
  pub sse_enabled : Bool
  pub sse_key_id : Option Text
  pub sse_customer_key_md5 : Option Text

-- `text.split('/')[-1]`
abbrev last_of : Text → List Text → Text
last_of t [] = t
last_of t (u ∷ us) = last_of u us

abbrev is_value : Text → Option Text → Bool
unfolding text_eq
is_value t none = false
is_value t (some u) = text_eq u t

abbrev pub key_id : Option Text → Result (Bool × Option Text)
unfolding split
key_id none = err key_error
key_id (some arn) = ok (true, some (last_of [] (split b'/' arn)))

-- The encryption that the headers of `_get_blob_metadata` tell.
abbrev pub sse_of : Option Text → Option Text → Option Text → Result (Bool × Option Text)
unfolding is_value key_id
sse_of algorithm (some md5) key = ok (true, none)
sse_of algorithm none key =
    if is_value (codes "AES256") algorithm
    then ok (false, none)
    else if is_value (codes "aws:kms") algorithm
    then key_id key
    else ok (false, none)

abbrev metadata_of : Text → Option Text → Result (Bool × Option Text) → Result BlobMetadata
metadata_of blob_key md5 (err e) = err e
metadata_of blob_key md5 (ok (enabled, key)) = ok (record {
  name = blob_key;
  sse_enabled = enabled;
  sse_key_id = key;
  sse_customer_key_md5 = md5;
})

unfoldable pub get_blob_metadata : Text → Dict Text → Result BlobMetadata
unfolding sse_of lookup
get_blob_metadata blob_key [] = err value_error
get_blob_metadata blob_key (h ∷ headers) =
    let md5 = lookup (codes "x-amz-server-side-encryption-customer-key-md5") (h ∷ headers) in
    metadata_of blob_key md5 (
      sse_of (lookup (codes "x-amz-server-side-encryption") (h ∷ headers)) md5
        (lookup (codes "x-amz-server-side-encryption-aws-kms-key-id") (h ∷ headers)))
