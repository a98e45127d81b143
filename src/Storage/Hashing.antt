-- ===== src/Storage/Hashing.antt =====
-- The digests of medusa/storage/abstract_storage.py and the comparisons of
-- medusa/storage/s3_base_storage.py, google_storage.py and azure_storage.py. A file is the list of
-- its bytes. hashlib and base64 are parameters: `digest` the MD5 of some bytes, `encoded` its base64
-- text, and `decoded_hex` the hexadecimal text of a base64 text, where it decodes.
pub mod Parts
use cassandra_medusa.Base.{
  ℕ, zero, suc, Bool, true, false, ◌&&◌, ◌||◌, Option, none, some, List, [], ◌∷◌, ◌++◌, ◌==◌, leb,
  ltb, length, take, drop, concat, map, if◌then◌else◌,
}
use cassandra_medusa.Base.{Result, ok, ◌>>=◌}
use cassandra_medusa.Base.Text.{Text, codes, text_eq, contains, decimal, starts_with, ends_with}
use cassandra_medusa.Manifest.{ManifestObject}
use cassandra_medusa.Storage.Driver.{Blob}

abbrev pub Bytes : Type 0
Bytes = List ℕ

-- `md5_part` from the `blocks` blocks that it may still read: what it has read, whether it has
-- met the end of the file, and what follows.
unfoldable pub md5_part : ℕ → ℕ → Bytes → Bytes → Bytes × Bool × Bytes
md5_part block zero read file = (read, false, file)
md5_part block (suc blocks) read [] = (read, true, [])
md5_part block (suc blocks) read (b ∷ file) =
    md5_part block blocks (read ++ take block (b ∷ file)) (drop block (b ∷ file))

-- The loop of `md5_multipart`, on fuel: the bytes of the parts, in order.
abbrev pub next_parts : List Bytes → Bytes × Bool × Bytes → List Bytes
next_parts rest (part, true, file) = part ∷ []
next_parts rest (part, false, file) = part ∷ rest

unfoldable pub parts : ℕ → ℕ → ℕ → Bytes → List Bytes
unfolding md5_part
parts block blocks zero file = []
parts block blocks (suc fuel) file =
    let part = md5_part block blocks [] file in next_parts (parts block blocks fuel part.2) part

-- MULTIPART_BLOCK_SIZE_BYTES, and the blocks of a part: 8 MB of 16 blocks each.
abbrev pub multipart_block_size : ℕ
multipart_block_size = 65536

abbrev pub multipart_blocks : ℕ
multipart_blocks = 128

module _ (digest : Bytes → Bytes) (hex encoded : Bytes → Text) where
  unfoldable pub md5_multipart : Bytes → Text
  unfolding parts decimal
  md5_multipart file =
      let hash_list =
        map digest (parts multipart_block_size multipart_blocks (suc (length file)) file) in
      hex (digest (concat hash_list)) ++ codes "-" ++ decimal (length hash_list)

  -- Blocks that are digested one after the other are digested as one.
  unfoldable pub generate_md5_hash : Bytes → Text
  generate_md5_hash file = encoded (digest file)

  module _ (decoded_hex : Text → Result Text) where
    -- `hashes_match` of AbstractStorage
    unfoldable pub hashes_match : Text → Text → Result Bool
    unfolding text_eq
    hashes_match manifest_hash object_hash = do
      decoded ← decoded_hex manifest_hash
      ok (text_eq decoded object_hash || text_eq manifest_hash object_hash)

    -- Either hash may be the base64 text of the other. Both are decoded in any case.
    unfoldable pub any_form_matches : Text → Text → Result Bool
    unfolding text_eq
    any_form_matches actual in_manifest = do
      m ← decoded_hex in_manifest
      a ← decoded_hex actual
      ok (text_eq actual m || (text_eq in_manifest a || text_eq actual in_manifest))

    abbrev and_sizes : Bool → Result Bool → Result Bool
    and_sizes sizes_match r = r >>= λ hashes. ok (sizes_match && hashes)

    -- `actual_size >= threshold > 0`
    abbrev pub above : Option ℕ → ℕ → Bool
    above none size = false
    above (some t) size = leb t size && ltb 0 t

    abbrev pub hash_matches : Bool → Text → Text → Result Bool
    unfolding any_form_matches text_eq
    hash_matches true actual in_manifest = ok (text_eq actual in_manifest)
    hash_matches false actual in_manifest = any_form_matches actual in_manifest

    -- `compare_with_manifest` of S3BaseStorage; no hash or an empty one leaves the sizes.
    unfoldable pub compare_with_manifest : ℕ → ℕ → Option Text → Text → Option ℕ → Result Bool
    unfolding hash_matches contains
    compare_with_manifest size in_manifest none hash threshold = ok (size == in_manifest)
    compare_with_manifest size in_manifest (some []) hash threshold = ok (size == in_manifest)
    compare_with_manifest size in_manifest (some (c ∷ actual)) hash threshold =
        and_sizes (size == in_manifest)
          (hash_matches (above threshold size || contains (codes "-") hash) (c ∷ actual) hash)

    -- `compare_with_manifest` of GoogleStorage and of AzureStorage
    unfoldable pub compare_single_part : ℕ → ℕ → Option Text → Text → Result Bool
    unfolding any_form_matches
    compare_single_part size in_manifest none hash = ok (size == in_manifest)
    compare_single_part size in_manifest (some []) hash = ok (size == in_manifest)
    compare_single_part size in_manifest (some (c ∷ actual)) hash =
        and_sizes (size == in_manifest) (any_form_matches (c ∷ actual) hash)

    abbrev pub if_enabled : Bool → Text → Option Text
    if_enabled true t = some t
    if_enabled false t = none

    -- `str(blob.hash)`: the hash that is missing is the text 'None'.
    abbrev pub hash_text : Option Text → Text
    hash_text none = codes "None"
    hash_text (some h) = h

    unfoldable pub s3_blob_matches_manifest : Blob → ManifestObject → Bool → Result Bool
    unfolding compare_with_manifest
    s3_blob_matches_manifest b o enable_md5_checks =
        compare_with_manifest b.size o.size (if_enabled enable_md5_checks (hash_text b.hash)) o.md5
          none

    -- The hash of the file, by parts where it is not below the threshold.
    abbrev pub s3_file_hash : Bytes → Option ℕ → Bool → Option Text
    unfolding md5_multipart generate_md5_hash
    s3_file_hash file threshold false = none
    s3_file_hash file threshold true =
        some (if above threshold (length file) then md5_multipart file else generate_md5_hash file)

    unfoldable pub s3_file_matches_storage : Bytes → ManifestObject → Option ℕ → Bool → Result Bool
    unfolding compare_with_manifest s3_file_hash
    s3_file_matches_storage file cached threshold enable_md5_checks =
        compare_with_manifest (length file) cached.size
          (s3_file_hash file threshold enable_md5_checks) cached.md5 threshold

    unfoldable pub google_blob_matches_manifest : Blob → ManifestObject → Bool → Result Bool
    unfolding compare_single_part
    google_blob_matches_manifest b o enable_md5_checks =
        compare_single_part b.size o.size (if_enabled enable_md5_checks (hash_text b.hash)) o.md5

    unfoldable pub google_file_matches_storage : Bytes → ManifestObject → Bool → Result Bool
    unfolding compare_single_part generate_md5_hash
    google_file_matches_storage file cached enable_md5_checks =
        compare_single_part (length file) cached.size
          (if_enabled enable_md5_checks (generate_md5_hash file)) cached.md5

    -- A blob without a hash is compared by its size.
    abbrev pub azure_hash : Bool → Option Text → Option Text
    azure_hash true h = h
    azure_hash false h = none

    unfoldable pub azure_blob_matches_manifest : Blob → ManifestObject → Bool → Result Bool
    unfolding compare_single_part
    azure_blob_matches_manifest b o enable_md5_checks =
        compare_single_part b.size o.size (azure_hash enable_md5_checks b.hash) o.md5

-- `path_maybe_with_parent`: a file of a secondary index or of the DSE metadata keeps the name of its
-- folder. `parent` and `name` are the last parts of the path.
unfoldable pub path_maybe_with_parent : Text → Text → Text → Text
unfolding starts_with ends_with
path_maybe_with_parent dest parent name =
    if starts_with parent (codes ".") || ends_with parent (codes "nodes")
    then dest ++ codes "/" ++ parent ++ codes "/" ++ name
    else dest ++ codes "/" ++ name
