-- ===== src/Storage/LocalStorage.antt =====
-- medusa/storage/local_storage.py: the driver over a directory. The file system is a dict from
-- the path below the root directory to the file; folders are not modelled, as the driver makes
-- them on demand and never lists them.
use cassandra_medusa.Base.{
  ℕ, Bool, true, false, Option, none, some, List, [], ◌∷◌, ◌≡◌, In, is_some, map, ◌==◌, filter,
  length, arith, Bool-cases, if◌then◌else◌,
}
use cassandra_medusa.Base.Text.{Text, text_eq, text_eq_iff, starts_with}
use cassandra_medusa.Base.Dict.{Dict, lookup, insert, remove, lookup-insert, lookup-remove}
use cassandra_medusa.Manifest.{ManifestObject}
use cassandra_medusa.Storage.Driver.{Blob, Driver}

pub record File : Type 0 where
  pub content : Text
  pub mtime : ℕ

-- The files, and the time that a file is given when it is written.
pub record Files : Type 0 where
  pub clock : ℕ
  pub files : Dict File

-- The entry of a listing: its hash is not computed.
unfoldable pub listed : Text × File → Blob
listed (name, f) = record {
  name = name;
  size = length f.content;
  hash = none;
  last_modified = f.mtime;
}

-- `_list_blobs`
unfoldable pub local_list_blobs : Files → Text → List Blob
unfolding listed
local_list_blobs s prefix =
    map listed (filter (λ (e : Text × File). starts_with e.0 prefix) s.files)

-- `_upload_object`, `_delete_object`
unfoldable pub local_upload_object : Text → Text → Files → Files
local_upload_object name content s = record s {
  files = insert name (record { content = content; mtime = s.clock }) s.files;
}

unfoldable pub local_delete_object : Text → Files → Files
local_delete_object name s = record s { files = remove name s.files }

-- `_read_blob_as_bytes`: the blob was found, so the file is there.
unfoldable pub local_read_blob : Files → Text → Text
local_read_blob s name = elim (lookup name s.files) [ none ↦ [] | some f ↦ f.content ]

-- `compare_with_manifest`, and what calls it: only sizes are compared.
unfoldable pub local_compare_with_manifest : ℕ → ℕ → Bool
local_compare_with_manifest actual_size size_in_manifest = actual_size == size_in_manifest

unfoldable pub local_blob_matches_manifest : Blob → ManifestObject → Bool
unfolding local_compare_with_manifest
local_blob_matches_manifest b o = local_compare_with_manifest b.size o.size

-- `md5` is hashlib's digest, as a hexadecimal text.
module _ (md5 : Text → Text) where
  -- `_get_object`, with the error of a missing object turned into None by `get_object`.
  unfoldable pub local_get_object : Files → Text → Option Blob
  local_get_object s name = elim (lookup name s.files) [
    | none ↦ none
    | some f ↦ some (record {
      name = name;
      size = length f.content;
      hash = some (md5 f.content);
      last_modified = f.mtime;
    })
  ]

  lookup_listed :
      (fs : Dict File) (p : Text) (b : Blob)
      → In b (map listed (filter (λ (e : Text × File). starts_with e.0 p) fs))
      → (starts_with b.name p ≡ true) × (is_some (lookup b.name fs) ≡ true)
  unfolding filter lookup listed
  lookup_listed [] p b m = absurd m
  lookup_listed ((k, f) ∷ fs) p b m =
      ground (arith, lookup_listed fs p b, text_eq_iff k b.name, Bool-cases (starts_with k p))

  listed_lookup :
      (fs : Dict File) (p n : Text)
      → is_some (lookup n fs) ≡ true
      → starts_with n p ≡ true
      → In n (
          map
            (λ (b : Blob). b.name)
            (map listed (filter (λ (e : Text × File). starts_with e.0 p) fs)))
  unfolding filter lookup listed
  listed_lookup [] p n h w = ground arith
  listed_lookup ((k, f) ∷ fs) p n h w =
      ground (arith, listed_lookup fs p n, text_eq_iff k n, Bool-cases (starts_with k p))

  listed_prefix :
      (fs : Dict File) (p q : Text) (b : Blob)
      → In b (map listed (filter (λ (e : Text × File). starts_with e.0 p) fs))
      → starts_with b.name q ≡ true
      → In b (map listed (filter (λ (e : Text × File). starts_with e.0 q) fs))
  unfolding filter listed
  listed_prefix [] p q b m w = absurd m
  listed_prefix ((k, f) ∷ fs) p q b m w =
      ground
        (arith, listed_prefix fs p q b, Bool-cases (starts_with k p), Bool-cases (starts_with k q))

  pub get_local-delete :
      (n m : Text) (s : Files)
      → local_get_object (local_delete_object n s) m
        ≡ (if text_eq n m then none else local_get_object s m)
  unfolding local_get_object local_delete_object
  get_local-delete n m s = ground (arith, lookup-remove n m s.files)

  pub get_local-upload_ne :
      (n m c : Text) (s : Files)
      → text_eq n m ≡ false
      → local_get_object (local_upload_object n c s) m ≡ local_get_object s m
  unfolding local_get_object local_upload_object
  get_local-upload_ne n m c s h =
      ground (arith, lookup-insert n m (record { content = c; mtime = s.clock }) s.files)

  pub get_local-upload_self :
      (n c : Text) (s : Files) → is_some (local_get_object (local_upload_object n c s) n) ≡ true
  unfolding local_get_object local_upload_object
  get_local-upload_self n c s =
      ground (
        arith,
        text_eq_iff n n,
        lookup-insert n n (record { content = c; mtime = s.clock }) s.files,
      )

  pub read_local-upload :
      (n c : Text) (s : Files) → local_read_blob (local_upload_object n c s) n ≡ c
  unfolding local_read_blob local_upload_object
  read_local-upload n c s =
      ground (
        arith,
        text_eq_iff n n,
        lookup-insert n n (record { content = c; mtime = s.clock }) s.files,
      )

  pub get_local_named :
      (s : Files) (n : Text) (b : Blob) → local_get_object s n ≡ some b → b.name ≡ n
  unfolding local_get_object
  get_local_named s n b h = ground arith

  exists_local :
      (s : Files) (n : Text) → is_some (local_get_object s n) ≡ is_some (lookup n s.files)
  unfolding local_get_object
  exists_local s n = ground arith

  pub local_list_sound :
      (s : Files) (p : Text) (b : Blob)
      → In b (local_list_blobs s p)
      → (starts_with b.name p ≡ true) × (is_some (local_get_object s b.name) ≡ true)
  unfolding local_list_blobs
  local_list_sound s p b m = rw exists_local (lookup_listed s.files p b m)

  pub local_list_complete :
      (s : Files) (p n : Text)
      → is_some (local_get_object s n) ≡ true
      → starts_with n p ≡ true
      → In n (map (λ (b : Blob). b.name) (local_list_blobs s p))
  unfolding local_list_blobs
  local_list_complete s p n h w = listed_lookup s.files p n (rw exists_local at h) w

  pub local_list_prefix :
      (s : Files) (p q : Text) (b : Blob)
      → In b (local_list_blobs s p)
      → starts_with b.name q ≡ true
      → In b (local_list_blobs s q)
  unfolding local_list_blobs
  local_list_prefix s p q b m w = listed_prefix s.files p q b m w

  -- The local storage is a driver.
  abbrev pub local_storage : Driver
  local_storage = record {
    State = Files;
    list_blobs = local_list_blobs;
    get_blob = local_get_object;
    read = local_read_blob;
    upload = local_upload_object;
    delete = local_delete_object;
    list_sound = local_list_sound;
    list_complete = local_list_complete;
    list_prefix = local_list_prefix;
    get_named = get_local_named;
    get-delete = get_local-delete;
    get-upload_ne = get_local-upload_ne;
    get-upload_self = get_local-upload_self;
    read-upload = read_local-upload;
  }
