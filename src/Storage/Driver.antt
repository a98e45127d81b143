-- ===== src/Storage/Driver.antt =====
-- What medusa/storage/abstract_storage.py asks of a storage driver, and the operations that it
-- derives. The drivers call the object stores' own libraries, so a driver is a parameter: its
-- operations, with the documented behaviour of an object store.
use cassandra_medusa.Base.{
  ℕ, Bool, true, false, Option, none, some, List, [], ◌∷◌, ◌≡◌, ltb, is_some, filter, In, map,
  if◌then◌else◌,
}
use cassandra_medusa.Base.Text.{Text, text_eq, starts_with}

-- AbstractBlob; `last_modified` is in seconds since the epoch.
pub record Blob : Type 0 where
  pub name : Text
  pub size : ℕ
  pub hash : Option Text
  pub last_modified : ℕ

pub record Driver : Type 1 where
  pub State : Type 0
  -- _list_blobs, get_blob, read_blob_as_string, upload_blob_from_string, delete_object
  pub list_blobs : State → Text → List Blob
  pub get_blob : State → Text → Option Blob
  pub read : State → Text → Text
  pub upload : Text → Text → State → State
  pub delete : Text → State → State
  pub list_sound :
      (s : State) (p : Text) (b : Blob)
      → In b (list_blobs s p)
      → (starts_with b.name p ≡ true) × (is_some (get_blob s b.name) ≡ true)
  pub list_complete :
      (s : State) (p n : Text)
      → is_some (get_blob s n) ≡ true
      → starts_with n p ≡ true
      → In n (map (λ b. b.name) (list_blobs s p))
  -- Listings under two prefixes agree.
  pub list_prefix :
      (s : State) (p q : Text) (b : Blob)
      → In b (list_blobs s p)
      → starts_with b.name q ≡ true
      → In b (list_blobs s q)
  pub get_named : (s : State) (n : Text) (b : Blob) → get_blob s n ≡ some b → b.name ≡ n
  pub get-delete :
      (n m : Text) (s : State)
      → get_blob (delete n s) m ≡ (if text_eq n m then none else get_blob s m)
  pub get-upload_ne :
      (n m c : Text) (s : State) → text_eq n m ≡ false → get_blob (upload n c s) m ≡ get_blob s m
  pub get-upload_self : (n c : Text) (s : State) → is_some (get_blob (upload n c s) n) ≡ true
  pub read-upload : (n c : Text) (s : State) → read (upload n c s) n ≡ c

module _ (D : Driver) where
  -- `list_objects`: empty objects are not listed.
  unfoldable pub list_objects : D.State → Text → List Blob
  list_objects s path = filter (λ b. ltb 0 b.size) (D.list_blobs s path)

  -- `get_blob_content_as_string`
  unfoldable pub get_blob_content_as_string : D.State → Text → Option Text
  get_blob_content_as_string s path = elim (D.get_blob s path) [
    | none ↦ none
    | some b ↦ some (D.read s b.name)
  ]

  abbrev pub exists : D.State → Text → Bool
  exists s n = is_some (D.get_blob s n)

  -- The deletions of a loop, in order.
  unfoldable pub delete_each : List Blob → D.State → D.State
  delete_each [] s = s
  delete_each (b ∷ bs) s = delete_each bs (D.delete b.name s)
