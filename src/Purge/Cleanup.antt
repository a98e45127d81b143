-- ===== src/Purge/Cleanup.antt =====
-- `cleanup_obsolete_files` against what it may delete.
use cassandra_medusa.Base.{
  ℕ, Bool, true, false, not, ◌&&◌, none, some, List, [], ◌∷◌, ◌++◌, ◌≡◌, refl, ap, ◌∙◌, In, arith,
  inl, inr, Bool-cases, Option-cases, if◌then◌else◌,
}
use cassandra_medusa.Base.{Result, ok, ◌>>=◌, >>=-eq-ok, Result-cases}
use cassandra_medusa.Base.Text.{Text, mem, mem-filter, mem-append}
use cassandra_medusa.Base.Dict.{Dict, lookup, mem-keys}
use cassandra_medusa.Storage.Driver.{Blob, Driver}
use cassandra_medusa.Storage.NodeBackup.{Json, NodeBackup, manifest}
use cassandra_medusa.Storage.Listing.{list_node_backups}
use cassandra_medusa.Manifest.{Manifest}
use cassandra_medusa.Purge.{
  is_older_than_gc_grace, manifest_paths, get_file_paths_from_storage,
  get_file_paths_from_manifests_for_complete_differential_backups, filter_files_within_gc_grace,
  candidates_of, cleanup_files, cleanup_listed, cleanup_obsolete_files,
}
use cassandra_medusa.Purge.Deletion.{get-delete_paths}

-- A file may go: it lies in the data folder, no manifest names it, and it is old enough.
pub obsolete : ℕ → ℕ → List Text → Dict Blob → Text → Bool
obsolete now_us grace in_manifest in_storage n = elim (lookup n in_storage) [
  | none ↦ false
  | some b ↦ not (mem n in_manifest) && is_older_than_gc_grace now_us b.last_modified grace
]

module _ (now_us grace : ℕ) (in_manifest : List Text) (in_storage : Dict Blob) where
  mem-to_delete :
      (n : Text)
      → mem n (
          filter_files_within_gc_grace now_us
            (candidates_of in_manifest in_storage)
            in_storage
            grace)
        ≡ obsolete now_us grace in_manifest in_storage n
  unfolding filter_files_within_gc_grace obsolete
  mem-to_delete n = rw mem-filter (rw mem-filter (rw mem-keys (ground arith)))

module _ (D : Driver) (J : Json) (prefix : Text) (now_us : ℕ) (fqdn : Text) (grace : ℕ) where
  -- Where the node's backups `backups` can be listed, in the state `s₁`, and their manifests
  -- name the files `in_manifest`, the clean-up deletes exactly the obsolete files of the data
  -- folder: each such file is gone, and every other object is as it was.
  pub cleanup_exact :
      (s s₁ : D.State) (backups : List NodeBackup) (in_manifest : List Text) (n : Text)
      → list_node_backups D prefix (some fqdn) none s ≡ (ok backups, s₁)
      → get_file_paths_from_manifests_for_complete_differential_backups D J backups s₁
        ≡ ok in_manifest
      → D.get_blob (cleanup_obsolete_files D J prefix now_us fqdn grace s).1 n ≡ (
          if obsolete now_us grace in_manifest (get_file_paths_from_storage D prefix fqdn s₁) n
          then none
          else D.get_blob s₁ n)
  unfolding cleanup_obsolete_files
  cleanup_exact s s₁ backups in_manifest n l m =
      rw (l, cleanup_listed)
        (rw (m, cleanup_files)
          (get-delete_paths D _ s₁ n
            ∙ ap (λ b. if b then none else D.get_blob s₁ n)
                (mem-to_delete now_us grace in_manifest _ n)))

module _ (D : Driver) (J : Json) where
  abbrev paths_of : List NodeBackup → D.State → Result (List Text)
  paths_of = get_file_paths_from_manifests_for_complete_differential_backups D J

  head_step :
      (x : NodeBackup) (backups : List NodeBackup) (text : Text) (m : Manifest) (s : D.State)
      → x.is_differential ≡ true
      → manifest D x s ≡ some text
      → J.loads_manifest text ≡ some m
      → (paths_of backups s >>= λ paths. ok (manifest_paths m ++ paths)) ≡ paths_of (x ∷ backups) s
  unfolding get_file_paths_from_manifests_for_complete_differential_backups
  head_step x backups text m s d e j = ground arith

  -- One more backup in front loses no path.
  tail_step :
      (x : NodeBackup) (backups : List NodeBackup) (s : D.State) (in_manifest : List Text)
      → paths_of (x ∷ backups) s ≡ ok in_manifest
      → (paths : List Text) × (paths_of backups s ≡ ok paths)
        × ((n : Text) → mem n paths ≡ true → mem n in_manifest ≡ true)
  unfolding get_file_paths_from_manifests_for_complete_differential_backups
  tail_step x backups s in_manifest h = elim (Bool-cases x.is_differential) [
    | inr full ↦ (in_manifest, ground arith, λ n k. k)
    | inl differential ↦ elim (Option-cases (manifest D x s)) [
      | inl missing ↦ (in_manifest, ground arith, λ n k. k)
      | inr (text, e) ↦ elim (Option-cases (J.loads_manifest text)) [
        | inl bad ↦ absurd (ground arith)
        | inr (m, j) ↦
            let (paths, hp, h') =
              >>=-eq-ok (paths_of backups s) _
                (head_step x backups text m s differential e j ∙ h) in
            (paths, hp, λ n k. ground (arith, mem-append n (manifest_paths m) paths, h'))
      ]
    ]
  ]

  -- The set of referenced paths holds those of each manifest that was read.
  mem-In_manifest :
      (backups : List NodeBackup) (s : D.State) (in_manifest : List Text) (nb : NodeBackup)
      (text : Text) (m : Manifest) (n : Text)
      → get_file_paths_from_manifests_for_complete_differential_backups D J backups s
        ≡ ok in_manifest
      → In nb backups
      → nb.is_differential ≡ true
      → manifest D nb s ≡ some text
      → J.loads_manifest text ≡ some m
      → mem n (manifest_paths m) ≡ true
      → mem n in_manifest ≡ true
  unfolding get_file_paths_from_manifests_for_complete_differential_backups
  mem-In_manifest [] s in_manifest nb text m n h i d e j r = absurd i
  mem-In_manifest (x ∷ backups) s in_manifest nb text m n h (inl same) d e j r =
      let d' : x.is_differential ≡ true = rw same d in
      let e' : manifest D x s ≡ some text = rw same e in
      let (paths, hp, h') =
        >>=-eq-ok (get_file_paths_from_manifests_for_complete_differential_backups D J backups s) _
          (head_step x backups text m s d' e' j ∙ h) in
      ground (arith, mem-append n (manifest_paths m) paths, h')
  mem-In_manifest (x ∷ backups) s in_manifest nb text m n h (inr i) d e j r =
      let (paths, hp, keeps) = tail_step x backups s in_manifest h in
      keeps n (mem-In_manifest backups s paths nb text m n hp i d e j r)

  -- A file that the manifest of a listed differential backup of the node names, where the
  -- manifest can be read, is not touched by the clean-up, whatever its age.
  pub cleanup_keeps_referenced :
      (prefix : Text) (now_us : ℕ) (fqdn : Text) (grace : ℕ) (s s₁ : D.State)
      (backups : List NodeBackup) (nb : NodeBackup) (text : Text) (m : Manifest) (n : Text)
      → list_node_backups D prefix (some fqdn) none s ≡ (ok backups, s₁)
      → In nb backups
      → nb.is_differential ≡ true
      → manifest D nb s₁ ≡ some text
      → J.loads_manifest text ≡ some m
      → mem n (manifest_paths m) ≡ true
      → D.get_blob (cleanup_obsolete_files D J prefix now_us fqdn grace s).1 n ≡ D.get_blob s₁ n
  unfolding cleanup_obsolete_files obsolete
  cleanup_keeps_referenced prefix now_us fqdn grace s s₁ backups nb text m n l i d e j r =
      elim (Result-cases (paths_of backups s₁)) [
        | inl (paths, hp) ↦
            cleanup_exact D J prefix now_us fqdn grace s s₁ backups paths n l hp
            ∙ kept paths (mem-In_manifest backups s₁ paths nb text m n hp i d e j r)
        | inr (x, hp) ↦ rw (l, cleanup_listed) (rw (hp, cleanup_files) refl)
      ]
    where
      kept :
          (paths : List Text)
          → mem n paths ≡ true
          → (if obsolete now_us grace paths (get_file_paths_from_storage D prefix fqdn s₁) n
              then none
              else D.get_blob s₁ n)
            ≡ D.get_blob s₁ n
      kept paths k = ground (arith, k)
