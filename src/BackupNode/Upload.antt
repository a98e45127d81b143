-- ===== src/BackupNode/Upload.antt =====
-- What `check_already_uploaded` and `backup_snapshots` make of the files of a snapshot.
use cassandra_medusa.Base.{
  ℕ, suc, ◌+◌, ◌≤◌, Bool, true, false, not, Option, none, some, List, [], ◌∷◌, ◌++◌, ◌≡◌, inl, inr,
  refl, ap, ◌∙◌, arith, length, length-append, filter, Bool-cases, Result-cases, >>=-eq-ok,
}
use cassandra_medusa.Base.{Result, ok, err}
use cassandra_medusa.Base.Text.{Text}
use cassandra_medusa.Base.Dict.{Dict}
use cassandra_medusa.Manifest.{ManifestObject, Section, Manifest}
use cassandra_medusa.ClusterBackup.{section_counts}
use cassandra_medusa.Storage.NodeBackup.{NodeBackup, datapath}
use cassandra_medusa.Storage.Tables.{FilesPerTable, sanitize_keyspace_and_table_name, name_of}
use cassandra_medusa.BackupNode.{
  SnapshotPath, Checked, Progress, never_backed_up, sort_file, item_in_storage, check_files,
  check_already_uploaded, upload_needed, table_objects, count_table, backup_table, and_then,
  backup_snapshots, make_manifest_object, manifest_objects, url_to_path,
}

-- The files that a table's backup is to hold.
abbrev pub to_back_up : List Text → List Text
to_back_up srcs = filter (λ src. not (never_backed_up src)) srcs

checked_count : Checked → ℕ
checked_count c = (length c.needs_backup + length c.needs_reupload) + length c.already_backed_up

module _ (file_matches_storage : Text → ManifestObject → Bool) where
  count-sort_file :
      (src : Text) (item : Option ManifestObject) (c : Checked)
      → checked_count (sort_file file_matches_storage src item c) ≡ suc (checked_count c)
  unfolding checked_count sort_file
  count-sort_file src none c = omega arith
  count-sort_file src (some item) c = ground arith

  count-check_files :
      (stored : Dict (Dict ManifestObject)) (srcs : List Text) (c : Checked)
      → check_files file_matches_storage stored srcs ≡ ok c
      → checked_count c ≡ length (to_back_up srcs)
  unfolding check_files filter checked_count
  count-check_files stored [] c h = ground arith
  count-check_files stored (src ∷ srcs) c h = elim (Bool-cases (never_backed_up src)) [
    | inl e ↦ ground (arith, count-check_files stored srcs c)
    | inr e ↦ elim (Result-cases (sanitize_keyspace_and_table_name src)) [
      | inr (x, e') ↦ ground arith
      | inl (place, e') ↦ elim (Result-cases (check_files file_matches_storage stored srcs)) [
        | inr (x, e'') ↦ ground arith
        | inl (d, e'') ↦ ground (
          arith,
          count-check_files stored srcs d,
          count-sort_file src (item_in_storage file_matches_storage stored place.1 (name_of src)) d,
        )
      ]
    ]
  ]

  -- Each file to back up is counted in one of the three lists.
  count-check_already_uploaded :
      (differential : Bool) (stored : FilesPerTable) (keyspace : Text) (srcs : List Text)
      (c : Checked)
      → check_already_uploaded file_matches_storage differential stored keyspace srcs ≡ ok c
      → (checked_count c ≡ length (to_back_up srcs))
        × (differential ≡ false → length c.already_backed_up ≡ 0)
  unfolding check_already_uploaded checked_count
  count-check_already_uploaded true stored keyspace srcs c h =
      (count-check_files _ srcs c h, λ f. ground arith)
  count-check_already_uploaded false stored keyspace srcs c h = ground arith

length-manifest_objects :
    (prefix fqdn : Text) (os out : List ManifestObject)
    → manifest_objects prefix fqdn os ≡ ok out
    → length out ≡ length os
unfolding manifest_objects
length-manifest_objects prefix fqdn [] out h = ground arith
length-manifest_objects prefix fqdn (o ∷ os) out h =
    let (path, e, h') = >>=-eq-ok (url_to_path prefix o.path fqdn) _ h in
    let (rest, e', h'') = >>=-eq-ok (manifest_objects prefix fqdn os) _ h' in
    ground (arith, length-manifest_objects prefix fqdn os rest e')

section_counts-append :
    (m : Manifest) (s : Section)
    → section_counts (m ++ (s ∷ [])) ≡ section_counts m + length s.objects
unfolding section_counts
section_counts-append [] s = omega arith
section_counts-append (t ∷ m) s = omega (arith, section_counts-append m s)

-- The files of the tables that are to be backed up.
abbrev pub total_files : List SnapshotPath → ℕ
total_files [] = 0
total_files (dir ∷ dirs) = length (to_back_up dir.files) + total_files dirs

module _ {S : Type 0} (file_matches_storage : Text → ManifestObject → Bool)
    (upload_blobs : List Text → Text → S → List ManifestObject × S) (prefix_path : Text)
    (one_each : (srcs : List Text) (dst : Text) (s : S)
      → length (upload_blobs srcs dst s).0 ≡ length srcs) where
  length-upload_needed :
      (srcs : List Text) (dst : Text) (s : S)
      → length (upload_needed file_matches_storage upload_blobs prefix_path srcs dst s).0
        ≡ length srcs
  unfolding upload_needed
  length-upload_needed [] dst s = refl
  length-upload_needed (src ∷ srcs) dst s = one_each (src ∷ srcs) dst s

  Conserves : NodeBackup → ℕ → Progress → Progress → Type 0
  Conserves nb files p q =
      (q.num_files + q.kept ≡ p.num_files + p.kept + files)
      × (section_counts q.manifest + (p.num_files + p.kept)
          ≡ section_counts p.manifest + (q.num_files + q.kept))
      × (q.replaced + p.num_files ≤ p.replaced + q.num_files)

  and_then-ok :
      {A B : Type 0} (r : Result A × S) (f : A → S → Result B × S) {b : B} {s' : S}
      → and_then file_matches_storage upload_blobs prefix_path r f ≡ (ok b, s')
      → (a : A) × (s : S) × (r ≡ (ok a, s)) × (f a s ≡ (ok b, s'))
  and_then-ok (err e, s) f h = absurd (ground arith)
  and_then-ok (ok a, s) f h = (a, s, refl, h)

  count_table-Conserves :
      (nb : NodeBackup) (dir : SnapshotPath) (c : Checked) (p q : Progress)
      (objects : List ManifestObject)
      → length objects ≡ checked_count c
      → count_table file_matches_storage upload_blobs prefix_path nb dir c p objects ≡ ok q
      → Conserves nb (checked_count c) p q
  unfolding count_table make_manifest_object Conserves checked_count
  count_table-Conserves nb dir c p q objects l h =
      elim (Result-cases (manifest_objects prefix_path nb.fqdn objects)) [
        | inr (x, e) ↦ ground arith
        | inl (out, e) ↦ ground (
          arith,
          length-manifest_objects prefix_path nb.fqdn objects out e,
          section_counts-append p.manifest
              (record { keyspace = dir.keyspace; columnfamily = dir.columnfamily; objects = out }),
        )
      ]

  length-table_objects :
      (nb : NodeBackup) (c : Checked) (uploaded : List ManifestObject)
      → length uploaded ≡ length c.needs_backup + length c.needs_reupload
      → (nb.is_differential ≡ false → length c.already_backed_up ≡ 0)
      → length (table_objects file_matches_storage upload_blobs prefix_path nb c uploaded)
        ≡ checked_count c
  unfolding table_objects checked_count
  length-table_objects nb c uploaded l full = elim (Bool-cases nb.is_differential) [
    | inl e ↦ ground (arith, length-append uploaded c.already_backed_up)
    | inr e ↦ ground (arith, full e)
  ]

  backup_table-Conserves :
      (nb : NodeBackup) (dir : SnapshotPath) (c : Checked) (p q : Progress) (s s' : S)
      → (nb.is_differential ≡ false → length c.already_backed_up ≡ 0)
      → backup_table file_matches_storage upload_blobs prefix_path nb dir c p s ≡ (ok q, s')
      → Conserves nb (checked_count c) p q
  unfolding backup_table
  backup_table-Conserves nb dir c p q s s' full h =
      let srcs = c.needs_backup ++ c.needs_reupload in
      let up =
        upload_needed file_matches_storage upload_blobs prefix_path srcs
          (datapath nb dir.keyspace dir.columnfamily) s in
      count_table-Conserves nb dir c p q
        (table_objects file_matches_storage upload_blobs prefix_path nb c up.0)
        (length-table_objects nb c up.0
          (length-upload_needed srcs _ s ∙ length-append c.needs_backup c.needs_reupload) full)
        (ap (λ r. r.0) h)

  -- Where the upload gives one object for each file, and `backup_snapshots` ends without an
  -- exception: the files counted as copied or kept are those of the tables, manifest.json and
  -- schema.cql aside; the manifest has as many objects more as files are counted; and no more
  -- files are counted as replaced than as copied.
  pub backup_snapshots_conserves :
      (nb : NodeBackup) (stored : FilesPerTable) (dirs : List SnapshotPath) (p q : Progress)
      (s s' : S)
      → backup_snapshots file_matches_storage upload_blobs prefix_path nb stored dirs p s
        ≡ (ok q, s')
      → (q.num_files + q.kept ≡ p.num_files + p.kept + total_files dirs)
        × (section_counts q.manifest + (p.num_files + p.kept)
            ≡ section_counts p.manifest + (q.num_files + q.kept))
        × (q.replaced + p.num_files ≤ p.replaced + q.num_files)
  unfolding backup_snapshots Conserves
  backup_snapshots_conserves nb stored [] p q s s' h = ground arith
  backup_snapshots_conserves nb stored (dir ∷ dirs) p q s s' h =
      elim (Result-cases (
        check_already_uploaded file_matches_storage nb.is_differential stored dir.keyspace
          dir.files)) [
            | inr (x, e) ↦ ground arith
            | inl (c, e) ↦
                let (count, full) =
                  count-check_already_uploaded file_matches_storage nb.is_differential stored
                    dir.keyspace dir.files c e in
                let (p', s1, t, rest) =
                  and_then-ok
                    (backup_table file_matches_storage upload_blobs prefix_path nb dir c p s) _
                    (rw e at h) in
                let (a1, a2, a3) = backup_table-Conserves nb dir c p p' s s1 full t in
                let (b1, b2, b3) = backup_snapshots_conserves nb stored dirs p' q s1 s' rest in
                omega (arith, a1, a2, a3, b1, b2, b3, count)
          ]
