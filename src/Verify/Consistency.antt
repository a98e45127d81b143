-- ===== src/Verify/Consistency.antt =====
-- What `validate_manifest` reports, against the store and the manifest.
use cassandra_medusa.Base.{
  Bool, true, false, not, ◌||◌, some, List, [], ◌∷◌, ◌++◌, ◌≡◌, ◌↔◌, inl, inr, refl, sym,
  false≢true, filter, map, arith, All, if◌then◌else◌, Option-cases, Bool-cases,
}
use cassandra_medusa.Base.Text.{Text, codes, contains, mem}
use cassandra_medusa.Base.Dict.{Dict, lookup, keys}
use cassandra_medusa.Manifest.{ManifestObject, Manifest}
use cassandra_medusa.Storage.Driver.{Blob, Driver}
use cassandra_medusa.Storage.NodeBackup.{Json, NodeBackup, manifest}
use cassandra_medusa.Verify.{
  objects_in_manifest, objects_in_storage, check_object, not_in_manifest, compare_object,
  load_manifest, check_objects, check_extras, validate_manifest,
}

append-nil_iff : {A : Type 0} (xs ys : List A) → (xs ++ ys ≡ []) ↔ ((xs ≡ []) × (ys ≡ []))
append-nil_iff [] ys = ground arith
append-nil_iff (x ∷ xs) ys = ground arith

no_problem_iff :
    {A P Q : Type 0} (differential : Bool) (xs ys : List A)
    → (xs ≡ []) ↔ P
    → (ys ≡ []) ↔ Q
    → (xs ++ (if differential then [] else ys) ≡ []) ↔ (P × (differential ≡ false → Q))
no_problem_iff true xs ys (f, g) (f', g') =
    let (split, unite) = append-nil_iff xs [] in
    ((λ h. (f (split h).0, λ e. absurd (false≢true (sym e)))), λ h. unite (g h.0, refl))
no_problem_iff false xs ys (f, g) (f', g') =
    let (split, unite) = append-nil_iff xs ys in
    ((λ h. (f (split h).0, λ _. f' (split h).1)), λ h. unite (g h.0, g' (h.1 refl)))

module _ (D : Driver) (J : Json) (get_path_prefix : Text → Text)
    (blob_matches_manifest : Blob → ManifestObject → Bool → Bool) where
  -- The object is in the store as the manifest has it, up to a rewritten Summary.db.
  abbrev pub Stored : Text → Dict Blob → Bool → ManifestObject → Type 0
  Stored prefix stored md5 o =
      (b : Blob) × (lookup (prefix ++ o.path) stored ≡ some b)
      × ((blob_matches_manifest b o md5 || contains (codes "-Summary.db") b.name) ≡ true)

  compare_object_iff :
      (prefix : Text) (stored : Dict Blob) (md5 : Bool) (o : ManifestObject)
      → (check_object D J get_path_prefix blob_matches_manifest prefix stored md5 o ≡ [])
        ↔ Stored prefix stored md5 o
  unfolding check_object compare_object
  compare_object_iff prefix stored md5 o = elim (Option-cases (lookup (prefix ++ o.path) stored)) [
    | inl e ↦ ground arith
    | inr (b, e) ↦ (
      (λ h. (
        b,
        e,
        ground (
          arith,
          Bool-cases (blob_matches_manifest b o md5),
          Bool-cases (contains (codes "-Summary.db") b.name),
        ),
      )),
      λ (c, e', h). ground arith,
    )
  ]

  check_objects_iff :
      (prefix : Text) (stored : Dict Blob) (md5 : Bool) (os : List ManifestObject)
      → (check_objects D J get_path_prefix blob_matches_manifest prefix stored md5 os ≡ [])
        ↔ All (Stored prefix stored md5) os
  unfolding check_objects
  check_objects_iff prefix stored md5 [] = ground arith
  check_objects_iff prefix stored md5 (o ∷ os) =
      let (f, g) =
        append-nil_iff (check_object D J get_path_prefix blob_matches_manifest prefix stored md5 o)
          (check_objects D J get_path_prefix blob_matches_manifest prefix stored md5 os) in
      let (f1, g1) = compare_object_iff prefix stored md5 o in
      let (f2, g2) = check_objects_iff prefix stored md5 os in
      ((λ h. (f1 (f h).0, f2 (f h).1)), λ h. g (g1 h.0, g2 h.1))

  extras_iff :
      (paths : List Text) (names : List Text)
      → (map not_in_manifest (filter (λ p. not (mem p paths)) names) ≡ [])
        ↔ All (λ p. mem p paths ≡ true) names
  unfolding filter
  extras_iff paths [] = ground arith
  extras_iff paths (n ∷ names) =
      let (f, g) = extras_iff paths names in
      elim (Bool-cases (mem n paths)) [
        | inl e ↦ rw e ((λ h. (refl, f h)), λ h. g h.1)
        | inr e ↦ ground arith
      ]

  -- Where the manifest of a node backup can be read, `validate_manifest` reports nothing exactly
  -- if each object of the manifest, statistics aside, is in the store and matches it or is a
  -- Summary.db, and, for a full backup, the store has no object under the data path that the
  -- manifest lacks.
  pub validate_manifest_exact :
      (nb : NodeBackup) (md5 : Bool) (s : D.State) (m : Manifest)
      → load_manifest D J get_path_prefix blob_matches_manifest (manifest D nb s) ≡ some m
      → (validate_manifest D J get_path_prefix blob_matches_manifest nb md5 s ≡ []) ↔ (
          All
            (Stored
              (get_path_prefix nb.data_path)
              (objects_in_storage D J get_path_prefix blob_matches_manifest nb s)
              md5)
            (objects_in_manifest m)
          × (nb.is_differential ≡ false
              → All
                  (λ p.
                    mem p (
                      map
                        (λ (o : ManifestObject). get_path_prefix nb.data_path ++ o.path)
                        (objects_in_manifest m))
                    ≡ true)
                  (keys (objects_in_storage D J get_path_prefix blob_matches_manifest nb s))))
  unfolding validate_manifest check_extras
  validate_manifest_exact nb md5 s m h =
      let prefix = get_path_prefix nb.data_path in
      let stored = objects_in_storage D J get_path_prefix blob_matches_manifest nb s in
      let os = objects_in_manifest m in
      let (f, g) = check_objects_iff prefix stored md5 os in
      let (f', g') = extras_iff (map (λ (o : ManifestObject). prefix ++ o.path) os) (keys stored) in
      rw h (
        no_problem_iff nb.is_differential
          (check_objects D J get_path_prefix blob_matches_manifest prefix stored md5 os)
          (check_extras D J get_path_prefix blob_matches_manifest prefix stored os) (f, g) (f', g'))
