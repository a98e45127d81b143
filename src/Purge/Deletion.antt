-- ===== src/Purge/Deletion.antt =====
-- What the deletion loops leave in the store.
use cassandra_medusa.Base.{
  none, List, [], ◌∷◌, ◌≡◌, inl, inr, refl, Option-cases, arith, length, ◌≤◌, if◌then◌else◌,
}
use cassandra_medusa.Base.Text.{Text, mem, text_eq_iff}
use cassandra_medusa.Storage.Driver.{Blob, Driver, delete_each}
use cassandra_medusa.Purge.{names, delete_paths}

module _ (D : Driver) where
  -- Deleting a list of blobs removes their names, and nothing else.
  pub get-delete_each :
      (bs : List Blob) (s : D.State) (n : Text)
      → D.get_blob (delete_each D bs s) n ≡ (if mem n (names bs) then none else D.get_blob s n)
  unfolding delete_each mem
  get-delete_each [] s n = refl
  get-delete_each (b ∷ bs) s n =
      ground (arith, get-delete_each bs (D.delete b.name s) n, D.get-delete b.name n s)

  pub get-delete_paths :
      (ps : List Text) (s : D.State) (n : Text)
      → D.get_blob (delete_paths D ps s).1 n ≡ (if mem n ps then none else D.get_blob s n)
  unfolding delete_paths mem
  get-delete_paths [] s n = refl
  get-delete_paths (p ∷ ps) s n = elim (Option-cases (D.get_blob s p)) [
    | inl e ↦ ground (arith, get-delete_paths ps s n, text_eq_iff p n)
    | inr (b, e) ↦ ground (
      arith,
      get-delete_paths ps (D.delete b.name s) n,
      D.get-delete b.name n s,
      D.get_named s p b e,
    )
  ]

  -- The loop counts what it deletes: each path that is in the store, once.
  pub count-delete_paths-le : (ps : List Text) (s : D.State) → (delete_paths D ps s).0.0 ≤ length ps
  unfolding delete_paths
  count-delete_paths-le [] s = omega arith
  count-delete_paths-le (p ∷ ps) s = elim (Option-cases (D.get_blob s p)) [
    | inl e ↦ ground (arith, count-delete_paths-le ps s)
    | inr (b, e) ↦ ground (arith, count-delete_paths-le ps (D.delete b.name s))
  ]
