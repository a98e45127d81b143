-- ===== src/RestoreCluster/Racks.antt =====
-- `_validate_ringmap` and `_map_with_racks`: what the validation promises to the mapping.
use cassandra_medusa.Base.{
  true, false, not, List, [], ◌∷◌, ◌≡◌, inl, inr, refl, ◌==◌, length, map, any, arith, Bool-cases,
  Result-cases,
}
use cassandra_medusa.Base.{ok}
use cassandra_medusa.Base.Text.{Text}
use cassandra_medusa.Base.Dict.{Dict}
use cassandra_medusa.TokenMap.{TokenMap}
use cassandra_medusa.RestoreCluster.Rings.{
  Node, numbers_eq, validate_ringmap, ringmap_to_rack_topology, tokenmap_to_nodes_per_rack,
}
use cassandra_medusa.RestoreCluster.{HostMap, map_nodes, map_racks, map_with_racks}

module _ (resolve : Text → Text) (seeds : List Text) where
  map_nodes-ok :
      (bs ts : List Node) (hm : HostMap)
      → length bs ≡ length ts
      → (hm' : HostMap) × (map_nodes resolve seeds bs ts hm ≡ ok hm')
  unfolding map_nodes
  map_nodes-ok [] ts hm h = (hm, refl)
  map_nodes-ok (b ∷ bs) [] hm h = absurd (omega arith)
  map_nodes-ok (b ∷ bs) (t ∷ ts) hm h = map_nodes-ok bs ts _ (omega arith)

  map_racks-ok :
      (bs ts : Dict (List Node)) (hm : HostMap)
      → numbers_eq (map (λ r. length r.1) bs) (map (λ r. length r.1) ts) ≡ true
      → (hm' : HostMap) × (map_racks resolve seeds bs ts hm ≡ ok hm')
  unfolding map_racks numbers_eq
  map_racks-ok [] ts hm h = (hm, refl)
  map_racks-ok (b ∷ bs) [] hm h = ground arith
  map_racks-ok (b ∷ bs) (t ∷ ts) hm h =
      let (hm', e) = map_nodes-ok b.1 t.1 hm (ground arith) in
      rw e (map_racks-ok bs ts hm' (ground arith))

  -- On token maps that `_validate_ringmap` accepts with the racks in regard, `_map_with_racks`
  -- ends without an exception: no index is out of range.
  pub validated-map_with_racks :
      (tokenmap target_tokenmap : TokenMap) (hm : HostMap)
      → validate_ringmap false tokenmap target_tokenmap ≡ ok true
      → (hm' : HostMap) × (map_with_racks resolve seeds tokenmap target_tokenmap hm ≡ ok hm')
  unfolding map_with_racks validate_ringmap ringmap_to_rack_topology
  validated-map_with_racks tm ttm hm h = elim (Bool-cases (any (λ e. not e.1.is_up) ttm)) [
    | inl y ↦ ground arith
    | inr n ↦ elim (Bool-cases (length ttm == length tm)) [
      | inr x ↦ ground arith
      | inl x ↦ elim (Result-cases (tokenmap_to_nodes_per_rack tm)) [
        | inr (x, e) ↦ ground arith
        | inl (bs, e) ↦ elim (Result-cases (tokenmap_to_nodes_per_rack ttm)) [
          | inr (x, e') ↦ ground arith
          | inl (ts, e') ↦
              let (hm', r) = map_racks-ok bs ts hm (ground arith) in (hm', ground arith)
        ]
      ]
    ]
  ]
