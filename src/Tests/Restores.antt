-- ===== src/Tests/Restores.antt =====
-- The restore of a node and of a cluster.
use cassandra_medusa.Base.{
  ℕ, ◌+◌, Bool, true, false, not, ◌&&◌, Option, none, some, List, [], ◌∷◌, ◌++◌, ◌≡◌, ◌↔◌, refl,
  inl, inr, any, map, length, In, Distinct, concat, arith, if◌then◌else◌, ltb,
}
use cassandra_medusa.Base.{Result, ok, err, runtime_error}
use cassandra_medusa.Base.Int.{pos}
use cassandra_medusa.Base.Text.{Text, codes, text_eq}
use cassandra_medusa.Base.Dict.{Dict, lookup, keys}
use cassandra_medusa.Manifest.{Section}
use cassandra_medusa.TokenMap.{RingItem, TokenMap}
use cassandra_medusa.RestoreCluster.Rings.{validate_ringmap}
use cassandra_medusa.RestoreCluster.{
  Entry, HostMap, Job, is_restore_in_place, map_different_topologies, map_with_racks,
  populate_ringmap, tokens_suit,
}
use cassandra_medusa.RestoreCluster.Groups.{different_topologies_cover}
use cassandra_medusa.RestoreCluster.Racks.{validated-map_with_racks}
use cassandra_medusa.RestoreCluster.Decision.{accepted, populate_ringmap_decides}
use cassandra_medusa.Tests.Fixture.{kept_file}

-- A table of a user, named peers_of_mine.
abbrev peers_table : Section
peers_table = record {
  keyspace = codes "app";
  columnfamily = codes "peers_of_mine";
  objects = kept_file ∷ [];
}

-- A seed that is up at the third look.
abbrev late_seed : Text → ℕ → Bool
late_seed seed i = ltb 1 i

abbrev item : ℕ → Text → RingItem
item token rack = record { tokens = pos token ∷ []; is_up = true; rack = some rack; dc = none }

abbrev old_ring : TokenMap
old_ring =
    (codes "a", item 1 (codes "r1"))
    ∷ (codes "b", item 2 (codes "r1"))
    ∷ (codes "c", item 3 (codes "r2"))
    ∷ []

abbrev small_ring : TokenMap
small_ring = (codes "x", item 1 (codes "r1")) ∷ (codes "y", item 5 (codes "r1")) ∷ []

abbrev new_ring : TokenMap
new_ring =
    (codes "x", item 3 (codes "r2"))
    ∷ (codes "y", item 1 (codes "r1"))
    ∷ (codes "c", item 2 (codes "r1"))
    ∷ []

abbrev fresh_job : Job
fresh_job = record { host_map = []; in_place = false; keep_auth = true; use_sstableloader = false }

small_ring-Distinct : Distinct (keys small_ring)
unfolding keys
small_ring-Distinct = ((λ m. ground (arith, m)), ((λ m. m), tt))

new_ring_valid : validate_ringmap false old_ring new_ring ≡ ok true
unfolding validate_ringmap any cassandra_medusa.Base.Sort.sorted lookup
    cassandra_medusa.Base.Dict.insert text_eq cassandra_medusa.Base.Text.leb_text
new_ring_valid = refl

different_topologies_cover_example :
    (job' : Job) × (map_different_topologies (λ h. h) [] (λ hs. hs) old_ring small_ring fresh_job
      ≡ ok job')
    × (job'.use_sstableloader ≡ true)
    × ((b : Text)
        → In b (keys old_ring)
        → (t : Text) × (e : Entry) × In t (keys small_ring)
          × (lookup t job'.host_map ≡ some e)
          × In b e.source)
    × ((t b : Text) (e : Entry)
        → lookup t job'.host_map ≡ some e
        → In b e.source
        → In b (keys old_ring))
unfolding keys
different_topologies_cover_example =
    different_topologies_cover (λ h. h) [] (λ hs. hs) old_ring small_ring fresh_job
      (λ z xs. ((λ m. m), λ m. m)) small_ring-Distinct (omega arith) refl

validated-map_with_racks_example :
    (hm' : HostMap) × (map_with_racks (λ h. h) [] old_ring new_ring [] ≡ ok hm')
validated-map_with_racks_example =
    validated-map_with_racks (λ h. h) [] old_ring new_ring [] new_ring_valid

populate_ringmap_decides_example :
    (any (λ e. not e.1.is_up) new_ring ≡ true
      → populate_ringmap (λ h. h) [] (λ hs. hs) false true [] old_ring new_ring fresh_job
        ≡ err runtime_error)
    × ((job' : Job)
        → populate_ringmap (λ h. h) [] (λ hs. hs) false true [] old_ring new_ring fresh_job
          ≡ ok job'
        → (job'.in_place ≡ is_restore_in_place old_ring new_ring)
          × (is_restore_in_place old_ring new_ring ≡ true → job'.keep_auth ≡ false)
          × (job'.use_sstableloader ≡ (
              if accepted (validate_ringmap false old_ring new_ring)
                && tokens_suit (λ h. h) [] (λ hs. hs) old_ring new_ring
              then false
              else true)))
populate_ringmap_decides_example =
    populate_ringmap_decides (λ h. h) [] (λ hs. hs) false true [] old_ring new_ring fresh_job
