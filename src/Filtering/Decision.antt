-- ===== src/Filtering/Decision.antt =====
-- What `filter_fqtns` keeps, against a description of the tables that the user asked for.
use cassandra_medusa.Base.{
  Bool, true, false, not, ◌&&◌, ◌||◌, List, [], ◌∷◌, ◌≡◌, ◌↔◌, ◌⊎◌, map, filter, In, arith,
  if◌then◌else◌,
}
use cassandra_medusa.Base.Text.{Text, mem, set_add, In-set_add}
use cassandra_medusa.Manifest.{Section, Manifest}
use cassandra_medusa.Filtering.{
  system_keyspaces, keep_or_system_namespace, fqtn, fqtn_with_id, filter_sections, filter_fqtns,
}

abbrev is_nil : List Text → Bool
is_nil [] = true
is_nil (x ∷ xs) = false

-- The tables asked for: all if nothing is named, those of a named keyspace, of a system keyspace
-- unless these are ignored, and the named tables.
pub wanted : List Text → List Text → Bool → Section → Bool
wanted keyspaces tables ignore_system s =
    (is_nil keyspaces && is_nil tables)
    || mem s.keyspace keyspaces
    || (not ignore_system && mem s.keyspace system_keyspaces)
    || mem (fqtn s) tables

module _ (keyspaces tables : List Text) (ignore_system : Bool) where
  abbrev pub want : Section → Bool
  want = wanted keyspaces tables ignore_system

  abbrev pub unwanted : Section → Bool
  unwanted s = not (want s)

  filter_sections_step :
      (s : Section) (m : Manifest) (r i : List Text)
      → filter_sections keyspaces tables ignore_system (s ∷ m) r i ≡ (
          if want s
          then filter_sections keyspaces tables ignore_system m (set_add (fqtn_with_id s) r) i
          else filter_sections keyspaces tables ignore_system m r (set_add (fqtn s) i))
  unfolding filter_sections wanted keep_or_system_namespace
  filter_sections_step s m r i = ground arith

  -- The sets hold what was there before, and the names of the sections on the way.
  In-retained :
      (z : Text) (m : Manifest) (r i : List Text)
      → In z (filter_sections keyspaces tables ignore_system m r i).0
        ↔ (In z r ⊎ In z (map fqtn_with_id (filter want m)))
  unfolding filter_sections filter
  In-retained z [] r i = ground arith
  In-retained z (s ∷ m) r i = rw filter_sections_step (
      ground (
        arith,
        In-retained z m (set_add (fqtn_with_id s) r) i,
        In-retained z m r (set_add (fqtn s) i),
        In-set_add z (fqtn_with_id s) r,
      ))

  In-ignored :
      (z : Text) (m : Manifest) (r i : List Text)
      → In z (filter_sections keyspaces tables ignore_system m r i).1
        ↔ (In z i ⊎ In z (map fqtn (filter unwanted m)))
  unfolding filter_sections filter
  In-ignored z [] r i = ground arith
  In-ignored z (s ∷ m) r i = rw filter_sections_step (
      ground (
        arith,
        In-ignored z m (set_add (fqtn_with_id s) r) i,
        In-ignored z m r (set_add (fqtn s) i),
        In-set_add z (fqtn s) i,
      ))

-- The retained names are those of the wanted sections, and the ignored names those of the
-- others.
pub filter_fqtns_exact :
    (keyspaces tables : List Text) (manifest : Manifest) (ignore_system : Bool) (z : Text)
    → (In z (filter_fqtns keyspaces tables manifest ignore_system).0
        ↔ In z (map fqtn_with_id (filter (want keyspaces tables ignore_system) manifest)))
      × (In z (filter_fqtns keyspaces tables manifest ignore_system).1
          ↔ In z (map fqtn (filter (unwanted keyspaces tables ignore_system) manifest)))
unfolding filter_fqtns
filter_fqtns_exact keyspaces tables manifest ignore_system z = (
  ground (arith, In-retained keyspaces tables ignore_system z manifest [] []),
  ground (arith, In-ignored keyspaces tables ignore_system z manifest [] []),
)
