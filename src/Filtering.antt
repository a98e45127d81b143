-- ===== src/Filtering.antt =====
-- medusa/filtering.py: which tables of a manifest a restore or a download takes.
pub mod Decision
use cassandra_medusa.Base.{
  Bool, true, false, not, ◌&&◌, ◌||◌, List, [], ◌∷◌, ◌++◌, ◌==◌, length, if◌then◌else◌,
}
use cassandra_medusa.Base.Text.{Text, codes, mem, set_add, before_char}
use cassandra_medusa.Manifest.{Section, Manifest}

abbrev pub system_keyspaces : List Text
system_keyspaces =
    codes "system" ∷ codes "system_schema" ∷ codes "system_auth" ∷ codes "system_distributed" ∷ []

unfoldable pub keep_or_system_namespace : Text → List Text → Bool → Bool
keep_or_system_namespace ks keep_keyspaces ignore_system_keyspaces =
    mem ks keep_keyspaces || (not ignore_system_keyspaces && mem ks system_keyspaces)

-- '{}.{}'.format(ks, t)
unfoldable pub dotted : Text → Text → Text
dotted ks t = ks ++ codes "." ++ t

-- The name of the table without its id, as the command line gives it.
unfoldable pub fqtn : Section → Text
unfolding dotted before_char
fqtn s = dotted s.keyspace (before_char b'-' s.columnfamily)

unfoldable pub fqtn_with_id : Section → Text
unfolding dotted
fqtn_with_id s = dotted s.keyspace s.columnfamily

-- The loop over the manifest, with the sets `retained` and `ignored`.
filter_sections :
    List Text → List Text → Bool → Manifest → List Text → List Text → List Text × List Text
filter_sections keep_keyspaces keep_tables ignore_system [] retained ignored = (retained, ignored)
filter_sections keep_keyspaces keep_tables ignore_system (s ∷ manifest) retained ignored =
    let kept =
      filter_sections keep_keyspaces keep_tables ignore_system manifest
        (set_add (fqtn_with_id s) retained) ignored in
    let dropped =
      filter_sections keep_keyspaces keep_tables ignore_system manifest retained
        (set_add (fqtn s) ignored) in
    if (length keep_keyspaces == 0) && (length keep_tables == 0)
    then kept
    else if keep_or_system_namespace s.keyspace keep_keyspaces ignore_system
    then kept
    else if mem (fqtn s) keep_tables
    then kept
    else dropped

-- The names of the tables to keep, with ids, and of those to skip, without.
unfoldable pub filter_fqtns : List Text → List Text → Manifest → Bool → List Text × List Text
unfolding filter_sections keep_or_system_namespace fqtn fqtn_with_id
filter_fqtns keep_keyspaces keep_tables manifest ignore_system_keyspaces =
    filter_sections keep_keyspaces keep_tables ignore_system_keyspaces manifest [] []
