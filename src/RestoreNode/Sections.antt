-- ===== src/RestoreNode/Sections.antt =====
-- Which sections are restored, kept or emptied.
use cassandra_medusa.Base.{
  ℕ, ◌==◌, Bool, true, false, not, ◌&&◌, ◌||◌, List, [], ◌∷◌, ◌++◌, ◌≡◌, refl, arith, map,
}
use cassandra_medusa.Base.Text.{Text, codes, text_eq, text_eq_iff, mem, before_char}
use cassandra_medusa.RestoreNode.{
  Command, move, keyspace_is_allowed_to_restore, table_is_allowed_to_restore,
}

-- The text has the character.
abbrev pub mem_char : ℕ → Text → Bool
mem_char c [] = false
mem_char c (a ∷ s) = (a == c) || mem_char c s

-- A table is moved into place.
abbrev pub moves : List Command → Bool
moves [] = false
moves (move src dst ∷ cs) = true
moves (c ∷ cs) = moves cs

before_char-dotted :
    (ks t : Text) → mem_char b'.' ks ≡ false → before_char b'.' (ks ++ codes "." ++ t) ≡ ks
unfolding before_char
before_char-dotted [] t h = refl
before_char-dotted (c ∷ ks) t h = ground (arith, before_char-dotted ks t)

mem-map : (f : Text → Text) (x : Text) (l : List Text) → mem x l ≡ true → mem (f x) (map f l) ≡ true
unfolding mem
mem-map f x [] h = ground arith
mem-map f x (y ∷ l) h = ground (arith, mem-map f x l, text_eq_iff y x, text_eq_iff (f y) (f x))

-- Where a table of a keyspace without a dot may be restored, so may its keyspace, but for the
-- system keyspaces and a system_auth to keep.
pub table_allowed-keyspace_allowed :
    (keyspace table : Text) (keep_auth : Bool) (fqtns : List Text)
    → mem_char b'.' keyspace ≡ false
    → table_is_allowed_to_restore keyspace table fqtns ≡ true
    → keyspace_is_allowed_to_restore keyspace keep_auth fqtns ≡ (
        not (text_eq keyspace (codes "system") || text_eq keyspace (codes "system_schema"))
        && not (text_eq keyspace (codes "system_auth") && keep_auth))
unfolding table_is_allowed_to_restore keyspace_is_allowed_to_restore
table_allowed-keyspace_allowed keyspace table keep_auth fqtns h t = ground (
  arith,
  mem-map (before_char b'.') (keyspace ++ codes "." ++ table) fqtns t,
  before_char-dotted keyspace table h,
)
