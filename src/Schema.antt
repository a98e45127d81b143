-- ===== src/Schema.antt =====
-- medusa/schema.py: the statements of a schema by keyspace. `matched` is `re.match` of the code's
-- expression on a statement: the kind, the first and the second name.
use cassandra_medusa.Base.{Bool, ◌||◌, ◌==◌, Option, none, some, List, [], ◌∷◌, if◌then◌else◌}
use cassandra_medusa.Base.{Result, ok, err, key_error, ◌>>=◌}
use cassandra_medusa.Base.Text.{Text, codes, text_eq, contains, split, remove_all_of}
use cassandra_medusa.Base.Dict.{Dict, lookup, insert}

pub record Keyspace : Type 0 where
  pub create_statement : Text
  pub tables : Dict Text
  pub indices : Dict Text
  pub materialized_views : Dict Text
  pub udt : Dict Text
  pub uda : Dict Text

abbrev pub new_keyspace : Text → Keyspace
new_keyspace statement = record {
  create_statement = statement;
  tables = [];
  indices = [];
  materialized_views = [];
  udt = [];
  uda = [];
}

pub record Match : Type 0 where
  pub kind : Text
  pub first : Text
  pub second : Text

-- `object_kind`: what a statement adds to its keyspace.
unfoldable pub add_object : Text → Text → Match → Keyspace → Keyspace
unfolding text_eq contains insert
add_object kind statement m k =
    if text_eq kind (codes "TABLE")
    then record k { tables = insert m.second statement k.tables }
    else if text_eq kind (codes "AGGREGATE")
    then record k { uda = insert m.second statement k.uda }
    else if text_eq kind (codes "TYPE")
    then record k { udt = insert m.second statement k.udt }
    else if contains (codes "CREATE MATERIALIZED VIEW") statement
    then record k { materialized_views = insert m.second statement k.materialized_views }
    else k

-- A kind that adds nothing does not look for its keyspace.
unfoldable pub has_object_kind : Text → Text → Bool
unfolding text_eq contains
has_object_kind kind statement =
    text_eq kind (codes "TABLE")
    || (text_eq kind (codes "AGGREGATE")
        || (text_eq kind (codes "TYPE") || contains (codes "CREATE MATERIALIZED VIEW") statement))

-- `keyspaces[name]` changed by a function.
abbrev in_keyspace : Text → (Keyspace → Keyspace) → Dict Keyspace → Result (Dict Keyspace)
unfolding lookup insert
in_keyspace name f ks = elim (lookup name ks) [
  | none ↦ err key_error
  | some k ↦ ok (insert name (f k) ks)
]

-- The keyspaces and the current keyspace after a statement.
abbrev pub Parsed : Type 0
Parsed = Dict Keyspace × Text

unfoldable pub add_statement : Text → Match → Parsed → Result Parsed
unfolding in_keyspace add_object has_object_kind text_eq insert
add_statement statement m (ks, current) =
    if text_eq m.kind (codes "KEYSPACE")
    then ok (insert m.first (new_keyspace statement) ks, m.first)
    else if text_eq m.kind (codes "INDEX") || text_eq m.kind (codes "CUSTOM INDEX")
    then (in_keyspace current (λ k. record k { indices = insert m.first statement k.indices }) ks
        >>= λ ks'. ok (ks', current))
    else if has_object_kind m.kind statement
    then (in_keyspace m.first (add_object m.kind statement m) ks >>= λ ks'. ok (ks', current))
    else ok (ks, current)

-- `text.replace('\n', ' ')`
unfoldable pub newlines_to_spaces : Text → Text
newlines_to_spaces [] = []
newlines_to_spaces (c ∷ t) = (if c == 10 then 32 else c) ∷ newlines_to_spaces t

abbrev add_matched : Text → Option Match → Parsed → Result Parsed
unfolding add_statement
add_matched statement none p = ok p
add_matched statement (some m) p = add_statement statement m p

module _ (matched : Text → Option Match) where
  unfoldable pub parse_statements : List Text → Parsed → Result Parsed
  unfolding add_matched
  parse_statements [] p = ok p
  parse_statements (statement ∷ statements) p =
      add_matched statement (matched statement) p >>= parse_statements statements

  -- Empty lines are dropped, and the other line breaks are spaces.
  unfoldable pub parse_schema : Text → Result (Dict Keyspace)
  unfolding parse_statements newlines_to_spaces split remove_all_of
  parse_schema schema =
      parse_statements (split b';' (newlines_to_spaces (remove_all_of (10 ∷ 10 ∷ []) schema)))
        ([], [])
      >>= λ p. ok p.0
