-- ===== src/Storage/Names.antt =====
-- The names of the blobs of the backup index: the patterns and the parsing functions of
-- medusa/storage/__init__.py. The regular expressions are greedy: the last place wins.
use cassandra_medusa.Base.{
  ℕ, Bool, ◌&&◌, Option, none, some, List, [], ◌∷◌, ◌==◌, leb, length, drop, ◌≡◌, refl,
  if◌then◌else◌,
}
use cassandra_medusa.Base.{Result, ok, err, assertion_error}
use cassandra_medusa.Base.Text.{Text, codes, starts_with, strip_suffix, remove_all_of, int_of}

-- What follows the last place where one of the words stands: `.*(a|b)(.*)`.
abbrev after_word : List Text → Text → Option Text
after_word [] s = none
after_word (w ∷ ws) s =
    let other = after_word ws s in if starts_with s w then some (drop (length w) s) else other

unfoldable pub after_last : List Text → Text → Option Text
after_last ws [] = after_word ws []
after_last ws (c ∷ s) = elim (after_last ws s) [ some r ↦ some r | none ↦ after_word ws (c ∷ s) ]

abbrev pub index_words : List Text
index_words =
    codes "tokenmap_"
    ∷ codes "schema_"
    ∷ codes "manifest_"
    ∷ codes "differential_"
    ∷ codes "incremental_"
    ∷ []

-- INDEX_BLOB_NAME_PATTERN: its second group.
unfoldable pub match_index_blob : Text → Option Text
unfolding after_last
match_index_blob name = after_last index_words name

is_digit : ℕ → Bool
is_digit c = leb 48 c && leb c 57

-- All characters but the last, if these are digits, and at least one: `([0-9]+).`
digits_but_last : Text → Option Text
unfolding is_digit
digits_but_last [] = none
digits_but_last (c ∷ []) = none
digits_but_last (c ∷ d ∷ []) = if is_digit c then some (c ∷ []) else none
digits_but_last (c ∷ d ∷ e ∷ s) = elim (digits_but_last (d ∷ e ∷ s)) [
  | none ↦ none
  | some r ↦ if is_digit c then some (c ∷ r) else none
]

-- `([0-9]+).timestamp$`: the dot stands for any character.
timestamp_tail : Text → Option Text
unfolding digits_but_last
timestamp_tail s = elim (strip_suffix (codes "timestamp") s) [
  | none ↦ none
  | some t ↦ digits_but_last t
]

-- `(.*)_([0-9]+).timestamp$`
fqdn_and_timestamp : Text → Option (Text × Text)
unfolding timestamp_tail
fqdn_and_timestamp [] = none
fqdn_and_timestamp (c ∷ s) = elim (fqdn_and_timestamp s) [
  | some (g, t) ↦ some (c ∷ g, t)
  | none ↦
      if c == b'_' then (elim (timestamp_tail s) [ none ↦ none | some t ↦ some ([], t) ]) else none
]

abbrev timestamp_words : List Text
timestamp_words = codes "started_" ∷ codes "finished_" ∷ []

-- The first of the words that starts the text, if what follows it matches.
word_then_timestamp : List Text → Text → Option (Text × Text)
unfolding fqdn_and_timestamp
word_then_timestamp [] s = none
word_then_timestamp (w ∷ ws) s =
    let other = word_then_timestamp ws s in
    let here = fqdn_and_timestamp (drop (length w) s) in if starts_with s w then here else other

-- INDEX_BLOB_WITH_TIMESTAMP_PATTERN: its second and third groups.
unfoldable pub match_timestamp_blob : Text → Option (Text × Text)
unfolding word_then_timestamp starts_with strip_suffix
match_timestamp_blob [] = none
match_timestamp_blob (c ∷ s) = elim (match_timestamp_blob s) [
  | some r ↦ some r
  | none ↦ word_then_timestamp timestamp_words (c ∷ s)
]

unfoldable pub remove_extension : Text → Text
unfolding remove_all_of
remove_extension s =
    remove_all_of (codes ".timestamp") (
      remove_all_of (codes ".txt") (remove_all_of (codes ".cql") (remove_all_of (codes ".json") s)))

unfoldable pub get_fqdn_from_any_index_blob : Text → Result Text
unfolding match_timestamp_blob match_index_blob remove_extension
get_fqdn_from_any_index_blob blob_name = elim (match_timestamp_blob blob_name) [
  | some (g, t) ↦ ok (remove_extension g)
  | none ↦ elim (match_index_blob blob_name) [
    | none ↦ err assertion_error
    | some g ↦ ok (remove_extension g)
  ]
]

unfoldable pub get_timestamp_from_blob_name : Text → Result ℕ
unfolding match_timestamp_blob int_of
get_timestamp_from_blob_name blob_name = elim (match_timestamp_blob blob_name) [
  | none ↦ err assertion_error
  | some (g, t) ↦ ok (int_of t 0)
]

tokenmap_name :
    get_fqdn_from_any_index_blob (codes "index/backup_index/b1/tokenmap_node_1.example.com.json")
    ≡ ok (codes "node_1.example.com")
unfolding get_fqdn_from_any_index_blob
tokenmap_name = refl

started_name :
    get_timestamp_from_blob_name (codes "b1/started_node1.example.com_1700000000.timestamp")
    ≡ ok 1700000000
unfolding get_timestamp_from_blob_name
started_name = refl
