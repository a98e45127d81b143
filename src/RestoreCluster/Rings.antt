-- ===== src/RestoreCluster/Rings.antt =====
-- The rings of a restore: racks, tokens, and the validation of `_validate_ringmap`
-- (medusa/restore_cluster.py).
use cassandra_medusa.Base.{
  ℕ, Bool, true, false, not, ◌&&◌, Option, none, some, List, [], ◌∷◌, ◌++◌, ◌==◌, length, map, any,
  all, if◌then◌else◌,
}
use cassandra_medusa.Base.{Result, ok, err, runtime_error, index_error, ◌>>=◌}
use cassandra_medusa.Base.Int.{ℤ, leb_ℤ}
use cassandra_medusa.Base.Text.{Text, codes, mem, leb_text, join}
use cassandra_medusa.Base.Dict.{Dict, lookup, insert}
use cassandra_medusa.Base.Sort.{sorted}
use cassandra_medusa.TokenMap.{RingItem, TokenMap}
use cassandra_medusa.RestoreNode.{token_text}

-- A node and its first token.
abbrev pub Node : Type 0
Node = Text × ℤ

unfoldable pub first_token : RingItem → Result ℤ
first_token item = elim item.tokens [ [] ↦ err index_error | t ∷ ts ↦ ok t ]

unfoldable pub first_tokens : TokenMap → Result (List (Node))
unfolding first_token
first_tokens [] = ok []
first_tokens ((node, item) ∷ ring) =
    first_token item >>= λ t. first_tokens ring >>= λ rest. ok ((node, t) ∷ rest)

unfoldable pub tokenmap_to_sorted_nodes : TokenMap → Result (List Node)
unfolding first_tokens
tokenmap_to_sorted_nodes ring =
    first_tokens ring >>= λ nodes. ok (sorted (λ m n. leb_ℤ m.1 n.1) nodes)

-- `tokenmap[node].get('rack', "")`
abbrev pub rack_of : RingItem → Text
rack_of item = elim item.rack [ none ↦ [] | some r ↦ r ]

-- `nodes_per_rack.setdefault(rack, []).append(node)`
unfoldable pub append_to : Text → Node → Dict (List Node) → Dict (List Node)
append_to rack node racks = elim (lookup rack racks) [
  | none ↦ insert rack (node ∷ []) racks
  | some nodes ↦ insert rack (nodes ++ (node ∷ [])) racks
]

unfoldable pub nodes_per_rack : TokenMap → Dict (List Node) → Result (Dict (List Node))
unfolding append_to first_token
nodes_per_rack [] racks = ok racks
nodes_per_rack ((node, item) ∷ ring) racks =
    first_token item >>= λ t. nodes_per_rack ring (append_to (rack_of item) (node, t) racks)

unfoldable pub tokenmap_to_nodes_per_rack : TokenMap → Result (Dict (List Node))
unfolding nodes_per_rack
tokenmap_to_nodes_per_rack ring =
    nodes_per_rack ring [] >>= λ racks. ok (sorted (λ a b. leb_text a.0 b.0) racks)

unfoldable pub ringmap_to_rack_topology : TokenMap → Result (List ℕ)
unfolding tokenmap_to_nodes_per_rack
ringmap_to_rack_topology ring =
    tokenmap_to_nodes_per_rack ring >>= λ racks. ok (map (λ rack. length rack.1) racks)

-- `a == b` and `a != b` of lists of numbers
unfoldable pub numbers_eq : List ℕ → List ℕ → Bool
numbers_eq [] [] = true
numbers_eq (a ∷ xs) (b ∷ ys) = (a == b) && numbers_eq xs ys
numbers_eq _ _ = false

unfoldable pub validate_ringmap : Bool → TokenMap → TokenMap → Result Bool
unfolding ringmap_to_rack_topology numbers_eq
validate_ringmap ignore_racks tokenmap target_tokenmap =
    if any (λ e. not e.1.is_up) target_tokenmap
    then err runtime_error
    else if not (length target_tokenmap == length tokenmap)
    then ok false
    else if ignore_racks
    then ok true
    else (ringmap_to_rack_topology tokenmap >>= λ backup_topology.
        ringmap_to_rack_topology target_tokenmap >>= λ target_topology.
        ok (numbers_eq backup_topology target_topology))

unfoldable pub tokens_from_ringitem : RingItem → Text
tokens_from_ringitem item = join (codes ",") (map token_text item.tokens)

-- The keys of the dictionary of `_get_token_maps`; its values are never read.
unfoldable pub token_keys : TokenMap → List Text
unfolding tokens_from_ringitem
token_keys = map (λ e. tokens_from_ringitem e.1)

unfoldable pub same_keys : List Text → List Text → Bool
same_keys xs ys = all (λ x. mem x ys) xs && all (λ y. mem y xs) ys

-- The first item's count; None of an empty map.
unfoldable pub token_counts_per_host : TokenMap → Option ℕ
token_counts_per_host [] = none
token_counts_per_host ((host, item) ∷ ring) = some (length item.tokens)

abbrev pub option_eq : Option ℕ → Option ℕ → Bool
option_eq none none = true
option_eq (some a) (some b) = a == b
option_eq _ _ = false

-- The names of the two counts are exchanged in the source; the second result is the target's.
unfoldable pub check_token_counts : TokenMap → TokenMap → Bool × Option ℕ
unfolding token_counts_per_host
check_token_counts tokenmap target_tokenmap =
    let target_tokens_per_host = token_counts_per_host tokenmap in
    let backup_tokens_per_host = token_counts_per_host target_tokenmap in
    (option_eq target_tokens_per_host backup_tokens_per_host, backup_tokens_per_host)
