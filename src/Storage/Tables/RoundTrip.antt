-- ===== src/Storage/Tables/RoundTrip.antt =====
-- The place of a file in the storage, written by `datapath` and read back by
-- `sanitize_keyspace_and_table_name`.
use cassandra_medusa.Base.{
  ℕ, zero, suc, ◌+◌, ◌-◌, ◌≤◌, false, List, [], ◌∷◌, ◌++◌, ◌≡◌, inl, inr, refl, ap, arith, All,
  length, length-append, get_elem?, ◌==◌, ltb, Bool-cases,
}
use cassandra_medusa.Base.{ok}
use cassandra_medusa.Base.Text.{Text, codes, split, starts_with}
use cassandra_medusa.Storage.Tables.{
  chunk_or_empty, from_end, is_2i_or_dse, sanitize_keyspace_and_table_name,
}

-- The character does not stand in the text.
abbrev pub Lacks : ℕ → Text → Type 0
Lacks c s = All (λ a. (a == c) ≡ false) s

split-Lacks : (c : ℕ) (s : Text) → Lacks c s → split c s ≡ s ∷ []
unfolding split
split-Lacks c [] h = refl
split-Lacks c (a ∷ s) h = rw (h.0, split-Lacks c s h.1) refl

split-cons : (c : ℕ) (s : Text) → (x : Text) × (xs : List Text) × (split c s ≡ x ∷ xs)
unfolding split
split-cons c [] = ([], [], refl)
split-cons c (a ∷ s) =
    let (x, xs, e) = split-cons c s in
    elim (Bool-cases (a == c)) [
      | inl h ↦ ([], split c s, rw h refl)
      | inr h ↦ (a ∷ x, xs, rw (h, e) refl)
    ]

-- Splitting at a character that joins two texts splits both.
pub split-append : (c : ℕ) (p s : Text) → split c (p ++ (c ∷ s)) ≡ split c p ++ split c s
unfolding split
split-append c [] s = ground arith
split-append c (a ∷ p) s =
    let (x, xs, e) = split-cons c p in
    elim (Bool-cases (a == c)) [
      | inl h ↦ rw (h, split-append c p s) refl
      | inr h ↦ rw (h, split-append c p s, e) refl
    ]

get_elem?-append :
    {A : Type 0} (xs ys : List A) (k j : ℕ)
    → k ≡ length xs + j
    → get_elem? (xs ++ ys) k ≡ get_elem? ys j
get_elem?-append [] ys k j h = ap (get_elem? ys) (omega (arith, h))
get_elem?-append (x ∷ xs) ys zero j h = absurd (omega (arith, h))
get_elem?-append (x ∷ xs) ys (suc k) j h = get_elem?-append xs ys k j (omega (arith, h))

from_end-append :
    (i : ℕ) (xs ys : List Text) → i ≤ length ys → from_end i (xs ++ ys) ≡ from_end i ys
unfolding from_end
from_end-append i xs ys h =
    let long : ltb (length (xs ++ ys)) i ≡ false = ground (arith, length-append xs ys) in
    let short : ltb (length ys) i ≡ false = ground arith in
    rw (long, short)
      (ap chunk_or_empty (
        get_elem?-append xs ys (length (xs ++ ys) - i) (length ys - i)
          (omega (arith, length-append xs ys))))

-- The chunks of `base/keyspace/table/file`, where no part has a slash.
abbrev pub stored_path : Text → Text → Text → Text → Text
stored_path base keyspace table file =
    base ++ (b'/' ∷ (keyspace ++ (b'/' ∷ (table ++ (b'/' ∷ file)))))

split-stored_path :
    (base keyspace table file : Text)
    → Lacks b'/' keyspace
    → Lacks b'/' table
    → Lacks b'/' file
    → split b'/' (stored_path base keyspace table file)
      ≡ split b'/' base ++ (keyspace ∷ table ∷ file ∷ [])
split-stored_path base k t f hk ht hf =
    rw
      (
        split-append b'/' base (k ++ (b'/' ∷ (t ++ (b'/' ∷ f)))),
        split-append b'/' k (t ++ (b'/' ∷ f)),
        split-append b'/' t f,
        split-Lacks b'/' k hk,
        split-Lacks b'/' t ht,
        split-Lacks b'/' f hf,
      )
      refl

-- A file of a table is found again: from its path in the storage, relative and with any base,
-- the code reads the keyspace and the table that it was stored under, where these and the name of the file
-- have no slash and the table is no index and no internal folder of DSE.
pub sanitize-stored_path :
    (base keyspace table file : Text)
    → starts_with (stored_path base keyspace table file) (codes "/") ≡ false
    → Lacks b'/' keyspace
    → Lacks b'/' table
    → Lacks b'/' file
    → is_2i_or_dse table ≡ false
    → sanitize_keyspace_and_table_name (stored_path base keyspace table file) ≡ ok (keyspace, table)
unfolding sanitize_keyspace_and_table_name
sanitize-stored_path base k t f rel hk ht hf plain =
    let tail = k ∷ t ∷ f ∷ [] in
    let chunks = split-stored_path base k t f hk ht hf in
    let at2 : from_end 2 (split b'/' base ++ tail) ≡ t =
      from_end-append 2 (split b'/' base) tail (omega arith) in
    let at3 : from_end 3 (split b'/' base ++ tail) ≡ k =
      from_end-append 3 (split b'/' base) tail (omega arith) in
    rw (rel, chunks, at2, at3, plain) refl
