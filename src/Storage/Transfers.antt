-- ===== src/Storage/Transfers.antt =====
-- The transfers of medusa/storage/abstract_storage.py in chunks of `concurrent_transfers`. The
-- transfers of a chunk, which run at the same time, are taken one after the other, and none is
-- begun after one that raises.
use cassandra_medusa.Base.{ℕ, suc, List, [], ◌∷◌, ◌++◌, ◌≡◌, ◌∙◌, refl, concat, sym, ap}
use cassandra_medusa.Base.{Result, ok, err, type_error, ◌>>=◌}
use cassandra_medusa.Orchestration.{divide_chunks, chunks}
use cassandra_medusa.Orchestration.Outcome.{divide_chunks_exact}

module _ {S X Y : Type 0} (transfer : X → S → Result Y × S) where
  abbrev add_first : Y → Result (List Y) × S → Result (List Y) × S
  add_first y (ok ys, s) = (ok (y ∷ ys), s)
  add_first y (err e, s) = (err e, s)

  abbrev then_rest : Result Y × S → (S → Result (List Y) × S) → Result (List Y) × S
  then_rest (err e, s) rest = (err e, s)
  then_rest (ok y, s) rest = add_first y (rest s)

  -- `asyncio.gather` of a chunk
  unfoldable pub gather : List X → S → Result (List Y) × S
  gather [] s = (ok [], s)
  gather (x ∷ xs) s = then_rest (transfer x s) (gather xs)

  abbrev add_all : List Y → Result (List Y) × S → Result (List Y) × S
  add_all ys (ok zs, s) = (ok (ys ++ zs), s)
  add_all ys (err e, s) = (err e, s)

  abbrev then_chunks : Result (List Y) × S → (S → Result (List Y) × S) → Result (List Y) × S
  then_chunks (err e, s) rest = (err e, s)
  then_chunks (ok ys, s) rest = add_all ys (rest s)

  -- `manifest_objects += await asyncio.gather(*chunk)`
  unfoldable pub transfer_chunks : List (List X) → S → Result (List Y) × S
  unfolding gather
  transfer_chunks [] s = (ok [], s)
  transfer_chunks (chunk ∷ rest) s = then_chunks (gather chunk s) (transfer_chunks rest)

  abbrev of_chunks : S → Result (List (List X)) → Result (List Y) × S
  unfolding transfer_chunks
  of_chunks s (err e) = (err e, s)
  of_chunks s (ok cs) = transfer_chunks cs s

  -- The loop of `_upload_blobs`, `_download_blobs`, `_delete_objects` and
  -- `_upload_blobs_from_strings`; a step of 0 raises.
  unfoldable pub transfer_all : List X → ℕ → S → Result (List Y) × S
  unfolding of_chunks divide_chunks
  transfer_all xs concurrent_transfers s = of_chunks s (divide_chunks xs concurrent_transfers)

  then_rest-ap :
      (r : Result Y × S) (f g : S → Result (List Y) × S)
      → ((s : S) → f s ≡ g s)
      → then_rest r f ≡ then_rest r g
  then_rest-ap (err e, s) f g h = refl
  then_rest-ap (ok y, s) f g h = ap (add_first y) (h s)

  then_chunks-ap :
      (r : Result (List Y) × S) (f g : S → Result (List Y) × S)
      → ((s : S) → f s ≡ g s)
      → then_chunks r f ≡ then_chunks r g
  then_chunks-ap (err e, s) f g h = refl
  then_chunks-ap (ok ys, s) f g h = ap (add_all ys) (h s)

  add_all_nil : (r : Result (List Y) × S) → add_all [] r ≡ r
  add_all_nil (ok ys, s) = refl
  add_all_nil (err e, s) = refl

  add_first_all :
      (y : Y) (ys : List Y) (r : Result (List Y) × S)
      → add_first y (add_all ys r) ≡ add_all (y ∷ ys) r
  add_first_all y ys (ok zs, s) = refl
  add_first_all y ys (err e, s) = refl

  add_first_chunks :
      (y : Y) (r : Result (List Y) × S) (g : S → Result (List Y) × S)
      → add_first y (then_chunks r g) ≡ then_chunks (add_first y r) g
  add_first_chunks y (err e, s) g = refl
  add_first_chunks y (ok ys, s) g = add_first_all y ys (g s)

  then_rest-chunks :
      (r : Result Y × S) (f g : S → Result (List Y) × S)
      → then_rest r (λ s. then_chunks (f s) g) ≡ then_chunks (then_rest r f) g
  then_rest-chunks (err e, s) f g = refl
  then_rest-chunks (ok y, s) f g = add_first_chunks y (f s) g

  gather-append :
      (xs ys : List X) (s : S) → gather (xs ++ ys) s ≡ then_chunks (gather xs s) (gather ys)
  unfolding gather
  gather-append [] ys s = sym (add_all_nil (gather ys s))
  gather-append (x ∷ xs) ys s =
      then_rest-ap (transfer x s) (gather (xs ++ ys)) (λ t. then_chunks (gather xs t) (gather ys))
        (gather-append xs ys)
      ∙ then_rest-chunks (transfer x s) (gather xs) (gather ys)

  transfer_chunks-gather :
      (cs : List (List X)) (s : S) → transfer_chunks cs s ≡ gather (concat cs) s
  unfolding transfer_chunks gather
  transfer_chunks-gather [] s = refl
  transfer_chunks-gather (c ∷ cs) s =
      then_chunks-ap (gather c s) (transfer_chunks cs) (gather (concat cs))
        (transfer_chunks-gather cs)
      ∙ sym (gather-append c (concat cs) s)

  -- With a number of concurrent transfers that is not 0, transferring in chunks is transferring the
  -- objects one after the other: the size of the chunks changes neither the results, nor the store,
  -- nor the exception.
  pub transfer_all-eq_gather :
      (xs : List X) (k : ℕ) (s : S) → transfer_all xs (suc k) s ≡ gather xs s
  unfolding transfer_all
  transfer_all-eq_gather xs k s =
      let (cs, e, c, short) = divide_chunks_exact xs k in
      ap (of_chunks s) e ∙ transfer_chunks-gather cs s ∙ ap (λ l. gather l s) c

-- `_get_blobs_metadata` appends the results of a chunk with `r.append(*results)`, which takes exactly
-- one argument.
module _ {X Y : Type 0} (metadata : X → Y) where
  unfoldable pub append_unpacked : List (List X) → Result (List Y)
  append_unpacked [] = ok []
  append_unpacked ((x ∷ []) ∷ rest) = append_unpacked rest >>= λ ys. ok (metadata x ∷ ys)
  append_unpacked (_ ∷ rest) = err type_error

  unfoldable pub get_blobs_metadata : List X → ℕ → Result (List Y)
  unfolding append_unpacked divide_chunks
  get_blobs_metadata keys concurrent_transfers =
      divide_chunks keys concurrent_transfers >>= append_unpacked

  -- So with two keys or more and two transfers at once or more, it raises TypeError.
  pub get_blobs_metadata_raises :
      (x y : X) (keys : List X) (k : ℕ)
      → get_blobs_metadata (x ∷ y ∷ keys) (suc (suc k)) ≡ err type_error
  unfolding get_blobs_metadata divide_chunks chunks
  get_blobs_metadata_raises x y keys k = refl
