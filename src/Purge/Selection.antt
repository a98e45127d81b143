-- ===== src/Purge/Selection.antt =====
-- Which backups `backups_to_purge_by_count` chooses.
use cassandra_medusa.Base.{
  ℕ, zero, suc, ◌-◌, ◌≤◌, ◌<◌, true, List, [], ◌∷◌, ◌++◌, ◌≡◌, ◌∙◌, refl, ap, In, All, filter-All,
  length, length-take, take, drop, is_some, leb, leb→le, arith,
}
use cassandra_medusa.Base.Sort.{IsSorted, length-sorted, IsSorted-append, sorted_by_key-IsSorted}
use cassandra_medusa.Storage.Driver.{Driver}
use cassandra_medusa.Storage.NodeBackup.{NodeBackup, started}
use cassandra_medusa.Purge.{
  slice_to_difference, start_or_zero, dated_by_start, backups_to_purge_by_count,
}

take-append-rest :
    {A : Type 0} (n : ℕ) (xs : List A) → take n xs ++ drop (length (take n xs)) xs ≡ xs
take-append-rest zero xs = refl
take-append-rest (suc n) [] = refl
take-append-rest (suc n) (x ∷ xs) = ap (◌∷◌ x) (take-append-rest n xs)

module _ (D : Driver) (s : D.State) where
  abbrev pub IsDated : NodeBackup → Type 0
  IsDated nb = is_some (started D nb s) ≡ true

  length-dated :
      (backups : List NodeBackup)
      → All IsDated backups
      → length (dated_by_start D backups s) ≡ length backups
  unfolding dated_by_start
  length-dated backups h =
      length-sorted _ _ ∙ ap length (filter-All (λ nb. is_some (started D nb s)) backups h)

  -- What is not purged.
  unfoldable pub kept_by_count : List NodeBackup → ℕ → List NodeBackup
  kept_by_count backups max_count =
      drop (length (backups_to_purge_by_count D backups max_count s)) (dated_by_start D backups s)

  dated-IsSorted :
      (backups : List NodeBackup)
      → IsSorted
          (λ a b. leb (start_or_zero D s a) (start_or_zero D s b))
          (dated_by_start D backups s)
  unfolding dated_by_start
  dated-IsSorted backups = sorted_by_key-IsSorted (start_or_zero D s) _

  by_count_prefix :
      (backups : List NodeBackup) (max_count : ℕ)
      → 0 < max_count
      → All IsDated backups
      → backups_to_purge_by_count D backups max_count s
        ≡ take (length backups - max_count) (dated_by_start D backups s)
  unfolding backups_to_purge_by_count slice_to_difference
  by_count_prefix backups max_count pos h = ground (arith, length-dated backups h)

  -- With a positive limit and a start time for every backup, the purge by count takes the
  -- backups beyond the limit and leaves the others, and each that it takes started no later than
  -- each that it leaves.
  pub by_count_takes_oldest :
      (backups : List NodeBackup) (max_count : ℕ)
      → 0 < max_count
      → All IsDated backups
      → (length (backups_to_purge_by_count D backups max_count s) ≡ length backups - max_count)
        × (backups_to_purge_by_count D backups max_count s ++ kept_by_count backups max_count
            ≡ dated_by_start D backups s)
        × ((p k : NodeBackup)
            → In p (backups_to_purge_by_count D backups max_count s)
            → In k (kept_by_count backups max_count)
            → start_or_zero D s p ≤ start_or_zero D s k)
  unfolding kept_by_count
  by_count_takes_oldest backups max_count pos h =
      (count, whole, λ p k m n. leb→le _ _ (IsSorted-append _ _ _ p k sorted_whole m n))
    where
      dated : List NodeBackup
      dated = dated_by_start D backups s

      purged : List NodeBackup
      purged = backups_to_purge_by_count D backups max_count s

      count : length purged ≡ length backups - max_count
      count =
          rw (by_count_prefix backups max_count pos h)
            (omega (arith, length-take (length backups - max_count) dated, length-dated backups h))

      whole : purged ++ kept_by_count backups max_count ≡ dated
      whole =
          rw (by_count_prefix backups max_count pos h)
            (take-append-rest (length backups - max_count) dated)

      sorted_whole :
          IsSorted
            (λ a b. leb (start_or_zero D s a) (start_or_zero D s b))
            (purged ++ kept_by_count backups max_count)
      sorted_whole = rw whole (dated-IsSorted backups)
