-- ===== src/BackupNode/Stagger.antt =====
-- `stagger` of medusa/backup_node.py: whether the node in front in the ring has a backup.
use cassandra_medusa.Base.{
  ℕ, zero, suc, ◌+◌, ◌≤◌, ◌<◌, ◌≡◌, inl, inr, refl, sym, subst, ap, arith, Bool-cases, ◌==◌, Bool,
  true, false, Option, none, some, List, [], ◌∷◌, any, truthy, is_some, if◌then◌else◌,
}
use cassandra_medusa.Base.{Result, ok, err, key_error, value_error, io_error}
use cassandra_medusa.Base.Int.{ℤ, leb_ℤ, eq_ℤ}
use cassandra_medusa.Base.Text.{Text, text_eq}
use cassandra_medusa.Base.Dict.{lookup}
use cassandra_medusa.Base.Sort.{sorted}
use cassandra_medusa.TokenMap.{RingItem, TokenMap}
use cassandra_medusa.Storage.Driver.{Driver}
use cassandra_medusa.Storage.NodeBackup.{NodeBackup, finished}
use cassandra_medusa.Storage.Listing.{list_node_backups}

-- The lexicographic order of Python on lists of tokens.
unfoldable pub leb_tokens : List ℤ → List ℤ → Bool
leb_tokens [] ys = true
leb_tokens (x ∷ xs) [] = false
leb_tokens (x ∷ xs) (y ∷ ys) = if eq_ℤ x y then leb_tokens xs ys else leb_ℤ x y

-- The host in front of `fqdn`: `none` if it is the first.
unfoldable pub previous_host : Text → Option Text → List (Text × RingItem) → Result (Option Text)
previous_host fqdn before [] = err value_error
previous_host fqdn before ((host, item) ∷ ring) =
    let rest = previous_host fqdn (some host) ring in if text_eq host fqdn then ok before else rest

abbrev pub ordered_tokenmap : TokenMap → List (Text × RingItem)
unfolding leb_tokens
ordered_tokenmap ring = sorted (λ a b. leb_tokens a.1.tokens b.1.tokens) ring

module _ (D : Driver) (prefix : Text) where
  -- any(backup.finished for backup in ...)
  unfoldable pub has_finished : D.State → List NodeBackup → Bool
  has_finished s nbs = any (λ nb. truthy (finished D nb s)) nbs

  abbrev pub has_backup : Result (List NodeBackup) × D.State → Result Bool × D.State
  unfolding has_finished
  has_backup (err e, s) = (err e, s)
  has_backup (ok nbs, s) = (ok (has_finished s nbs), s)

  -- Where the node has no finished backup: the first node of the ring runs, the others wait for
  -- the node in front.
  unfoldable pub stagger_behind : Text → TokenMap → D.State → Result Bool × D.State
  unfolding has_backup ordered_tokenmap previous_host
  stagger_behind fqdn tokenmap s =
      if is_some (lookup fqdn tokenmap)
      then elim (previous_host fqdn none (ordered_tokenmap tokenmap)) [
        | err e ↦ (err e, s)
        | ok none ↦ (ok true, s)
        | ok (some host) ↦ has_backup (list_node_backups D prefix (some host) none s)
      ]
      else (err key_error, s)

  abbrev pub stagger_after : Text → TokenMap → Result Bool × D.State → Result Bool × D.State
  unfolding stagger_behind
  stagger_after fqdn tokenmap (err e, s) = (err e, s)
  stagger_after fqdn tokenmap (ok true, s) = (ok true, s)
  stagger_after fqdn tokenmap (ok false, s) = stagger_behind fqdn tokenmap s

  unfoldable pub stagger : Text → TokenMap → D.State → Result Bool × D.State
  unfolding stagger_after has_backup
  stagger fqdn tokenmap s =
      stagger_after fqdn tokenmap (has_backup (list_node_backups D prefix (some fqdn) none s))

-- One look: the run starts, waits for another look, or gives up.
abbrev stagger_round : Result Bool → Bool → ℕ → Result ℕ → Result ℕ
stagger_round (err e) before i again = err e
stagger_round (ok true) before i again = ok i
stagger_round (ok false) true i again = again
stagger_round (ok false) false i again = err io_error

-- The loop of `start_backup` that staggers the run: `staggered i` is the answer of the i-th look,
-- `before_end i` whether the time limit is still ahead after it. The result is the number of the
-- look that let the run start.
unfoldable pub stagger_loop : ℕ → (ℕ → Result Bool) → (ℕ → Bool) → ℕ → Result ℕ
stagger_loop zero staggered before_end i = err io_error
stagger_loop (suc fuel) staggered before_end i =
    let again = stagger_loop fuel staggered before_end (i + 1) in
    stagger_round (staggered i) (before_end i) i again

stagger_loop-from :
    (staggered : ℕ → Result Bool) (before_end : ℕ → Bool) (fuel i n : ℕ) (b : Bool)
    → i ≤ n
    → n < i + fuel
    → ((k : ℕ) → i ≤ k → k < n → (staggered k ≡ ok false) × (before_end k ≡ true))
    → staggered n ≡ ok b
    → (b ≡ false → before_end n ≡ false)
    → stagger_loop fuel staggered before_end i ≡ (if b then ok n else err io_error)
unfolding stagger_loop
stagger_loop-from f g zero i n b h l w e d = absurd (omega arith)
stagger_loop-from f g (suc fuel) i n b h l w e d = elim (Bool-cases (i == n)) [
  | inl same ↦
      let at : i ≡ n = ground arith in
      let here : f i ≡ ok b = rw at e in
      rw here (last_round b (subst (λ k. b ≡ false → g k ≡ false) (sym at) d) at)
  | inr other ↦
      let (waits, more) = w i (omega arith) (ground arith) in
      rw (waits, more)
        (stagger_loop-from f g fuel (i + 1) n b (ground arith) (omega arith)
          (λ k h' l'. w k (omega arith) l') e d)
]
  where
    last_round :
        (b : Bool)
        → (b ≡ false → g i ≡ false)
        → i ≡ n
        → stagger_round (ok b) (g i) i (stagger_loop fuel f g (i + 1))
          ≡ (if b then ok n else err io_error)
    last_round true d at = ap ok at
    last_round false d at = rw (d refl) refl

-- Whatever the fuel beyond it, the loop ends at the first look that lets the run start, with its
-- number, or after which the time limit has passed, with the IOError.
pub stagger_loop_ends :
    (staggered : ℕ → Result Bool) (before_end : ℕ → Bool) (fuel n : ℕ) (b : Bool)
    → n < fuel
    → ((k : ℕ) → k < n → (staggered k ≡ ok false) × (before_end k ≡ true))
    → staggered n ≡ ok b
    → (b ≡ false → before_end n ≡ false)
    → stagger_loop fuel staggered before_end 0 ≡ (if b then ok n else err io_error)
stagger_loop_ends f g fuel n b l w e d =
    stagger_loop-from f g fuel 0 n b (omega arith) (omega arith) (λ k _ m. w k m) e d
