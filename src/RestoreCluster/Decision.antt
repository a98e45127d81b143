-- ===== src/RestoreCluster/Decision.antt =====
-- `_populate_ringmap`: in place or remote, and the way the data are restored.
use cassandra_medusa.Base.{
  Bool, true, false, not, ◌&&◌, List, [], ◌∷◌, ◌≡◌, ◌↔◌, inl, inr, refl, length, any, filter, In,
  In-filter, arith, if◌then◌else◌, Bool-cases, Result-cases, >>=-eq-ok, ltb,
}
use cassandra_medusa.Base.{Result, ok, err, runtime_error}
use cassandra_medusa.Base.Text.{Text, mem, mem→In, In→mem}
use cassandra_medusa.Base.Dict.{keys}
use cassandra_medusa.TokenMap.{TokenMap}
use cassandra_medusa.RestoreCluster.Rings.{validate_ringmap}
use cassandra_medusa.RestoreCluster.{
  Job, chunk_hosts, map_ignored_racks, map_with_racks, is_restore_in_place, handle_auth_decision,
  map_matching, map_different_topologies, map_ring, tokens_suit, populate_ringmap,
}

nonempty-In : {A : Type 0} (xs : List A) → (ltb 0 (length xs) ≡ true) → (x : A) × In x xs
nonempty-In [] h = ground arith
nonempty-In (x ∷ xs) h = (x, inl refl)

In-nonempty : {A : Type 0} (x : A) (xs : List A) → In x xs → ltb 0 (length xs) ≡ true
In-nonempty x [] m = absurd m
In-nonempty x (y ∷ xs) m = ground arith

-- A restore is in place exactly if some host stands in both token maps.
pub is_restore_in_place_iff :
    (backup_tokenmap target_tokenmap : TokenMap)
    → (is_restore_in_place backup_tokenmap target_tokenmap ≡ true)
      ↔ ((host : Text) × In host (keys backup_tokenmap) × In host (keys target_tokenmap))
unfolding is_restore_in_place
is_restore_in_place_iff b t = (
  (λ h.
      let (x, m) = nonempty-In (filter (λ k. mem k (keys t)) (keys b)) h in
      let (i, j) = (In-filter (λ k. mem k (keys t)) x (keys b)).0 m in (x, i, mem→In x (keys t) j)),
  λ (x, i, j).
      In-nonempty x (filter (λ k. mem k (keys t)) (keys b))
        ((In-filter (λ k. mem k (keys t)) x (keys b)).1 (i, In→mem x (keys t) j)),
)

abbrev pub accepted : Result Bool → Bool
accepted (ok b) = b
accepted (err e) = false

module _ (resolve : Text → Text) (seeds : List Text) (arrange : List Text → List Text) where
  map_matching-keeps :
      (ignore_racks : Bool) (tm ttm : TokenMap) (job job' : Job)
      → map_matching resolve seeds arrange ignore_racks tm ttm job ≡ ok job'
      → (job'.in_place ≡ job.in_place)
        × (job'.keep_auth ≡ job.keep_auth)
        × (job'.use_sstableloader ≡ job.use_sstableloader)
  unfolding map_matching
  map_matching-keeps r tm ttm job job' h =
      let (hm, e, h') =
        >>=-eq-ok
          (if r
            then map_ignored_racks resolve seeds tm ttm job.host_map
            else map_with_racks resolve seeds tm ttm job.host_map)
          (λ hm. ok (record job { host_map = hm })) h in
      ground arith

  map_different-keeps :
      (tm ttm : TokenMap) (job job' : Job)
      → map_different_topologies resolve seeds arrange tm ttm job ≡ ok job'
      → (job'.in_place ≡ job.in_place)
        × (job'.keep_auth ≡ job.keep_auth)
        × (job'.use_sstableloader ≡ true)
  unfolding map_different_topologies
  map_different-keeps tm ttm job job' h =
      elim (Result-cases (chunk_hosts (arrange (keys tm)) (arrange (keys ttm)))) [
        | inl (gs, e) ↦ ground arith
        | inr (x, e) ↦ ground arith
      ]

  map_ring-keeps :
      (rings_match ignore_racks : Bool) (tm ttm : TokenMap) (job job' : Job)
      → map_ring resolve seeds arrange rings_match ignore_racks tm ttm job ≡ ok job'
      → (job'.in_place ≡ job.in_place)
        × (job'.keep_auth ≡ job.keep_auth)
        × (job'.use_sstableloader ≡ (if rings_match then job.use_sstableloader else true))
  unfolding map_ring
  map_ring-keeps true r tm ttm job job' h = map_matching-keeps r tm ttm job job' h
  map_ring-keeps false r tm ttm job job' h = map_different-keeps tm ttm job job' h

  down-validate_ringmap :
      (ignore_racks : Bool) (tm ttm : TokenMap)
      → any (λ e. not e.1.is_up) ttm ≡ true
      → validate_ringmap ignore_racks tm ttm ≡ err runtime_error
  unfolding validate_ringmap
  down-validate_ringmap r tm ttm h = ground arith

  -- Where a target node is down, `_populate_ringmap` raises the RuntimeError.
  -- Where it ends, the job is in place as `_is_restore_in_place` says, a restore in place does
  -- not keep the target's credentials, and the sstableloader is turned on unless the validation
  -- accepted the maps and their tokens suit each other.
  pub populate_ringmap_decides :
      (ignore_racks bypass_checks : Bool) (answers : List Text) (tm ttm : TokenMap) (job : Job)
      → (any (λ e. not e.1.is_up) ttm ≡ true
          → populate_ringmap resolve seeds arrange ignore_racks bypass_checks answers tm ttm job
            ≡ err runtime_error)
        × ((job' : Job)
            → populate_ringmap resolve seeds arrange ignore_racks bypass_checks answers tm ttm job
              ≡ ok job'
            → (job'.in_place ≡ is_restore_in_place tm ttm)
              × (is_restore_in_place tm ttm ≡ true → job'.keep_auth ≡ false)
              × (job'.use_sstableloader ≡ (
                  if accepted (validate_ringmap ignore_racks tm ttm)
                    && tokens_suit resolve seeds arrange tm ttm
                  then job.use_sstableloader
                  else true)))
  unfolding populate_ringmap
  populate_ringmap_decides r b answers tm ttm job = (
    (λ h. rw (down-validate_ringmap r tm ttm h) refl),
    λ job' h. elim (Result-cases (validate_ringmap r tm ttm)) [
      | inr (x, e) ↦ ground arith
      | inl (v, e) ↦ elim (Bool-cases (is_restore_in_place tm ttm)) [
        | inl i ↦ ground (
          arith,
          map_ring-keeps (v && tokens_suit resolve seeds arrange tm ttm) r tm ttm
              (record job { in_place = true; keep_auth = false }) job',
        )
        | inr i ↦ elim (Result-cases (handle_auth_decision b job.keep_auth answers)) [
          | inr (x, e') ↦ ground arith
          | inl (k, e') ↦ ground (
            arith,
            map_ring-keeps (v && tokens_suit resolve seeds arrange tm ttm) r tm ttm
                (record job { in_place = false; keep_auth = k }) job',
          )
        ]
      ]
    ],
  )
