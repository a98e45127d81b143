-- ===== src/RestoreCluster/Groups.antt =====
-- `_chunk_hosts` and `_map_different_topologies`: the backup hosts dealt to the target nodes.
use cassandra_medusa.Base.{
  ℕ, zero, suc, ◌+◌, ◌%◌, ◌≤◌, ◌<◌, true, false, List, [], ◌∷◌, ◌++◌, ◌≡◌, ◌⊎◌, ◌↔◌, inl, inr, refl,
  sym, subst, ◌∙◌, some, length, concat, In, Distinct, In-append, In-append_left, In-append_right,
  leb, arith, Bool-cases,
}
use cassandra_medusa.Base.{ok}
use cassandra_medusa.Base.Text.{Text, text_eq, text_eq_iff}
use cassandra_medusa.Base.Dict.{lookup, insert, keys, lookup-insert}
use cassandra_medusa.TokenMap.{TokenMap}
use cassandra_medusa.RestoreCluster.{
  Entry, HostMap, Job, append_at, empty_groups, deal, chunk_hosts, assign_groups,
  map_different_topologies,
}

length-append_at :
    (i : ℕ) (x : Text) (gs : List (List Text)) → length (append_at i x gs) ≡ length gs
unfolding append_at
length-append_at i x [] = refl
length-append_at zero x (g ∷ gs) = refl
length-append_at (suc i) x (g ∷ gs) = omega (arith, length-append_at i x gs)

In-append_at :
    (z : Text) (i : ℕ) (x : Text) (gs : List (List Text))
    → i < length gs
    → In z (concat (append_at i x gs)) ↔ ((x ≡ z) ⊎ In z (concat gs))
unfolding append_at
In-append_at z i x [] h = absurd (omega arith)
In-append_at z zero x (g ∷ gs) h = ground (
  arith,
  In-append z g (x ∷ []),
  In-append z (g ++ (x ∷ [])) (concat gs),
  In-append z g (concat gs),
  In-append_left z g (x ∷ []),
  In-append_right z g (x ∷ []),
  In-append_left z (g ++ (x ∷ [])) (concat gs),
  In-append_right z (g ++ (x ∷ [])) (concat gs),
  In-append_left z g (concat gs),
  In-append_right z g (concat gs),
)
In-append_at z (suc i) x (g ∷ gs) h = ground (
  arith,
  In-append_at z i x gs,
  In-append z g (concat gs),
  In-append z g (concat (append_at i x gs)),
  In-append_left z g (concat (append_at i x gs)),
  In-append_right z g (concat (append_at i x gs)),
  In-append_left z g (concat gs),
  In-append_right z g (concat gs),
)

deal_lem :
    (k i : ℕ) (xs : List Text) (gs : List (List Text))
    → length gs ≡ suc k
    → (out : List (List Text)) × (deal (suc k) i xs gs ≡ ok out)
      × (length out ≡ suc k)
      × ((z : Text) → In z (concat out) ↔ (In z xs ⊎ In z (concat gs)))
unfolding deal
deal_lem k i [] gs h = (gs, refl, h, λ z. ground arith)
deal_lem k i (x ∷ xs) gs h =
    let gs' = append_at (i % suc k) x gs in
    let (out, e, l, m) = deal_lem k (i + 1) xs gs' (length-append_at (i % suc k) x gs ∙ h) in
    (out, e, l, λ z. ground (arith, m z, In-append_at z (i % suc k) x gs))

empty_groups_lem :
    (n : ℕ) → (length (empty_groups n) ≡ n) × ((z : Text) → ¬ In z (concat (empty_groups n)))
unfolding empty_groups
empty_groups_lem zero = (refl, λ z m. m)
empty_groups_lem (suc n) = let (l, m) = empty_groups_lem n in (omega arith, m)

dealt :
    (n : ℕ) (xs : List Text)
    → (n ≡ 0 → xs ≡ [])
    → (out : List (List Text)) × (deal n 0 xs (empty_groups n) ≡ ok out)
      × (length out ≡ n)
      × ((z : Text) → In z (concat out) ↔ In z xs)
unfolding deal empty_groups
dealt zero [] h = ([], refl, refl, λ z. ground arith)
dealt zero (x ∷ xs) h = ground arith
dealt (suc k) xs h =
    let (l, none_in) = empty_groups_lem (suc k) in
    let (out, e, l', m) = deal_lem k 0 xs (empty_groups (suc k)) l in
    (out, e, l', λ z. ground (arith, m z, none_in z))

-- With at least one node to restore on, `_chunk_hosts` ends without an exception. It makes no
-- more groups than there are nodes to restore on, and the groups hold the backup hosts and no
-- others.
pub chunk_hosts_exact :
    (backup_hosts restore_hosts : List Text)
    → 0 < length restore_hosts
    → (groups : List (List Text)) × (chunk_hosts backup_hosts restore_hosts ≡ ok groups)
      × (length groups ≤ length restore_hosts)
      × ((z : Text) → In z (concat groups) ↔ In z backup_hosts)
unfolding chunk_hosts
chunk_hosts_exact bs [] h = absurd (omega arith)
chunk_hosts_exact [] (r ∷ rs) h =
    let (out, e, l, m) = dealt 0 [] (λ _. refl) in
    let f : leb (suc (length rs)) 0 ≡ false = ground arith in (out, rw f e, omega arith, m)
chunk_hosts_exact (b ∷ bs) (r ∷ rs) h =
    elim (Bool-cases (leb (suc (length rs)) (suc (length bs)))) [
      | inl t ↦
          let (out, e, l, m) = dealt (suc (length rs)) (b ∷ bs) (λ z. absurd (omega arith)) in
          (out, rw t e, omega arith, m)
      | inr f ↦
          let (out, e, l, m) = dealt (suc (length bs)) (b ∷ bs) (λ z. absurd (omega arith)) in
          (out, rw f e, ground arith, m)
    ]

-- The groups of the first nodes to restore on reach the map, those of earlier entries stay.
assign_groups_other :
    (r : Text) (rs : List Text) (gs : List (List Text)) (hm : HostMap)
    → ¬ In r rs
    → lookup r (assign_groups rs gs hm) ≡ lookup r hm
unfolding assign_groups
assign_groups_other r [] gs hm h = refl
assign_groups_other r (q ∷ rs) [] hm h = refl
assign_groups_other r (q ∷ rs) (g ∷ gs) hm h = ground (
  arith,
  assign_groups_other r rs gs (insert q (record { source = g; seed = false }) hm),
  text_eq_iff q r,
  lookup-insert q r (record { source = g; seed = false }) hm,
)

assign_groups_covers :
    (b : Text) (rs : List Text) (gs : List (List Text)) (hm : HostMap)
    → Distinct rs
    → length gs ≤ length rs
    → In b (concat gs)
    → (t : Text) × (e : Entry) × In t rs
      × (lookup t (assign_groups rs gs hm) ≡ some e)
      × In b e.source
unfolding assign_groups
assign_groups_covers b rs [] hm d l m = absurd m
assign_groups_covers b [] (g ∷ gs) hm d l m = absurd (omega arith)
assign_groups_covers b (r ∷ rs) (g ∷ gs) hm d l m =
    let e : Entry = record { source = g; seed = false } in
    elim (In-append b g (concat gs) m) [
      | inl i ↦ (
        r,
        e,
        inl refl,
        ground (
          arith,
          assign_groups_other r rs gs (insert r e hm),
          lookup-insert r r e hm,
          text_eq_iff r r,
        ),
        i,
      )
      | inr i ↦
          let (t, f, n, look, j) =
            assign_groups_covers b rs gs (insert r e hm) d.1 (omega arith) i in
          (t, f, inr n, look, j)
    ]

assign_groups_sources :
    (t : Text) (e : Entry) (b : Text) (rs : List Text) (gs : List (List Text)) (hm : HostMap)
    → lookup t (assign_groups rs gs hm) ≡ some e
    → In b e.source
    → (lookup t hm ≡ some e) ⊎ In b (concat gs)
unfolding assign_groups
assign_groups_sources t e b [] gs hm h m = inl h
assign_groups_sources t e b (r ∷ rs) [] hm h m = inl h
assign_groups_sources t e b (r ∷ rs) (g ∷ gs) hm h m =
    let f : Entry = record { source = g; seed = false } in
    elim (assign_groups_sources t e b rs gs (insert r f hm) h m) [
      | inr i ↦ inr (In-append_right b g (concat gs) i)
      | inl l ↦ elim (Bool-cases (text_eq r t)) [
        | inl y ↦ inr (
            In-append_left b g (concat gs) (
              let same : f ≡ e = ground (arith, lookup-insert r t f hm) in
              subst (λ q. In b q.source) (sym same) m))
        | inr n ↦ inl (ground (arith, lookup-insert r t f hm))
      ]
    ]

-- Where the topologies differ, with at least one target node and a set order that keeps the
-- elements, `_map_different_topologies` ends without an exception and turns on the sstableloader.
-- Started on an empty map, it restores each backup host on some target node, and only backup
-- hosts.
pub different_topologies_cover :
    (resolve : Text → Text) (seeds : List Text) (arrange : List Text → List Text)
    (tokenmap target_tokenmap : TokenMap) (job : Job)
    → ((z : Text) (xs : List Text) → In z (arrange xs) ↔ In z xs)
    → Distinct (arrange (keys target_tokenmap))
    → 0 < length (arrange (keys target_tokenmap))
    → job.host_map ≡ []
    → (job' : Job) × (map_different_topologies resolve seeds arrange tokenmap target_tokenmap job
        ≡ ok job')
      × (job'.use_sstableloader ≡ true)
      × ((b : Text)
          → In b (keys tokenmap)
          → (t : Text) × (e : Entry) × In t (keys target_tokenmap)
            × (lookup t job'.host_map ≡ some e)
            × In b e.source)
      × ((t b : Text) (e : Entry)
          → lookup t job'.host_map ≡ some e
          → In b e.source
          → In b (keys tokenmap))
unfolding map_different_topologies lookup
different_topologies_cover resolve seeds arrange tokenmap target_tokenmap job same d l empty =
    let ts = arrange (keys target_tokenmap) in
    let bs = arrange (keys tokenmap) in
    let (gs, e, short, m) = chunk_hosts_exact bs ts l in
    let out : Job = record job {
      host_map = assign_groups ts gs job.host_map;
      use_sstableloader = true;
    } in
    (
      out,
      rw e refl,
      refl,
      (λ b i.
          let (t, f, n, look, j) =
            assign_groups_covers b ts gs job.host_map d short
              ((m b).1 ((same b (keys tokenmap)).1 i)) in
          (t, f, (same t (keys target_tokenmap)).0 n, look, j)),
      λ t b f look j. elim (assign_groups_sources t f b ts gs job.host_map look j) [
        | inl h ↦ ground (arith, empty)
        | inr i ↦ (same b (keys tokenmap)).0 ((m b).0 i)
      ],
    )
