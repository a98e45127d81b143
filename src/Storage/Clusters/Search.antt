-- ===== src/Storage/Clusters/Search.antt =====
-- Which cluster backup a search in the listing gives.
use cassandra_medusa.Base.{
  ℕ, ◌≤◌, ◌<◌, ◌↔◌, Option, none, some, List, [], ◌∷◌, ◌≡◌, inl, inr, refl, arith, ltb, In, All,
  All-In, subst, ltb→lt, Bool-cases, Option-cases, Result-cases,
}
use cassandra_medusa.Base.{Result, ok}
use cassandra_medusa.ClusterBackup.{ClusterBackup, finished}
use cassandra_medusa.Storage.Clusters.{max_by, keyed_by, latest_by}

max_by-none : (cs : List (ClusterBackup × ℕ)) → max_by cs ≡ none → cs ≡ []
unfolding max_by
max_by-none [] h = refl
max_by-none (c ∷ cs) h = elim (Option-cases (max_by cs)) [
  | inl e ↦ ground arith
  | inr (d, e) ↦ ground arith
]

All-le :
    (a b : ℕ) (cs : List (ClusterBackup × ℕ))
    → a ≤ b
    → All (λ c. c.1 ≤ a) cs
    → All (λ c. c.1 ≤ b) cs
All-le a b [] h w = tt
All-le a b (c ∷ cs) h w = (omega (arith, h, w.0), All-le a b cs h w.1)

max_by-greatest :
    (cs : List (ClusterBackup × ℕ)) (m : ClusterBackup × ℕ)
    → max_by cs ≡ some m
    → In m cs × All (λ c. c.1 ≤ m.1) cs
unfolding max_by
max_by-greatest [] m h = ground arith
max_by-greatest (c ∷ cs) m h = elim (Option-cases (max_by cs)) [
  | inl e ↦ let empty = max_by-none cs e in ground arith
  | inr (d, e) ↦
      let (there, below) = max_by-greatest cs d e in
      ground (arith, All-le d.1 m.1 cs, All-le c.1 m.1 cs, All-le d.1 c.1 cs)
]

module _ (key : ClusterBackup → Result (Option ℕ)) where
  -- The backups with a key are those listed, each with its key.
  keyed_by-exact :
      (cs : List ClusterBackup) (out : List (ClusterBackup × ℕ)) (c : ClusterBackup) (t : ℕ)
      → keyed_by key cs ≡ ok out
      → In (c, t) out ↔ (In c cs × (key c ≡ ok (some t)) × 0 < t)
  unfolding keyed_by
  keyed_by-exact [] out c t h = ground arith
  keyed_by-exact (x ∷ cs) out c t h = elim (Result-cases (key x)) [
    | inr (y, e) ↦ ground arith
    | inl (k, e) ↦ elim (Result-cases (keyed_by key cs)) [
      | inr (y, e') ↦ ground arith
      | inl (rest, e') ↦ elim (Option-cases k) [
        | inl n ↦ ground (arith, keyed_by-exact cs rest c t e')
        | inr (u, n) ↦ ground (arith, keyed_by-exact cs rest c t e')
      ]
    ]
  ]

-- What the search has found.
abbrev pub IsLatest : List ClusterBackup → Option (ClusterBackup × ℕ) → Type 0
unfolding finished
IsLatest cs none = (d : ClusterBackup) (u : ℕ) → In d cs → finished d ≡ ok (some u) → u ≡ 0
IsLatest cs (some (c, t)) =
    In c cs
    × (finished c ≡ ok (some t))
    × ((d : ClusterBackup) (u : ℕ) → In d cs → finished d ≡ ok (some u) → u ≤ t)

max_by-IsLatest :
    (cs : List ClusterBackup) (out : List (ClusterBackup × ℕ)) (found : Option (ClusterBackup × ℕ))
    → keyed_by finished cs ≡ ok out
    → max_by out ≡ found
    → IsLatest cs found
unfolding IsLatest
max_by-IsLatest cs out none e h = λ d u m f. elim (Bool-cases (ltb 0 u)) [
  | inr z ↦ ground arith
  | inl z ↦ absurd (
      subst (In (d, u)) (max_by-none out h)
        ((keyed_by-exact finished cs out d u e).1 (m, f, ltb→lt 0 u z)))
]
max_by-IsLatest cs out (some (c, t)) e h =
    let (there, below) = max_by-greatest out (c, t) h in
    let (listed, f, pos) = (keyed_by-exact finished cs out c t e).0 there in
    (
      listed,
      f,
      λ d u m g. elim (Bool-cases (ltb 0 u)) [
        | inr z ↦ ground arith
        | inl z ↦
            All-In (λ p. p.1 ≤ t) (d, u) out below
              ((keyed_by-exact finished cs out d u e).1 (m, g, ltb→lt 0 u z))
      ],
    )

-- Where the search for the latest complete cluster backup ends without an exception, what it
-- finds is one of those listed and finished, and no listed backup finished later; it finds none
-- only if no listed backup has an end other than 0.
pub latest_by_finished :
    (cs : List ClusterBackup) (found : Option (ClusterBackup × ℕ))
    → latest_by finished cs ≡ ok found
    → IsLatest cs found
unfolding latest_by
latest_by_finished cs found h = elim (Result-cases (keyed_by finished cs)) [
  | inr (y, e) ↦ absurd (ground arith)
  | inl (out, e) ↦ max_by-IsLatest cs out found e (ground arith)
]
