-- ===== src/Effects.antt =====
-- Code that acts on its surroundings: the list of what it has done, and its result. `attempt`
-- asks the surroundings which exception an action raises; a failed action is in the list too.
use cassandra_medusa.Base.{
  ℕ, ◌≤◌, Bool, true, false, not, ◌&&◌, Option, none, some, List, [], ◌∷◌, ◌++◌, ◌≡◌, ◌⊎◌, refl,
  arith, any, if◌then◌else◌,
}
use cassandra_medusa.Base.{Exception, Result, ok, err}

abbrev pub Run : Type 0 → Type 0 → Type 0
Run E A = List E × Result A

abbrev pub outcome : Option Exception → Result (Unit {0})
outcome none = ok tt
outcome (some e) = err e

module _ {E : Type 0} where
  abbrev pub done : {A : Type 0} → A → Run E A
  done a = ([], ok a)

  abbrev pub raise : {A : Type 0} → Exception → Run E A
  raise e = ([], err e)

  abbrev pub lift : {A : Type 0} → Result A → Run E A
  lift r = ([], r)

  abbrev pub attempt : (E → Option Exception) → E → Run E (Unit {0})
  attempt fails event = (event ∷ [], outcome (fails event))

  abbrev pub followed : {B : Type 0} → List E → Run E B → Run E B
  followed es (fs, r) = (es ++ fs, r)

infixl 5 ◌>>=◌
unfoldable pub ◌>>=◌ : {E A : Type 0} → {B : Type 0} → Run E A → (A → Run E B) → Run E B
(es, err e) >>= next = (es, err e)
(es, ok a) >>= next = followed es (next a)

module _ {E : Type 0} where
  -- Actions for each element, in order.
  unfoldable pub for_each : {X : Type 0} → (X → Run E (Unit {0})) → List X → Run E (Unit {0})
  for_each f [] = done tt
  for_each f (x ∷ xs) = f x >>= λ _. for_each f xs

  -- Every action that `q` holds of comes after one that `p` holds of.
  unfoldable pub after : (E → Bool) → (E → Bool) → List E → Bool
  after p q [] = true
  after p q (e ∷ es) = if p e then true else not (q e) && after p q es

module _ {E : Type 0} (p q : E → Bool) where
  pub after-append :
      (es fs : List E)
      → after p q es ≡ true
      → (any p es ≡ true) ⊎ (after p q fs ≡ true)
      → after p q (es ++ fs) ≡ true
  unfolding after any
  after-append [] fs h k = ground arith
  after-append (e ∷ es) fs h k = ground (arith, after-append es fs)

  pub after_not : (es : List E) → any q es ≡ false → after p q es ≡ true
  unfolding after any
  after_not [] h = refl
  after_not (e ∷ es) h = ground (arith, after_not es)

  -- A chain keeps the order if its first part does, and either that part has done a `p` or all
  -- that may follow keeps the order.
  pub after->>= :
      {A B : Type 0} (t : Run E A) (next : A → Run E B)
      → after p q t.0 ≡ true
      → ((a : A) → t.1 ≡ ok a → (any p t.0 ≡ true) ⊎ (after p q (next a).0 ≡ true))
      → after p q (t >>= next).0 ≡ true
  unfolding ◌>>=◌
  after->>= (es, err e) next h k = h
  after->>= (es, ok a) next h k = after-append es (next a).0 h (k a refl)

-- The actions come in the order of their ranks, from `lo` to `hi`.
module _ {E : Type 0} (rank : E → ℕ) where
  abbrev pub Within : ℕ → ℕ → List E → Type 0
  Within lo hi [] = lo ≤ hi
  Within lo hi (e ∷ es) = (lo ≤ rank e) × Within (rank e) hi es

  pub Within-weaken :
      (lo lo' hi hi' : ℕ) (es : List E) → lo' ≤ lo → hi ≤ hi' → Within lo hi es → Within lo' hi' es
  Within-weaken lo lo' hi hi' [] h k w = omega (arith, h, k, w)
  Within-weaken lo lo' hi hi' (e ∷ es) h k w =
      (omega (arith, h, w.0), Within-weaken (rank e) (rank e) hi hi' es (omega arith) k w.1)

  pub Within-append :
      (lo mid hi : ℕ) (es fs : List E)
      → Within lo mid es
      → Within mid hi fs
      → Within lo hi (es ++ fs)
  Within-append lo mid hi [] fs w v = Within-weaken mid lo hi hi fs w (omega arith) v
  Within-append lo mid hi (e ∷ es) fs w v = (w.0, Within-append (rank e) mid hi es fs w.1 v)

  pub Within->>= :
      {A B : Type 0} (lo mid hi : ℕ) (t : Run E A) (next : A → Run E B)
      → mid ≤ hi
      → Within lo mid t.0
      → ((a : A) → Within mid hi (next a).0)
      → Within lo hi (t >>= next).0
  unfolding ◌>>=◌
  Within->>= lo mid hi (es, err e) next h w v = Within-weaken lo lo mid hi es (omega arith) h w
  Within->>= lo mid hi (es, ok a) next h w v = Within-append lo mid hi es (next a).0 w (v a)

  pub Within-for_each :
      {X : Type 0} (n : ℕ) (f : X → Run E (Unit {0})) (xs : List X)
      → ((x : X) → Within n n (f x).0)
      → Within n n (for_each f xs).0
  unfolding for_each
  Within-for_each n f [] h = omega arith
  Within-for_each n f (x ∷ xs) h =
      Within->>= n n n (f x) (λ _. for_each f xs) (omega arith) (h x) λ _. Within-for_each n f xs h
