-- ===== src/Base/Lists.antt =====
-- Lists measured by native numbers, Boolean filters and quantifiers, and membership as a family.
use Prim.Native.Nat.{ℕ, zero, suc, ◌+◌, ◌-◌, ◌≤◌, min}
use mathlib.Core.Path.{◌≡◌, refl, ap, subst}
use mathlib.Core.Logic.{◌⊎◌, ◌↔◌, inl, inr}
use mathlib.Core.Bool.{Bool, true, false, not, ◌&&◌, ◌||◌}
use mathlib.Core.List.{List, [], ◌∷◌, ◌++◌, map}
use mathlib.Core.Option.{Option, none, some}
use native.Mathlib.Omega.{arith}
use cassandra_medusa.Base.Tests.{if◌then◌else◌}

module _ {ℓ} {A : Type ℓ} where
  abbrev pub length : List A → ℕ
  length [] = 0
  length (x ∷ xs) = suc (length xs)

  abbrev pub get_elem? : List A → ℕ → Option A
  get_elem? [] i = none
  get_elem? (x ∷ xs) zero = some x
  get_elem? (x ∷ xs) (suc i) = get_elem? xs i

  abbrev pub take : ℕ → List A → List A
  take zero xs = []
  take (suc n) [] = []
  take (suc n) (x ∷ xs) = x ∷ take n xs

  abbrev pub drop : ℕ → List A → List A
  drop zero xs = xs
  drop (suc n) [] = []
  drop (suc n) (x ∷ xs) = drop n xs

  unfoldable pub filter : (A → Bool) → List A → List A
  filter p [] = []
  filter p (x ∷ xs) = if p x then x ∷ filter p xs else filter p xs

  unfoldable pub any : (A → Bool) → List A → Bool
  any p [] = false
  any p (x ∷ xs) = p x || any p xs

  unfoldable pub all : (A → Bool) → List A → Bool
  all p [] = true
  all p (x ∷ xs) = p x && all p xs

  -- A predicate at every element, by recursion, so that the tactics read it.
  abbrev pub All {κ} : (A → Type κ) → List A → Type κ
  All P [] = Unit
  All P (x ∷ xs) = P x × All P xs

  abbrev pub concat : List (List A) → List A
  concat [] = []
  concat (xs ∷ xss) = xs ++ concat xss

module _ {ℓ} {A : Type ℓ} where
  pub length-append : (xs ys : List A) → length (xs ++ ys) ≡ length xs + length ys
  length-append [] ys = omega arith
  length-append (x ∷ xs) ys = omega (arith, length-append xs ys)

  pub length-take : (n : ℕ) (xs : List A) → length (take n xs) ≡ min n (length xs)
  length-take zero xs = omega arith
  length-take (suc n) [] = omega arith
  length-take (suc n) (x ∷ xs) = omega (arith, length-take n xs)

  pub length-drop : (n : ℕ) (xs : List A) → length (drop n xs) ≡ length xs - n
  length-drop zero xs = omega arith
  length-drop (suc n) [] = omega arith
  length-drop (suc n) (x ∷ xs) = omega (arith, length-drop n xs)

  pub take-append-drop : (n : ℕ) (xs : List A) → take n xs ++ drop n xs ≡ xs
  take-append-drop zero xs = refl
  take-append-drop (suc n) [] = refl
  take-append-drop (suc n) (x ∷ xs) = rw (take-append-drop n xs)

  pub length-filter-le : (p : A → Bool) (xs : List A) → length (filter p xs) ≤ length xs
  unfolding filter
  length-filter-le p [] = omega arith
  length-filter-le p (x ∷ xs) = ground (arith, length-filter-le p xs)

  pub filter-append :
      (p : A → Bool) (xs ys : List A) → filter p (xs ++ ys) ≡ filter p xs ++ filter p ys
  unfolding filter
  filter-append p [] ys = refl
  filter-append p (x ∷ xs) ys = ground (arith, filter-append p xs ys)

  pub length-filter-not :
      (p : A → Bool) (xs : List A)
      → length (filter p xs) + length (filter (λ x. not (p x)) xs) ≡ length xs
  unfolding filter
  length-filter-not p [] = omega arith
  length-filter-not p (x ∷ xs) = ground (arith, length-filter-not p xs)

module _ {A : Type 0} where
  -- `x` stands in the list, by recursion, so that the tactics take it apart.
  abbrev pub In : A → List A → Type 0
  In x [] = ⊥
  In x (y ∷ ys) = (y ≡ x) ⊎ In x ys

  -- No element stands twice.
  abbrev pub Distinct : List A → Type 0
  Distinct [] = Unit
  Distinct (x ∷ xs) = ¬ In x xs × Distinct xs

  pub In-append_left : (x : A) (xs ys : List A) → In x xs → In x (xs ++ ys)
  In-append_left x [] ys m = absurd m
  In-append_left x (y ∷ xs) ys (inl e) = inl e
  In-append_left x (y ∷ xs) ys (inr m) = inr (In-append_left x xs ys m)

  pub In-append_right : (x : A) (xs ys : List A) → In x ys → In x (xs ++ ys)
  In-append_right x [] ys m = m
  In-append_right x (y ∷ xs) ys m = inr (In-append_right x xs ys m)

  pub In-append : (x : A) (xs ys : List A) → In x (xs ++ ys) → In x xs ⊎ In x ys
  In-append x [] ys m = inr m
  In-append x (y ∷ xs) ys (inl e) = inl (inl e)
  In-append x (y ∷ xs) ys (inr m) = elim (In-append x xs ys m) [
    | inl l ↦ inl (inr l)
    | inr r ↦ inr r
  ]

  In-filter→ : (p : A → Bool) (x : A) (xs : List A) → In x (filter p xs) → In x xs × (p x ≡ true)
  unfolding filter
  In-filter→ p x [] m = absurd m
  In-filter→ p x (y ∷ xs) m = ground (arith, In-filter→ p x xs)

  In-filter← : (p : A → Bool) (x : A) (xs : List A) → In x xs → p x ≡ true → In x (filter p xs)
  unfolding filter
  In-filter← p x [] m h = absurd m
  In-filter← p x (y ∷ xs) m h = ground (arith, In-filter← p x xs)

  -- `filter` keeps the elements that pass, and no others.
  pub In-filter :
      (p : A → Bool) (x : A) (xs : List A) → In x (filter p xs) ↔ (In x xs × (p x ≡ true))
  In-filter p x xs = (In-filter→ p x xs, λ h. In-filter← p x xs h.0 h.1)

  pub All-In : (P : A → Type 0) (x : A) (xs : List A) → All P xs → In x xs → P x
  All-In P x [] h m = absurd m
  All-In P x (y ∷ xs) h (inl e) = subst P e h.0
  All-In P x (y ∷ xs) h (inr m) = All-In P x xs h.1 m

  pub In-All : (P : A → Type 0) (xs : List A) → ((x : A) → In x xs → P x) → All P xs
  In-All P [] h = tt
  In-All P (y ∷ xs) h = (h y (inl refl), In-All P xs (λ x m. h x (inr m)))

pub In-map : {A B : Type 0} (f : A → B) (x : A) (xs : List A) → In x xs → In (f x) (map f xs)
In-map f x [] m = absurd m
In-map f x (y ∷ xs) (inl e) = inl (ap f e)
In-map f x (y ∷ xs) (inr m) = inr (In-map f x xs m)

module _ {A : Type 0} where
  -- A filter that everything passes changes nothing.
  pub filter-All : (p : A → Bool) (xs : List A) → All (λ x. p x ≡ true) xs → filter p xs ≡ xs
  unfolding filter
  filter-All p [] h = refl
  filter-All p (x ∷ xs) h = ground (arith, filter-All p xs)
