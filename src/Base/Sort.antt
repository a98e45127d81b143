-- ===== src/Base/Sort.antt =====
-- Python's `sorted`: a stable sort by a test `before`, which says that its first argument may
-- stand in front of its second.
use Prim.Native.Nat.{ℕ, suc}
use mathlib.Core.Path.{◌≡◌, refl, subst}
use mathlib.Core.Bool.{Bool, true, false}
use mathlib.Core.Logic.{◌⊎◌, ◌↔◌, inl, inr}
use mathlib.Core.List.{List, [], ◌∷◌, ◌++◌}
use native.Mathlib.Omega.{arith}
use cassandra_medusa.Base.Tests.{leb, if◌then◌else◌, Bool-cases}
use cassandra_medusa.Base.Lists.{length, In, All, All-In, In-append_right}
use cassandra_medusa.Base.Text.{Text, text_eq}

-- The element goes in front of the first that it may stand before, so equal ones keep their order.
unfoldable pub insert_sorted {ℓ} : {A : Type ℓ} → (A → A → Bool) → A → List A → List A
insert_sorted before x [] = x ∷ []
insert_sorted before x (y ∷ ys) = if before x y then x ∷ y ∷ ys else y ∷ insert_sorted before x ys

unfoldable pub sorted {ℓ} : {A : Type ℓ} → (A → A → Bool) → List A → List A
unfolding insert_sorted
sorted before [] = []
sorted before (x ∷ xs) = insert_sorted before x (sorted before xs)

module _ {ℓ} {A : Type ℓ} (before : A → A → Bool) where
  length-insert_sorted :
      (x : A) (xs : List A) → length (insert_sorted before x xs) ≡ suc (length xs)
  unfolding insert_sorted
  length-insert_sorted x [] = refl
  length-insert_sorted x (y ∷ ys) = ground (arith, length-insert_sorted x ys)

  pub length-sorted : (xs : List A) → length (sorted before xs) ≡ length xs
  unfolding sorted
  length-sorted [] = refl
  length-sorted (x ∷ xs) =
      omega (arith, length-insert_sorted x (sorted before xs), length-sorted xs)

module _ {A : Type 0} (before : A → A → Bool) where
  pub In-insert_sorted :
      (z x : A) (xs : List A) → In z (insert_sorted before x xs) ↔ ((x ≡ z) ⊎ In z xs)
  unfolding insert_sorted
  In-insert_sorted z x [] = ground arith
  In-insert_sorted z x (y ∷ ys) = ground (arith, In-insert_sorted z x ys)

  -- `sorted` loses and invents nothing.
  pub In-sorted : (z : A) (xs : List A) → In z (sorted before xs) ↔ In z xs
  unfolding sorted
  In-sorted z [] = ground arith
  In-sorted z (x ∷ xs) = ground (arith, In-insert_sorted z x (sorted before xs), In-sorted z xs)

  abbrev pub Below : A → List A → Type 0
  Below x xs = All (λ y. before x y ≡ true) xs

  abbrev pub IsSorted : List A → Type 0
  IsSorted [] = Unit
  IsSorted (x ∷ xs) = Below x xs × IsSorted xs

  module _ (trans : (x y z : A) → before x y ≡ true → before y z ≡ true → before x z ≡ true)
      (total : (x y : A) → before x y ≡ false → before y x ≡ true) where
    Below-trans : (x y : A) (ys : List A) → before x y ≡ true → Below y ys → Below x ys
    Below-trans x y [] h b = tt
    Below-trans x y (z ∷ zs) h b = (trans x y z h b.0, Below-trans x y zs h b.1)

    Below-insert_sorted :
        (x y : A) (ys : List A)
        → before x y ≡ true
        → Below x ys
        → Below x (insert_sorted before y ys)
    unfolding insert_sorted
    Below-insert_sorted x y [] h b = (h, tt)
    Below-insert_sorted x y (z ∷ zs) h b = ground (arith, Below-insert_sorted x y zs)

    insert_sorted-IsSorted :
        (x : A) (xs : List A) → IsSorted xs → IsSorted (insert_sorted before x xs)
    unfolding insert_sorted
    insert_sorted-IsSorted x [] s = (tt, tt)
    insert_sorted-IsSorted x (y ∷ ys) s = elim (Bool-cases (before x y)) [
      | inl e ↦ rw e ((e, Below-trans x y ys e s.0), s)
      | inr e ↦ rw e (Below-insert_sorted y x ys (total x y e) s.0, insert_sorted-IsSorted x ys s.1)
    ]

    -- `sorted` orders by the test.
    pub sorted-IsSorted : (xs : List A) → IsSorted (sorted before xs)
    unfolding sorted
    sorted-IsSorted [] = tt
    sorted-IsSorted (x ∷ xs) = insert_sorted-IsSorted x (sorted before xs) (sorted-IsSorted xs)

-- `itertools.groupby`: the runs of equal keys.
abbrev add_to_group {ℓ} : {A : Type ℓ} → Text → A → List (Text × List A) → List (Text × List A)
add_to_group k x [] = (k, x ∷ []) ∷ []
add_to_group k x ((j, xs) ∷ gs) =
    if text_eq j k then (k, x ∷ xs) ∷ gs else (k, x ∷ []) ∷ (j, xs) ∷ gs

unfoldable pub groupby {ℓ} : {A : Type ℓ} → (A → Text) → List A → List (Text × List A)
groupby key [] = []
groupby key (x ∷ xs) = add_to_group (key x) x (groupby key xs)

-- In a sorted list what stands in front comes before what stands behind.
pub IsSorted-append :
    {A : Type 0} (before : A → A → Bool) (xs ys : List A) (p q : A)
    → IsSorted before (xs ++ ys)
    → In p xs
    → In q ys
    → before p q ≡ true
IsSorted-append before [] ys p q s m n = absurd m
IsSorted-append before (x ∷ xs) ys p q s (inl e) n =
    subst (λ z. before z q ≡ true) e
      (All-In (λ y. before x y ≡ true) q (xs ++ ys) s.0 (In-append_right q xs ys n))
IsSorted-append before (x ∷ xs) ys p q s (inr m) n = IsSorted-append before xs ys p q s.1 m n

-- Sorting by a number.
pub sorted_by_key-IsSorted :
    {A : Type 0} (key : A → ℕ) (xs : List A)
    → IsSorted (λ a b. leb (key a) (key b)) (sorted (λ a b. leb (key a) (key b)) xs)
sorted_by_key-IsSorted key xs =
    sorted-IsSorted (λ a b. leb (key a) (key b)) (λ x y z h k. ground arith) (λ x y h. ground arith)
      xs
