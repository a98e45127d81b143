-- ===== src/Base/Text.antt =====
-- Texts as lists of code points, with the `str` methods that the program calls.
use Prim.Native.Char.{code}
use Prim.Native.String.{String}
use Prim.Native.Nat.{ℕ, zero, suc, ◌+◌, ◌-◌, ◌*◌, ◌/◌, ◌%◌}
use mathlib.Core.Path.{◌≡◌, refl, subst}
use mathlib.Core.Logic.{◌⊎◌, ◌↔◌, inl, inr}
use mathlib.Core.Bool.{Bool, true, false, ◌&&◌, ◌||◌, false≢true}
use mathlib.Core.List.{List, [], ◌∷◌, ◌++◌}
use mathlib.Core.Option
use mathlib.Core.Option.{Option, none, some}
use native.Mathlib.Omega.{arith}
use cassandra_medusa.Base.Tests.{ltb, ◌==◌, if◌then◌else◌, Bool-cases}
use cassandra_medusa.Base.Lists.{length, In, filter, In-append, In-append_left, In-append_right}

abbrev pub Text : Type 0
Text = List ℕ

abbrev pub codes : String → Text
codes String.[] = []
codes (String.◌∷◌ c s) = code c ∷ codes s

-- `s == t`
unfoldable pub text_eq : Text → Text → Bool
text_eq [] [] = true
text_eq (a ∷ s) (b ∷ t) = (a == b) && text_eq s t
text_eq _ _ = false

pub text_eq_refl : (s : Text) → text_eq s s ≡ true
unfolding text_eq
text_eq_refl [] = refl
text_eq_refl (a ∷ s) = ground (arith, text_eq_refl s)

pub text_eq→eq : (s t : Text) → text_eq s t ≡ true → s ≡ t
unfolding text_eq
text_eq→eq [] [] h = refl
text_eq→eq [] (b ∷ t) h = ground arith
text_eq→eq (a ∷ s) [] h = ground arith
text_eq→eq (a ∷ s) (b ∷ t) h = ground (arith, text_eq→eq s t)

pub text_eq_iff : (s t : Text) → (text_eq s t ≡ true) ↔ (s ≡ t)
text_eq_iff s t = (text_eq→eq s t, λ e. rw e (text_eq_refl t))

-- `s.startswith(p)`
unfoldable pub starts_with : Text → Text → Bool
starts_with s [] = true
starts_with [] (b ∷ p) = false
starts_with (a ∷ s) (b ∷ p) = (a == b) && starts_with s p

-- `p in s`
unfoldable pub contains : Text → Text → Bool
unfolding starts_with
contains p [] = starts_with [] p
contains p (a ∷ s) = starts_with (a ∷ s) p || contains p s

-- `s.endswith(p)`
unfoldable pub ends_with : Text → Text → Bool
unfolding text_eq
ends_with [] p = text_eq [] p
ends_with (a ∷ s) p = text_eq (a ∷ s) p || ends_with s p

-- `x in l` for a list or a set of texts
unfoldable pub mem : Text → List Text → Bool
mem x [] = false
mem x (y ∷ l) = text_eq y x || mem x l

pub mem→In : (x : Text) (l : List Text) → mem x l ≡ true → In x l
unfolding mem
mem→In x [] h = absurd (false≢true h)
mem→In x (y ∷ l) h = elim (Bool-cases (text_eq y x)) [
  | inl e ↦ inl (text_eq→eq y x e)
  | inr e ↦ inr (mem→In x l (ground arith))
]

pub In→mem : (x : Text) (l : List Text) → In x l → mem x l ≡ true
unfolding mem
In→mem x [] m = absurd m
In→mem x (y ∷ l) (inl e) = rw ((text_eq_iff y x).1 e)
In→mem x (y ∷ l) (inr m) = ground (arith, In→mem x l m)

-- A Python set of texts, in the order of insertion: `s.add(x)`.
unfoldable pub set_add : Text → List Text → List Text
unfolding mem
set_add x s = if mem x s then s else s ++ (x ∷ [])

set_add→In : (z x : Text) (s : List Text) → In z (set_add x s) → (x ≡ z) ⊎ In z s
unfolding set_add
set_add→In z x s = ground (arith, In-append z s (x ∷ []))

In→set_add : (z x : Text) (s : List Text) → (x ≡ z) ⊎ In z s → In z (set_add x s)
unfolding set_add
In→set_add z x s (inl e) = elim (Bool-cases (mem x s)) [
  | inl b ↦ rw b (subst (λ t. In t s) e (mem→In x s b))
  | inr b ↦ rw b (In-append_right z s (x ∷ []) (inl e))
]
In→set_add z x s (inr m) = ground (arith, In-append_left z s (x ∷ []))

pub In-set_add : (z x : Text) (s : List Text) → In z (set_add x s) ↔ ((x ≡ z) ⊎ In z s)
In-set_add z x s = (set_add→In z x s, In→set_add z x s)

-- The characters before the first `c`: `s.split(c)[0]`.
unfoldable pub before_char : ℕ → Text → Text
before_char c [] = []
before_char c (a ∷ s) = if a == c then [] else a ∷ before_char c s

-- The order of Python on texts, by code points.
unfoldable pub leb_text : Text → Text → Bool
leb_text [] t = true
leb_text (a ∷ s) [] = false
leb_text (a ∷ s) (b ∷ t) = if a == b then leb_text s t else ltb a b

-- `s.split(c)`, and `'c'.join(parts)`
abbrev pub push_char : ℕ → List Text → List Text
push_char a [] = (a ∷ []) ∷ []
push_char a (p ∷ ps) = (a ∷ p) ∷ ps

unfoldable pub split : ℕ → Text → List Text
split c [] = [] ∷ []
split c (a ∷ s) = let rest = split c s in if a == c then [] ∷ rest else push_char a rest

unfoldable pub join : Text → List Text → Text
join sep [] = []
join sep (p ∷ []) = p
join sep (p ∷ q ∷ ps) = p ++ sep ++ join sep (q ∷ ps)

-- `a / b` of pathlib for relative paths; the empty text is the path '.'.
unfoldable pub path_join : Text → Text → Text
path_join [] b = b
path_join (c ∷ a) b = (c ∷ a) ++ codes "/" ++ b

-- The text before the suffix `suf`, if it ends in it.
unfoldable pub strip_suffix : Text → Text → Option Text
unfolding text_eq
strip_suffix suf [] = if text_eq [] suf then some [] else none
strip_suffix suf (a ∷ s) =
    let rest = strip_suffix suf s in
    if text_eq (a ∷ s) suf then some [] else Option.map (◌∷◌ a) rest

-- `s.replace(old, '')` for a text `old` that is not empty; `skip` characters are still to drop.
remove_from : Text → ℕ → Text → Text
unfolding starts_with
remove_from old skip [] = []
remove_from old (suc skip) (a ∷ s) = remove_from old skip s
remove_from old zero (a ∷ s) =
    let dropped = remove_from old (length old - 1) s in
    let kept = remove_from old zero s in if starts_with (a ∷ s) old then dropped else a ∷ kept

unfoldable pub remove_all_of : Text → Text → Text
unfolding remove_from
remove_all_of old s = remove_from old 0 s

-- `str(n)`
digits_from : ℕ → ℕ → Text → Text
digits_from zero n acc = acc
digits_from (suc fuel) n acc =
    let acc' = (48 + n % 10) ∷ acc in
    let rest = digits_from fuel (n / 10) acc' in if ltb n 10 then acc' else rest

unfoldable pub decimal : ℕ → Text
unfolding digits_from
decimal n = digits_from (suc n) n []

-- `int(s)`, where `s` is all digits
unfoldable pub int_of : Text → ℕ → ℕ
int_of [] acc = acc
int_of (c ∷ s) acc = int_of s (acc * 10 + (c - 48))

-- A filtered list has the members that pass.
pub mem-filter :
    (p : Text → Bool) (x : Text) (l : List Text) → mem x (filter p l) ≡ (mem x l && p x)
unfolding mem filter
mem-filter p x [] = refl
mem-filter p x (y ∷ l) = ground (arith, mem-filter p x l, text_eq_iff y x, Bool-cases (p y))

pub mem-append : (x : Text) (l m : List Text) → mem x (l ++ m) ≡ (mem x l || mem x m)
unfolding mem
mem-append x [] m = refl
mem-append x (y ∷ l) m = ground (arith, mem-append x l m)

pub starts_with_trans :
    (s t u : Text) → starts_with s t ≡ true → starts_with t u ≡ true → starts_with s u ≡ true
unfolding starts_with
starts_with_trans s t [] h k = starts_with_nil s
  where
    starts_with_nil : (r : Text) → starts_with r [] ≡ true
    starts_with_nil [] = refl
    starts_with_nil (a ∷ r) = refl
starts_with_trans s [] (c ∷ u) h k = absurd (false≢true k)
starts_with_trans [] (b ∷ t) (c ∷ u) h k = absurd (false≢true h)
starts_with_trans (a ∷ s) (b ∷ t) (c ∷ u) h k = ground (arith, starts_with_trans s t u)
