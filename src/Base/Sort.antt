-- ===== src/Base/Sort.antt =====
-- Go's order on strings and its `sort` package. A sort is stable here, and no theorem depends on it.

use Prim.Native.Char.{code}
use Prim.Native.String.{String}
use mathlib.Core.Path.{◌≡◌, refl, subst}
use mathlib.Core.Logic.{inl, inr}
use mathlib.Core.Bool.{Bool, true, false, ◌||◌, ◌&&◌}
use mathlib.Core.List.{List, [], ◌∷◌}
use native.Mathlib.Omega.{arith}
use crispy_garbanzo.Base.Tests.{if◌then◌else◌, ltb, eqb, Bool-cases}
use crispy_garbanzo.Base.Lists.{All, Any}

-- `s < t`: the order of the bytes of UTF-8 is that of the code points
unfoldable pub text_before : String → String → Bool
text_before String.[] String.[] = false
text_before String.[] (String.◌∷◌ d t) = true
text_before (String.◌∷◌ c s) String.[] = false
text_before (String.◌∷◌ c s) (String.◌∷◌ d t) =
    ltb (code c) (code d) || (eqb (code c) (code d) && text_before s t)

pub text_before_asym : (s t : String) → text_before s t ≡ true → text_before t s ≡ false
unfolding text_before
text_before_asym String.[] String.[] h = refl
text_before_asym String.[] (String.◌∷◌ d t) h = refl
text_before_asym (String.◌∷◌ c s) String.[] h = cc
text_before_asym (String.◌∷◌ c s) (String.◌∷◌ d t) h = ground (arith, text_before_asym s t)

module _ {A : Type 0} (less : A → A → Bool) where
  unfoldable pub place : A → List A → List A
  place x [] = x ∷ []
  place x (y ∷ ys) = let rest = place x ys in if less y x then y ∷ rest else x ∷ y ∷ ys

  unfoldable pub sort : List A → List A
  unfolding place
  sort [] = []
  sort (x ∷ xs) = place x (sort xs)

  -- no element is less than the one before it
  abbrev pub Ascending : List A → Type 0
  Ascending [] = Unit
  Ascending (x ∷ []) = Unit
  Ascending (x ∷ y ∷ xs) = (less y x ≡ false) × Ascending (y ∷ xs)

  pub All-place : (P : A → Type 0) (x : A) (xs : List A) → P x → All P xs → All P (place x xs)
  unfolding place
  All-place P x [] p a = (p, tt)
  All-place P x (y ∷ ys) p (q, a) = elim (Bool-cases (less y x)) [
    | inl lower ↦ rw lower (q, All-place P x ys p a)
    | inr upper ↦ rw upper (p, (q, a))
  ]

  pub All-sort : (P : A → Type 0) (xs : List A) → All P xs → All P (sort xs)
  unfolding sort
  All-sort P [] a = tt
  All-sort P (x ∷ xs) (p, a) = All-place P x (sort xs) p (All-sort P xs a)

  pub Any-place : (P : A → Type 0) (x : A) (xs : List A) → Any P (x ∷ xs) → Any P (place x xs)
  unfolding place
  Any-place P x [] h = h
  Any-place P x (y ∷ ys) (inl p) = elim (Bool-cases (less y x)) [
    | inl lower ↦ rw lower (inr (Any-place P x ys (inl p)))
    | inr upper ↦ rw upper (inl p)
  ]
  Any-place P x (y ∷ ys) (inr (inl q)) = elim (Bool-cases (less y x)) [
    | inl lower ↦ rw lower (inl q)
    | inr upper ↦ rw upper (inr (inl q))
  ]
  Any-place P x (y ∷ ys) (inr (inr a)) = elim (Bool-cases (less y x)) [
    | inl lower ↦ rw lower (inr (Any-place P x ys (inr a)))
    | inr upper ↦ rw upper (inr (inr a))
  ]

  pub Any-sort : (P : A → Type 0) (xs : List A) → Any P xs → Any P (sort xs)
  unfolding sort
  Any-sort P [] h = absurd h
  Any-sort P (x ∷ xs) (inl p) = Any-place P x (sort xs) (inl p)
  Any-sort P (x ∷ xs) (inr a) = Any-place P x (sort xs) (inr (Any-sort P xs a))

  swapped :
      (P : A → Type 0) (x y : A) (ys : List A)
      → Any P (y ∷ place x ys)
      → (Any P (place x ys) → Any P (x ∷ ys))
      → Any P (x ∷ y ∷ ys)
  swapped P x y ys (inl p) ih = inr (inl p)
  swapped P x y ys (inr h) ih = elim (ih h) [ inl p ↦ inl p | inr a ↦ inr (inr a) ]

  place-Any : (P : A → Type 0) (x : A) (xs : List A) → Any P (place x xs) → Any P (x ∷ xs)
  unfolding place
  place-Any P x [] h = h
  place-Any P x (y ∷ ys) h = elim (Bool-cases (less y x)) [
    | inl lower ↦ swapped P x y ys (rw lower at h) (place-Any P x ys)
    | inr upper ↦ rw upper at h
  ]

  pub sort-Any : (P : A → Type 0) (xs : List A) → Any P (sort xs) → Any P xs
  unfolding sort
  sort-Any P [] h = absurd h
  sort-Any P (x ∷ xs) h = elim (place-Any P x (sort xs) h) [
    | inl p ↦ inl p
    | inr a ↦ inr (sort-Any P xs a)
  ]

  module _ (asym : (x y : A) → less x y ≡ true → less y x ≡ false) where
    past :
        (x y : A) (ys : List A)
        → less y x ≡ true
        → Ascending (place x (y ∷ ys))
        → Ascending (y ∷ place x ys)
    unfolding place
    past x y ys l = subst (λ t. Ascending (if t then y ∷ place x ys else x ∷ y ∷ ys)) l

    place_after :
        (x y : A) (ys : List A)
        → less y x ≡ true
        → Ascending (y ∷ ys)
        → Ascending (place x ys)
        → Ascending (y ∷ place x ys)
    unfolding place
    place_after x y [] l a b = (asym y x l, tt)
    place_after x y (z ∷ ys) l (n, a) b = elim (Bool-cases (less z x)) [
      | inl lower ↦ rw lower (n, past x z ys lower b)
      | inr upper ↦ rw upper (asym y x l, (upper, a))
    ]

    place-Ascending : (x : A) (xs : List A) → Ascending xs → Ascending (place x xs)
    unfolding place
    place-Ascending x [] a = tt
    place-Ascending x (y ∷ []) a = elim (Bool-cases (less y x)) [
      | inl lower ↦ rw lower (asym y x lower, tt)
      | inr upper ↦ rw upper (upper, tt)
    ]
    place-Ascending x (y ∷ z ∷ ys) (n, a) = elim (Bool-cases (less y x)) [
      | inl lower ↦ rw lower (place_after x y (z ∷ ys) lower (n, a) (place-Ascending x (z ∷ ys) a))
      | inr upper ↦ rw upper (upper, (n, a))
    ]

    pub sort-Ascending : (xs : List A) → Ascending (sort xs)
    unfolding sort
    sort-Ascending [] = tt
    sort-Ascending (x ∷ xs) = place-Ascending x (sort xs) (sort-Ascending xs)
