-- ===== src/Base/Lists.antt =====
-- Lists: native lengths, Boolean searches, and predicates that hold of every element or of one.
use Prim.Native.Nat.{ℕ, zero, suc, ◌+◌, ◌-◌}
use mathlib.Core.Path.{◌≡◌, refl}
use mathlib.Core.Logic.{◌⊎◌, ◌↔◌, inl, inr}
use mathlib.Core.Bool.{Bool, true, false, ◌&&◌, ◌||◌, false≢true, or-true}
use mathlib.Core.List.{List, [], ◌∷◌, ◌++◌, map}
use mathlib.Core.Option.{Option, none, some}
use native.Mathlib.Omega.{arith}
use crispy_garbanzo.Base.Tests.{if◌then◌else◌, Bool-cases}

module _ {ℓ} {A : Type ℓ} where
  abbrev pub length : List A → ℕ
  length [] = 0
  length (x ∷ xs) = suc (length xs)

  abbrev pub drop : ℕ → List A → List A
  drop zero xs = xs
  drop (suc n) [] = []
  drop (suc n) (x ∷ xs) = drop n xs

  abbrev pub last : List A → Option A
  last [] = none
  last (x ∷ []) = some x
  last (x ∷ y ∷ xs) = last (y ∷ xs)

  abbrev pub any : (A → Bool) → List A → Bool
  any p [] = false
  any p (x ∷ xs) = p x || any p xs

  abbrev pub all : (A → Bool) → List A → Bool
  all p [] = true
  all p (x ∷ xs) = p x && all p xs

  -- the elements that a loop with `continue` keeps
  abbrev pub select : (A → Bool) → List A → List A
  select p [] = []
  select p (x ∷ xs) = let rest = select p xs in if p x then x ∷ rest else rest

  -- several lists in a row
  unfoldable pub flatten : List (List A) → List A
  flatten [] = []
  flatten (xs ∷ lists) = xs ++ flatten lists

  pub length-append : (xs ys : List A) → length (xs ++ ys) ≡ length xs + length ys
  length-append [] ys = omega arith
  length-append (x ∷ xs) ys = omega (arith, length-append xs ys)

  pub length-drop : (n : ℕ) (xs : List A) → length (drop n xs) ≡ length xs - n
  length-drop zero xs = omega arith
  length-drop (suc n) [] = omega arith
  length-drop (suc n) (x ∷ xs) = omega (arith, length-drop n xs)

  pub last-concat : (xs : List A) (x : A) → last (xs ++ x ∷ []) ≡ some x
  last-concat [] x = refl
  last-concat (y ∷ []) x = refl
  last-concat (y ∷ z ∷ xs) x = last-concat (z ∷ xs) x

-- A predicate on every element, and on one of them, by recursion.
module _ {ℓ} {A : Type ℓ} (P : A → Type 0) where
  abbrev pub All : List A → Type 0
  All [] = Unit
  All (x ∷ xs) = P x × All xs

  abbrev pub Any : List A → Type 0
  Any [] = ⊥
  Any (x ∷ xs) = P x ⊎ Any xs

  pub All-append : (xs ys : List A) → All xs → All ys → All (xs ++ ys)
  All-append [] ys h k = k
  All-append (x ∷ xs) ys (p, h) k = (p, All-append xs ys h k)

  pub Any-append_left : (xs ys : List A) → Any xs → Any (xs ++ ys)
  Any-append_left [] ys h = absurd h
  Any-append_left (x ∷ xs) ys (inl p) = inl p
  Any-append_left (x ∷ xs) ys (inr h) = inr (Any-append_left xs ys h)

  pub Any-append_right : (xs ys : List A) → Any ys → Any (xs ++ ys)
  Any-append_right [] ys h = h
  Any-append_right (x ∷ xs) ys h = inr (Any-append_right xs ys h)

  pub Any-append : (xs ys : List A) → Any (xs ++ ys) → Any xs ⊎ Any ys
  Any-append [] ys h = inr h
  Any-append (x ∷ xs) ys (inl p) = inl (inl p)
  Any-append (x ∷ xs) ys (inr h) = elim (Any-append xs ys h) [ inl a ↦ inl (inr a) | inr b ↦ inr b ]

-- A Boolean search decides the predicate that its test decides.
module _ {ℓ} {A : Type ℓ} {p : A → Bool} {P : A → Type 0}
    (test : (x : A) → (p x ≡ true) ↔ P x) where
  pub any-Any : (xs : List A) → any p xs ≡ true → Any P xs
  any-Any [] h = absurd (false≢true h)
  any-Any (x ∷ xs) h = elim (Bool-cases (p x)) [
    | inl yes' ↦ inl ((test x).0 yes')
    | inr no' ↦ inr (any-Any xs (ground arith))
  ]

  pub Any-any : (xs : List A) → Any P xs → any p xs ≡ true
  Any-any [] h = absurd h
  Any-any (x ∷ xs) (inl h) = rw ((test x).1 h)
  Any-any (x ∷ xs) (inr h) = rw (Any-any xs h) (or-true (p x))

  pub any_iff : (xs : List A) → (any p xs ≡ true) ↔ Any P xs
  any_iff xs = (any-Any xs, Any-any xs)

module _ {ℓ} {A : Type ℓ} {P Q : A → Type 0} where
  pub Any-map : ((x : A) → P x → Q x) → (xs : List A) → Any P xs → Any Q xs
  Any-map f [] h = h
  Any-map f (x ∷ xs) (inl p) = inl (f x p)
  Any-map f (x ∷ xs) (inr h) = inr (Any-map f xs h)

  pub All-map : ((x : A) → P x → Q x) → (xs : List A) → All P xs → All Q xs
  All-map f [] h = h
  All-map f (x ∷ xs) (p, h) = (f x p, All-map f xs h)

pub Any-const {ℓ} :
    {A : Type ℓ} {P : A → Type 0} {R : Type 0} → ((x : A) → P x → R) → (xs : List A) → Any P xs → R
Any-const f [] h = absurd h
Any-const f (x ∷ xs) (inl p) = f x p
Any-const f (x ∷ xs) (inr h) = Any-const f xs h

pub All-flatten {ℓ} :
    {A : Type ℓ} (P : A → Type 0) (lists : List (List A))
    → All (All P) lists
    → All P (flatten lists)
unfolding flatten
All-flatten P [] h = tt
All-flatten P (xs ∷ lists) (a, h) = All-append P xs (flatten lists) a (All-flatten P lists h)

-- An element of one of the lists that a function makes.
module _ {ℓ κ} {A : Type ℓ} {B : Type κ} (P : B → Type 0) (f : A → List B) where
  pub Any-flat_map : (xs : List A) → Any (λ x. Any P (f x)) xs → Any P (flatten (map f xs))
  unfolding flatten
  Any-flat_map [] h = h
  Any-flat_map (x ∷ xs) (inl p) = Any-append_left P (f x) (flatten (map f xs)) p
  Any-flat_map (x ∷ xs) (inr h) = Any-append_right P (f x) (flatten (map f xs)) (Any-flat_map xs h)

  pub flat_map-Any : (xs : List A) → Any P (flatten (map f xs)) → Any (λ x. Any P (f x)) xs
  unfolding flatten
  flat_map-Any [] h = h
  flat_map-Any (x ∷ xs) h = elim (Any-append P (f x) (flatten (map f xs)) h) [
    | inl p ↦ inl p
    | inr k ↦ inr (flat_map-Any xs k)
  ]
