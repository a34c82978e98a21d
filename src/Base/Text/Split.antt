-- ===== src/Base/Text/Split.antt =====
-- Splitting a text at a character and joining the parts again.
use Prim.Native.Nat.{ℕ, zero, suc}
use Prim.Native.Char.{Char, code}
use Prim.Native.String.{String, [], ◌∷◌, ◌++◌}
use mathlib.Core.Path.{◌≡◌, refl, ap, ap₂, sym, ◌∙◌}
use mathlib.Core.Logic.{inl, inr}
use mathlib.Core.Bool.{false}
use mathlib.Core.List.{List}
use native.Mathlib.Omega.{arith}
use text.Mathlib.TextEquality.{Char-path}
use text.Mathlib.TextLemmas.{nil-append, cons-append, append_assoc}
use crispy_garbanzo.Base.Tests.{eqb, eqb→eq, Bool-cases}
use crispy_garbanzo.Base.Text.{split, split_n, join, extend_first, contains_char}

abbrev pub IsCons : List String → Type 0
IsCons List.[] = ⊥
IsCons (List.◌∷◌ p ps) = Unit

extend_first-IsCons : (c : Char) (ps : List String) → IsCons (extend_first c ps)
unfolding extend_first
extend_first-IsCons c List.[] = tt
extend_first-IsCons c (List.◌∷◌ p ps) = tt

join-extend_first :
    (sep : String) (c : Char) (ps : List String) → join sep (extend_first c ps) ≡ c ∷ join sep ps
unfolding join extend_first
join-extend_first sep c List.[] = refl
join-extend_first sep c (List.◌∷◌ p List.[]) = refl
join-extend_first sep c (List.◌∷◌ p (List.◌∷◌ q ps)) = cons-append c p _

join-empty_first :
    (c : Char) (ps : List String)
    → IsCons ps
    → join (c ∷ "") (List.◌∷◌ "" ps) ≡ c ∷ join (c ∷ "") ps
unfolding join
join-empty_first c List.[] h = absurd h
join-empty_first c (List.◌∷◌ p ps) h =
    nil-append _ ∙ cons-append c "" _ ∙ ap (λ t. c ∷ t) (nil-append _)

-- A text without the character is its only part.
pub split-plain : (n : ℕ) (s : String) → contains_char n s ≡ false → split n s ≡ List.◌∷◌ s List.[]
unfolding split contains_char extend_first
split-plain n [] h = refl
split-plain n (d ∷ s) h = ground (arith, split-plain n s)

-- A part without the character, in front of it, is the first part of the split.
pub split-append :
    (c : Char) (p s : String)
    → contains_char (code c) p ≡ false
    → split (code c) (p ++ (c ∷ s)) ≡ List.◌∷◌ p (split (code c) s)
unfolding split contains_char extend_first
split-append c [] s h = rw nil-append (ground arith)
split-append c (d ∷ p) s h = rw cons-append (ground (arith, split-append c p s))

pub single-append : (c : Char) (s : String) → (c ∷ "") ++ s ≡ c ∷ s
single-append c s = cons-append c "" s ∙ ap (λ t. c ∷ t) (nil-append s)

module _ (c : Char) where
  pub split-IsCons : (s : String) → IsCons (split (code c) s)
  unfolding split
  split-IsCons [] = tt
  split-IsCons (d ∷ s) = elim (Bool-cases (eqb (code d) (code c))) [
    | inl e ↦ rw e tt
    | inr e ↦ rw e (extend_first-IsCons d (split (code c) s))
  ]

  -- The parts of a split, joined by the character, are the text.
  pub join-split : (s : String) → join (c ∷ "") (split (code c) s) ≡ s
  unfolding split
  join-split [] = unfold join in refl
  join-split (d ∷ s) = elim (Bool-cases (eqb (code d) (code c))) [
    | inl e ↦ rw e (
        join-empty_first c (split (code c) s) (split-IsCons s)
        ∙ ap (λ t. c ∷ t) (join-split s)
        ∙ ap (λ x. x ∷ s) (Char-path c d (sym (eqb→eq _ _ e))))
    | inr e ↦ rw e (join-extend_first _ d _ ∙ ap (λ t. d ∷ t) (join-split s))
  ]

  split_n-IsCons : (k : ℕ) (s : String) → IsCons (split_n k (code c) s)
  unfolding split_n
  split_n-IsCons zero [] = tt
  split_n-IsCons (suc k) [] = tt
  split_n-IsCons zero (d ∷ s) = tt
  split_n-IsCons (suc k) (d ∷ s) = elim (Bool-cases (eqb (code d) (code c))) [
    | inl e ↦ rw e tt
    | inr e ↦ rw e (extend_first-IsCons d (split_n (suc k) (code c) s))
  ]

  pub join-split_n : (k : ℕ) (s : String) → join (c ∷ "") (split_n k (code c) s) ≡ s
  unfolding split_n
  join-split_n zero [] = unfold join in refl
  join-split_n (suc k) [] = unfold join in refl
  join-split_n zero (d ∷ s) = unfold join in refl
  join-split_n (suc k) (d ∷ s) = elim (Bool-cases (eqb (code d) (code c))) [
    | inl e ↦ rw e (
        join-empty_first c (split_n k (code c) s) (split_n-IsCons k s)
        ∙ ap (λ t. c ∷ t) (join-split_n k s)
        ∙ ap (λ x. x ∷ s) (Char-path c d (sym (eqb→eq _ _ e))))
    | inr e ↦ rw e (join-extend_first _ d _ ∙ ap (λ t. d ∷ t) (join-split_n (suc k) s))
  ]

  -- A part without the character, in front of it, is the first part of the split.
  pub split_n-append :
      (k : ℕ) (p s : String)
      → contains_char (code c) p ≡ false
      → split_n (suc k) (code c) (p ++ (c ∷ s)) ≡ List.◌∷◌ p (split_n k (code c) s)
  unfolding split_n contains_char extend_first
  split_n-append k [] s h = rw nil-append (ground arith)
  split_n-append k (d ∷ p) s h = rw cons-append (ground (arith, split_n-append k p s))

  split_n-zero : (s : String) → split_n 0 (code c) s ≡ List.◌∷◌ s List.[]
  unfolding split_n
  split_n-zero [] = refl
  split_n-zero (d ∷ s) = refl

  -- Three parts, of which the first two lack the character, are found again.
  pub split_n_three :
      (p q s : String)
      → contains_char (code c) p ≡ false
      → contains_char (code c) q ≡ false
      → split_n 2 (code c) ((p ++ ((c ∷ "") ++ q)) ++ ((c ∷ "") ++ s))
        ≡ List.◌∷◌ p (List.◌∷◌ q (List.◌∷◌ s List.[]))
  split_n_three p q s hp hq =
      ap (split_n 2 (code c)) (
        ap₂ (λ x y. (p ++ x) ++ y) (single-append c q) (single-append c s)
        ∙ append_assoc p (c ∷ q) (c ∷ s)
        ∙ ap (λ t. p ++ t) (cons-append c q (c ∷ s)))
      ∙ split_n-append 1 p (q ++ (c ∷ s)) hp
      ∙ ap (List.◌∷◌ p) (split_n-append 0 q s hq ∙ ap (List.◌∷◌ q) (split_n-zero s))
