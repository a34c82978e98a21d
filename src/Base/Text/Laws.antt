-- ===== src/Base/Text/Laws.antt =====
-- Prefixes, suffixes, and case mapping.
use Prim.Native.Nat.{ℕ, ◌-◌}
use Prim.Native.Char.{Char, code}
use Prim.Native.String.{String, [], ◌∷◌, char_at, ◌++◌}
use mathlib.Core.Path.{◌≡◌, refl, ap, ap₂, sym, ◌∙◌}
use mathlib.Core.Logic.{inl, inr}
use mathlib.Core.Bool.{Bool, true, false, not, ◌||◌, false≢true}
use native.Mathlib.Omega.{arith}
use text.Mathlib.Text.{◌==◌}
use text.Mathlib.TextEquality.{eq_iff, Char-path}
use text.Mathlib.TextPositions.{eq_refl}
use text.Mathlib.TextLemmas.{nil-append, cons-append}
use crispy_garbanzo.Base.Tests.{eqb, eqb→eq, and-split, Bool-cases, all_below, all_below_sound}
use crispy_garbanzo.Base.Text.{has_prefix, has_suffix, lower_char, to_lower, is_upper}

pub has_prefix-nil : (s : String) → has_prefix s "" ≡ true
unfolding has_prefix
has_prefix-nil [] = refl
has_prefix-nil (c ∷ s) = refl

pub has_prefix-append : (p s : String) → has_prefix (p ++ s) p ≡ true
unfolding has_prefix
has_prefix-append [] s = has_prefix-nil ("" ++ s)
has_prefix-append (c ∷ p) s = rw cons-append (ground (arith, has_prefix-append p s))

-- A text with a prefix is the prefix and a rest.
pub has_prefix-split : (s p : String) → has_prefix s p ≡ true → (r : String) × (s ≡ p ++ r)
unfolding has_prefix
has_prefix-split [] [] h = ("", sym (nil-append ""))
has_prefix-split (c ∷ s) [] h = (c ∷ s, sym (nil-append (c ∷ s)))
has_prefix-split [] (d ∷ p) h = absurd (false≢true h)
has_prefix-split (c ∷ s) (d ∷ p) h =
    let (same, rest) = and-split (eqb (code c) (code d)) (has_prefix s p) h in
    let (r, e) = has_prefix-split s p rest in
    (r, ap₂ (λ x y. x ∷ y) (Char-path c d (eqb→eq _ _ same)) e ∙ sym (cons-append d p r))

pub has_suffix_refl : (t : String) → has_suffix t t ≡ true
unfolding has_suffix
has_suffix_refl [] = eq_refl ""
has_suffix_refl (c ∷ t) = rw (eq_refl (c ∷ t))

pub has_suffix-cons :
    (c : Char) (s t : String) → has_suffix s t ≡ true → has_suffix (c ∷ s) t ≡ true
unfolding has_suffix
has_suffix-cons c s t h = ground arith

or-right : (a b : Bool) → a ≡ false → (a || b) ≡ true → b ≡ true
or-right a b e h = ground arith

not-eq-true : (b : Bool) → not b ≡ true → b ≡ false
not-eq-true b h = ground arith

lower_char_of_upper :
    (c : Char)
    → is_upper (code c) ≡ true
    → lower_char c ≡ char_at "abcdefghijklmnopqrstuvwxyz" (code c - 65)
unfolding lower_char
lower_char_of_upper c h = rw h

lower_char_of_other : (c : Char) → is_upper (code c) ≡ false → lower_char c ≡ c
unfolding lower_char
lower_char_of_other c h = rw h

pub has_suffix-append : (s t : String) → has_suffix (s ++ t) t ≡ true
has_suffix-append [] t = rw nil-append (has_suffix_refl t)
has_suffix-append (c ∷ s) t = rw cons-append (has_suffix-cons c _ t (has_suffix-append s t))

-- A text with a suffix is a beginning and the suffix.
pub has_suffix-split : (s t : String) → has_suffix s t ≡ true → (u : String) × (s ≡ u ++ t)
unfolding has_suffix
has_suffix-split [] t h = ("", (eq_iff "" t).0 h ∙ sym (nil-append t))
has_suffix-split (c ∷ s) t h = elim (Bool-cases (c ∷ s == t)) [
  | inl e ↦ ("", (eq_iff (c ∷ s) t).0 e ∙ sym (nil-append t))
  | inr e ↦
      let (u, p) = has_suffix-split s t (or-right _ _ e h) in
      (c ∷ u, ap (λ r. c ∷ r) p ∙ sym (cons-append c u t))
]

lowered : ℕ → Bool
lowered k = not (is_upper (code (char_at "abcdefghijklmnopqrstuvwxyz" k)))

letters_lower : all_below 26 lowered ≡ true
unfolding all_below is_upper lowered
letters_lower = refl

letter_lower : (n : ℕ) → is_upper n ≡ true → lowered (n - 65) ≡ true
unfolding is_upper
letter_lower n h = all_below_sound 26 lowered (n - 65) letters_lower (ground arith)

lower_char-lower : (c : Char) → is_upper (code (lower_char c)) ≡ false
lower_char-lower c = elim (Bool-cases (is_upper (code c))) [
  | inl u ↦ rw (lower_char_of_upper c u) (not-eq-true _ (unfold lowered in letter_lower (code c) u))
  | inr l ↦ rw (lower_char_of_other c l) l
]

pub lower_char_idem : (c : Char) → lower_char (lower_char c) ≡ lower_char c
lower_char_idem c = lower_char_of_other (lower_char c) (lower_char-lower c)

pub to_lower_idem : (s : String) → to_lower (to_lower s) ≡ to_lower s
unfolding to_lower
to_lower_idem [] = refl
to_lower_idem (c ∷ s) =
    ap₂ (λ x y. x ∷ y) (unfold lower_char in lower_char_idem c) (to_lower_idem s)
