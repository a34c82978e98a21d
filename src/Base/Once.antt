-- ===== src/Base/Once.antt =====
-- A list that a loop extends by the texts that it has not seen, and what such a list holds.
use Prim.Native.String.{String}
use mathlib.Core.Path.{◌≡◌, refl, sym, ap, ◌∙◌}
use mathlib.Core.Logic.{inl, inr}
use mathlib.Core.Bool.{Bool, true, false, ◌||◌}
use mathlib.Core.List.{List, [], ◌∷◌, ◌++◌}
use native.Mathlib.Omega.{arith}
use text.Mathlib.Text.{◌==◌}
use text.Mathlib.TextEquality.{eq_iff}
use crispy_garbanzo.Base.Tests.{if◌then◌else◌, Bool-cases}
use crispy_garbanzo.Base.Lists.{any}

-- a text goes to the end of a list that does not have it
unfoldable pub add_once : String → List String → List String
add_once name seen = if any (λ s. s == name) seen then seen else seen ++ name ∷ []

abbrev pub Distinct : List String → Type 0
Distinct [] = Unit
Distinct (s ∷ names) = (any (λ t. t == s) names ≡ false) × Distinct names

abbrev pub mem : String → List String → Bool
mem n names = any (λ s. s == n) names

pub any-snoc :
    (p : String → Bool) (names : List String) (s : String)
    → any p (names ++ s ∷ []) ≡ (any p names || p s)
any-snoc p [] s = ground arith
any-snoc p (t ∷ names) s = ground (arith, any-snoc p names s)

pub mem-add_once :
    (n name : String) (seen : List String) → mem n (add_once name seen) ≡ (mem n seen || name == n)
unfolding add_once
mem-add_once n name seen = elim (Bool-cases (any (λ s. s == name) seen)) [
  | inl old ↦ elim (Bool-cases (name == n)) [
    | inl same ↦
        let e : name ≡ n = (eq_iff name n).0 same in
        let found : mem n seen ≡ true = ap (λ (t : String). mem t seen) (sym e) ∙ old in
        ground arith
    | inr other ↦ rw old (ground arith)
  ]
  | inr new ↦ rw new (any-snoc (λ s. s == n) seen name)
]

Distinct-snoc :
    (names : List String) (s : String)
    → any (λ t. t == s) names ≡ false
    → Distinct names
    → Distinct (names ++ s ∷ [])
Distinct-snoc [] s new d = (refl, tt)
Distinct-snoc (t ∷ names) s new (fresh, d) = (
  any-snoc (λ u. u == t) names s ∙ ground (arith, eq_iff t s, eq_iff s t),
  Distinct-snoc names s (ground arith) d,
)

pub Distinct-add_once :
    (name : String) (seen : List String) → Distinct seen → Distinct (add_once name seen)
unfolding add_once
Distinct-add_once name seen d = elim (Bool-cases (any (λ s. s == name) seen)) [
  | inl old ↦ rw old d
  | inr new ↦ rw new (Distinct-snoc seen name new d)
]
