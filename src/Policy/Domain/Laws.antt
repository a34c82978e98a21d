-- ===== src/Policy/Domain/Laws.antt =====
-- What a domain pattern covers, and what is left of a host.
use Prim.Native.String.{◌∷◌}
use text.Mathlib.TextLemmas.{nil-append, cons-append}
use crispy_garbanzo.Base.{
  String, true, false, ◌≡◌, ◌↔◌, inl, inr, ap, ◌∙◌, arith, eq_iff, ◌<>◌, ◌==◌, Bool-cases,
  has_prefix, drop_chars, to_lower,
}
use crispy_garbanzo.Base.Text.Laws.{
  has_prefix-split, has_prefix-append, has_suffix-split, has_suffix-append,
}
use crispy_garbanzo.Policy.Domain.{match_domain}

-- What a pattern in lower case covers: any host; a base domain and what ends in a dot and it; or
-- itself alone.
pub data Covers (p host : String) : Type 0 where
  star : p ≡ "*" → Covers p host
  apex : (base : String) → p ≡ "*." <> base → host ≡ base → Covers p host
  sub : (base u : String) → p ≡ "*." <> base → host ≡ u <> ("." <> base) → Covers p host
  exact : has_prefix p "*." ≡ false → host ≡ p → Covers p host

pub drop_wild : (base : String) → drop_chars 2 ("*." <> base) ≡ base
unfolding drop_chars
drop_wild base = ap (drop_chars 2) (
    cons-append "*" "." base
    ∙ ap (λ t. "*" ∷ t) (cons-append "." "" base ∙ ap (λ t. "." ∷ t) (nil-append base)))

drop_star : (base : String) → drop_chars 1 ("*." <> base) ≡ "." <> base
unfolding drop_chars
drop_star base = ap (drop_chars 1) (cons-append "*" "." base)

match_domain-Covers :
    (host pattern : String) → match_domain host pattern ≡ true → Covers (to_lower pattern) host
match_domain-Covers host pattern h = elim (Bool-cases (to_lower pattern == "*")) [
  | inl all ↦ star ((eq_iff _ _).0 all)
  | inr some ↦ elim (Bool-cases (has_prefix (to_lower pattern) "*.")) [
    | inl wild ↦
        let (base, e) = has_prefix-split (to_lower pattern) "*." wild in
        let d2 : drop_chars 2 (to_lower pattern) ≡ base = ap (drop_chars 2) e ∙ drop_wild base in
        let d1 : drop_chars 1 (to_lower pattern) ≡ "." <> base =
          ap (drop_chars 1) e ∙ drop_star base in
        elim (Bool-cases (host == drop_chars 2 (to_lower pattern))) [
          | inl same ↦ apex base e ((eq_iff _ _).0 same ∙ d2)
          | inr other ↦
              let (u, k) =
                has_suffix-split host ("." <> base) (unfold match_domain in ground (arith, d1)) in
              sub base u e k
        ]
    | inr plain ↦
        exact plain (unfold match_domain in ground (arith, eq_iff host (to_lower pattern)))
  ]
]

module _ (host pattern base : String) (e : to_lower pattern ≡ "*." <> base) where
  wild_prefix : has_prefix (to_lower pattern) "*." ≡ true
  wild_prefix = rw e (has_prefix-append "*." base)

  wild_apex : drop_chars 2 (to_lower pattern) ≡ base
  wild_apex = ap (drop_chars 2) e ∙ drop_wild base

  wild_dot : drop_chars 1 (to_lower pattern) ≡ "." <> base
  wild_dot = ap (drop_chars 1) e ∙ drop_star base

Covers-match_domain :
    (host pattern : String) → Covers (to_lower pattern) host → match_domain host pattern ≡ true
unfolding match_domain
Covers-match_domain host pattern (star e) = ground (arith, eq_iff (to_lower pattern) "*")
Covers-match_domain host pattern (apex base e k) = ground (
  arith,
  wild_prefix host pattern base e,
  wild_apex host pattern base e,
  eq_iff host (drop_chars 2 (to_lower pattern)),
)
Covers-match_domain host pattern (sub base u e k) = ground (
  arith,
  wild_prefix host pattern base e,
  wild_dot host pattern base e,
  has_suffix-append u ("." <> base),
)
Covers-match_domain host pattern (exact e k) = ground (arith, eq_iff host (to_lower pattern))

-- A host matches a pattern exactly when the pattern in lower case covers it: the pattern is "*", or
-- it is "*." and a base domain that the host equals or ends in behind a dot, or it does not begin
-- with "*." and equals the host.
pub match_domain_iff :
    (host pattern : String) → (match_domain host pattern ≡ true) ↔ Covers (to_lower pattern) host
match_domain_iff host pattern = (match_domain-Covers host pattern, Covers-match_domain host pattern)
