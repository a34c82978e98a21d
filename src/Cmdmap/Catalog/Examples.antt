-- ===== src/Cmdmap/Catalog/Examples.antt =====
-- The examples of the catalogue are commands that the table takes.
use crispy_garbanzo.Base.{
  String, ◌<>◌, true, false, List, [], ◌∷◌, ◌++◌, ◌==◌, any, map, ◌≡◌, ◌≢◌, ◌⊎◌, inl, inr, refl,
  sym, ap, ◌∙◌, subst, arith, eq_iff, eq_refl, Bool-cases, All, split, contains_char, trim_space,
  join,
}
use crispy_garbanzo.Cmdmap.Values.{
  is_placeholder, trim_angles, valid_kind, validate_trimmed, validate_value_token,
}
use crispy_garbanzo.Cmdmap.Values.Accepted.{
  Placeholder, is_placeholder_iff, is_placeholder-false, validate_value_token_iff,
}
use crispy_garbanzo.Cmdmap.Paths.{TokenPath}
use crispy_garbanzo.Cmdmap.Paths.Matching.{FitsToken, hole, exact, Fits, done, next}
use crispy_garbanzo.Cmdmap.Paths.Validation.{ValidFor}
use crispy_garbanzo.Cmdmap.Catalog.{
  first_part, sample_token, sample_kind, sample_value, example_tokens, example_for,
}

abbrev Samples : String → Type 0
Samples inner = valid_kind inner (sample_kind inner) ≡ true

at_kind : (k inner : String) → Samples k → (inner == k) ≡ true → Samples inner
at_kind k inner s e = subst Samples (sym ((eq_iff inner k).0 e)) s

free_kind :
    (inner value : String)
    → (inner == "id") ≡ false
    → (inner == "port") ≡ false
    → (inner == "cidr") ≡ false
    → (inner == "ip") ≡ false
    → (inner == "ipv4") ≡ false
    → (inner == "ipv6") ≡ false
    → valid_kind inner value ≡ true
unfolding valid_kind
free_kind inner value a b c d e f = rw (a, b, c, d, e, f)

samples_id : valid_kind "id" (sample_kind "id") ≡ true
unfolding valid_kind sample_kind
samples_id = refl

samples_port : valid_kind "port" (sample_kind "port") ≡ true
unfolding valid_kind sample_kind
samples_port = refl

samples_cidr : valid_kind "cidr" (sample_kind "cidr") ≡ true
unfolding valid_kind sample_kind
samples_cidr = refl

samples_ip : valid_kind "ip" (sample_kind "ip") ≡ true
unfolding valid_kind sample_kind
samples_ip = refl

samples_ipv4 : valid_kind "ipv4" (sample_kind "ipv4") ≡ true
unfolding valid_kind sample_kind
samples_ipv4 = refl

samples_ipv6 : valid_kind "ipv6" (sample_kind "ipv6") ≡ true
unfolding valid_kind sample_kind
samples_ipv6 = refl

sample_kind-valid : (inner : String) → Samples inner
sample_kind-valid inner = elim (Bool-cases (inner == "id")) [
  | inl y0 ↦ at_kind "id" inner samples_id y0
  | inr n0 ↦ elim (Bool-cases (inner == "port")) [
    | inl y1 ↦ at_kind "port" inner samples_port y1
    | inr n1 ↦ elim (Bool-cases (inner == "cidr")) [
      | inl y2 ↦ at_kind "cidr" inner samples_cidr y2
      | inr n2 ↦ elim (Bool-cases (inner == "ip")) [
        | inl y3 ↦ at_kind "ip" inner samples_ip y3
        | inr n3 ↦ elim (Bool-cases (inner == "ipv4")) [
          | inl y4 ↦ at_kind "ipv4" inner samples_ipv4 y4
          | inr n4 ↦ elim (Bool-cases (inner == "ipv6")) [
            | inl y5 ↦ at_kind "ipv6" inner samples_ipv6 y5
            | inr n5 ↦ free_kind inner _ n0 n1 n2 n3 n4 n5
          ]
        ]
      ]
    ]
  ]
]

first_part-any :
    (parts : List String)
    → first_part parts ≢ ""
    → any (λ alt. first_part parts == alt) parts ≡ true
unfolding first_part
first_part-any [] n = absurd (n refl)
first_part-any (p ∷ parts) n = rw (eq_refl p)

sample_value-trimmed :
    (v : String) → v ≢ "" → sample_value v ≢ "" → validate_trimmed v (sample_value v) ≡ true
unfolding sample_value validate_trimmed
sample_value-trimmed v n s = elim (Bool-cases (is_placeholder v)) [
  | inr fixed ↦ rw fixed (ground (arith, eq_iff v "", eq_refl v))
  | inl any_text ↦ elim (Bool-cases (contains_char b'|' (trim_angles v))) [
    | inl bar ↦ ground (
      arith,
      eq_iff v "",
      eq_iff (first_part (split b'|' (trim_angles v))) "",
      first_part-any (split b'|' (trim_angles v)),
    )
    | inr plain ↦ ground (
      arith,
      eq_iff v "",
      eq_iff (sample_kind (trim_angles v)) "",
      sample_kind-valid (trim_angles v),
    )
  ]
]

sample_value-ValidFor :
    (v : String)
    → v ≢ ""
    → sample_value v ≢ ""
    → trim_space (sample_value v) ≡ sample_value v
    → ValidFor v (sample_value v)
sample_value-ValidFor v n s e =
    (validate_value_token_iff v (sample_value v)).0
      (unfold validate_value_token in (ap (validate_trimmed v) e ∙ sample_value-trimmed v n s))

-- A token whose sample is some text, and which has bars only inside "<" and ">".
abbrev pub Sampled : String → Type 0
Sampled t = (sample_token t ≢ "") × (Placeholder t ⊎ (contains_char b'|' t ≡ false))

sample_token-fixed : (t : String) → is_placeholder t ≡ false → sample_token t ≡ t
unfolding sample_token
sample_token-fixed t e = rw e

sample_token-FitsToken : (t : String) → Sampled t → FitsToken t (sample_token t)
sample_token-FitsToken t (n, k) = elim (Bool-cases (is_placeholder t)) [
  | inl any_text ↦ hole ((is_placeholder_iff t).0 any_text) n
  | inr fixed ↦ elim k [
    | inl p ↦ absurd (is_placeholder-false t fixed p)
    | inr plain ↦ exact (is_placeholder-false t fixed) plain (sym (sample_token-fixed t fixed))
  ]
]

sample_tokens-Fits : (ts : List String) → All Sampled ts → Fits ts (map sample_token ts)
sample_tokens-Fits [] a = done
sample_tokens-Fits (t ∷ ts) (s, a) = next (sample_token-FitsToken t s) (sample_tokens-Fits ts a)

example_for-set :
    (tp : TokenPath)
    → (tp.kind == "show") ≡ false
    → (tp.value_token == "") ≡ false
    → example_for tp
      ≡ "set " <> join " " (map sample_token tp.tokens ++ sample_value tp.value_token ∷ [])
unfolding example_for example_tokens
example_for-set tp k n = rw (k, n)

-- The example of an entry for "set", which has a value token and whose samples are texts without spaces
-- around them, is "set ", a path that fits the entry's pattern, and a value that is valid for its value token.
pub example_for-Fits :
    (tp : TokenPath)
    → tp.kind ≡ "set"
    → All Sampled tp.tokens
    → tp.value_token ≢ ""
    → sample_value tp.value_token ≢ ""
    → trim_space (sample_value tp.value_token) ≡ sample_value tp.value_token
    → (path : List String) × (value : String) × (example_for tp
        ≡ "set " <> join " " (path ++ value ∷ []))
      × Fits tp.tokens path
      × ValidFor tp.value_token value
example_for-Fits tp k a n s e = (
  map sample_token tp.tokens,
  sample_value tp.value_token,
  example_for-set tp (ap (λ t. t == "show") k) (ground (arith, eq_iff tp.value_token "")),
  sample_tokens-Fits tp.tokens a,
  sample_value-ValidFor tp.value_token n s e,
)
