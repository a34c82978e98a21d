-- ===== src/Cmdmap/Values/Accepted.antt =====
-- Which values a value token accepts.

use crispy_garbanzo.Base.{
  is_digit, some_chars, String, ◌<>◌, Bool, true, false, ◌==◌, ◌≡◌, ◌≢◌, ◌⊎◌, ◌↔◌, inl, inr, refl,
  sym, ap, ◌∙◌, arith, eq_iff, Bool-cases, and-split, Any, any_iff, split, contains_char,
  has_prefix, has_suffix, trim_space,
}
use mathlib.Core.Bool.{false≢true}
use crispy_garbanzo.Base.Text.Laws.{
  has_prefix-split, has_prefix-append, has_suffix-split, has_suffix-append,
}
use crispy_garbanzo.Cmdmap.Values.Words.{Word, Cidr, some_chars_iff, cidr_parts-split_iff}
use crispy_garbanzo.Cmdmap.Values.{
  is_address_char, cidr_parts, valid_kind, trim_angles, is_placeholder, validate_trimmed,
  validate_value_token,
}

-- A token that stands for any text: it begins with "<" and ends in ">".
abbrev pub Placeholder : String → Type 0
Placeholder t = ((u : String) × (t ≡ "<" <> u)) × ((u : String) × (t ≡ u <> ">"))

pub is_placeholder_iff : (t : String) → (is_placeholder t ≡ true) ↔ Placeholder t
unfolding is_placeholder
is_placeholder_iff t = (
  λ h.
      let (p, s) = and-split (has_prefix t "<") (has_suffix t ">") h in
      (has_prefix-split t "<" p, has_suffix-split t ">" s),
  λ ((u, e), (w, f)).
      let p : has_prefix t "<" ≡ true = ap (λ s. has_prefix s "<") e ∙ has_prefix-append "<" u in
      let s : has_suffix t ">" ≡ true = ap (λ s. has_suffix s ">") f ∙ has_suffix-append w ">" in
      ground arith,
)

pub is_placeholder-false : (t : String) → is_placeholder t ≡ false → ¬ Placeholder t
is_placeholder-false t e p = false≢true (sym e ∙ (is_placeholder_iff t).1 p)

-- What the name of a placeholder asks of a value.
pub record HasKind (inner value : String) : Type 0 where
  pub digits : (inner ≡ "id") ⊎ (inner ≡ "port") → Word is_digit value
  pub cidr : inner ≡ "cidr" → Cidr value
  pub address : (inner ≡ "ip") ⊎ ((inner ≡ "ipv4") ⊎ (inner ≡ "ipv6")) → Word is_address_char value

-- A value, without the spaces around it, is one for a value token.
pub data FitsValue (token value : String) : Type 0 where
  unchecked : token ≡ "" → FitsValue token value
  choice :
      Placeholder token
      → contains_char b'|' (trim_angles token) ≡ true
      → Any (λ alt. value ≡ alt) (split b'|' (trim_angles token))
      → FitsValue token value
  kind :
      Placeholder token
      → contains_char b'|' (trim_angles token) ≡ false
      → HasKind (trim_angles token) value
      → FitsValue token value
  exact : ¬ Placeholder token → token ≢ "" → value ≡ token → FitsValue token value

abbrev IsAddress : String → Type 0
IsAddress inner = (inner ≡ "ip") ⊎ ((inner ≡ "ipv4") ⊎ (inner ≡ "ipv6"))

address_test :
    (inner value : String)
    → IsAddress inner
    → valid_kind inner value ≡ some_chars is_address_char value
unfolding valid_kind
address_test inner value (inl e) = rw e
address_test inner value (inr (inl e)) = rw e
address_test inner value (inr (inr e)) = rw e

digit_test :
    (inner value : String)
    → (inner ≡ "id") ⊎ (inner ≡ "port")
    → valid_kind inner value ≡ some_chars is_digit value
unfolding valid_kind
digit_test inner value (inl e) = rw e
digit_test inner value (inr e) = rw e

cidr_test : (value : String) → valid_kind "cidr" value ≡ cidr_parts (split b'/' value)
unfolding valid_kind
cidr_test value = refl

valid_kind-HasKind : (inner value : String) → valid_kind inner value ≡ true → HasKind inner value
valid_kind-HasKind inner value h = record {
  digits = λ k. (some_chars_iff is_digit value).0 (sym (digit_test inner value k) ∙ h);
  cidr = λ k.
      (cidr_parts-split_iff value).0
        (sym (cidr_test value) ∙ (sym (ap (λ i. valid_kind i value) k) ∙ h));
  address = λ k. (some_chars_iff is_address_char value).0 (sym (address_test inner value k) ∙ h);
}

HasKind-valid_kind : (inner value : String) → HasKind inner value → valid_kind inner value ≡ true
unfolding valid_kind
HasKind-valid_kind inner value k = ground (
  arith,
  eq_iff inner "id",
  eq_iff inner "port",
  eq_iff inner "cidr",
  eq_iff inner "ip",
  eq_iff inner "ipv4",
  eq_iff inner "ipv6",
  k.digits,
  k.cidr,
  k.address,
  some_chars_iff is_digit value,
  cidr_parts-split_iff value,
  some_chars_iff is_address_char value,
)

validate_trimmed-FitsValue :
    (token value : String)
    → validate_trimmed token value ≡ true
    → (value ≢ "") × FitsValue token value
unfolding validate_trimmed
validate_trimmed-FitsValue token value h = (
  λ e. ground (arith, eq_iff value ""),
  elim (Bool-cases (token == "")) [
    | inl blank ↦ unchecked ((eq_iff token "").0 blank)
    | inr some_token ↦ elim (Bool-cases (is_placeholder token)) [
      | inl hole ↦ elim (Bool-cases (contains_char b'|' (trim_angles token))) [
        | inl bar ↦
            choice ((is_placeholder_iff token).0 hole) bar (
              (any_iff (λ alt. eq_iff value alt) (split b'|' (trim_angles token))).0 (ground arith))
        | inr plain ↦
            kind ((is_placeholder_iff token).0 hole) plain
              (valid_kind-HasKind (trim_angles token) value (ground arith))
      ]
      | inr fixed ↦
          exact (is_placeholder-false token fixed) (λ e. ground (arith, eq_iff token ""))
            ((eq_iff value token).0 (ground arith))
    ]
  ],
)

not_true : (b : Bool) → ¬ (b ≡ true) → b ≡ false
not_true b n = ground arith

plain-is_placeholder : (t : String) → ¬ Placeholder t → is_placeholder t ≡ false
plain-is_placeholder t n = not_true _ (λ h. n ((is_placeholder_iff t).0 h))

FitsValue-validate_trimmed :
    (token value : String)
    → value ≢ ""
    → FitsValue token value
    → validate_trimmed token value ≡ true
unfolding validate_trimmed
FitsValue-validate_trimmed token value n (unchecked e) =
    ground (arith, eq_iff value "", eq_iff token "")
FitsValue-validate_trimmed token value n (choice p bar a) = ground (
  arith,
  eq_iff value "",
  (is_placeholder_iff token).1 p,
  (any_iff (λ alt. eq_iff value alt) (split b'|' (trim_angles token))).1 a,
)
FitsValue-validate_trimmed token value n (kind p plain k) = ground (
  arith,
  eq_iff value "",
  (is_placeholder_iff token).1 p,
  HasKind-valid_kind (trim_angles token) value k,
)
FitsValue-validate_trimmed token value n (exact np some_token e) =
    ground
      (arith, eq_iff value "", eq_iff token "", plain-is_placeholder token np, eq_iff value token)

-- validateValueToken accepts a value exactly if, without the spaces around it, it is not empty and it is
-- one for the value token: any text where there is no token, one of the alternatives of a placeholder
-- with bars, what the name of another placeholder asks (digits for id and port; an address, a slash and
-- one to three digits for cidr; the characters of an address for ip, ipv4 and ipv6; else anything), and
-- the token itself where it is no placeholder.
pub validate_value_token_iff :
    (token value : String)
    → (validate_value_token token value ≡ true)
      ↔ ((trim_space value ≢ "") × FitsValue token (trim_space value))
unfolding validate_value_token
validate_value_token_iff token value = (
  validate_trimmed-FitsValue token (trim_space value),
  λ (n, f). FitsValue-validate_trimmed token (trim_space value) n f,
)
