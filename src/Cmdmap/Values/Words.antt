-- ===== src/Cmdmap/Values/Words.antt =====
-- Texts of given characters, and addresses with a number of bits.
use Prim.Native.Nat.{ℕ, zero, suc, ◌≤◌}
use Prim.Native.Char.{Char, code}
use Prim.Native.String.{char_at}
use crispy_garbanzo.Base.{
  is_digit, all_chars, some_chars, String, ◌<>◌, Bool, true, false, List, [], ◌∷◌, ◌≡◌, ◌≢◌, ◌↔◌,
  refl, sym, ap, ◌∙◌, arith, split, contains_char, is_blank, join,
}
use mathlib.Core.Bool.{false≢true}
use crispy_garbanzo.Base.Text.Split.{join-split, split-plain, split-append, single-append}
use crispy_garbanzo.Cmdmap.Values.{is_address_char, few_chars, cidr_parts}

-- Every character passes a test, and there is one.
abbrev pub EachChar : (ℕ → Bool) → String → Type 0
EachChar p String.[] = Unit
EachChar p (String.◌∷◌ c s) = (p (code c) ≡ true) × EachChar p s

abbrev pub Word : (ℕ → Bool) → String → Type 0
Word p s = (s ≢ "") × EachChar p s

-- the number of characters
abbrev pub size : String → ℕ
size String.[] = 0
size (String.◌∷◌ c s) = suc (size s)

-- An address, a slash, and one to three digits.
abbrev pub Cidr : String → Type 0
Cidr value =
    (address : String) × (bits : String) × (value ≡ address <> ("/" <> bits))
    × Word is_address_char address
    × Word is_digit bits
    × (size bits ≤ 3)

cons_ne : (c : Char) (s : String) → String.◌∷◌ c s ≢ ""
unfolding is_blank
cons_ne c s e = false≢true (ap is_blank e)

all_chars-EachChar : (p : ℕ → Bool) (s : String) → (all_chars p s ≡ true) ↔ EachChar p s
unfolding all_chars
all_chars-EachChar p String.[] = (λ h. tt, λ h. refl)
all_chars-EachChar p (String.◌∷◌ c s) = ground (arith, all_chars-EachChar p s)

pub some_chars_iff : (p : ℕ → Bool) (s : String) → (some_chars p s ≡ true) ↔ Word p s
unfolding some_chars
some_chars_iff p String.[] = (λ h. absurd (false≢true h), λ (n, h). absurd (n refl))
some_chars_iff p (String.◌∷◌ c s) = ground (arith, all_chars-EachChar p s, cons_ne c s)

few_chars_iff :
    (k : ℕ) (p : ℕ → Bool) (s : String) → (few_chars k p s ≡ true) ↔ (Word p s × (size s ≤ k))
unfolding few_chars is_blank
few_chars_iff k p String.[] = (λ h. absurd (false≢true h), λ ((n, h), l). absurd (n refl))
few_chars_iff zero p (String.◌∷◌ c s) = (λ h. absurd (false≢true h), λ (w, l). absurd (omega arith))
few_chars_iff (suc k) p (String.◌∷◌ c String.[]) = ground (arith, cons_ne c "")
few_chars_iff (suc k) p (String.◌∷◌ c (String.◌∷◌ d s)) =
    ground (arith, few_chars_iff k p (String.◌∷◌ d s), cons_ne c (String.◌∷◌ d s), cons_ne d s)

address_no_slash : (s : String) → EachChar is_address_char s → contains_char b'/' s ≡ false
unfolding contains_char is_address_char is_digit
address_no_slash String.[] h = refl
address_no_slash (String.◌∷◌ c s) (p, h) = ground (arith, address_no_slash s h)

cidr_parts_iff :
    (a b : String)
    → (cidr_parts (a ∷ b ∷ []) ≡ true) ↔ (Word is_address_char a × Word is_digit b × (size b ≤ 3))
unfolding cidr_parts
cidr_parts_iff a b = ground (arith, some_chars_iff is_address_char a, few_chars_iff 3 is_digit b)

parts-Cidr :
    (value : String) (ps : List String) → join "/" ps ≡ value → cidr_parts ps ≡ true → Cidr value
unfolding join cidr_parts
parts-Cidr value [] e h = absurd (false≢true h)
parts-Cidr value (a ∷ []) e h = absurd (false≢true h)
parts-Cidr value (a ∷ b ∷ []) e h =
    let (wa, wb, l) = (cidr_parts_iff a b).0 h in (a, b, sym e, wa, wb, l)
parts-Cidr value (a ∷ b ∷ c ∷ ps) e h = absurd (false≢true h)

digit_no_slash : (s : String) → EachChar is_digit s → contains_char b'/' s ≡ false
unfolding contains_char is_digit
digit_no_slash String.[] h = refl
digit_no_slash (String.◌∷◌ c s) (p, h) = ground (arith, digit_no_slash s h)

pub cidr_parts-split_iff : (value : String) → (cidr_parts (split b'/' value) ≡ true) ↔ Cidr value
cidr_parts-split_iff value = (
  parts-Cidr value (split b'/' value) (join-split (char_at "/" 0) value),
  λ (a, b, e, wa, wb, l).
      let parts : split b'/' value ≡ a ∷ b ∷ [] =
        ap (split b'/') (e ∙ ap (λ t. a <> t) (single-append (char_at "/" 0) b))
        ∙ split-append (char_at "/" 0) a b (address_no_slash a wa.1)
        ∙ ap (λ t. a ∷ t) (split-plain b'/' b (digit_no_slash b wb.1)) in
      ap cidr_parts parts ∙ (cidr_parts_iff a b).1 (wa, wb, l),
)
