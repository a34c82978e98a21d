-- ===== src/Base/Digits.antt =====
-- Numbers in decimal digits: reading them, and printing them as `fmt.Sprintf("%d", n)` does.
use Prim.Native.Nat.{ℕ, zero, suc, ◌+◌, ◌-◌, ◌*◌, ◌/◌, ◌%◌, ◌<◌}
use Prim.Native.Char.{Char, code}
use Prim.Native.String.{String, [], ◌∷◌, char_at}
use mathlib.Core.Path.{◌≡◌, refl, ap, ◌∙◌}
use mathlib.Core.Logic.{inl, inr}
use mathlib.Core.Bool.{true, ◌&&◌}
use mathlib.Core.Option
use mathlib.Core.Option.{Option, none, some}
use native.Mathlib.Omega.{arith}
use crispy_garbanzo.Base.Tests.{
  if◌then◌else◌, ltb, leb, eqb, eqb→eq, Bool-cases, all_below, all_below_sound, ℤ, pos, negsuc,
}
use crispy_garbanzo.Base.Text.{concat, has_prefix, drop_chars, is_digit, some_chars}

-- the number that decimal digits write
unfoldable pub decimal : ℕ → String → ℕ
decimal acc [] = acc
decimal acc (c ∷ s) = decimal (acc * 10 + (code c - b'0')) s

-- digits up to a bound
unfoldable pub bounded : ℕ → String → Option ℕ
unfolding some_chars is_digit decimal
bounded limit s =
    if some_chars is_digit s && leb (decimal 0 s) limit then some (decimal 0 s) else none

unfoldable pub negated : ℕ → ℤ
negated zero = pos 0
negated (suc n) = negsuc n

-- `strconv.Atoi`, for an int of 64 bits
unfoldable pub atoi : String → Option ℤ
unfolding bounded has_prefix drop_chars negated
atoi s =
    if has_prefix s "-"
    then Option.map negated (bounded 9223372036854775808 (drop_chars 1 s))
    else if has_prefix s "+"
    then Option.map pos (bounded 9223372036854775807 (drop_chars 1 s))
    else Option.map pos (bounded 9223372036854775807 s)

-- the digit of a number below 10
unfoldable pub digit_char : ℕ → Char
digit_char n = char_at "0123456789" n

-- the digits in front of others, from the last on; each round divides the number by 10
unfoldable pub digits_before : ℕ → ℕ → String → String
unfolding digit_char
digits_before zero n acc = acc
digits_before (suc fuel) n acc =
    let more = digits_before fuel (n / 10) (digit_char (n % 10) ∷ acc) in
    if ltb n 10 then digit_char n ∷ acc else more

unfoldable pub itoa : ℕ → String
unfolding digits_before
itoa n = digits_before (n + 1) n ""

unfoldable pub itoa_ℤ : ℤ → String
unfolding itoa concat
itoa_ℤ (pos n) = itoa n
itoa_ℤ (negsuc n) = concat "-" (itoa (n + 1))

digit_char-code : (n : ℕ) → n < 10 → code (digit_char n) ≡ 48 + n
unfolding all_below digit_char
digit_char-code n h =
    eqb→eq _ _ (all_below_sound 10 (λ k. eqb (code (digit_char k)) (48 + k)) n table h)
  where
    table : all_below 10 (λ k. eqb (code (digit_char k)) (48 + k)) ≡ true
    table = refl

-- reading what was printed in front of digits
decimal-digits_before :
    (fuel n acc : ℕ) (s : String) → n < fuel → decimal 0 (digits_before fuel n s) ≡ decimal n s
unfolding decimal digits_before
decimal-digits_before zero n acc s h = absurd (omega arith)
decimal-digits_before (suc fuel) n acc s h = elim (Bool-cases (ltb n 10)) [
  | inl small ↦ rw small (ap (λ k. decimal k s) (omega (arith, digit_char-code n (ground arith))))
  | inr large ↦ rw large (
      decimal-digits_before fuel (n / 10) acc (digit_char (n % 10) ∷ s) (ground arith)
      ∙ ap (λ k. decimal k s) (omega (arith, digit_char-code (n % 10) (omega arith))))
]

-- Reading the digits that were printed gives the number: the fuel is enough.
pub decimal-itoa : (n : ℕ) → decimal 0 (itoa n) ≡ n
unfolding itoa decimal
decimal-itoa n = decimal-digits_before (n + 1) n 0 "" (omega arith) ∙ end n
  where
    end : (k : ℕ) → decimal k "" ≡ k
    end k = refl
