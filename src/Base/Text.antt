-- ===== src/Base/Text.antt =====
-- What the program uses of Go's `strings` package. A Go string is a text of Unicode characters here;
-- bytes that are not UTF-8 are left out. Case mapping is that of ASCII: a letter outside ASCII stays.
pub mod Laws
pub mod Split
use Prim.Native.Nat.{ℕ, zero, suc, ◌-◌}
use Prim.Native.Char.{Char, code}
use Prim.Native.String
use Prim.Native.String.{String, char_at}
use mathlib.Core.Bool.{Bool, true, false, ◌&&◌, ◌||◌, not}
use mathlib.Core.List.{List, [], ◌∷◌}
use text.Mathlib.Text.{◌==◌}
use crispy_garbanzo.Base.Lists.{select}
use crispy_garbanzo.Base.Tests.{leb, eqb, if◌then◌else◌}

-- `s == ""`, which computes as soon as one character is known
unfoldable pub is_blank : String → Bool
is_blank String.[] = true
is_blank (String.◌∷◌ c s) = false

-- `strings.HasPrefix`
unfoldable pub has_prefix : String → String → Bool
has_prefix s String.[] = true
has_prefix String.[] (String.◌∷◌ d p) = false
has_prefix (String.◌∷◌ c s) (String.◌∷◌ d p) = eqb (code c) (code d) && has_prefix s p

-- `strings.HasSuffix`
unfoldable pub has_suffix : String → String → Bool
has_suffix String.[] t = "" == t
has_suffix (String.◌∷◌ c s) t = String.◌∷◌ c s == t || has_suffix s t

-- `s[n:]` where the first `n` characters are ASCII
unfoldable pub drop_chars : ℕ → String → String
drop_chars zero s = s
drop_chars (suc n) String.[] = ""
drop_chars (suc n) (String.◌∷◌ c s) = drop_chars n s

-- `strings.Contains` of a text of one character
unfoldable pub contains_char : ℕ → String → Bool
contains_char n String.[] = false
contains_char n (String.◌∷◌ c s) = eqb (code c) n || contains_char n s

unfoldable pub map_chars : (Char → Char) → String → String
map_chars f String.[] = ""
map_chars f (String.◌∷◌ c s) = String.◌∷◌ (f c) (map_chars f s)

-- `strings.ReplaceAll` of one character by another
unfoldable pub replace_char : ℕ → Char → String → String
unfolding map_chars
replace_char n d = map_chars (λ c. if eqb (code c) n then d else c)

unfoldable pub is_upper : ℕ → Bool
is_upper n = leb b'A' n && leb n b'Z'

unfoldable pub is_lower : ℕ → Bool
is_lower n = leb b'a' n && leb n b'z'

unfoldable pub lower_char : Char → Char
unfolding is_upper
lower_char c = if is_upper (code c) then char_at "abcdefghijklmnopqrstuvwxyz" (code c - b'A') else c

unfoldable pub upper_char : Char → Char
unfolding is_lower
upper_char c = if is_lower (code c) then char_at "ABCDEFGHIJKLMNOPQRSTUVWXYZ" (code c - b'a') else c

-- `strings.ToLower`, `strings.ToUpper`
unfoldable pub to_lower : String → String
unfolding map_chars lower_char
to_lower = map_chars lower_char

unfoldable pub to_upper : String → String
unfolding map_chars upper_char
to_upper = map_chars upper_char

-- `unicode.IsSpace`
unfoldable pub is_space : ℕ → Bool
is_space n =
    (leb 9 n && leb n 13)
    || eqb n 32
    || eqb n 0x85
    || eqb n 0xa0
    || eqb n 0x1680
    || (leb 0x2000 n && leb n 0x200a)
    || eqb n 0x2028
    || eqb n 0x2029
    || eqb n 0x202f
    || eqb n 0x205f
    || eqb n 0x3000

-- the character in front of a text that is trimmed on the right
unfoldable pub cons_unless : Bool → Char → String → String
cons_unless false c s = String.◌∷◌ c s
cons_unless true c String.[] = ""
cons_unless true c (String.◌∷◌ d s) = String.◌∷◌ c (String.◌∷◌ d s)

-- `strings.TrimRightFunc`
unfoldable pub trim_right : (ℕ → Bool) → String → String
unfolding cons_unless
trim_right p String.[] = ""
trim_right p (String.◌∷◌ c s) = cons_unless (p (code c)) c (trim_right p s)

-- `strings.TrimLeftFunc`
unfoldable pub trim_left : (ℕ → Bool) → String → String
trim_left p String.[] = ""
trim_left p (String.◌∷◌ c s) =
    let rest = trim_left p s in if p (code c) then rest else String.◌∷◌ c s

-- `strings.TrimSpace`
unfoldable pub trim_space : String → String
unfolding trim_left trim_right is_space
trim_space s = trim_left is_space (trim_right is_space s)

-- the text before the first character `n`, and all of it if there is none
unfoldable pub before_char : ℕ → String → String
before_char n String.[] = ""
before_char n (String.◌∷◌ c s) =
    let rest = before_char n s in if eqb (code c) n then "" else String.◌∷◌ c rest

-- the first part of a split, longer by a character
unfoldable pub extend_first : Char → List String → List String
extend_first c [] = String.◌∷◌ c "" ∷ []
extend_first c (p ∷ ps) = String.◌∷◌ c p ∷ ps

-- `strings.Split` at one character
unfoldable pub split : ℕ → String → List String
unfolding extend_first
split n String.[] = "" ∷ []
split n (String.◌∷◌ c s) =
    let rest = split n s in if eqb (code c) n then "" ∷ rest else extend_first c rest

-- `strings.SplitN` at one character, into `k + 1` parts at most
unfoldable pub split_n : ℕ → ℕ → String → List String
unfolding extend_first
split_n k n String.[] = "" ∷ []
split_n zero n (String.◌∷◌ c s) = String.◌∷◌ c s ∷ []
split_n (suc k) n (String.◌∷◌ c s) =
    let cut = "" ∷ split_n k n s in
    let longer = extend_first c (split_n (suc k) n s) in if eqb (code c) n then cut else longer

-- `strings.Join`
unfoldable pub join : String → List String → String
join sep [] = ""
join sep (p ∷ []) = p
join sep (p ∷ q ∷ ps) = String.◌++◌ p (String.◌++◌ sep (join sep (q ∷ ps)))

-- `s + t`, by clauses: it computes as far as the characters of `s` are known
unfoldable pub concat : String → String → String
concat String.[] t = t
concat (String.◌∷◌ c s) t = String.◌∷◌ c (concat s t)

-- the concatenation of what `fmt.Sprintf` prints
unfoldable pub print : List String → String
unfolding concat
print [] = ""
print (s ∷ []) = s
print (s ∷ t ∷ parts) = concat s (print (t ∷ parts))

-- `strings.Fields`
unfoldable pub fields : String → List String
unfolding split map_chars is_space is_blank
fields s =
    select (λ p. not (is_blank p))
      (split 32 (map_chars (λ c. if is_space (code c) then " " else c) s))

-- `strings.Contains`
unfoldable pub contains_text : String → String → Bool
unfolding has_prefix
contains_text String.[] sub = has_prefix "" sub
contains_text (String.◌∷◌ c s) sub = has_prefix (String.◌∷◌ c s) sub || contains_text s sub

unfoldable pub spaces : ℕ → String
spaces zero = ""
spaces (suc n) = String.◌∷◌ " " (spaces n)

-- `fmt.Sprintf("%-40s", s)`, for the width given
unfoldable pub pad_right : ℕ → String → String
unfolding spaces
pad_right n String.[] = spaces n
pad_right n (String.◌∷◌ c s) = String.◌∷◌ c (pad_right (n - 1) s)

unfoldable pub take_chars : ℕ → String → String
take_chars zero s = String.[]
take_chars (suc n) String.[] = String.[]
take_chars (suc n) (String.◌∷◌ c s) = String.◌∷◌ c (take_chars n s)

unfoldable pub char_count : String → ℕ
char_count String.[] = 0
char_count (String.◌∷◌ c s) = suc (char_count s)

unfoldable pub zeros : ℕ → String → String
zeros zero s = s
zeros (suc n) s = String.◌∷◌ "0" (zeros n s)

-- `fmt.Sprintf("%04d", n)`, for the width and the digits given
unfoldable pub pad_zero : ℕ → String → String
unfolding zeros char_count
pad_zero width digits = zeros (width - char_count digits) digits

-- the class `[0-9]`
unfoldable pub is_digit : ℕ → Bool
is_digit n = leb b'0' n && leb n b'9'

-- `^[p]*$`
unfoldable pub all_chars : (ℕ → Bool) → String → Bool
all_chars p String.[] = true
all_chars p (String.◌∷◌ c s) = p (code c) && all_chars p s

-- `^[p]+$`
unfoldable pub some_chars : (ℕ → Bool) → String → Bool
unfolding all_chars
some_chars p String.[] = false
some_chars p (String.◌∷◌ c s) = p (code c) && all_chars p s
