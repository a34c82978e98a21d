-- ===== src/Cmdmap/Values.antt =====
-- internal/cmdmap/token_paths.go: validateValueToken, with its regular expressions as tests on characters.
pub mod Words
pub mod Accepted
use crispy_garbanzo.Base.{
  ℕ, String, Bool, true, false, ◌&&◌, ◌||◌, List, [], ◌∷◌, ◌==◌, if◌then◌else◌, any, leb, eqb,
  has_prefix, has_suffix, contains_char, split, trim_space, trim_left, trim_right, is_blank,
  is_digit, all_chars, some_chars,
}
use Prim.Native.Char.{code}
use Prim.Native.Nat.{zero, suc}
use Prim.Native.String

-- the class `[0-9a-fA-F:.]`
unfoldable pub is_address_char : ℕ → Bool
unfolding is_digit
is_address_char n =
    is_digit n
    || (leb b'a' n && leb n b'f')
    || (leb b'A' n && leb n b'F')
    || eqb n b':'
    || eqb n b'.'

-- `^[p]{1,k}$`
unfoldable pub few_chars : ℕ → (ℕ → Bool) → String → Bool
unfolding is_blank
few_chars k p String.[] = false
few_chars zero p (String.◌∷◌ c s) = false
few_chars (suc k) p (String.◌∷◌ c s) = p (code c) && (is_blank s || few_chars k p s)

-- `^[0-9a-fA-F:.]+/[0-9]{1,3}$`: the class on the left has no slash
unfoldable pub cidr_parts : List String → Bool
unfolding some_chars few_chars is_address_char is_digit
cidr_parts (address ∷ bits ∷ []) = some_chars is_address_char address && few_chars 3 is_digit bits
cidr_parts _ = false

-- the last `switch`
unfoldable pub valid_kind : String → String → Bool
unfolding some_chars is_digit is_address_char cidr_parts split
valid_kind inner value =
    if inner == "id" || inner == "port"
    then some_chars is_digit value
    else if inner == "cidr"
    then cidr_parts (split b'/' value)
    else if inner == "ip" || inner == "ipv4" || inner == "ipv6"
    then some_chars is_address_char value
    else true

-- `strings.Trim(s, "<>")`
unfoldable pub trim_angles : String → String
unfolding trim_left trim_right
trim_angles s =
    trim_left (λ n. eqb n b'<' || eqb n b'>') (trim_right (λ n. eqb n b'<' || eqb n b'>') s)

unfoldable pub is_placeholder : String → Bool
unfolding has_prefix has_suffix
is_placeholder t = has_prefix t "<" && has_suffix t ">"

unfoldable pub validate_trimmed : String → String → Bool
unfolding is_placeholder trim_angles contains_char split valid_kind
validate_trimmed token value =
    if value == ""
    then false
    else if token == ""
    then true
    else if is_placeholder token
    then (if contains_char b'|' (trim_angles token)
        then any (λ alt. value == alt) (split b'|' (trim_angles token))
        else valid_kind (trim_angles token) value)
    else value == token

unfoldable pub validate_value_token : String → String → Bool
unfolding validate_trimmed trim_space
validate_value_token token value = validate_trimmed token (trim_space value)
