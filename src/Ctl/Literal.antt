-- ===== src/Ctl/Literal.antt =====
-- cmd/clawgressctl/main.go: parseValue. strconv.ParseFloat and json.Unmarshal are arguments: the first gives
-- a number as it is printed, the second a value.

use crispy_garbanzo.Base.{
  String, true, false, ◌||◌, Option, none, some, ◌==◌, if◌then◌else◌, has_prefix,
}
use crispy_garbanzo.Base.Digits.{atoi, itoa_ℤ}
use crispy_garbanzo.Base.Value.{Value, flag, number}

pub record Parsers : Type 0 where
  pub parse_float : String → Option String
  pub unmarshal : String → Option Value

-- a text that is no Boolean and no number
unfoldable pub parse_json_or_text : Parsers → String → Value
unfolding has_prefix
parse_json_or_text p raw =
    if has_prefix raw "{" || has_prefix raw "["
    then elim (p.unmarshal raw) [ none ↦ Value.string raw | some v ↦ v ]
    else Value.string raw

unfoldable pub parse_float_or_text : Parsers → String → Value
unfolding parse_json_or_text
parse_float_or_text p raw = elim (p.parse_float raw) [
  | none ↦ parse_json_or_text p raw
  | some n ↦ number n
]

unfoldable pub parse_number_or_text : Parsers → String → Value
unfolding atoi itoa_ℤ parse_float_or_text
parse_number_or_text p raw = elim (atoi raw) [
  | none ↦ parse_float_or_text p raw
  | some n ↦ number (itoa_ℤ n)
]

unfoldable pub parse_value : Parsers → String → Value
unfolding parse_number_or_text
parse_value p raw =
    if raw == "enable" || raw == "enabled" || raw == "on"
    then flag true
    else if raw == "disable" || raw == "disabled" || raw == "off"
    then flag false
    else if raw == "true"
    then flag true
    else if raw == "false"
    then flag false
    else parse_number_or_text p raw
