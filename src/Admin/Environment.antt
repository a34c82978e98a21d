-- ===== src/Admin/Environment.antt =====
-- cmd/clawgress-admin-api/main.go: the signal to the gateway, and Booleans in the environment. The output of
-- pidof is an argument; the signals are numbers of processes, in their order.
mod Tests
use crispy_garbanzo.Base.{
  String, Bool, true, false, ◌||◌, Option, none, some, List, [], ◌∷◌, ◌==◌, if◌then◌else◌,
  trim_space, fields, ℤ,
}
use crispy_garbanzo.Base.Digits.{atoi}

-- the loop over the words of the output
unfoldable pub process_ids : List String → List ℤ
unfolding atoi
process_ids [] = []
process_ids (s ∷ words) = elim (atoi s) [
  | none ↦ process_ids words
  | some pid ↦ pid ∷ process_ids words
]

-- signalGateway: the processes that get SIGHUP if they are found; `none` if pidof fails
unfoldable pub signal_gateway : Option String → List ℤ
unfolding process_ids trim_space fields
signal_gateway none = []
signal_gateway (some out) =
    if trim_space out == "" then [] else process_ids (fields (trim_space out))

-- strconv.ParseBool
unfoldable pub parse_bool : String → Option Bool
parse_bool s =
    if s == "1" || s == "t" || s == "T" || s == "TRUE" || s == "true" || s == "True"
    then some true
    else if s == "0" || s == "f" || s == "F" || s == "FALSE" || s == "false" || s == "False"
    then some false
    else none

unfoldable pub getenv_bool : String → Bool → Bool
unfolding parse_bool
getenv_bool v fallback =
    if v == "" then fallback else elim (parse_bool v) [ none ↦ fallback | some b ↦ b ]
