-- ===== src/Ctl/Edit.antt =====
-- cmd/clawgressctl/main.go: the candidate file and "set". What the system and the admin API answer is a World.
pub mod Sets
use crispy_garbanzo.Base.{
  String, Bool, true, false, Option, none, some, List, [], ◌∷◌, ◌++◌, ◌==◌, if◌then◌else◌, length,
  leb, replace_char, contains_char, split, ◌||◌, trim_space, join, fields,
}
use crispy_garbanzo.Base.Value.{Value, object, Fields, no_fields}
use crispy_garbanzo.Cmdmap.Paths.{
  TokenPath, Verdict, accepted, rejected, validate_set_tokens, is_multi_path,
}
use crispy_garbanzo.Ctl.Candidate.{set_by_path, get_by_path}
use crispy_garbanzo.Ctl.Literal.{Parsers, parse_value}

-- the candidate file; JSON's null is the empty configuration
pub data CandidateFile : Type 0 where
  missing unreadable blank malformed : CandidateFile
  holds : Fields → CandidateFile

-- loadOrInitConfig
unfoldable pub load_or_init_config : CandidateFile → Option Fields
load_or_init_config missing = some no_fields
load_or_init_config unreadable = none
load_or_init_config blank = some no_fields
load_or_init_config malformed = none
load_or_init_config (holds cfg) = some cfg

-- what stays the same during a session: the table of commands, the parsers, and fmt.Sprint
pub record Setting : Type 0 where
  pub table : List TokenPath
  pub parsers : Parsers
  pub sprint : Value → String
  pub actor : String

-- how a file is removed
pub data Removal : Type 0 where
  removed absent not_removed : Removal

-- An answer of the admin API: `none` where doJSON ends the program (the request fails or its status is 400 or
-- more), and otherwise the id of the revision in the response, empty if there is none.
abbrev pub Answer : Type 0
Answer = Option String

pub record World : Type 0 where
  -- what a failed write leaves of the file, `none` for one that succeeds
  pub write_fault : Option CandidateFile
  pub removal : Removal
  pub configure_answer : Answer
  pub commit_answer : Answer

-- the arguments without the last, and the last
unfoldable pub split_last : String → List String → List String × String
split_last a [] = ([], a)
split_last a (b ∷ args) = (a ∷ (split_last b args).0, (split_last b args).1)

unfoldable pub verdict_of : Setting → List String → String → Option (String × Value)
unfolding validate_set_tokens parse_value
verdict_of g tokens raw = elim (validate_set_tokens g.table tokens raw) [
  | rejected ↦ none
  | accepted path multi ↦ some (path, parse_value g.parsers raw)
]

-- parseSetPathAndValue
unfoldable pub parse_set_path_and_value : Setting → List String → Option (String × Value)
unfolding verdict_of split_last contains_char split replace_char
parse_set_path_and_value g [] = none
parse_set_path_and_value g (a ∷ []) = none
parse_set_path_and_value g (a ∷ b ∷ []) =
    if contains_char b'.' a
    then verdict_of g (split b'.' (replace_char b'-' "_" a)) b
    else verdict_of g (a ∷ []) b
parse_set_path_and_value g (a ∷ b ∷ c ∷ args) =
    verdict_of g (a ∷ (split_last b (c ∷ args)).0) (split_last b (c ∷ args)).1

-- applySetToFile, with its success
unfoldable pub apply_set_to_file :
    Setting → World → String → Value → CandidateFile → CandidateFile × Bool
unfolding load_or_init_config set_by_path is_multi_path
apply_set_to_file g w key_path value file = elim (load_or_init_config file) [
  | none ↦ (file, false)
  | some cfg ↦ elim w.write_fault [
    | some remains ↦ (remains, false)
    | none ↦ (holds (set_by_path cfg key_path value (is_multi_path g.table key_path)), true)
  ]
]

-- how "clawgressctl set" ends: with its usage, an error of its path or its file, or the path that was set
pub data SetOutcome : Type 0 where
  usage_error path_error write_error : SetOutcome
  set_to : String → SetOutcome

unfoldable pub set_outcome : String → CandidateFile × Bool → CandidateFile × SetOutcome
set_outcome path (file, true) = (file, set_to path)
set_outcome path (file, false) = (file, write_error)

-- runSet, after its flags
unfoldable pub run_set : Setting → World → List String → CandidateFile → CandidateFile × SetOutcome
unfolding parse_set_path_and_value apply_set_to_file set_outcome
run_set g w args file =
    if leb 2 (length args)
    then elim (parse_set_path_and_value g args) [
      | none ↦ (file, path_error)
      | some (path, value) ↦ set_outcome path (apply_set_to_file g w path value file)
    ]
    else (file, usage_error)
