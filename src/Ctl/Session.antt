-- ===== src/Ctl/Session.antt =====
-- cmd/clawgressctl/main.go: the configure mode, as a step from line to line over the candidate file. What the
-- system and the admin API answer to a line stands beside the line.
pub mod Cases
pub mod Steps
pub mod Traffic
use crispy_garbanzo.Base.{
  String, Bool, true, false, ◌||◌, Option, none, some, List, [], ◌∷◌, ◌++◌, ◌==◌, if◌then◌else◌,
  length, leb, replace_char, contains_char, trim_space, split, join, fields,
}
use crispy_garbanzo.Base.Value.{Value, object, Fields, no_fields}
use crispy_garbanzo.Cmdmap.Paths.{
  TokenPath, Verdict, accepted, rejected, validate_set_tokens, is_multi_path,
}
use crispy_garbanzo.Ctl.Candidate.{set_by_path, get_by_path}
use crispy_garbanzo.Ctl.Literal.{Parsers, parse_value}
use crispy_garbanzo.Ctl.Render.{command_lines}
use crispy_garbanzo.Ctl.Edit.{
  CandidateFile, load_or_init_config, Setting, Removal, Answer, World, split_last, verdict_of,
  parse_set_path_and_value, apply_set_to_file, SetOutcome, set_outcome, run_set, missing,
  unreadable, blank, malformed, holds, removed, absent, not_removed, usage_error, path_error,
  write_error, set_to,
}

-- a request to the admin API
pub data Request : Type 0 where
  configure : String → Fields → Request
  -- with the mode of operations
  commit : String → String → String → Request

-- what "show" prints
pub data View : Type 0 where
  catalogue : View
  whole : Fields → View
  lines : List String → View
  at_key : String → Value → View

pub data Output : Type 0 where
  set_done : String → Output
  set_usage set_rejected set_failed : Output
  shown : View → Output
  not_shown : Output
  response : String → Output
  discarded not_discarded help : Output
  unknown_command : String → Output

pub record Client : Type 0 where
  pub candidate : CandidateFile
  pub requests : List Request
  pub output : List Output

-- how a line ends: the next prompt, the end of the mode, or the end of the program
pub data Next : Type 0 where
  prompt leave die : Next

unfoldable pub say : Output → Client → Client
say o c = record c { output = c.output ++ o ∷ [] }

unfoldable pub ask : Request → Client → Client
ask r c = record c { requests = c.requests ++ r ∷ [] }

unfoldable pub finish_set : String → CandidateFile × Bool → Client → Client
unfolding say
finish_set path (file, true) c = say (set_done path) (record c { candidate = file })
finish_set path (file, false) c = say set_failed (record c { candidate = file })

unfoldable pub set_line : Setting → World → List String → Client → Client
unfolding parse_set_path_and_value apply_set_to_file finish_set say
set_line g w rest c =
    if leb 2 (length rest)
    then elim (parse_set_path_and_value g rest) [
      | none ↦ say set_rejected c
      | some (path, value) ↦ finish_set path (apply_set_to_file g w path value c.candidate) c
    ]
    else say set_usage c

-- the dotted path of the arguments of "show"
unfoldable pub shown_path : List String → String
unfolding replace_char join
shown_path rest = replace_char b'-' "_" (join "." rest)

-- showFromFile of a configuration that was loaded
unfoldable pub view_of : Setting → Fields → List String → Option View
unfolding shown_path get_by_path command_lines join
view_of g cfg [] = some (whole cfg)
view_of g cfg (r ∷ rest) =
    let words = join " " (r ∷ rest) in
    if words == "commands"
    then some catalogue
    else if words == "configuration" || words == "configuration json"
    then some (whole cfg)
    else if words == "configuration commands"
    then some (lines (command_lines g.sprint cfg))
    else elim (get_by_path cfg (shown_path (r ∷ rest))) [
      | none ↦ none
      | some v ↦ some (at_key (shown_path (r ∷ rest)) v)
    ]

unfoldable pub show_from_file : Setting → CandidateFile → List String → Option View
unfolding load_or_init_config view_of
show_from_file g file rest = elim (load_or_init_config file) [
  | none ↦ none
  | some cfg ↦ view_of g cfg rest
]

unfoldable pub show_line : Setting → List String → Client → Client
unfolding show_from_file say
show_line g rest c = elim (show_from_file g c.candidate rest) [
  | none ↦ say not_shown c
  | some view ↦ say (shown view) c
]

-- runConfigureOnce: the client after the request, and the answer
unfoldable pub configure_once : Setting → World → Client → Client × Answer
unfolding ask
configure_once g w c = elim c.candidate [
  | holds cfg ↦ (ask (configure g.actor cfg) c, w.configure_answer)
  | missing ↦ (c, none)
  | unreadable ↦ (c, none)
  | blank ↦ (c, none)
  | malformed ↦ (c, none)
]

unfoldable pub save_answer : Client × Answer → Client × Next
unfolding say
save_answer (c, none) = (c, die)
save_answer (c, some rev) = (say (response rev) c, prompt)

-- the commit that follows, which expects the revision that was staged
unfoldable pub commit_answer : Setting → World → Client × Answer → Client × Next
unfolding ask save_answer
commit_answer g w (c, none) = (c, die)
commit_answer g w (c, some rev) =
    save_answer (ask (commit g.actor rev "dry-run") c, w.commit_answer)

unfoldable pub after_removal : Removal → Client → Client
unfolding say
after_removal removed c = say discarded (record c { candidate = missing })
after_removal absent c = say discarded c
after_removal not_removed c = say not_discarded c

unfoldable pub discard_line : World → Client → Client
unfolding after_removal
discard_line w c = after_removal w.removal c

-- the `switch` over the first word
unfoldable pub command_line : Setting → World → String → List String → Client → Client × Next
unfolding set_line show_line configure_once save_answer commit_answer discard_line say
command_line g w cmd rest c =
    if cmd == "set"
    then (set_line g w rest c, prompt)
    else if cmd == "show"
    then (show_line g rest c, prompt)
    else if cmd == "save"
    then save_answer (configure_once g w c)
    else if cmd == "commit"
    then commit_answer g w (configure_once g w c)
    else if cmd == "discard"
    then (discard_line w c, prompt)
    else if cmd == "exit" || cmd == "quit"
    then (c, leave)
    else if cmd == "help" || cmd == "?"
    then (say help c, prompt)
    else (say (unknown_command cmd) c, prompt)

unfoldable pub words_line : Setting → World → List String → Client → Client × Next
unfolding command_line
words_line g w [] c = (c, prompt)
words_line g w (cmd ∷ rest) c = command_line g w cmd rest c

-- one round of the loop; a line of spaces has no words
unfoldable pub handle_line : Setting → World → String → Client → Client × Next
unfolding words_line fields trim_space
handle_line g w line c = words_line g w (fields (trim_space line)) c

-- how the session ends
pub data Ending : Type 0 where
  end_of_input left died : Ending

-- the loop, over the lines that are typed with what the world answers to each
unfoldable pub session : Setting → List (String × World) → Client → Client × Ending
unfolding handle_line
session g [] c = (c, end_of_input)
session g ((line, w) ∷ typed) c =
    let (c', next) = handle_line g w line c in
    elim next [ prompt ↦ session g typed c' | leave ↦ (c', left) | die ↦ (c', died) ]
