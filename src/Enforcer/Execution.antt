-- ===== src/Enforcer/Execution.antt =====
-- internal/enforcer/ops_exec.go: a plan carried out, or shown. What the system answers to a command or a
-- write, given those before it, is an argument.
pub mod Guard
pub mod Run
use crispy_garbanzo.Base.{
  fields, String, ℕ, ◌+◌, Bool, true, false, ◌&&◌, ◌||◌, not, Option, none, some, List, [], ◌∷◌,
  ◌++◌, ◌==◌, ◌<>◌, if◌then◌else◌, any, drop, trim_space, to_lower, has_prefix, drop_chars,
  before_char, split, print, select, map_chars, is_space, is_blank,
}
use Prim.Native.Char.{code}
use crispy_garbanzo.Enforcer.Interfaces.{Operation}

pub data Mode : Type 0 where
  dry_run apply invalid : Mode

-- what the program asks of the system
pub data Call : Type 0 where
  write_file : String → Call
  run_command : String → List String → Call

-- the error of a call, if it fails, and whether CLAWGRESS_OPS_EXEC_MOCK is 1
pub record System : Type 0 where
  pub answer : List Call → Call → Option String
  pub mock : Bool

unfoldable pub normalize_ops_mode : String → Mode
normalize_ops_mode mode =
    let m = trim_space (to_lower mode) in
    if m == "" || m == "dryrun" || m == "dry-run"
    then dry_run
    else if m == "apply"
    then apply
    else invalid

unfoldable pub write_roots : List String
write_roots =
    "/etc/clawgress/" ∷ "/etc/systemd/" ∷ "/run/dhclient/" ∷ "/run/systemd/" ∷ "/etc/bind/"
    ∷ "/etc/haproxy/" ∷ "/etc/ssh/" ∷ "/etc/nftables.d/" ∷ "/etc/chrony/" ∷ []

unfoldable pub is_allowed_write_path : String → Bool
unfolding write_roots has_prefix
is_allowed_write_path path = any (has_prefix path) write_roots

-- what an action asks for
pub data Request : Type 0 where
  nothing : Request
  call : Call → Request
  refused : String → Request

-- the path of a write, without the note after it
unfoldable pub write_path : String → String
unfolding is_blank trim_space before_char drop_chars
write_path action =
    let path_and_meta = trim_space (drop_chars 6 action) in
    let path = before_char 32 path_and_meta in
    trim_space (if is_blank path then path_and_meta else path)

unfoldable pub write_action : String → Request
unfolding write_path is_allowed_write_path is_blank
write_action action =
    let path = write_path action in
    if is_blank path
    then refused "empty write path"
    else if not (is_allowed_write_path path)
    then refused (print ("write path not allowed: " ∷ path ∷ []))
    else call (write_file path)

-- the request of an action without the spaces around it
unfoldable pub trimmed_request : String → Request
unfolding has_prefix write_action fields is_blank
trimmed_request trimmed =
    if is_blank trimmed
    then nothing
    else if has_prefix trimmed "write "
    then write_action trimmed
    else if has_prefix trimmed "systemctl "
    then call (run_command "systemctl" (drop 1 (fields trimmed)))
    else if has_prefix trimmed "ip "
    then call (run_command "ip" (drop 1 (fields trimmed)))
    else if has_prefix trimmed "nft "
    then call (run_command "nft" (drop 1 (fields trimmed)))
    else refused (print ("action not allowed: " ∷ trimmed ∷ []))

unfoldable pub request_of : String → Request
unfolding trim_space trimmed_request
request_of action = trimmed_request (trim_space action)

-- the calls so far, with one more, and its error
unfoldable pub perform : System → List Call → Request → List Call × Option String
perform sys calls nothing = (calls, none)
perform sys calls (call c) =
    if sys.mock then (calls, none) else (calls ++ c ∷ [], sys.answer calls c)
perform sys calls (refused e) = (calls, if sys.mock then none else some e)

unfoldable pub execute_action : System → List Call → String → List Call × Option String
unfolding perform request_of
execute_action sys calls action = perform sys calls (request_of action)

pub record Outcome : Type 0 where
  pub applied : ℕ
  pub failed : ℕ
  pub logs : List String

-- the two loops over a plan, as one over its lines: the text of the line and its action
unfoldable pub op_lines : Operation → List String → List (String × String)
op_lines op [] = []
op_lines op (action ∷ actions) =
    (print (op.backend ∷ " " ∷ op.scope ∷ ": " ∷ action ∷ []), action) ∷ op_lines op actions

unfoldable pub plan_lines : List Operation → List (String × String)
unfolding op_lines
plan_lines [] = []
plan_lines (op ∷ ops) = op_lines op op.actions ++ plan_lines ops

unfoldable pub dry_line : Outcome → String → Outcome
dry_line out line = record out { logs = out.logs ++ print ("DRYRUN " ∷ line ∷ []) ∷ [] }

unfoldable pub show_lines : List (String × String) → Outcome → Outcome
unfolding dry_line
show_lines [] out = out
show_lines ((line, action) ∷ lines) out = show_lines lines (dry_line out line)

unfoldable pub failed_line : Outcome → String → String → Outcome
failed_line out line e = record out {
  failed = out.failed + 1;
  logs = out.logs ++ print ("ERROR " ∷ line ∷ " :: " ∷ e ∷ []) ∷ [];
}

unfoldable pub applied_line : Outcome → String → Outcome
applied_line out line = record out {
  applied = out.applied + 1;
  logs = out.logs ++ print ("APPLIED " ∷ line ∷ []) ∷ [];
}

-- the loop of the mode `apply`: it stops at the first error
unfoldable pub apply_lines :
    System → List (String × String) → List Call → Outcome → List Call × Outcome × Option String
unfolding execute_action failed_line applied_line
apply_lines sys [] calls out = (calls, out, none)
apply_lines sys ((line, action) ∷ lines) calls out =
    let (calls, error) = execute_action sys calls action in
    let rest = apply_lines sys lines calls (applied_line out line) in
    elim error [ none ↦ rest | some e ↦ (calls, failed_line out line e, some e) ]

unfoldable pub no_outcome : Outcome
no_outcome = record { applied = 0; failed = 0; logs = [] }

unfoldable pub execute_in :
    System → List Operation → Mode → List Call → List Call × Outcome × Option String
unfolding plan_lines show_lines apply_lines no_outcome
execute_in sys ops dry_run calls = (calls, show_lines (plan_lines ops) no_outcome, none)
execute_in sys ops apply calls = apply_lines sys (plan_lines ops) calls no_outcome
-- the text of the error ends with the quoted mode, which is left out
execute_in sys ops invalid calls = (calls, no_outcome, some "invalid ops mode")

unfoldable pub execute_ops_plan :
    System → List Operation → String → List Call → List Call × Outcome × Option String
unfolding normalize_ops_mode execute_in
execute_ops_plan sys ops mode calls = execute_in sys ops (normalize_ops_mode mode) calls
