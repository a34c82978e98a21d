-- ===== src/Ctl/Tests.antt =====
-- The theorems on the client, at a session with one entry in the table of commands.
use crispy_garbanzo.Base.{
  fields, trim_space, String, true, false, none, some, List, [], ◌∷◌, ◌≡◌, ◌↔◌, refl, Any, split,
}
use crispy_garbanzo.Base.Sort.{Ascending, text_before}
use crispy_garbanzo.Base.Value.{Value, null, flag, number, array, object, Fields, no_fields, field}
use crispy_garbanzo.Cmdmap.Paths.{TokenPath}
use crispy_garbanzo.Ctl.Candidate.{get_by_path, set_by_path}
use crispy_garbanzo.Ctl.Candidate.Laws.{Diverge, NewLeaf, get_by_path-set_by_path}
use crispy_garbanzo.Ctl.Literal.{Parsers}
use crispy_garbanzo.Ctl.Render.{command_lines}
use crispy_garbanzo.Ctl.Render.Lines.{Leaf, command_lines_lem}
use crispy_garbanzo.Ctl.Edit.{missing, holds, Setting, World, removed, set_to, run_set}
use crispy_garbanzo.Ctl.Session.{configure, commit, Client, handle_line, session}
use crispy_garbanzo.Ctl.Session.Steps.{History, session-History}
use crispy_garbanzo.Ctl.Session.Traffic.{Sent, handle_line-Sent}
use crispy_garbanzo.Ctl.Edit.Sets.{Ends, run_set-SetDone}

abbrev parsers : Parsers
parsers = record { parse_float = λ s. none; unmarshal = λ s. none }

abbrev sprint : Value → String
sprint null = "<nil>"
sprint (flag true) = "true"
sprint (flag false) = "false"
sprint (number n) = n
sprint (Value.string s) = s
sprint (array xs) = "[]"
sprint (object fs) = "map[]"

abbrev mtu_path : TokenPath
mtu_path = record {
  kind = "set";
  tokens = "interfaces" ∷ "ethernet" ∷ "<ifname>" ∷ "mtu" ∷ [];
  value_token = "<id>";
  description = "MTU";
  multi = false;
}

abbrev setting : Setting
setting = record { table = mtu_path ∷ []; parsers = parsers; sprint = sprint; actor = "cli" }

abbrev world : World
world = record {
  write_fault = none;
  removal = removed;
  configure_answer = some "rev-1";
  commit_answer = some "";
}

abbrev fresh : Client
fresh = record { candidate = missing; requests = []; output = [] }

abbrev mtu : Fields
mtu =
    field "interfaces"
      (object (
        field "ethernet"
          (object (field "eth0" (object (field "mtu" (number "1500") no_fields)) no_fields))
          no_fields))
      no_fields

set_mtu :
    run_set setting world ("interfaces" ∷ "ethernet" ∷ "eth0" ∷ "mtu" ∷ "01500" ∷ []) missing
    ≡ (holds mtu, set_to "interfaces.ethernet.eth0.mtu")
unfolding run_set
set_mtu = refl

-- Spaces around a value pass the check of the value token, but not the parser of numbers.
set_padded :
    run_set setting world ("interfaces" ∷ "ethernet" ∷ "eth0" ∷ "mtu" ∷ " 9" ∷ []) missing ≡ (
      holds (
          field "interfaces"
            (object (
              field "ethernet"
                (object
                  (field "eth0" (object (field "mtu" (Value.string " 9") no_fields)) no_fields))
                no_fields))
            no_fields),
      set_to "interfaces.ethernet.eth0.mtu",
    )
unfolding run_set
set_padded = refl

mtu_lines : command_lines sprint mtu ≡ "set interfaces ethernet eth0 mtu 1500" ∷ []
unfolding command_lines
mtu_lines = refl

abbrev typed : List (String × World)
typed =
    ("set interfaces ethernet eth0 mtu 1500", world)
    ∷ ("  ", world)
    ∷ ("commit", world)
    ∷ ("exit", world)
    ∷ []

session_requests :
    (session setting typed fresh).0.requests
    ≡ configure "cli" mtu ∷ commit "cli" "rev-1" "dry-run" ∷ []
unfolding session
session_requests = refl

get_by_path-set_by_path_example :
    (leaf : Value) × NewLeaf null false (get_by_path mtu "interfaces.ethernet.eth1.mtu") leaf
    × (get_by_path
          (set_by_path mtu "interfaces.ethernet.eth1.mtu" null false)
          "interfaces.ethernet.eth1.mtu"
        ≡ some leaf)
    × ((other : String)
        → Diverge (split b'.' "interfaces.ethernet.eth1.mtu") (split b'.' other)
        → get_by_path (set_by_path mtu "interfaces.ethernet.eth1.mtu" null false) other
          ≡ get_by_path mtu other)
get_by_path-set_by_path_example =
    get_by_path-set_by_path mtu "interfaces.ethernet.eth1.mtu" null false

command_lines_lem_example :
    Ascending text_before (command_lines sprint mtu)
    × (Any (λ l. l ≡ "set a 1") (command_lines sprint mtu) ↔ Leaf sprint "set a 1" "" (object mtu))
command_lines_lem_example = command_lines_lem sprint mtu "set a 1"

session-History_example : History setting typed missing (session setting typed fresh).0.candidate
session-History_example = session-History setting typed fresh

handle_line-Sent_example :
    Sent setting world fresh
      (fields (trim_space "commit"))
      (handle_line setting world "commit" fresh)
handle_line-Sent_example = handle_line-Sent setting world fresh "commit"

run_set-SetDone_example :
    Ends setting world
      ("interfaces" ∷ "ethernet" ∷ "eth0" ∷ "mtu" ∷ "01500" ∷ [])
      missing
      (run_set setting world ("interfaces" ∷ "ethernet" ∷ "eth0" ∷ "mtu" ∷ "01500" ∷ []) missing)
run_set-SetDone_example =
    run_set-SetDone setting world ("interfaces" ∷ "ethernet" ∷ "eth0" ∷ "mtu" ∷ "01500" ∷ [])
      missing
