-- ===== src/Ctl/Commands.antt =====
-- cmd/clawgressctl/main.go: runShowAudit and runInstall, after their flags. The answer of the admin API, the
-- indentation and the reading of its JSON, and the outcome of the installer are arguments.
mod Tests
use crispy_garbanzo.Base.{
  ℕ, String, Bool, true, false, not, Option, none, some, List, [], ◌∷◌, ◌++◌, ◌==◌, if◌then◌else◌,
  map, length, leb, ltb, print, pad_right, ℤ,
}
use crispy_garbanzo.Base.Digits.{itoa, itoa_ℤ}
use crispy_garbanzo.Base.Text.{take_chars, char_count}
use crispy_garbanzo.Base.Value.{Value, flag, Fields, no_fields, field, field_at}

pub record AuditFlags : Type 0 where
  pub url : String
  pub agent : String
  pub decision : String
  pub since : String
  pub limit : ℤ
  pub json : Bool

-- a parameter that is left out when it is empty
unfoldable pub optional : String → String → List String
optional name value = if value == "" then [] else name ∷ value ∷ []

unfoldable pub audit_url : AuditFlags → String
unfolding optional print itoa_ℤ
audit_url f = print (
    (f.url ∷ "/v1/audit?limit=" ∷ itoa_ℤ f.limit ∷ [])
    ++ optional "&agent_id=" f.agent
    ++ optional "&decision=" f.decision
    ++ optional "&since=" f.since)

-- the text under a key, "" where there is none or another value
unfoldable pub text_of : Option Value → String
text_of none = ""
text_of (some (Value.string s)) = s
text_of (some v) = ""

-- `fmt.Printf` of a row
unfoldable pub table_row : String → String → String → String → String → String → String
unfolding print pad_right
table_row ts agent method decision destination policy = print (
    pad_right 24 ts
    ∷ " "
    ∷ pad_right 18 agent
    ∷ " "
    ∷ pad_right 8 method
    ∷ " "
    ∷ pad_right 7 decision
    ∷ " "
    ∷ pad_right 28 destination
    ∷ " "
    ∷ policy
    ∷ [])

-- stamps are ASCII, so that bytes are characters
unfoldable pub shorten : String → String
unfolding take_chars char_count
shorten ts = if ltb 23 (char_count ts) then take_chars 23 ts else ts

unfoldable pub event_row : Fields → String
unfolding table_row text_of shorten field_at
event_row e =
    table_row (shorten (text_of (field_at "timestamp" e))) (text_of (field_at "agent_id" e))
      (text_of (field_at "http_method" e)) (text_of (field_at "decision" e))
      (text_of (field_at "destination" e)) (text_of (field_at "policy_id" e))

unfoldable pub event_table : List Fields → List String
unfolding table_row event_row print itoa
event_table [] = "no audit events" ∷ []
event_table (e ∷ events) =
    (table_row "TIMESTAMP" "AGENT" "METHOD" "DECISION" "DESTINATION" "POLICY"
      ∷ map event_row (e ∷ events))
    ++ "" ∷ print (itoa (length (e ∷ events)) ∷ " events" ∷ []) ∷ []

-- the answer to the request: none, or a status and a body
pub data AuditAnswer : Type 0 where
  no_answer unread : AuditAnswer
  answer : ℕ → String → AuditAnswer

-- how the command ends, with the lines that it prints
pub data AuditOutcome : Type 0 where
  request_failed read_failed parse_failed : AuditOutcome
  http_error : ℕ → String → AuditOutcome
  printed : List String → AuditOutcome

pub record AuditJson : Type 0 where
  pub indent : String → Option String
  pub events : String → Option (List Fields)

unfoldable pub show_body : AuditJson → Bool → String → AuditOutcome
unfolding event_table
show_body j true body = elim (j.indent body) [
  | none ↦ printed (body ∷ [])
  | some pretty ↦ printed (pretty ∷ [])
]
show_body j false body = elim (j.events body) [
  | none ↦ parse_failed
  | some events ↦ printed (event_table events)
]

unfoldable pub show_audit : AuditJson → AuditFlags → AuditAnswer → AuditOutcome
unfolding show_body
show_audit j f no_answer = request_failed
show_audit j f unread = read_failed
show_audit j f (answer status body) =
    if leb 400 status then http_error status body else show_body j f.json body

pub record InstallFlags : Type 0 where
  pub target_disk : String
  pub hostname : String
  pub reboot : Bool
  pub yes : Bool

-- the plan that is printed
unfoldable pub install_plan : InstallFlags → String → String → Fields
install_plan f timestamp status = field "mode" (Value.string "livecd-to-disk") (
    field "boot_source" (Value.string "squashfs") (
      field "target_disk" (Value.string f.target_disk) (
        field "hostname" (Value.string f.hostname) (
          field "auto_reboot" (flag f.reboot) (
            field "confirmed" (flag f.yes) (
              field "requires_root" (flag true) (
                field "timestamp" (Value.string timestamp) (
                  field "transactional_profile" (Value.string "commit/configure")
                    (field "status" (Value.string status) no_fields)))))))))

-- how the installation ends, with the programs that were run, and their arguments
pub data InstallOutcome : Type 0 where
  no_disk : InstallOutcome
  dry_run executed install_failed : Fields → InstallOutcome

abbrev pub Program : Type 0
Program = String × List String

unfoldable pub install_args : InstallFlags → List String
install_args f = "--target-disk" ∷ f.target_disk ∷ "--hostname" ∷ f.hostname ∷ "--apply" ∷ []

unfoldable pub installer : InstallFlags → Program
unfolding install_args
installer f = ("/usr/local/sbin/clawgress-install.sh", install_args f)

unfoldable pub run_install : Bool → String → InstallFlags → List Program × InstallOutcome
unfolding install_plan installer
run_install succeeds timestamp f =
    if f.target_disk == ""
    then ([], no_disk)
    else if not f.yes
    then ([], dry_run (install_plan f timestamp "dry-run"))
    else if not succeeds
    then (installer f ∷ [], install_failed (install_plan f timestamp "executing"))
    else (
      installer f ∷ (if f.reboot then ("reboot", []) ∷ [] else []),
      executed (install_plan f timestamp "executing"),
    )
