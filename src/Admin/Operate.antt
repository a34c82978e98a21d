-- ===== src/Admin/Operate.antt =====
-- cmd/clawgress-admin-api/main.go: "/v1/opmode/configure", "/v1/opmode/state" and "/v1/audit".
pub mod Live
mod Tests
use crispy_garbanzo.Base.{
  ℕ, zero, suc, String, Bool, true, false, Option, none, some, List, [], ◌==◌, if◌then◌else◌, ℤ,
  pos, negsuc,
}
use crispy_garbanzo.Base.Digits.{atoi}
use crispy_garbanzo.Base.Value.{Fields, no_fields}
use crispy_garbanzo.Opmode.Revisions.{Store, System, Result, ok, err, Response}
use crispy_garbanzo.Opmode.Store.{StateView, StateReads, configure, state}
use crispy_garbanzo.Audit.Event.{Event}
use crispy_garbanzo.Audit.Query.{Line, Filter, Times, query}
use crispy_garbanzo.Admin.Resource.{Method, get, post, delete_method, other_method}

-- an error with its status, or a value with 200
pub data Reply (A : Type 0) : Type 0 where
  failed : ℕ → Reply A
  answered : A → Reply A

-- a ConfigureRequest, whose changes may be missing or null
pub record ConfigureBody : Type 0 where
  pub actor : String
  pub changes : Option Fields

unfoldable pub actor_of : String → String
actor_of actor = if actor == "" then "unknown" else actor

unfoldable pub changes_of : Option Fields → Fields
changes_of none = no_fields
changes_of (some changes) = changes

unfoldable pub configure_reply : Store × Result Response → Store × Reply Response
configure_reply (s, err e) = (s, failed 500)
configure_reply (s, ok r) = (s, answered r)

-- a body, `none` if it is no JSON
unfoldable pub configure_body : System → Option ConfigureBody → Store → Store × Reply Response
unfolding configure_reply configure actor_of changes_of
configure_body sys none s = (s, failed 400)
configure_body sys (some b) s =
    configure_reply (configure sys (actor_of b.actor) (changes_of b.changes) s)

unfoldable pub handle_configure :
    System → Method → Option ConfigureBody → Store → Store × Reply Response
unfolding configure_body
handle_configure sys post body s = configure_body sys body s
handle_configure sys get body s = (s, failed 405)
handle_configure sys delete_method body s = (s, failed 405)
handle_configure sys other_method body s = (s, failed 405)

unfoldable pub state_reply : Result StateView → Reply StateView
state_reply (err e) = failed 500
state_reply (ok view) = answered view

unfoldable pub handle_state : Method → StateReads → Store → Reply StateView
unfolding state_reply state
handle_state get reads s = state_reply (state reads s)
handle_state post reads s = failed 405
handle_state delete_method reads s = failed 405
handle_state other_method reads s = failed 405

-- the parameters of the URL, empty where they are missing
pub record AuditParams : Type 0 where
  pub limit : String
  pub agent_id : String
  pub decision : String
  pub since : String

-- the log of events: no file, one that cannot be read, or its lines
pub data AuditLog : Type 0 where
  no_log unreadable_log : AuditLog
  log_lines : List Line → AuditLog

unfoldable pub limit_of_number : Option ℤ → ℕ
limit_of_number none = 100
limit_of_number (some (negsuc n)) = 100
limit_of_number (some (pos zero)) = 100
limit_of_number (some (pos (suc n))) = suc n

unfoldable pub limit_of : String → ℕ
unfolding limit_of_number atoi
limit_of v = if v == "" then 100 else limit_of_number (atoi v)

unfoldable pub filter_of : AuditParams → Filter
unfolding limit_of
filter_of q = record {
  agent_id = q.agent_id;
  decision = q.decision;
  since = q.since;
  limit = limit_of q.limit;
}

unfoldable pub audit_reply : Times → AuditLog → AuditParams → Reply (List Event)
unfolding query filter_of
audit_reply t no_log q = answered (query t none (filter_of q))
audit_reply t unreadable_log q = failed 500
audit_reply t (log_lines lines) q = answered (query t (some lines) (filter_of q))

unfoldable pub handle_audit : Times → Method → AuditLog → AuditParams → Reply (List Event)
unfolding audit_reply
handle_audit t get log q = audit_reply t log q
handle_audit t post log q = failed 405
handle_audit t delete_method log q = failed 405
handle_audit t other_method log q = failed 405
