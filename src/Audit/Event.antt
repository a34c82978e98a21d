-- ===== src/Audit/Event.antt =====
-- internal/audit/log.go and validate.go. A time stamp is a text; latency and bytes are whole numbers.
use crispy_garbanzo.Base.{
  ℕ, String, Bool, ◌&&◌, not, Option, none, some, List, [], ◌∷◌, ◌++◌, ◌==◌, if◌then◌else◌, ◌≡◌,
  ◌≢◌, ◌⊎◌, ◌↔◌, arith, eq_iff,
}

pub record Event : Type 0 where
  pub timestamp : String
  pub request_id : String
  pub agent_id : String
  pub team_id : String
  pub project_id : String
  pub environment : String
  pub destination : String
  pub method : String
  pub decision : String
  pub policy_id : String
  pub latency_ms : ℕ
  pub bytes_out : ℕ

-- `Write`: the event that is appended; the file is the list of its lines
unfoldable pub stamp : String → Event → Event
stamp now e = if e.timestamp == "" then record e { timestamp = now } else e

-- a write that fails leaves the log as it is; its caller only prints the error
unfoldable pub write : Bool → String → Event → List Event → List Event
unfolding stamp
write ok now e log = if ok then log ++ stamp now e ∷ [] else log

pub data Invalid : Type 0 where
  missing_request_id missing_decision : Invalid
  invalid_decision : String → Invalid
  missing_policy_id missing_destination missing_http_method : Invalid

unfoldable pub validate : Event → Option Invalid
validate e =
    if e.request_id == ""
    then some missing_request_id
    else if e.decision == ""
    then some missing_decision
    else if not (e.decision == "allow")
        && not (e.decision == "deny")
        && not (e.decision == "allow-upstream-error")
    then some (invalid_decision e.decision)
    else if e.policy_id == ""
    then some missing_policy_id
    else if e.destination == ""
    then some missing_destination
    else if e.method == ""
    then some missing_http_method
    else none

pub record IsComplete (e : Event) : Type 0 where
  pub request : e.request_id ≢ ""
  pub decided :
      (e.decision ≡ "allow") ⊎ (e.decision ≡ "deny") ⊎ (e.decision ≡ "allow-upstream-error")
  pub policy : e.policy_id ≢ ""
  pub target : e.destination ≢ ""
  pub verb : e.method ≢ ""

module _ (e : Event) where
  validate_sound : validate e ≡ none → IsComplete e
  unfolding validate
  validate_sound h = ground (
    arith,
    eq_iff e.request_id "",
    eq_iff e.decision "",
    eq_iff e.decision "allow",
    eq_iff e.decision "deny",
    eq_iff e.decision "allow-upstream-error",
    eq_iff e.policy_id "",
    eq_iff e.destination "",
    eq_iff e.method "",
  )

  validate_complete : IsComplete e → validate e ≡ none
  unfolding validate
  validate_complete c = ground (
    arith,
    eq_iff e.request_id "",
    eq_iff e.decision "",
    eq_iff e.decision "allow",
    eq_iff e.decision "deny",
    eq_iff e.decision "allow-upstream-error",
    eq_iff "allow" "",
    eq_iff "deny" "",
    eq_iff "allow-upstream-error" "",
    eq_iff e.policy_id "",
    eq_iff e.destination "",
    eq_iff e.method "",
  )

-- `Validate` accepts an event exactly if its request id, policy id, destination and method are not
-- empty and its decision is one of the three that the gateway writes.
pub validate_iff : (e : Event) → (validate e ≡ none) ↔ IsComplete e
validate_iff e = (validate_sound e, validate_complete e)
