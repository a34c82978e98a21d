-- ===== src/Policy/Rule.antt =====
-- internal/policy/engine.go: the data of a rule, a request and a decision.
use crispy_garbanzo.Base.{String, List, Dict}

pub record Rule : Type 0 where
  pub policy_id : String
  pub agent_id : String
  pub domains : List String
  pub methods : List String
  pub path_prefixes : List String
  pub conditions : Dict String
  pub action : String

pub record RequestContext : Type 0 where
  pub agent_id : String
  pub destination : String
  pub method : String
  pub path : String
  pub environment : String
  pub team_id : String
  pub project_id : String

pub record Decision : Type 0 where
  pub action : String
  pub policy_id : String
  pub reason : String
