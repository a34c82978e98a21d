-- ===== src/Identity/Registry.antt =====
-- internal/identity/registry.go. The two maps hold pointers to agents; no method writes through one,
-- so the model holds the agents themselves. Each method has the mutex for its whole access.
pub mod Lookup
pub mod Persistence
use crispy_garbanzo.Base.{
  String, Bool, true, false, Option, none, some, List, [], ◌∷◌, ◌==◌, if◌then◌else◌, Dict, lookup,
  insert, erase, values, ReadResult, not_exist, unreadable, malformed, parsed, IoError, read_failed,
  parse_failed, Disk, Faults, save_atomic,
}

pub record Agent : Type 0 where
  pub agent_id : String
  pub team_id : String
  pub project_id : String
  pub environment : String
  pub api_key : String
  pub status : String

pub record Registry : Type 0 where
  pub by_key : Dict Agent
  pub by_id : Dict Agent

abbrev pub empty : Registry
empty = record { by_key = []; by_id = [] }

-- `Add`, and one round of the loop of `Load`
unfoldable pub add : Agent → Registry → Registry
add a r = record { by_key = insert a.api_key a r.by_key; by_id = insert a.agent_id a r.by_id }

-- the loop of `Load`
unfoldable pub add_all : List Agent → Registry → Registry
unfolding add
add_all [] r = r
add_all (a ∷ agents) r = add_all agents (add a r)

unfoldable pub load : ReadResult (List Agent) → Registry → Registry × Option IoError
unfolding add_all
load not_exist r = (empty, none)
load unreadable r = (r, some read_failed)
load malformed r = (r, some parse_failed)
load (parsed agents) r = (add_all agents empty, none)

active_only : Option Agent → Option Agent
active_only none = none
active_only (some a) = if a.status == "active" then some a else none

unfoldable pub lookup_by_key : String → Registry → Option Agent
unfolding active_only
lookup_by_key key r = active_only (lookup key r.by_key)

unfoldable pub all_agents : Registry → List Agent
all_agents r = values r.by_id

unfoldable pub lookup_by_id : String → Registry → Option Agent
lookup_by_id id r = lookup id r.by_id

unfoldable pub remove : String → Registry → Registry × Bool
remove id r = elim (lookup id r.by_id) [
  | none ↦ (r, false)
  | some a ↦ (record { by_key = erase a.api_key r.by_key; by_id = erase id r.by_id }, true)
]

unfoldable pub save :
    Faults (List Agent) → Registry → Disk (List Agent) → Disk (List Agent) × Option IoError
unfolding save_atomic all_agents
save f r = save_atomic f (all_agents r)
