-- ===== src/Sqlite/Store.antt =====
-- internal/store/sqlite.go: loading and saving agents, policies and quotas. Opening the database and creating
-- its tables is SQLite's. The JSON of a list of domains is an argument.
pub mod Reload
use crispy_garbanzo.Base.{ℕ, String, Option, none, some, List, []}
use crispy_garbanzo.Identity.Registry
use crispy_garbanzo.Identity.Registry.{Agent, Registry}
use crispy_garbanzo.Policy.Rule.{Rule}
use crispy_garbanzo.Policy.Engine
use crispy_garbanzo.Policy.Engine.{Engine}
use crispy_garbanzo.Quota.Limiter
use crispy_garbanzo.Quota.Limiter.{Limit, Limiter}
use crispy_garbanzo.Sqlite.Table.{Table, Rows, no_rows, broken_off, all_rows, take_all}

-- a component after a load, and whether its query succeeded
pub data Outcome (S : Type 0) : Type 0 where
  loaded : S → Outcome S
  query_failed : S → Outcome S

-- a load, for what the query gives
unfoldable pub load_rows : {Row S : Type 0} → (Row → S → S) → Rows Row → S → Outcome S
unfolding take_all
load_rows take no_rows s = query_failed s
load_rows take (broken_off rows) s = query_failed (take_all take rows s)
load_rows take (all_rows rows) s = loaded (take_all take rows s)

-- the primary keys
abbrev pub agent_key : Agent → String
agent_key a = a.agent_id

abbrev pub quota_key : Limit → String
quota_key q = q.agent_id

-- the columns of policies that are written and read; `priority` keeps its default
pub record PolicyRow : Type 0 where
  pub policy_id : String
  pub agent_id : String
  pub domains : String
  pub action : String

abbrev pub policy_key : PolicyRow → String
policy_key p = p.policy_id

module _ (T : Table Agent agent_key) where
  unfoldable pub load_agents : T.State → Registry → Outcome Registry
  unfolding load_rows
  load_agents db reg = load_rows Registry.add (T.select db) reg

  unfoldable pub save_agent : Agent → T.State → Option T.State
  save_agent a db = T.upsert a db

  unfoldable pub delete_agent : String → T.State → Option T.State
  delete_agent id db = T.delete id db

-- `json.Marshal` and `json.Unmarshal` of a list of domains
pub record Json : Type 0 where
  pub marshal : List String → String
  pub unmarshal : String → Option (List String)

unfoldable pub domains_of : Option (List String) → List String
domains_of none = []
domains_of (some ds) = ds

-- the fields that no column has are empty
unfoldable pub rule_of : Json → PolicyRow → Rule
unfolding domains_of
rule_of j p = record {
  policy_id = p.policy_id;
  agent_id = p.agent_id;
  domains = domains_of (j.unmarshal p.domains);
  methods = [];
  path_prefixes = [];
  conditions = [];
  action = p.action;
}

unfoldable pub row_of : Json → Rule → PolicyRow
row_of j r = record {
  policy_id = r.policy_id;
  agent_id = r.agent_id;
  domains = j.marshal r.domains;
  action = r.action;
}

-- one round of the loop of LoadPolicies
unfoldable pub take_policy : Json → PolicyRow → Engine → Engine
unfolding rule_of
take_policy j p e = Engine.add (rule_of j p) e

module _ (T : Table PolicyRow policy_key) (j : Json) where
  unfoldable pub load_policies : T.State → Engine → Outcome Engine
  unfolding load_rows take_policy
  load_policies db e = load_rows (take_policy j) (T.select db) e

  unfoldable pub save_policy : Rule → T.State → Option T.State
  unfolding row_of
  save_policy r db = T.upsert (row_of j r) db

  unfoldable pub delete_policy : String → T.State → Option T.State
  delete_policy id db = T.delete id db

module _ (T : Table Limit quota_key) where
  unfoldable pub load_quotas : ℕ → T.State → Limiter → Outcome Limiter
  unfolding load_rows
  load_quotas now db l = load_rows (Limiter.set now) (T.select db) l

  unfoldable pub save_quota : Limit → T.State → Option T.State
  save_quota q db = T.upsert q db

  unfoldable pub delete_quota : String → T.State → Option T.State
  delete_quota id db = T.delete id db
