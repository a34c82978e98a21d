-- ===== src/Sqlite/Store/Reload.antt =====
-- What a load finds after a save or a delete, and which requests a reloaded rule applies to.
use crispy_garbanzo.Base.{
  ℕ, String, Option, some, List, [], ◌==◌, if◌then◌else◌, ◌≡◌, ◌⊎◌, ◌↔◌, inl, inr, refl, sym, ap,
  ◌∙◌, arith, Bool-cases, Any, lookup-insert, to_lower,
}
use crispy_garbanzo.Identity.Registry
use crispy_garbanzo.Identity.Registry.{Agent, Registry}
use crispy_garbanzo.Policy.Rule.{Rule, RequestContext}
use crispy_garbanzo.Policy.Engine
use crispy_garbanzo.Policy.Engine.{Engine}
use crispy_garbanzo.Policy.Engine.Rules.{lookup_by_id-add}
use crispy_garbanzo.Policy.Engine.Applies.{Applies}
use crispy_garbanzo.Policy.Domain.Laws.{Covers}
use crispy_garbanzo.Quota.Limiter
use crispy_garbanzo.Quota.Limiter.{Limit, Limiter, with_mode}
use crispy_garbanzo.Sqlite.Table.{
  Table, Rows, no_rows, broken_off, all_rows, take_all, find-upserted, find-deleted,
}
use crispy_garbanzo.Sqlite.Store.{
  loaded, load_rows, agent_key, quota_key, PolicyRow, policy_key, load_agents, save_agent,
  delete_agent, Json, domains_of, rule_of, row_of, take_policy, load_policies, save_policy,
  delete_policy, load_quotas, save_quota, delete_quota,
}

-- a load without error read all rows
load_rows-loaded :
    {Row S : Type 0} (take : Row → S → S) (q : Rows Row) (s s' : S)
    → load_rows take q s ≡ loaded s'
    → (rs : List Row) × (q ≡ all_rows rs) × (s' ≡ take_all take rs s)
unfolding load_rows
load_rows-loaded take no_rows s s' e = absurd (cc)
load_rows-loaded take (broken_off rs) s s' e = absurd (cc)
load_rows-loaded take (all_rows rs) s s' e = (rs, refl, cc)

add-found :
    (a : Agent) (j : String) (r : Registry)
    → Registry.lookup_by_id j (Registry.add a r)
      ≡ (if a.agent_id == j then some a else Registry.lookup_by_id j r)
unfolding Registry.lookup_by_id Registry.add
add-found a j r = lookup-insert a.agent_id j a r.by_id

take-found :
    (json : Json) (row : PolicyRow) (j : String) (e : Engine)
    → Engine.lookup_by_id j (take_policy json row e)
      ≡ (if row.policy_id == j then some (rule_of json row) else Engine.lookup_by_id j e)
unfolding take_policy
take-found json row j e = lookup_by_id-add (rule_of json row) j e

set-found :
    (now : ℕ) (q : Limit) (j : String) (l : Limiter)
    → Limiter.lookup_by_id j (Limiter.set now q l)
      ≡ (if q.agent_id == j then some (with_mode q) else Limiter.lookup_by_id j l)
unfolding Limiter.lookup_by_id Limiter.set with_mode
set-found now q j l = elim (Bool-cases (q.mode == "")) [
  | inl blank ↦ rw blank (lookup-insert q.agent_id j _ l.limits)
  | inr given ↦ rw given (lookup-insert q.agent_id j q l.limits)
]

-- A change of a table: a row is saved, or a key is deleted.
pub data Change (Row : Type 0) : Type 0 where
  saved : Row → Change Row
  deleted : String → Change Row

-- What is found under an id once a change is loaded, from what was found before it and what the component
-- had before the load.
abbrev pub after :
    {Row B : Type 0}
    → (Row → String)
    → (Row → B)
    → Change Row
    → String
    → Option B
    → Option B
    → Option B
after key kept (saved row) j old base = if key row == j then some (kept row) else old
after key kept (deleted k) j old base = if k == j then base else old

module _ {Row S B : Type 0} (key : Row → String) (T : Table Row key) (take : Row → S → S)
    (find : String → S → Option B) (kept : Row → B)
    (found : (row : Row) (j : String) (s : S)
      → find j (take row s) ≡ (if key row == j then some (kept row) else find j s)) where
  changed : Change Row → T.State → Option T.State
  changed (saved row) db = T.upsert row db
  changed (deleted k) db = T.delete k db

  loads-after :
      (c : Change Row) (db db' : T.State) (s r r' : S) (j : String)
      → changed c db ≡ some db'
      → load_rows take (T.select db) s ≡ loaded r
      → load_rows take (T.select db') s ≡ loaded r'
      → find j r' ≡ after key kept c j (find j r) (find j s)
  unfolding changed
  loads-after (saved row) db db' s r r' j h e e' =
      let (rs, q, f) = load_rows-loaded take (T.select db) s r e in
      let (rs', q', f') = load_rows-loaded take (T.select db') s r' e' in
      ap (find j) f'
      ∙ find-upserted key T take find kept found j row db db' rs rs' s h q q'
      ∙ ap (λ x. if key row == j then some (kept row) else find j x) (sym f)
  loads-after (deleted k) db db' s r r' j h e e' =
      let (rs, q, f) = load_rows-loaded take (T.select db) s r e in
      let (rs', q', f') = load_rows-loaded take (T.select db') s r' e' in
      ap (find j) f'
      ∙ find-deleted key T take find kept found j k db db' rs rs' s h q q'
      ∙ ap (λ x. if k == j then find j s else find j x) (sym f)

unfoldable pub change_agents : (T : Table Agent agent_key) → Change Agent → T.State → Option T.State
unfolding save_agent delete_agent
change_agents T (saved a) db = save_agent T a db
change_agents T (deleted id) db = delete_agent T id db

unfoldable pub change_policies :
    (T : Table PolicyRow policy_key) → Json → Change Rule → T.State → Option T.State
unfolding save_policy delete_policy
change_policies T json (saved r) db = save_policy T json r db
change_policies T json (deleted id) db = delete_policy T json id db

unfoldable pub change_quotas : (T : Table Limit quota_key) → Change Limit → T.State → Option T.State
unfolding save_quota delete_quota
change_quotas T (saved q) db = save_quota T q db
change_quotas T (deleted id) db = delete_quota T id db

-- After an agent is saved or deleted in the database without error, a load into a registry finds under every
-- id what the load before the change found, but for the id of the change: there it finds the saved agent,
-- or what the registry had before the load.
pub load_agents-change_agents :
    (T : Table Agent agent_key) (c : Change Agent) (db db' : T.State) (reg r r' : Registry)
    (j : String)
    → change_agents T c db ≡ some db'
    → load_agents T db reg ≡ loaded r
    → load_agents T db' reg ≡ loaded r'
    → Registry.lookup_by_id j r'
      ≡ after agent_key (λ a. a) c j (Registry.lookup_by_id j r) (Registry.lookup_by_id j reg)
unfolding change_agents load_agents
load_agents-change_agents T (saved a) db db' reg r r' j h e e' =
    loads-after agent_key T Registry.add Registry.lookup_by_id (λ x. x) add-found (saved a) db db'
      reg r r' j (unfold changed save_agent in h) e e'
load_agents-change_agents T (deleted id) db db' reg r r' j h e e' =
    loads-after agent_key T Registry.add Registry.lookup_by_id (λ x. x) add-found (deleted id) db
      db' reg r r' j (unfold changed delete_agent in h) e e'

-- A rule without the fields that have no column.
abbrev pub plain : Rule → Rule
plain r = record r { methods = []; path_prefixes = []; conditions = [] }

rule_of-row_of :
    (json : Json) (r : Rule)
    → json.unmarshal (json.marshal r.domains) ≡ some r.domains
    → rule_of json (row_of json r) ≡ plain r
unfolding rule_of row_of domains_of
rule_of-row_of json r e = ground arith

-- the change of rows that a change of rules is
row_change : Json → Change Rule → Change PolicyRow
row_change json (saved r) = saved (row_of json r)
row_change json (deleted id) = deleted id

row_change-after :
    (json : Json) (c : Change Rule) (j : String) (old base : Option Rule)
    → ((ds : List String) → json.unmarshal (json.marshal ds) ≡ some ds)
    → after policy_key (rule_of json) (row_change json c) j old base
      ≡ after (λ (r : Rule). r.policy_id) plain c j old base
unfolding row_change row_of
row_change-after json (deleted id) j old base law = refl
row_change-after json (saved r) j old base law =
    ap (λ x. if r.policy_id == j then some x else old) (rule_of-row_of json r (law r.domains))

-- After a rule is saved or deleted in the database without error, a load into an engine finds under every id
-- what the load before the change found, but for the id of the change: there it finds the saved rule
-- without its methods, path prefixes and conditions, or what the engine had before the load. A list of
-- domains is read back from the JSON that it was written as.
pub load_policies-change_policies :
    (T : Table PolicyRow policy_key) (json : Json) (c : Change Rule) (db db' : T.State)
    (eng e e' : Engine) (j : String)
    → ((ds : List String) → json.unmarshal (json.marshal ds) ≡ some ds)
    → change_policies T json c db ≡ some db'
    → load_policies T json db eng ≡ loaded e
    → load_policies T json db' eng ≡ loaded e'
    → Engine.lookup_by_id j e'
      ≡ after
          (λ (r : Rule). r.policy_id)
          plain
          c
          j
          (Engine.lookup_by_id j e)
          (Engine.lookup_by_id j eng)
unfolding change_policies load_policies
load_policies-change_policies T json (saved r) db db' eng e e' j law h l l' =
    loads-after policy_key T (take_policy json) Engine.lookup_by_id (rule_of json) (take-found json)
      (saved (row_of json r)) db db' eng e e' j (unfold changed save_policy in h) l l'
    ∙ unfold row_change in
      row_change-after json (saved r) j (Engine.lookup_by_id j e) (Engine.lookup_by_id j eng) law
load_policies-change_policies T json (deleted id) db db' eng e e' j law h l l' =
    loads-after policy_key T (take_policy json) Engine.lookup_by_id (rule_of json) (take-found json)
      (deleted id) db db' eng e e' j (unfold changed delete_policy in h) l l'

-- After a quota is saved or deleted in the database without error, a load into a limiter finds under every
-- id what the load before the change found, but for the id of the change: there it finds the saved quota,
-- with the mode "hard_stop" if it had none, or what the limiter had before the load.
pub load_quotas-change_quotas :
    (T : Table Limit quota_key) (now : ℕ) (c : Change Limit) (db db' : T.State) (lim l l' : Limiter)
    (j : String)
    → change_quotas T c db ≡ some db'
    → load_quotas T now db lim ≡ loaded l
    → load_quotas T now db' lim ≡ loaded l'
    → Limiter.lookup_by_id j l'
      ≡ after quota_key with_mode c j (Limiter.lookup_by_id j l) (Limiter.lookup_by_id j lim)
unfolding change_quotas load_quotas
load_quotas-change_quotas T now (saved q) db db' lim l l' j h e e' =
    loads-after quota_key T (Limiter.set now) Limiter.lookup_by_id with_mode (set-found now)
      (saved q) db db' lim l l' j (unfold changed save_quota in h) e e'
load_quotas-change_quotas T now (deleted id) db db' lim l l' j h e e' =
    loads-after quota_key T (Limiter.set now) Limiter.lookup_by_id with_mode (set-found now)
      (deleted id) db db' lim l l' j (unfold changed delete_quota in h) e e'

-- A rule that is written to a row and read back applies to every request whose agent and destination it
-- matches, whatever methods, path prefixes and conditions it had.
pub rule_of-row_of-Applies :
    (json : Json) (r : Rule) (ctx : RequestContext) (host : String)
    → json.unmarshal (json.marshal r.domains) ≡ some r.domains
    → Applies ctx host (rule_of json (row_of json r)) ↔ (
        ((r.agent_id ≡ "*") ⊎ (r.agent_id ≡ "") ⊎ (r.agent_id ≡ ctx.agent_id))
        × ((r.domains ≡ []) ⊎ Any (λ d. Covers (to_lower d) host) r.domains))
rule_of-row_of-Applies json r ctx host law = rw (rule_of-row_of json r law) (
  λ a. (a.agent, a.domain),
  λ (ag, d). record { agent = ag; domain = d; method = inl refl; path = inl refl; conditions = tt },
)
