-- ===== src/Policy/Engine.antt =====
-- internal/policy/engine.go: the engine. Each method holds the mutex for its whole access to `rules`,
-- so it is one function of the state.
pub mod Applies
pub mod Evaluation
pub mod Rules
use crispy_garbanzo.Base.{
  ℕ, String, ◌<>◌, Bool, true, false, ◌&&◌, ◌||◌, not, Option, none, some, List, [], ◌∷◌, ◌++◌,
  ◌==◌, any, if◌then◌else◌, has_prefix, to_upper, Dict, ReadResult, not_exist, unreadable,
  malformed, parsed, IoError, read_failed, parse_failed, Disk, Faults, save_atomic,
}
use crispy_garbanzo.Policy.Rule.{Rule, RequestContext, Decision}
use crispy_garbanzo.Policy.Domain.{sanitize_host, strip_port, match_domain_list}

pub record Engine : Type 0 where
  pub rules : List Rule

unfoldable pub load : ReadResult (List Rule) → Engine → Engine × Option IoError
load not_exist e = (record { rules = [] }, none)
load unreadable e = (e, some read_failed)
load malformed e = (e, some parse_failed)
load (parsed rules) e = (record { rules = rules }, none)

-- `NewEngine`: no engine if the first load fails
unfoldable pub new_engine : ReadResult (List Rule) → Option Engine
unfolding load
new_engine file =
    let (e, failed) = load file (record { rules = [] }) in
    elim failed [ none ↦ some e | some _ ↦ none ]

-- the loop of `LookupByID`
unfoldable pub find_rule : String → List Rule → Option Rule
find_rule id [] = none
find_rule id (r ∷ rs) = if r.policy_id == id then some r else find_rule id rs

unfoldable pub lookup_by_id : String → Engine → Option Rule
unfolding find_rule
lookup_by_id id e = find_rule id e.rules

-- the loop of `Add`, with the append behind it
unfoldable pub add_rule : Rule → List Rule → List Rule
add_rule r [] = r ∷ []
add_rule r (q ∷ rs) = if q.policy_id == r.policy_id then r ∷ rs else q ∷ add_rule r rs

unfoldable pub add : Rule → Engine → Engine
unfolding add_rule
add r e = record { rules = add_rule r e.rules }

-- the loop of `Remove`: the rules that are left, and whether one was removed
unfoldable pub remove_rule : String → List Rule → List Rule × Bool
remove_rule id [] = ([], false)
remove_rule id (r ∷ rs) =
    let (rest, found) = remove_rule id rs in
    if r.policy_id == id then (rs, true) else (r ∷ rest, found)

unfoldable pub remove : String → Engine → Engine × Bool
unfolding remove_rule
remove id e = let (rest, found) = remove_rule id e.rules in (record { rules = rest }, found)

unfoldable pub save :
    Faults (List Rule) → Engine → Disk (List Rule) → Disk (List Rule) × Option IoError
unfolding save_atomic
save f e = save_atomic f e.rules

unfoldable pub contains_ignore_case : List String → String → Bool
contains_ignore_case list val = any (λ s. to_upper s == to_upper val) list

unfoldable pub match_any_prefix : String → List String → Bool
match_any_prefix path prefixes = any (has_prefix path) prefixes

-- one round of `matchConditions`: the cases of its `switch` that return false
unfoldable pub condition_fails : RequestContext → String → String → Bool
condition_fails ctx k v =
    if k == "environment"
    then not (ctx.environment == "") && not (ctx.environment == v)
    else if k == "team_id"
    then not (ctx.team_id == "") && not (ctx.team_id == v)
    else if k == "project_id"
    then not (ctx.project_id == "") && not (ctx.project_id == v)
    else false

unfoldable pub match_conditions : Dict String → RequestContext → Bool
unfolding condition_fails
match_conditions [] ctx = true
match_conditions ((k, v) ∷ conds) ctx =
    if condition_fails ctx k v then false else match_conditions conds ctx

abbrev pub is_empty {ℓ} : {A : Type ℓ} → List A → Bool
is_empty [] = true
is_empty (x ∷ xs) = false

abbrev pub default_deny : Decision
default_deny = record {
  action = "deny";
  policy_id = "default-deny";
  reason = "no matching allow rule";
}

abbrev pub decide_by : Rule → Decision
decide_by r = record {
  action = r.action;
  policy_id = r.policy_id;
  reason = "matched rule " <> r.policy_id;
}

-- the loop of `EvaluateRich`; each `continue` goes on with the rest of the rules
unfoldable pub evaluate_rules : RequestContext → String → List Rule → Decision
unfolding match_domain_list contains_ignore_case match_any_prefix match_conditions
evaluate_rules ctx host [] = default_deny
evaluate_rules ctx host (r ∷ rs) =
    let next = evaluate_rules ctx host rs in
    if not (r.agent_id == "*") && not (r.agent_id == "") && not (r.agent_id == ctx.agent_id)
    then next
    else if not (match_domain_list host r.domains)
    then next
    else if not (is_empty r.methods)
        && not (ctx.method == "")
        && not (contains_ignore_case r.methods ctx.method)
    then next
    else if not (is_empty r.path_prefixes)
        && not (ctx.path == "")
        && not (match_any_prefix ctx.path r.path_prefixes)
    then next
    else if not (is_empty r.conditions) && not (match_conditions r.conditions ctx)
    then next
    else decide_by r

unfoldable pub evaluate_rich : Engine → RequestContext → Decision
unfolding evaluate_rules sanitize_host strip_port
evaluate_rich e ctx = evaluate_rules ctx (sanitize_host (strip_port ctx.destination)) e.rules

-- `Evaluate`: the fields that it leaves out are empty
unfoldable pub evaluate : Engine → String → String → Decision
unfolding evaluate_rich
evaluate e agent_id dest_host = evaluate_rich e (record {
  agent_id = agent_id;
  destination = dest_host;
  method = "";
  path = "";
  environment = "";
  team_id = "";
  project_id = "";
})
