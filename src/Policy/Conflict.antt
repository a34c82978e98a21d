-- ===== src/Policy/Conflict.antt =====
-- internal/policy/conflict.go: pairs of rules that overlap and disagree.
pub mod Found
pub mod Detection
use crispy_garbanzo.Base.{
  String, ◌<>◌, Bool, true, false, ◌&&◌, ◌||◌, not, List, [], ◌∷◌, ◌++◌, ◌==◌, if◌then◌else◌,
}
use crispy_garbanzo.Policy.Rule.{Rule}
use crispy_garbanzo.Policy.Domain.{match_domain}

pub record Conflict : Type 0 where
  pub rule_a : Rule
  pub rule_b : Rule
  pub domain : String
  pub agent_id : String
  pub severity : String

unfoldable pub agent_overlaps : String → String → Bool
agent_overlaps a b = a == "*" || b == "*" || a == b

unfoldable pub domain_overlaps : String → String → Bool
domain_overlaps a b =
    if a == "*" || b == "*"
    then true
    else if a == b
    then true
    else if match_domain a b || match_domain b a
    then true
    else false

unfoldable pub agent_desc : Rule → Rule → String
agent_desc a b = if a.agent_id == "*" || b.agent_id == "*" then "*" else a.agent_id

unfoldable pub conflict_at : Rule → Rule → String → String → Conflict
unfolding agent_desc
conflict_at a b da db = record {
  rule_a = a;
  rule_b = b;
  domain = da <> (" / " <> db);
  agent_id = agent_desc a b;
  severity = "shadowed";
}

-- the loop over `b.Domains`
unfoldable pub conflicts_with : Rule → Rule → String → List String → List Conflict
unfolding domain_overlaps
conflicts_with a b da [] = []
conflicts_with a b da (db ∷ dbs) =
    let rest = conflicts_with a b da dbs in
    if domain_overlaps da db then conflict_at a b da db ∷ rest else rest

-- the loop over `a.Domains`
unfoldable pub domain_conflicts : Rule → Rule → List String → List Conflict
unfolding conflicts_with
domain_conflicts a b [] = []
domain_conflicts a b (da ∷ das) = conflicts_with a b da b.domains ++ domain_conflicts a b das

-- one round of the loop over `j`
unfoldable pub pair_conflicts : Rule → Rule → List Conflict
unfolding domain_conflicts agent_overlaps
pair_conflicts a b =
    if a.action == b.action
    then []
    else if not (agent_overlaps a.agent_id b.agent_id)
    then []
    else domain_conflicts a b a.domains

unfoldable pub later_conflicts : Rule → List Rule → List Conflict
unfolding pair_conflicts
later_conflicts a [] = []
later_conflicts a (b ∷ bs) = pair_conflicts a b ++ later_conflicts a bs

unfoldable pub detect_conflicts : List Rule → List Conflict
unfolding later_conflicts
detect_conflicts [] = []
detect_conflicts (a ∷ rs) = later_conflicts a rs ++ detect_conflicts rs
