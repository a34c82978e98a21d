-- ===== src/Policy/Conflict/Detection.antt =====
-- What `DetectConflicts` reports, and what it misses.

use crispy_garbanzo.Base.{
  Any-map, String, Bool, ◌||◌, to_lower, ◌<>◌, true, false, List, [], ◌∷◌, ◌≡◌, ◌≢◌, ◌⊎◌, ◌↔◌, inl,
  inr, refl, sym, ap, subst, arith, eq_iff, ◌==◌, Any, if◌then◌else◌,
}
use crispy_garbanzo.Policy.Rule.{Rule, RequestContext}
use crispy_garbanzo.Policy.Domain.{match_domain}
use crispy_garbanzo.Policy.Domain.Laws.{Covers, match_domain_iff}
use crispy_garbanzo.Policy.Engine.{decide_by, evaluate_rich}
use crispy_garbanzo.Policy.Engine.Evaluation.{evaluate_rich_iff, fires}
use crispy_garbanzo.Policy.Conflict.Found.{Found, IsFound, detect_sound, detect_complete}
use crispy_garbanzo.Policy.Conflict.{
  Conflict, agent_overlaps, domain_overlaps, agent_desc, conflict_at, domain_conflicts,
  pair_conflicts, later_conflicts, detect_conflicts,
}

-- The agents of two rules meet: one is "*", or they are the same.
abbrev pub AgentsMeet : String → String → Type 0
AgentsMeet a b = (a ≡ "*") ⊎ (b ≡ "*") ⊎ (a ≡ b)

-- The domains of two rules meet: one is "*", they are the same, or one covers the other as a host.
abbrev pub DomainsMeet : String → String → Type 0
DomainsMeet da db =
    (da ≡ "*") ⊎ (db ≡ "*") ⊎ (da ≡ db) ⊎ Covers (to_lower db) da ⊎ Covers (to_lower da) db

-- The agent that a report names.
abbrev pub Named : String → Rule → Rule → Type 0
Named agent a b =
    (((a.agent_id ≡ "*") ⊎ (b.agent_id ≡ "*")) × (agent ≡ "*"))
    ⊎ ((a.agent_id ≢ "*") × (b.agent_id ≢ "*") × (agent ≡ a.agent_id))

agent_overlaps_iff : (a b : String) → (agent_overlaps a b ≡ true) ↔ AgentsMeet a b
unfolding agent_overlaps
agent_overlaps_iff a b = ground (arith, eq_iff a "*", eq_iff b "*", eq_iff a b)

covers_any :
    (da db : String) (x y : Bool) {P Q : Type 0}
    → ((x ≡ true) ↔ P)
    → ((y ≡ true) ↔ Q)
    → ((if da == "*" || db == "*"
          then true
          else if da == db
          then true
          else if x || y
          then true
          else false)
        ≡ true)
      ↔ ((da ≡ "*") ⊎ (db ≡ "*") ⊎ (da ≡ db) ⊎ P ⊎ Q)
covers_any da db x y p q = ground (arith, eq_iff da "*", eq_iff db "*", eq_iff da db)

domain_overlaps_iff : (da db : String) → (domain_overlaps da db ≡ true) ↔ DomainsMeet da db
unfolding domain_overlaps
domain_overlaps_iff da db =
    covers_any da db (match_domain da db) (match_domain db da) (match_domain_iff da db)
      (match_domain_iff db da)

agent_desc-Named : (a b : Rule) → Named (agent_desc a b) a b
unfolding agent_desc
agent_desc-Named a b = ground (arith, eq_iff a.agent_id "*", eq_iff b.agent_id "*")

Named-unique : (t : String) (a b : Rule) → Named t a b → t ≡ agent_desc a b
unfolding agent_desc
Named-unique t a b h = ground (arith, eq_iff a.agent_id "*", eq_iff b.agent_id "*")

-- `c` is the report for the rules `a` and, later, `b`, at a domain of each
pub record Overlap (c : Conflict) (a b : Rule) (da db : String) : Type 0 where
  pub differ : a.action ≢ b.action
  pub agents : AgentsMeet a.agent_id b.agent_id
  pub domains_meet : DomainsMeet da db
  pub first : c.rule_a ≡ a
  pub second : c.rule_b ≡ b
  pub at_domains : c.domain ≡ da <> (" / " <> db)
  pub for_agent : Named c.agent_id a b
  pub shadowed : c.severity ≡ "shadowed"

-- `c` reports an overlap of `a` with a later rule
abbrev LaterOverlap : Conflict → Rule → List Rule → Type 0
LaterOverlap c a bs =
    Any (λ (b : Rule). Any (λ da. Any (λ db. Overlap c a b da db) b.domains) a.domains) bs

-- `c` reports an overlap of two rules, in order
abbrev pub IsOverlap : Conflict → List Rule → Type 0
IsOverlap c [] = ⊥
IsOverlap c (a ∷ rs) = LaterOverlap c a rs ⊎ IsOverlap c rs

Overlap-Found :
    (c : Conflict) (a b : Rule) (da db : String) → Overlap c a b da db → Found c a b da db
unfolding conflict_at
Overlap-Found c a b da db o = (
  o.differ,
  (agent_overlaps_iff a.agent_id b.agent_id).1 o.agents,
  (domain_overlaps_iff da db).1 o.domains_meet,
  λ i. record {
    rule_a = o.first i;
    rule_b = o.second i;
    domain = o.at_domains i;
    agent_id = Named-unique c.agent_id a b o.for_agent i;
    severity = o.shadowed i;
  },
)

Found-Overlap :
    (c : Conflict) (a b : Rule) (da db : String) → Found c a b da db → Overlap c a b da db
unfolding conflict_at
Found-Overlap c a b da db (differ, agents, domains, e) = record {
  differ = differ;
  agents = (agent_overlaps_iff a.agent_id b.agent_id).0 agents;
  domains_meet = (domain_overlaps_iff da db).0 domains;
  first = λ i. (e i).rule_a;
  second = λ i. (e i).rule_b;
  at_domains = λ i. (e i).domain;
  for_agent =
      subst (λ t. Named t a b) (sym (ap (λ (x : Conflict). x.agent_id) e)) (agent_desc-Named a b);
  shadowed = λ i. (e i).severity;
}

IsFound-IsOverlap : (c : Conflict) (rs : List Rule) → IsFound c rs → IsOverlap c rs
IsFound-IsOverlap c [] h = h
IsFound-IsOverlap c (a ∷ rs) (inl h) = inl (
    Any-map
      (λ (b : Rule). Any-map (λ da. Any-map (λ db. Found-Overlap c a b da db) b.domains) a.domains)
      rs h)
IsFound-IsOverlap c (a ∷ rs) (inr h) = inr (IsFound-IsOverlap c rs h)

IsOverlap-IsFound : (c : Conflict) (rs : List Rule) → IsOverlap c rs → IsFound c rs
IsOverlap-IsFound c [] h = h
IsOverlap-IsFound c (a ∷ rs) (inl h) = inl (
    Any-map
      (λ (b : Rule). Any-map (λ da. Any-map (λ db. Overlap-Found c a b da db) b.domains) a.domains)
      rs h)
IsOverlap-IsFound c (a ∷ rs) (inr h) = inr (IsOverlap-IsFound c rs h)

-- A conflict is reported exactly if it is that of a rule and a later one with different actions,
-- whose agents are "*" or the same, at a domain of each of which one is "*", both are the same or
-- one covers the other as a host (no domain of an empty list, and an empty agent is a name like any
-- other). The report names the two rules, both domains, the agent ("*" if either is) and "shadowed".
pub detect_conflicts_iff :
    (c : Conflict) (rs : List Rule) → Any (λ x. c ≡ x) (detect_conflicts rs) ↔ IsOverlap c rs
detect_conflicts_iff c rs = (
  λ h. IsFound-IsOverlap c rs (detect_sound c rs h),
  λ h. detect_complete c rs (IsOverlap-IsFound c rs h),
)

later_conflicts-no_domains :
    (a : Rule) (rs : List Rule) → a.domains ≡ [] → later_conflicts a rs ≡ []
unfolding later_conflicts pair_conflicts domain_conflicts
later_conflicts-no_domains a [] h = refl
later_conflicts-no_domains a (b ∷ rs) h = rw (h, later_conflicts-no_domains a rs h) (ground arith)

-- A rule with agent "*" and no domains, methods, path prefixes or conditions decides every request
-- when it stands first, so that no rule behind it ever fires; but whatever the actions of the rules
-- behind it, it adds no conflict to those that are reported without it.
pub detect_conflicts_misses :
    (a : Rule) (rs : List Rule) (ctx : RequestContext)
    → a.agent_id ≡ "*"
    → a.domains ≡ []
    → a.methods ≡ []
    → a.path_prefixes ≡ []
    → a.conditions ≡ []
    → (detect_conflicts (a ∷ rs) ≡ detect_conflicts rs)
      × (evaluate_rich (record { rules = a ∷ rs }) ctx ≡ decide_by a)
unfolding detect_conflicts
detect_conflicts_misses a rs ctx agent domains methods paths conditions = (
  rw (later_conflicts-no_domains a rs domains) refl,
  (evaluate_rich_iff _ ctx (decide_by a)).1 (
      fires
        (record {
          agent = inl agent;
          domain = inl domains;
          method = inl methods;
          path = inl paths;
          conditions = rw conditions tt;
        })
        refl),
)
