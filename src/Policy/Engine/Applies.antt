-- ===== src/Policy/Engine/Applies.antt =====
-- What it means that a rule applies to a request, without the code's tests, and that the tests of the
-- loop in `EvaluateRich` decide it.
use mathlib.Core.List.{cons≢nil}
use crispy_garbanzo.Base.{
  String, ◌<>◌, Bool, true, false, ◌&&◌, not, List, [], ◌∷◌, ◌≡◌, ◌⊎◌, ◌↔◌, inl, inr, refl, arith,
  eq_iff, ◌==◌, any_iff, All, Any, and-split, if◌then◌else◌, has_prefix, to_lower, to_upper, Dict,
}
use crispy_garbanzo.Base.Text.Laws.{has_prefix-split, has_prefix-append}
use crispy_garbanzo.Policy.Rule.{Rule, RequestContext, Decision}
use crispy_garbanzo.Policy.Domain.{match_domain_list}
use crispy_garbanzo.Policy.Domain.Laws.{Covers, match_domain_iff}
use crispy_garbanzo.Policy.Engine.{
  contains_ignore_case, match_any_prefix, condition_fails, match_conditions, is_empty, decide_by,
  evaluate_rules,
}

-- a condition of a rule, for a request whose identity gives the value `actual` for the key `name`
abbrev Agrees : String → String → String → String → Type 0
Agrees name actual k v = k ≡ name → (actual ≡ "") ⊎ (actual ≡ v)

abbrev pub ConditionHolds : RequestContext → String × String → Type 0
ConditionHolds ctx (k, v) =
    Agrees "environment" ctx.environment k v
    × Agrees "team_id" ctx.team_id k v
    × Agrees "project_id" ctx.project_id k v

-- The rule matches the request for a host: its agent, one of its domains, one of its methods, one of
-- its path prefixes and all its conditions; what is empty on either side matches.
pub record Applies (ctx : RequestContext) (host : String) (r : Rule) : Type 0 where
  pub agent : (r.agent_id ≡ "*") ⊎ (r.agent_id ≡ "") ⊎ (r.agent_id ≡ ctx.agent_id)
  pub domain : (r.domains ≡ []) ⊎ Any (λ d. Covers (to_lower d) host) r.domains
  pub method :
      (r.methods ≡ []) ⊎ (ctx.method ≡ "") ⊎ Any (λ m. to_upper m ≡ to_upper ctx.method) r.methods
  pub path :
      (r.path_prefixes ≡ [])
      ⊎ (ctx.path ≡ "")
      ⊎ Any (λ p. (rest : String) × (ctx.path ≡ p <> rest)) r.path_prefixes
  pub conditions : All (ConditionHolds ctx) r.conditions

skip_chain :
    (agent domain method path conditions : Bool) (x y : Decision)
    → (if agent
        then y
        else if not domain
        then y
        else if method
        then y
        else if path
        then y
        else if conditions
        then y
        else x)
      ≡ (if not agent && (domain && (not method && (not path && not conditions))) then x else y)
skip_chain agent domain method path conditions x y = ground arith

-- "empty, or unconstrained, or found"
optional_iff :
    {A : Type 0} {P : A → Type 0} (test : List A → Bool) (xs : List A) (given : String)
    → ((ys : List A) → (test ys ≡ true) ↔ Any P ys)
    → (not (not (is_empty xs) && not (given == "") && not (test xs)) ≡ true)
      ↔ ((xs ≡ []) ⊎ (given ≡ "") ⊎ Any P xs)
optional_iff test [] given h = (λ _. inl refl, λ _. refl)
optional_iff test (x ∷ xs) given h = ground (arith, eq_iff given "", h (x ∷ xs))

module _ (ctx : RequestContext) (host : String) where
  abbrev agent_skips : Rule → Bool
  agent_skips r =
      not (r.agent_id == "*") && not (r.agent_id == "") && not (r.agent_id == ctx.agent_id)

  agent_test : Rule → Bool
  agent_test r = not (agent_skips r)

  abbrev method_skips : Rule → Bool
  method_skips r =
      not (is_empty r.methods)
      && not (ctx.method == "")
      && not (contains_ignore_case r.methods ctx.method)

  method_test : Rule → Bool
  method_test r = not (method_skips r)

  abbrev path_skips : Rule → Bool
  path_skips r =
      not (is_empty r.path_prefixes)
      && not (ctx.path == "")
      && not (match_any_prefix ctx.path r.path_prefixes)

  path_test : Rule → Bool
  path_test r = not (path_skips r)

  abbrev condition_skips : Rule → Bool
  condition_skips r = not (is_empty r.conditions) && not (match_conditions r.conditions ctx)

  condition_test : Rule → Bool
  condition_test r = not (condition_skips r)

  pub applies : Rule → Bool
  applies r =
      agent_test r
      && (match_domain_list host r.domains && (method_test r && (path_test r && condition_test r)))

  pub evaluate_rules-cons :
      (r : Rule) (rs : List Rule)
      → evaluate_rules ctx host (r ∷ rs)
        ≡ (if applies r then decide_by r else evaluate_rules ctx host rs)
  unfolding evaluate_rules applies agent_test method_test path_test condition_test
  evaluate_rules-cons r rs =
      skip_chain (agent_skips r) (match_domain_list host r.domains) (method_skips r) (path_skips r)
        (condition_skips r) (decide_by r) (evaluate_rules ctx host rs)

  agent_iff :
      (r : Rule)
      → (agent_test r ≡ true)
        ↔ ((r.agent_id ≡ "*") ⊎ (r.agent_id ≡ "") ⊎ (r.agent_id ≡ ctx.agent_id))
  unfolding agent_test
  agent_iff r =
      ground (arith, eq_iff r.agent_id "*", eq_iff r.agent_id "", eq_iff r.agent_id ctx.agent_id)

  domain_iff :
      (ds : List String)
      → (match_domain_list host ds ≡ true) ↔ ((ds ≡ []) ⊎ Any (λ d. Covers (to_lower d) host) ds)
  unfolding match_domain_list
  domain_iff [] = (λ h. inl refl, λ h. refl)
  domain_iff (d ∷ ds) = (
    λ h. inr ((any_iff (match_domain_iff host) (d ∷ ds)).0 h),
    λ h. elim h [
      | inl e ↦ absurd (cons≢nil e)
      | inr found ↦ (any_iff (match_domain_iff host) (d ∷ ds)).1 found
    ],
  )

  prefix_iff :
      (p : String) → (has_prefix ctx.path p ≡ true) ↔ ((rest : String) × (ctx.path ≡ p <> rest))
  prefix_iff p = (has_prefix-split ctx.path p, λ (rest, e). rw e (has_prefix-append p rest))

  method_iff :
      (r : Rule)
      → (method_test r ≡ true) ↔ (
          (r.methods ≡ [])
          ⊎ (ctx.method ≡ "")
          ⊎ Any (λ m. to_upper m ≡ to_upper ctx.method) r.methods)
  unfolding method_test
  method_iff r =
      optional_iff (λ ms. contains_ignore_case ms ctx.method) r.methods ctx.method
        (unfold contains_ignore_case in any_iff (λ m. eq_iff (to_upper m) (to_upper ctx.method)))

  path_iff :
      (r : Rule)
      → (path_test r ≡ true) ↔ (
          (r.path_prefixes ≡ [])
          ⊎ (ctx.path ≡ "")
          ⊎ Any (λ p. (rest : String) × (ctx.path ≡ p <> rest)) r.path_prefixes)
  unfolding path_test
  path_iff r =
      optional_iff (match_any_prefix ctx.path) r.path_prefixes ctx.path
        (unfold match_any_prefix in any_iff prefix_iff)

  condition_iff : (k v : String) → (condition_fails ctx k v ≡ false) ↔ ConditionHolds ctx (k, v)
  unfolding condition_fails
  condition_iff k v = ground (
    arith,
    eq_iff k "environment",
    eq_iff k "team_id",
    eq_iff k "project_id",
    eq_iff ctx.environment "",
    eq_iff ctx.environment v,
    eq_iff ctx.team_id "",
    eq_iff ctx.team_id v,
    eq_iff ctx.project_id "",
    eq_iff ctx.project_id v,
    eq_iff "environment" "team_id",
    eq_iff "environment" "project_id",
    eq_iff "team_id" "project_id",
  )

  conditions_iff :
      (conds : Dict String) → (match_conditions conds ctx ≡ true) ↔ All (ConditionHolds ctx) conds
  unfolding match_conditions
  conditions_iff [] = (λ h. tt, λ h. refl)
  conditions_iff ((k, v) ∷ conds) = ground (arith, condition_iff k v, conditions_iff conds)

  -- the test of `len(r.Conditions)` changes nothing
  guarded_conditions :
      (conds : Dict String)
      → not (not (is_empty conds) && not (match_conditions conds ctx)) ≡ match_conditions conds ctx
  unfolding match_conditions
  guarded_conditions [] = refl
  guarded_conditions (c ∷ conds) = ground arith

  condition_test_iff :
      (r : Rule) → (condition_test r ≡ true) ↔ All (ConditionHolds ctx) r.conditions
  unfolding condition_test
  condition_test_iff r = rw (guarded_conditions r.conditions) (conditions_iff r.conditions)

  pub applies_sound : (r : Rule) → applies r ≡ true → Applies ctx host r
  unfolding applies
  applies_sound r h =
      let (a, h) = and-split (agent_test r) _ h in
      let (d, h) = and-split (match_domain_list host r.domains) _ h in
      let (m, h) = and-split (method_test r) _ h in
      let (p, c) = and-split (path_test r) _ h in
      record {
        agent = (agent_iff r).0 a;
        domain = (domain_iff r.domains).0 d;
        method = (method_iff r).0 m;
        path = (path_iff r).0 p;
        conditions = (condition_test_iff r).0 c;
      }

  pub applies_complete : (r : Rule) → Applies ctx host r → applies r ≡ true
  unfolding applies
  applies_complete r a = rw (
    (agent_iff r).1 a.agent,
    (domain_iff r.domains).1 a.domain,
    (method_iff r).1 a.method,
    (path_iff r).1 a.path,
    (condition_test_iff r).1 a.conditions,
  )
