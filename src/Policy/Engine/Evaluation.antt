-- ===== src/Policy/Engine/Evaluation.antt =====
-- What `EvaluateRich` decides: the first rule that applies to the request, and a denial if none does.

use mathlib.Core.Bool.{false≢true}
use crispy_garbanzo.Base.{
  String, false, List, [], ◌∷◌, ◌++◌, ◌≡◌, ◌≢◌, ◌↔◌, inl, inr, refl, sym, ap, ◌∙◌, arith, eq_iff,
  All, Bool-cases,
}
use crispy_garbanzo.Policy.Rule.{Rule, RequestContext, Decision}
use crispy_garbanzo.Policy.Domain.{sanitize_host, strip_port}
use crispy_garbanzo.Policy.Engine.Applies.{
  Applies, applies, applies_sound, applies_complete, evaluate_rules-cons,
}
use crispy_garbanzo.Policy.Engine.{Engine, default_deny, decide_by, evaluate_rules, evaluate_rich}

deny≢allow : ◌≢◌ {A = String} "deny" "allow"
deny≢allow = ground (arith, eq_iff "deny" "allow")

module _ (ctx : RequestContext) (host : String) where
  -- The outcome of a list of rules: the first that applies decides, and a denial if none does.
  pub data Decides : List Rule → Decision → Type 0 where
    no_rule : {d : Decision} → d ≡ default_deny → Decides [] d
    fires :
        {r : Rule} {rs : List Rule} {d : Decision}
        → Applies ctx host r
        → d ≡ decide_by r
        → Decides (r ∷ rs) d
    skips :
        {r : Rule} {rs : List Rule} {d : Decision}
        → ¬ Applies ctx host r
        → Decides rs d
        → Decides (r ∷ rs) d

  not-applies : (r : Rule) → applies ctx host r ≡ false → ¬ Applies ctx host r
  not-applies r no' a = absurd (false≢true (sym no' ∙ applies_complete ctx host r a))

  not-Applies : (r : Rule) → ¬ Applies ctx host r → applies ctx host r ≡ false
  not-Applies r n = elim (Bool-cases (applies ctx host r)) [
    | inl yes' ↦ absurd (n (applies_sound ctx host r yes'))
    | inr no' ↦ no'
  ]

  evaluate_rules-nil : evaluate_rules ctx host [] ≡ default_deny
  unfolding evaluate_rules
  evaluate_rules-nil = refl

  pub evaluate_rules-Decides : (rs : List Rule) → Decides rs (evaluate_rules ctx host rs)
  evaluate_rules-Decides [] = no_rule evaluate_rules-nil
  evaluate_rules-Decides (r ∷ rs) = elim (Bool-cases (applies ctx host r)) [
    | inl yes' ↦ fires (applies_sound ctx host r yes') (evaluate_rules-cons ctx host r rs ∙ rw yes')
    | inr no' ↦
        skips (not-applies r no') (rw (evaluate_rules-cons, no') (evaluate_rules-Decides rs))
  ]

  pub Decides-evaluate_rules :
      {rs : List Rule} {d : Decision} → Decides rs d → evaluate_rules ctx host rs ≡ d
  Decides-evaluate_rules (no_rule e) = evaluate_rules-nil ∙ sym e
  Decides-evaluate_rules (fires {r} {rs} a e) =
      evaluate_rules-cons ctx host r rs ∙ rw (applies_complete ctx host r a) (sym e)
  Decides-evaluate_rules (skips {r} {rs} n h) =
      evaluate_rules-cons ctx host r rs ∙ rw (not-Applies r n) (Decides-evaluate_rules h)

-- `EvaluateRich` gives a decision exactly when the rules, in order and for the request's host
-- without port and sanitised, decide so: the first rule that applies gives its own action and id, and
-- if none applies the answer is the default denial.
pub evaluate_rich_iff :
    (e : Engine) (ctx : RequestContext) (d : Decision)
    → (evaluate_rich e ctx ≡ d) ↔ Decides ctx (sanitize_host (strip_port ctx.destination)) e.rules d
unfolding evaluate_rich
evaluate_rich_iff e ctx d =
    let host = sanitize_host (strip_port ctx.destination) in
    (λ h. rw h at (evaluate_rules-Decides ctx host e.rules), Decides-evaluate_rules ctx host)

-- Why a list of rules allows a request.
pub record Allowed (ctx : RequestContext) (host : String) (rules : List Rule) (d : Decision)
    : Type 0 where
  pub before : List Rule
  pub rule : Rule
  pub after : List Rule
  pub listed : rules ≡ before ++ rule ∷ after
  pub passed : All (λ q. ¬ Applies ctx host q) before
  pub applied : Applies ctx host rule
  pub allows : rule.action ≡ "allow"
  pub named : d.policy_id ≡ rule.policy_id

module _ (ctx : RequestContext) (host : String) where
  Decides-Allowed :
      {rs : List Rule} {d : Decision}
      → Decides ctx host rs d
      → d.action ≡ "allow"
      → Allowed ctx host rs d
  Decides-Allowed (no_rule e) h = absurd (deny≢allow (sym (ap (λ (x : Decision). x.action) e) ∙ h))
  Decides-Allowed (fires {r} {rs} a e) h = record {
    before = [];
    rule = r;
    after = rs;
    listed = refl;
    passed = tt;
    applied = a;
    allows = sym (ap (λ (x : Decision). x.action) e) ∙ h;
    named = ap (λ (x : Decision). x.policy_id) e;
  }
  Decides-Allowed (skips {r} n k) h =
      let c = Decides-Allowed k h in
      record {
        before = r ∷ c.before;
        rule = c.rule;
        after = c.after;
        listed = ap (λ t. r ∷ t) c.listed;
        passed = (n, c.passed);
        applied = c.applied;
        allows = c.allows;
        named = c.named;
      }

-- A request is allowed only by a rule of the engine with the action "allow" that applies to it,
-- while no rule in front of that one applies; the decision carries that rule's id.
pub evaluate_rich-Allowed :
    (e : Engine) (ctx : RequestContext)
    → (evaluate_rich e ctx).action ≡ "allow"
    → Allowed ctx (sanitize_host (strip_port ctx.destination)) e.rules (evaluate_rich e ctx)
evaluate_rich-Allowed e ctx h =
    Decides-Allowed ctx _ ((evaluate_rich_iff e ctx (evaluate_rich e ctx)).0 refl) h
