-- ===== src/Admin/Policies.antt =====
-- cmd/clawgress-admin-api/main.go: "/v1/policies", over the policy engine.

use crispy_garbanzo.Base.{
  String, false, ◌||◌, ◌&&◌, not, Option, List, [], ◌∷◌, ◌==◌, if◌then◌else◌, ◌≡◌, ◌∙◌, ap, refl,
  eq_refl, arith,
}
use crispy_garbanzo.Policy.Rule.{Rule}
use crispy_garbanzo.Policy.Engine.{Engine, lookup_by_id, add, remove, remove_rule}
use crispy_garbanzo.Policy.Engine.Rules.{
  IsKeyed, lookup_by_id-add, lookup_by_id-remove, add-remove-IsKeyed,
}
use crispy_garbanzo.Admin.Resource.{
  Checked, valid, rejected, Resource, Method, Target, Service, System, serve,
}
use crispy_garbanzo.Admin.Resource.Laws.{IsResource, Effect, serve-Effect}

unfoldable pub check_rule : Rule → Checked Rule
check_rule r =
    if r.policy_id == "" || r.action == ""
    then rejected "policy_id and action are required"
    else if not (r.action == "allow") && not (r.action == "deny")
    then rejected "action must be 'allow' or 'deny'"
    else if r.agent_id == ""
    then valid (record r { agent_id = "*" })
    else valid r

abbrev pub policies : Resource Engine Rule
policies = record {
  all = λ e. e.rules;
  find = lookup_by_id;
  put = λ now r e. add r e;
  delete = remove;
  check = check_rule;
  label = "policy not found";
  key = λ a. a.policy_id;
  stored = λ r. r;
}

remove_rule-missing :
    (id : String) (rs : List Rule) → (remove_rule id rs).1 ≡ false → (remove_rule id rs).0 ≡ rs
unfolding remove_rule
remove_rule-missing id [] h = refl
remove_rule-missing id (r ∷ rs) h = ground (arith, remove_rule-missing id rs)

remove-missing : (id : String) (e : Engine) → (remove id e).1 ≡ false → (remove id e).0 ≡ e
unfolding remove
remove-missing id e h =
    ap (λ (rules : List Rule). record { rules = rules }) (remove_rule-missing id e.rules h)

policies-IsResource : IsResource policies IsKeyed
policies-IsResource = record {
  find-put = λ now r e. lookup_by_id-add r r.policy_id e ∙ rw (eq_refl r.policy_id);
  find-delete = λ id e k. (lookup_by_id-remove id id e k).0 ∙ rw (eq_refl id);
  delete-missing = remove-missing;
  put-Inv = λ now r e k. (add-remove-IsKeyed r "" e k).0;
  delete-Inv = λ id e k.
      (add-remove-IsKeyed
        (record {
          policy_id = "";
          agent_id = "";
          domains = [];
          methods = [];
          path_prefixes = [];
          conditions = [];
          action = "";
        })
        id e k).1;
}

-- Whatever a request to the policies asks and the disk does, on an engine with distinct ids: a rule is
-- answered as created, or an id as deleted, only if the engine finds the rule, or not the id any more,
-- the file holds exactly the engine's rules, and the gateway was told to reload; a failure leaves the
-- file and the gateway alone, and the engine too unless the answer is 500; reading changes nothing; and
-- the ids stay distinct.
pub serve-policies :
    (sys : System Rule) (m : Method) (t : Target) (body : Option Rule) (s : Service Engine Rule)
    → IsKeyed s.content
    → Effect policies IsKeyed s (serve policies sys m t body s)
serve-policies = serve-Effect policies IsKeyed policies-IsResource
