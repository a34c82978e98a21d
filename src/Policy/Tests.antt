-- ===== src/Policy/Tests.antt =====
-- The theorems on the policy engine, at concrete rules and requests.
use crispy_garbanzo.Base.{
  String, true, none, List, [], ◌∷◌, ◌≡◌, ◌↔◌, refl, Any, if◌then◌else◌, ◌==◌, to_lower, Disk,
  Faults, read_back, ◌<>◌, has_prefix, trim_space, before_char, contains_char, split, drop_chars,
  has_suffix, to_upper,
}
use crispy_garbanzo.Policy.Rule.{Rule, RequestContext}
use crispy_garbanzo.Policy.Domain.{sanitize_host, strip_port}
use crispy_garbanzo.Policy.Engine.{Engine, decide_by, evaluate_rich}
use crispy_garbanzo.Policy.Engine.Evaluation.{Decides, evaluate_rich_iff}
use crispy_garbanzo.Policy.Conflict.{Conflict, detect_conflicts, conflict_at}
use crispy_garbanzo.Policy.Conflict.Detection.{
  IsOverlap, detect_conflicts_iff, detect_conflicts_misses,
}
use crispy_garbanzo.Policy.Signing.{
  SignedBundle, ok, err, signature_mismatch, sign_bundle, save_signed_bundle, load_signed_bundle,
}
use crispy_garbanzo.Policy.Signing.Bundles.{load-save_signed_bundle}

abbrev deny_admin : Rule
deny_admin = record {
  policy_id = "deny-admin";
  agent_id = "*";
  domains = "*.example.com" ∷ [];
  methods = "post" ∷ [];
  path_prefixes = "/admin" ∷ [];
  conditions = [];
  action = "deny";
}

abbrev allow_example : Rule
allow_example = record {
  policy_id = "allow-example";
  agent_id = "a1";
  domains = "*.Example.com" ∷ [];
  methods = [];
  path_prefixes = [];
  conditions = ("environment", "prod") ∷ [];
  action = "allow";
}

abbrev deny_all : Rule
deny_all = record {
  policy_id = "deny-all";
  agent_id = "*";
  domains = [];
  methods = [];
  path_prefixes = [];
  conditions = [];
  action = "deny";
}

abbrev two_rules : Engine
two_rules = record { rules = deny_admin ∷ allow_example ∷ [] }

abbrev get_api : RequestContext
get_api = record {
  agent_id = "a1";
  destination = "API.example.com.:443";
  method = "GET";
  path = "/v1";
  environment = "prod";
  team_id = "";
  project_id = "";
}

get_api_allowed : (evaluate_rich two_rules get_api).action ≡ "allow"
unfolding evaluate_rich to_lower has_prefix trim_space before_char contains_char split drop_chars
    has_suffix to_upper
get_api_allowed = refl

evaluate_rich_iff_example :
    (evaluate_rich two_rules get_api ≡ decide_by allow_example)
    ↔ Decides get_api
        (sanitize_host (strip_port get_api.destination))
        two_rules.rules
        (decide_by allow_example)
evaluate_rich_iff_example = evaluate_rich_iff two_rules get_api (decide_by allow_example)

abbrev example_conflict : Conflict
example_conflict = conflict_at deny_admin allow_example "*.example.com" "*.Example.com"

detect_conflicts_iff_example :
    Any (λ x. example_conflict ≡ x) (detect_conflicts two_rules.rules)
    ↔ IsOverlap example_conflict two_rules.rules
detect_conflicts_iff_example = detect_conflicts_iff example_conflict two_rules.rules

detect_conflicts_misses_example :
    (detect_conflicts (deny_all ∷ allow_example ∷ []) ≡ detect_conflicts (allow_example ∷ []))
    × (evaluate_rich (record { rules = deny_all ∷ allow_example ∷ [] }) get_api
        ≡ decide_by deny_all)
detect_conflicts_misses_example =
    detect_conflicts_misses deny_all (allow_example ∷ []) get_api refl refl refl refl refl

abbrev weak_hash : String → String → String
weak_hash text key = text <> key

abbrev ids_of : List Rule → String
ids_of [] = ""
ids_of (r ∷ rules) = r.policy_id <> ids_of rules

abbrev writes : Faults SignedBundle
writes = record { write_ok = true; left_behind = none; rename_ok = true }

abbrev no_bundle : Disk SignedBundle
no_bundle = record { file = none; tmp = none }

saved_without_error :
    (save_signed_bundle weak_hash ids_of writes
      (sign_bundle weak_hash ids_of "now" two_rules.rules "s")
      no_bundle).1
    ≡ none
unfolding save_signed_bundle
saved_without_error = refl

load-save_signed_bundle_example :
    load_signed_bundle weak_hash ids_of
      (read_back
        (save_signed_bundle weak_hash ids_of writes
          (sign_bundle weak_hash ids_of "now" two_rules.rules "s")
          no_bundle).0)
      "t"
    ≡ (if weak_hash (ids_of two_rules.rules) "t" == weak_hash (ids_of two_rules.rules) "s"
        then ok two_rules.rules
        else err signature_mismatch)
load-save_signed_bundle_example =
    load-save_signed_bundle weak_hash ids_of writes no_bundle "now" "s" "t" two_rules.rules
      saved_without_error
