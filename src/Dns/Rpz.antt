-- ===== src/Dns/Rpz.antt =====
-- internal/dns/rpz.go: the names of a response policy zone, and the text of the zone. The set `seen` holds
-- exactly the names that were written, so that one list, in the order of writing, is both.
pub mod Names
use crispy_garbanzo.Base.{
  ℕ, ◌-◌, String, ◌<>◌, Bool, true, false, List, [], ◌∷◌, ◌++◌, ◌==◌, if◌then◌else◌, any, map,
  has_prefix, drop_chars, print, flatten,
}
use crispy_garbanzo.Base.Once.{add_once}
use crispy_garbanzo.Policy.Rule.{Rule}

-- one round of the loop over the domains of a rule
unfoldable pub domain_names : String → List String → List String
unfolding add_once has_prefix drop_chars
domain_names d seen =
    if d == "*"
    then seen
    else if has_prefix d "*."
    then add_once ("*." <> drop_chars 2 d) (add_once (drop_chars 2 d) seen)
    else add_once d seen

unfoldable pub all_domain_names : List String → List String → List String
unfolding domain_names
all_domain_names [] seen = seen
all_domain_names (d ∷ ds) seen = all_domain_names ds (domain_names d seen)

-- the loop over the rules
unfoldable pub rule_names : List Rule → List String → List String
unfolding all_domain_names
rule_names [] seen = seen
rule_names (r ∷ rules) seen =
    rule_names rules (if r.action == "deny" then all_domain_names r.domains seen else seen)

-- the names of the zone, in the order of its lines
unfoldable pub zone_names : List Rule → List String
unfolding rule_names
zone_names rules = rule_names rules []
