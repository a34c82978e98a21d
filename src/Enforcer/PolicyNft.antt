-- ===== src/Enforcer/PolicyNft.antt =====
-- internal/enforcer/policy_nft.go: the sets of addresses that the rules of the policy deny and allow. The parser
-- of addresses and the resolver of names are arguments.
pub mod Sets
mod Tests
use crispy_garbanzo.Base.{
  ℕ, String, Bool, true, false, ◌||◌, Option, none, some, List, [], ◌∷◌, ◌++◌, ◌==◌, if◌then◌else◌,
  map, has_prefix, has_suffix, drop_chars, join, print, flatten,
}
use crispy_garbanzo.Base.Once.{add_once}
use crispy_garbanzo.Policy.Rule.{Rule}

-- what `net.ParseIP` gives, an IPv4 address as `To4` prints it
pub data Address : Type 0 where
  no_address ipv6 : Address
  ipv4 : String → Address

pub record Net : Type 0 where
  pub parse_ip : String → Address
  -- `net.LookupHost`, `none` on an error
  pub lookup_host : String → Option (List String)

-- the IPv4 addresses among those that a name has
unfoldable pub ipv4_of : Address → List String
ipv4_of no_address = []
ipv4_of ipv6 = []
ipv4_of (ipv4 ip) = ip ∷ []

unfoldable pub looked_up : Net → Option (List String) → List String
unfolding ipv4_of flatten
looked_up net none = []
looked_up net (some addrs) = flatten (map (λ a. ipv4_of (net.parse_ip a)) addrs)

unfoldable pub resolve_parsed : Net → String → Address → List String
unfolding looked_up
resolve_parsed net name no_address = looked_up net (net.lookup_host name)
resolve_parsed net name ipv6 = []
resolve_parsed net name (ipv4 ip) = ip ∷ []

unfoldable pub resolve_name : Net → String → List String
unfolding has_suffix resolve_parsed
resolve_name net name =
    if has_suffix name ".invalid" || has_suffix name ".local"
    then []
    else resolve_parsed net name (net.parse_ip name)

unfoldable pub resolve_domain : Net → String → List String
unfolding has_prefix drop_chars resolve_name
resolve_domain net domain =
    resolve_name net (if has_prefix domain "*." then drop_chars 2 domain else domain)

-- the addresses of one domain
unfoldable pub domain_ips : Net → String → List String
unfolding resolve_domain
domain_ips net d = if d == "*" then [] else resolve_domain net d

-- the addresses of the rules with an action
unfoldable pub action_ips : Net → String → List Rule → List String
unfolding domain_ips flatten
action_ips net action [] = []
action_ips net action (r ∷ rules) =
    (if r.action == action then flatten (map (domain_ips net) r.domains) else [])
    ++ action_ips net action rules

-- `dedup`; the set `seen` holds what was put out
unfoldable pub dedup_onto : List String → List String → List String
unfolding add_once
dedup_onto out [] = out
dedup_onto out (s ∷ ips) = dedup_onto (add_once s out) ips

unfoldable pub dedup : List String → List String
unfolding dedup_onto
dedup ips = dedup_onto [] ips

-- a set of addresses, unless it has none
unfoldable pub ip_set : String → List String → List String
unfolding join dedup
ip_set name [] = []
ip_set name (ip ∷ ips) =
    "  set "
    ∷ name
    ∷ " {\n    type ipv4_addr\n    elements = { "
    ∷ join ", " (dedup (ip ∷ ips))
    ∷ " }\n  }\n"
    ∷ []

unfoldable pub ip_rule : String → List String → List String
ip_rule line [] = []
ip_rule line (ip ∷ ips) = line ∷ []

unfoldable pub policy_pieces : String → String → List String → List String → List String
unfolding ip_set ip_rule flatten
policy_pieces table chain deny allow = flatten (
    ("# Auto-generated from policy engine — do not edit\n" ∷ "table inet " ∷ table ∷ " {\n" ∷ [])
    ∷ ip_set "policy_deny" deny
    ∷ ip_set "policy_allow" allow
    ∷ ("  chain " ∷ chain ∷ " {\n" ∷ [])
    ∷ ip_rule "    ip daddr @policy_deny drop\n" deny
    ∷ ip_rule "    ip daddr @policy_allow accept\n" allow
    ∷ ("  }\n" ∷ "}\n" ∷ [])
    ∷ [])

unfoldable pub or_default : String → String → String
or_default s fallback = if s == "" then fallback else s

unfoldable pub render_policy_nft : Net → List Rule → String → String → String
unfolding policy_pieces or_default action_ips print
render_policy_nft net rules table chain = print (
    policy_pieces (or_default table "clawgress") (or_default chain "egress_policy")
      (action_ips net "deny" rules) (action_ips net "allow" rules))
