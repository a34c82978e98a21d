-- ===== src/Enforcer/PolicyNft/Tests.antt =====
-- The theorem on the sets of addresses, at a rule that denies for one agent and one that allows for all; and
-- the rules of the transparent mode.
use crispy_garbanzo.Base.{
  true, ◌==◌, some, List, [], ◌∷◌, ◌≡◌, refl, if◌then◌else◌, pos, contains_text,
}
use crispy_garbanzo.Policy.Rule.{Rule}
use crispy_garbanzo.Enforcer.PolicyNft.{Net, no_address, ipv4, render_policy_nft}
use crispy_garbanzo.Enforcer.Transparent.{TransparentConfig, render_transparent_nft}

abbrev net : Net
net = record {
  parse_ip = λ s. if s == "192.0.2.7" then ipv4 s else no_address;
  lookup_host = λ s. some ("192.0.2.7" ∷ "192.0.2.7" ∷ []);
}

abbrev for_one : Rule
for_one = record {
  policy_id = "deny-one";
  agent_id = "crawler";
  domains = "*.example.com" ∷ "*" ∷ [];
  methods = [];
  path_prefixes = [];
  conditions = [];
  action = "deny";
}

abbrev two_rules : List Rule
two_rules = record for_one { agent_id = "*"; action = "allow" } ∷ for_one ∷ []

-- Both sets have the address, and the drop stands first.
denied_for_all :
    contains_text
      (render_policy_nft net two_rules "" "")
      "    ip daddr @policy_deny drop\n    ip daddr @policy_allow accept\n"
    ≡ true
unfolding render_policy_nft contains_text
denied_for_all = refl

abbrev subnet_only : TransparentConfig
subnet_only = record {
  proxy_port = pos 0;
  inbound_if = "";
  subnet_cidr = "10.0.0.0/24";
  table_name = "";
}

redirects :
    contains_text
      (render_transparent_nft subnet_only)
      "    ip saddr != 10.0.0.0/24 accept\n    tcp dport { 80, 443 } redirect to :3128\n"
    ≡ true
unfolding render_transparent_nft contains_text
redirects = refl
