-- ===== src/Admin/Tools/Tests.antt =====
-- The theorem on signing and verifying, at a concrete bundle and a hash that joins text and key.
use crispy_garbanzo.Base.{String, true, some, List, [], ◌∷◌, ◌<>◌, ◌≡◌, ◌↔◌}
use crispy_garbanzo.Policy.Rule.{Rule}
use crispy_garbanzo.Policy.Signing.{SignedBundle}
use crispy_garbanzo.Admin.Resource.{post}
use crispy_garbanzo.Admin.Operate.{answered}
use crispy_garbanzo.Admin.Tools.{handle_sign, handle_verify}
use crispy_garbanzo.Admin.Tools.Signatures.{SigningKey, handle_verify_iff}

abbrev joined : String → String → String
joined text key = text <> key

abbrev ids_of : List Rule → String
ids_of [] = ""
ids_of (r ∷ rules) = r.policy_id <> ids_of rules

abbrev rule : Rule
rule = record {
  policy_id = "p1";
  agent_id = "*";
  domains = "example.com" ∷ [];
  methods = [];
  path_prefixes = [];
  conditions = [];
  action = "allow";
}

abbrev bundle : SignedBundle
bundle = record { version = 1; signed_at = "now"; rules = rule ∷ []; signature = "p1key" }

handle_verify_iff_example :
    ((key : String) × SigningKey "key" key
      × ((handle_verify joined ids_of post "key" (some bundle) ≡ answered true)
          ↔ (joined (ids_of bundle.rules) key ≡ bundle.signature)))
    × ((signed : SignedBundle) × (handle_sign joined ids_of post "key" "now" (rule ∷ [])
          ≡ answered signed)
        × (handle_verify joined ids_of post "key" (some signed) ≡ answered true))
handle_verify_iff_example = handle_verify_iff joined ids_of "key" "now" bundle (rule ∷ [])
