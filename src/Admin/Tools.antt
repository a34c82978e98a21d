-- ===== src/Admin/Tools.antt =====
-- cmd/clawgress-admin-api/main.go: the endpoints that sign, verify, check and render the rules. The HMAC, the
-- JSON of the rules, and the net are the arguments of the components that they call.
pub mod Signatures
mod Tests
use crispy_garbanzo.Base.{
  ℕ, String, Bool, true, false, Option, none, some, List, [], ◌∷◌, ◌==◌, if◌then◌else◌, length,
  trim_space, print, pos, Faults, Disk,
}
use crispy_garbanzo.Policy.Rule.{Rule}
use crispy_garbanzo.Policy.Signing.{SignedBundle, sign_bundle, verify_bundle}
use crispy_garbanzo.Policy.Conflict.{Conflict, detect_conflicts}
use crispy_garbanzo.Enforcer.PolicyNft.{Net, render_policy_nft}
use crispy_garbanzo.Enforcer.Transparent.{TransparentConfig, render_transparent_nft}
use crispy_garbanzo.Dns.Zone.{
  RpzConfig, Clock, RpzResult, Written, written, failed, generate_rpz, write_rpz_file,
  generate_named_conf,
}
use crispy_garbanzo.Admin.Resource.{Method, get, post, delete_method, other_method}
use crispy_garbanzo.Admin.Operate
use crispy_garbanzo.Admin.Operate.{Reply, answered}

-- getenv
unfoldable pub getenv : String → String → String
getenv value fallback = if value == "" then fallback else value

-- the secret of the environment, or the one of the source
unfoldable pub sign_secret : String → String
unfolding getenv
sign_secret env = getenv env "clawgress-default-sign-key"

module _ (hmac_hex : String → String → String) (marshal : List Rule → String) where
  -- "/v1/policy/sign"
  unfoldable pub handle_sign : Method → String → String → List Rule → Reply SignedBundle
  unfolding sign_bundle sign_secret
  handle_sign post env now rules =
      answered (sign_bundle hmac_hex marshal now rules (sign_secret env))
  handle_sign get env now rules = Operate.failed 405
  handle_sign delete_method env now rules = Operate.failed 405
  handle_sign other_method env now rules = Operate.failed 405

  unfoldable pub verify_body : String → Option SignedBundle → Reply Bool
  unfolding verify_bundle sign_secret
  verify_body env none = Operate.failed 400
  verify_body env (some b) =
      if verify_bundle hmac_hex marshal b (sign_secret env)
      then answered true
      else Operate.failed 400

  -- "/v1/policy/verify"
  unfoldable pub handle_verify : Method → String → Option SignedBundle → Reply Bool
  unfolding verify_body
  handle_verify post env body = verify_body env body
  handle_verify get env body = Operate.failed 405
  handle_verify delete_method env body = Operate.failed 405
  handle_verify other_method env body = Operate.failed 405

pub record ConflictReport : Type 0 where
  pub conflicts : List Conflict
  pub count : ℕ

-- the answer of an endpoint that only reads
unfoldable pub on_get : {A : Type 0} → Method → A → Reply A
on_get get a = answered a
on_get post a = Operate.failed 405
on_get delete_method a = Operate.failed 405
on_get other_method a = Operate.failed 405

-- "/v1/policy/conflicts"
unfoldable pub handle_conflicts : Method → List Rule → Reply ConflictReport
unfolding on_get detect_conflicts
handle_conflicts m rules =
    on_get m
      (record { conflicts = detect_conflicts rules; count = length (detect_conflicts rules) })

-- "/v1/nft/render"
unfoldable pub handle_nft_render : Net → Method → List Rule → Reply String
unfolding on_get render_policy_nft
handle_nft_render net m rules = on_get m (render_policy_nft net rules "clawgress" "egress_policy")

-- "/v1/nft/transparent"
unfoldable pub handle_nft_transparent : Method → String → String → Reply String
unfolding on_get render_transparent_nft
handle_nft_transparent m iface subnet = on_get m (
    render_transparent_nft
      (record { proxy_port = pos 3128; inbound_if = iface; subnet_cidr = subnet; table_name = "" }))

-- the environment of the zone: its path and its name
pub record ZoneEnv : Type 0 where
  pub zone_path : String
  pub zone_name : String

unfoldable pub zone_config : ZoneEnv → RpzConfig
unfolding getenv
zone_config env = record {
  zone_name = getenv env.zone_name "rpz.clawgress.local";
  soa_contact = "";
  ttl = pos 0;
  serial = 0;
}

unfoldable pub path_of_zone : ZoneEnv → String
unfolding getenv
path_of_zone env = getenv env.zone_path "/etc/bind/db.rpz.clawgress"

-- the reload of named, with its output if it fails
unfoldable pub after_reload : Option String → RpzResult → RpzResult
unfolding print trim_space
after_reload none r = r
after_reload (some out) r = record r {
  generated_at = print (r.generated_at ∷ " (rndc reload failed: " ∷ trim_space out ∷ ")" ∷ []);
}

unfoldable pub zone_reply : Option String → Written → Reply RpzResult
unfolding after_reload
zone_reply reload (written r) = answered (after_reload reload r)
zone_reply reload (failed e) = Operate.failed 500

-- "/v1/rpz/generate"
unfoldable pub handle_rpz_generate :
    Clock
    → Faults String
    → Option String
    → ZoneEnv
    → Method
    → List Rule
    → Disk String
    → Disk String × Reply RpzResult
unfolding write_rpz_file zone_reply zone_config path_of_zone
handle_rpz_generate t f reload env post rules d =
    let (d', w) = write_rpz_file t f (path_of_zone env) rules (zone_config env) d in
    (d', zone_reply reload w)
handle_rpz_generate t f reload env get rules d = (d, Operate.failed 405)
handle_rpz_generate t f reload env delete_method rules d = (d, Operate.failed 405)
handle_rpz_generate t f reload env other_method rules d = (d, Operate.failed 405)

-- "/v1/rpz/preview"
unfoldable pub handle_rpz_preview : Clock → ZoneEnv → Method → List Rule → Reply String
unfolding on_get generate_rpz zone_config
handle_rpz_preview t env m rules = on_get m (generate_rpz t rules (zone_config env))

-- "/v1/rpz/named-conf"
unfoldable pub handle_named_conf : ZoneEnv → Method → Reply String
unfolding on_get generate_named_conf getenv path_of_zone
handle_named_conf env m =
    on_get m (generate_named_conf (getenv env.zone_name "rpz.clawgress.local") (path_of_zone env))

pub record Validation : Type 0 where
  pub valid : Bool
  pub agents : ℕ
  pub policies : ℕ
  pub quotas : ℕ
  pub state_dir : String
  pub audit_file : String

-- "/v1/config/validate", of the lists that the three components give
unfoldable pub handle_config_validate :
    {A Q : Type 0} → String → String → Method → List A → List Rule → List Q → Reply Validation
unfolding on_get
handle_config_validate state_dir audit_file m agents rules quotas = on_get m (record {
  valid = true;
  agents = length agents;
  policies = length rules;
  quotas = length quotas;
  state_dir = state_dir;
  audit_file = audit_file;
})
