-- ===== src/Config.antt =====
-- internal/config/config.go: the configuration of the services, its defaults, and how it is loaded. Go's
-- strict JSON decoder is an argument: it fills in a configuration, and what it leaves on an error is its own.
pub mod Loading
mod Tests
use crispy_garbanzo.Base.{
  ℕ, String, Bool, true, false, Option, none, some, ◌==◌, if◌then◌else◌, ℤ, pos, negsuc,
}

pub record GatewayConfig : Type 0 where
  pub listen : String
  pub read_timeout : ℤ
  pub write_timeout : ℤ

pub record AdminApiConfig : Type 0 where
  pub listen : String
  pub ui_path : String
  pub state_dir : String

pub record FilesConfig : Type 0 where
  pub agents : String
  pub policy : String
  pub quotas : String
  pub audit : String
  pub sqlite : String

pub record Config : Type 0 where
  pub gateway : GatewayConfig
  pub admin_api : AdminApiConfig
  pub files : FilesConfig

abbrev pub defaults : Config
defaults = record {
  gateway = record { listen = ":3128"; read_timeout = pos 60; write_timeout = pos 0 };
  admin_api = record { listen = ":8080"; ui_path = "/ui/"; state_dir = "/var/lib/clawgress/state" };
  files = record {
    agents = "/etc/clawgress/agents.json";
    policy = "/etc/clawgress/policy.json";
    quotas = "/etc/clawgress/quotas.json";
    audit = "/var/log/clawgress/audit.jsonl";
    sqlite = "";
  };
}

-- what `validate` complains of
pub data Invalid : Type 0 where
  empty_gateway_listen empty_admin_listen negative_read_timeout negative_write_timeout : Invalid
  empty_agents empty_policy empty_audit : Invalid

unfoldable pub is_negative : ℤ → Bool
is_negative (pos n) = false
is_negative (negsuc n) = true

unfoldable pub validate : Config → Option Invalid
unfolding is_negative
validate cfg =
    if cfg.gateway.listen == ""
    then some empty_gateway_listen
    else if cfg.admin_api.listen == ""
    then some empty_admin_listen
    else if is_negative cfg.gateway.read_timeout
    then some negative_read_timeout
    else if is_negative cfg.gateway.write_timeout
    then some negative_write_timeout
    else if cfg.files.agents == ""
    then some empty_agents
    else if cfg.files.policy == ""
    then some empty_policy
    else if cfg.files.audit == ""
    then some empty_audit
    else none

-- what `os.ReadFile` gives
pub data Contents : Type 0 where
  missing unreadable : Contents
  contents : String → Contents

-- what the decoder makes of a text and a configuration to fill in
pub data Decoded : Type 0 where
  filled refused : Config → Decoded

pub data LoadError : Type 0 where
  read_error parse_error : LoadError
  invalid : Invalid → LoadError

unfoldable pub validated : Config → Option Invalid → Config × Option LoadError
validated cfg none = (cfg, none)
validated cfg (some e) = (cfg, some (invalid e))

unfoldable pub decoded : Decoded → Config × Option LoadError
unfolding validated validate
decoded (filled cfg) = validated cfg (validate cfg)
decoded (refused cfg) = (cfg, some parse_error)

module _ (read_file : String → Contents) (decode : String → Config → Decoded) where
  unfoldable pub load_contents : Contents → Config × Option LoadError
  unfolding decoded
  load_contents missing = (defaults, none)
  load_contents unreadable = (defaults, some read_error)
  load_contents (contents text) = decoded (decode text defaults)

  unfoldable pub load : String → Config × Option LoadError
  unfolding load_contents
  load path = if path == "" then (defaults, none) else load_contents (read_file path)
