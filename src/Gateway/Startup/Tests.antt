-- ===== src/Gateway/Startup/Tests.antt =====
-- The theorems on reloads, at an agent that has used up its quota and at a rule that is added.
use crispy_garbanzo.Base.{
  inl, inr, arith, true, none, some, [], ◌∷◌, ◌≡◌, refl, not_exist, parsed, read_back,
}
use crispy_garbanzo.Policy.Rule.{Rule}
use crispy_garbanzo.Policy.Engine.{Engine, add}
use crispy_garbanzo.Policy.Engine.Rules.{IsKeyed}
use crispy_garbanzo.Quota.Bucket.{Bucket}
use crispy_garbanzo.Quota.Limiter
use crispy_garbanzo.Quota.Limiter.{Limit, check}
use crispy_garbanzo.Gateway.Handler.{Gateway}
use crispy_garbanzo.Gateway.Startup.{Files, reload, no_metrics, new_request_id}
use crispy_garbanzo.Gateway.Startup.Reloaded.{reload-check, Takes, reload-serve}
use crispy_garbanzo.Admin.Resource.{post, collection, Service, System, serve}
use crispy_garbanzo.Admin.Policies.{policies, check_rule}

abbrev rule : Rule
rule = record {
  policy_id = "p1";
  agent_id = "*";
  domains = "example.com" ∷ [];
  methods = [];
  path_prefixes = [];
  conditions = [];
  action = "deny";
}

abbrev limit : Limit
limit = record { agent_id = "a1"; rps = 1000000; rpm = 0; mode = "hard_stop" }

-- a bucket of which the only token was just taken
abbrev used_up : Bucket
used_up = record { tokens = 0; capacity = 60000000000000000; rate = 60000000; last = 7 }

abbrev gateway : Gateway
gateway = record {
  reg = record { by_key = []; by_id = [] };
  eng = record { rules = [] };
  lim = record {
    limits = ("a1", limit) ∷ [];
    buckets = ("a1", record { rps = some used_up; rpm = none }) ∷ [];
  };
  jwt_secret = "";
  log = [];
  metrics = no_metrics;
}

abbrev no_rules : Service Engine Rule
no_rules = record {
  content = record { rules = [] };
  file = record { file = none; tmp = none };
  signals = 0;
}

no_rules-IsKeyed : IsKeyed no_rules.content
no_rules-IsKeyed = record { unique = tt }

abbrev works : System Rule
works = record {
  now = 5;
  faults = record { write_ok = true; left_behind = none; rename_ok = true };
}

abbrev files : Files
files = record { agents = not_exist; policy = parsed (rule ∷ []); quotas = parsed (limit ∷ []) }

reload-check_example : (check 7 "a1" (reload 7 files gateway).0.lim).1.allowed ≡ true
unfolding Limiter.load
reload-check_example = reload-check 7 7 files gateway "a1" ((inr (omega arith), inl refl), tt) refl

reload-serve_example :
    Takes no_rules
      (serve policies works post collection (some rule) no_rules)
      gateway.eng
      (reload 7 files gateway).0.eng
unfolding serve read_back check_rule add
reload-serve_example =
    reload-serve works post collection (some rule) no_rules 7 files gateway no_rules-IsKeyed refl

ids : new_request_id 12 41 ≡ (42, "req-12-0042")
unfolding new_request_id
ids = refl
