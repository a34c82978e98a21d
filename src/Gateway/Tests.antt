-- ===== src/Gateway/Tests.antt =====
-- The theorems on the gateway, at a concrete gateway with one agent, one limit and one rule.
use crispy_garbanzo.Base.{
  true, false, none, some, [], ◌∷◌, ◌≡◌, ◌↔◌, refl, has_prefix, lookup, to_lower, trim_space,
  before_char, contains_char, split, split_n, drop_chars, has_suffix, to_upper, insert,
}
use crispy_garbanzo.Identity.Registry.{Agent, lookup_by_key}
use crispy_garbanzo.Identity.Jwt.{Codec}
use crispy_garbanzo.Policy.Rule.{Rule}
use crispy_garbanzo.Policy.Domain.{sanitize_host, strip_port}
use crispy_garbanzo.Policy.Engine.{evaluate_rich}
use crispy_garbanzo.Policy.Engine.Evaluation.{Allowed}
use crispy_garbanzo.Quota.Limiter.{check}
use crispy_garbanzo.Gateway.Auth.{Request, extract_proxy_auth, request_host}
use crispy_garbanzo.Gateway.Handler.{
  World, Gateway, tunnelled, request_failed, context_of, serve_http,
}
use crispy_garbanzo.Gateway.Handler.Access.{
  is_refused, Genuine, Admitted, serve_http_iff, serve_http-Allowed,
}
use crispy_garbanzo.Gateway.Handler.Logging.{Logged, serve_http-Logged}

abbrev no_codec : Codec
no_codec = record {
  hmac_sha256 = λ text key. "";
  base64_encode = λ s. s;
  base64_decode = λ s. none;
  parse_alg = λ s. none;
  parse_claims = λ s. none;
  marshal_claims = λ claims. "";
}

abbrev quiet_world : World
quiet_world = record {
  request_id = "r1";
  codec = no_codec;
  basic_decode = λ s. some s;
  now = 1000;
  unix_now = 1;
  timestamp = "2024-01-02T00:00:00Z";
  latency_ms = 2;
  log_writable = true;
  connect = tunnelled 10;
  http = request_failed;
}

abbrev agent_a1 : Agent
agent_a1 = record {
  agent_id = "a1";
  team_id = "";
  project_id = "";
  environment = "";
  api_key = "k1";
  status = "active";
}

abbrev allow_example : Rule
allow_example = record {
  policy_id = "allow-example";
  agent_id = "a1";
  domains = "*.example.com" ∷ [];
  methods = [];
  path_prefixes = [];
  conditions = [];
  action = "allow";
}

abbrev small_gateway : Gateway
small_gateway = record {
  reg = record { by_key = ("k1", agent_a1) ∷ []; by_id = ("a1", agent_a1) ∷ [] };
  eng = record { rules = allow_example ∷ [] };
  lim = record { limits = []; buckets = [] };
  jwt_secret = "";
  log = [];
  metrics = record { requests = []; durations = []; audit_events = 0; bytes_out = []; denies = [] };
}

abbrev connect_request : Request
connect_request = record {
  proxy_authorization = "Basic a1:k1";
  method = "CONNECT";
  host = "api.example.com:443";
  url = none;
}

serve_http_iff_example :
    (is_refused (serve_http quiet_world connect_request small_gateway).1 ≡ false)
    ↔ Admitted quiet_world connect_request small_gateway
serve_http_iff_example = serve_http_iff quiet_world connect_request small_gateway

let_through : is_refused (serve_http quiet_world connect_request small_gateway).1 ≡ false
unfolding serve_http lookup to_lower has_prefix trim_space before_char contains_char split split_n
    drop_chars has_suffix to_upper insert lookup_by_key check evaluate_rich
let_through = refl

serve_http-Allowed_example :
    (a : Agent) × Genuine quiet_world small_gateway
      (extract_proxy_auth quiet_world.basic_decode connect_request)
      a
    × Allowed
        (context_of connect_request a)
        (sanitize_host (strip_port (request_host connect_request)))
        small_gateway.eng.rules
        (evaluate_rich small_gateway.eng (context_of connect_request a))
serve_http-Allowed_example =
    serve_http-Allowed quiet_world connect_request small_gateway let_through

serve_http-Logged_example :
    Logged quiet_world connect_request small_gateway
      (serve_http quiet_world connect_request small_gateway)
serve_http-Logged_example = serve_http-Logged quiet_world connect_request small_gateway
