-- ===== src/Ctl/Token/Tests.antt =====
-- The theorem on tokens, at a token for an hour and a codec that leaves texts as they are.
use crispy_garbanzo.Base.{String, true, none, some, [], ◌<>◌, ◌==◌, if◌then◌else◌, pos}
use crispy_garbanzo.Identity.Jwt.{Claims, Codec}
use crispy_garbanzo.Gateway.Auth.{Request}
use crispy_garbanzo.Gateway.Handler.{World, Gateway, tunnelled, request_failed}
use crispy_garbanzo.Gateway.Startup.{no_metrics}
use crispy_garbanzo.Ctl.Token.{TokenFlags}

abbrev flags : TokenFlags
flags = record {
  agent_id = "a1";
  team_id = "t1";
  project_id = "";
  environment = "prod";
  secret = "key";
  ttl = pos 3600000000000;
}

abbrev claims : Claims
claims = record {
  agent_id = "a1";
  team_id = "t1";
  project_id = "";
  environment = "prod";
  exp = pos 3605;
  iat = pos 5;
}

abbrev codec : Codec
codec = record {
  hmac_sha256 = λ text key. key;
  base64_encode = λ s. s;
  base64_decode = λ s. some s;
  parse_alg = λ s. if s == "{\"alg\":\"HS256\",\"typ\":\"JWT\"}" then some "HS256" else none;
  parse_claims = λ s. if s == "claims" then some claims else none;
  marshal_claims = λ c. "claims";
}

abbrev world : World
world = record {
  request_id = "r1";
  codec = codec;
  basic_decode = λ s. some s;
  now = 1000;
  unix_now = 3000;
  timestamp = "";
  latency_ms = 2;
  log_writable = true;
  connect = tunnelled 10;
  http = request_failed;
}

abbrev gateway : Gateway
gateway = record {
  reg = record { by_key = []; by_id = [] };
  eng = record { rules = [] };
  lim = record { limits = []; buckets = [] };
  jwt_secret = "key";
  log = [];
  metrics = no_metrics;
}

abbrev token : String
token = "{\"alg\":\"HS256\",\"typ\":\"JWT\"}" <> ("." <> "claims") <> ("." <> "key")

abbrev request : Request
request = record {
  proxy_authorization = "Bearer " <> token;
  method = "GET";
  host = "example.com";
  url = none;
}
