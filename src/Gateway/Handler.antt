-- ===== src/Gateway/Handler.antt =====
-- cmd/clawgress-gateway/main.go: `ServeHTTP` and what it calls. What the world answers to one request
-- (the clock, the outcome of the connection to the destination, the write to the log) is an argument.
pub mod Access
pub mod Logging
use crispy_garbanzo.Base.{
  ℕ, ◌+◌, String, Bool, true, false, ◌&&◌, ◌||◌, not, Option, none, some, List, [], ◌∷◌, ◌++◌, ◌==◌,
  if◌then◌else◌, ltb,
}
use crispy_garbanzo.Identity.Registry.{Agent, Registry, lookup_by_key}
use crispy_garbanzo.Identity.Jwt
use crispy_garbanzo.Identity.Jwt.{Claims, Codec, verify_jwt}
use crispy_garbanzo.Policy.Rule.{RequestContext, Decision}
use crispy_garbanzo.Policy.Engine.{Engine, evaluate_rich}
use crispy_garbanzo.Quota.Limiter
use crispy_garbanzo.Quota.Limiter.{Limiter, Reason, check}
use crispy_garbanzo.Audit.Event.{Event, write}
use crispy_garbanzo.Gateway.Auth.{
  Request, Credentials, extract_proxy_auth, request_host, request_path,
}

-- how the tunnel of a CONNECT request goes: the bytes are those that the client sent
pub data ConnectOutcome : Type 0 where
  dial_failed no_hijacker hijack_failed : ConnectOutcome
  tunnelled : ℕ → ConnectOutcome

-- how a forwarded request goes: its status and the bytes of the answer
pub data HttpOutcome : Type 0 where
  request_failed : HttpOutcome
  answered : ℕ → ℕ → HttpOutcome

pub record World : Type 0 where
  pub request_id : String
  pub codec : Codec
  pub basic_decode : String → Option String
  -- nanoseconds for the limiter, seconds for the tokens
  pub now : ℕ
  pub unix_now : ℕ
  pub timestamp : String
  pub latency_ms : ℕ
  pub log_writable : Bool
  pub connect : ConnectOutcome
  pub http : HttpOutcome

-- the increments of the counters, with their labels
pub record Metrics : Type 0 where
  pub requests : List (String × String × String)
  pub durations : List (String × String × ℕ)
  pub audit_events : ℕ
  pub bytes_out : List (String × ℕ)
  pub denies : List String

pub record Gateway : Type 0 where
  pub reg : Registry
  pub eng : Engine
  pub lim : Limiter
  pub jwt_secret : String
  pub log : List Event
  pub metrics : Metrics

pub data Response : Type 0 where
  proxy_auth_required : Response
  too_many_requests : Reason → Response
  forbidden : String → Response
  bad_gateway hijack_unsupported connection_lost tunnel_closed : Response
  forwarded : ℕ → Response

unfoldable pub count : Event → Metrics → Metrics
count e m = record {
  requests = m.requests ++ (e.agent_id, e.decision, e.policy_id) ∷ [];
  durations = m.durations ++ (e.agent_id, e.decision, e.latency_ms) ∷ [];
  audit_events = m.audit_events + 1;
  bytes_out =
      if ltb 0 e.bytes_out then m.bytes_out ++ (e.agent_id, e.bytes_out) ∷ [] else m.bytes_out;
  denies = if e.decision == "deny" then m.denies ++ e.policy_id ∷ [] else m.denies;
}

unfoldable pub write_audit : World → Event → Gateway → Gateway
unfolding count write
write_audit w e g = record g {
  log = write w.log_writable w.timestamp e g.log;
  metrics = count e g.metrics;
}

unfoldable pub agent_of : Claims → Agent
agent_of claims = record {
  agent_id = claims.agent_id;
  team_id = claims.team_id;
  project_id = claims.project_id;
  environment = claims.environment;
  api_key = "";
  status = "active";
}

unfoldable pub verified_agent : Jwt.Result Claims → Option Agent
unfolding agent_of
verified_agent (Jwt.ok claims) = some (agent_of claims)
verified_agent (Jwt.err e) = none

unfoldable pub by_key : Gateway → Credentials → Option Agent
by_key g c = if c.api_key == "" then none else lookup_by_key c.api_key g.reg

unfoldable pub by_token : World → Gateway → Credentials → Option Agent
unfolding verified_agent
by_token w g c =
    if c.bearer_token == "" || g.jwt_secret == ""
    then none
    else verified_agent (verify_jwt w.codec c.bearer_token g.jwt_secret w.unix_now)

-- the agent of a request: that of its key, or else that of its token
unfoldable pub identify : World → Gateway → Credentials → Option Agent
unfolding by_key by_token
identify w g c = elim (by_key g c) [ none ↦ by_token w g c | some a ↦ some a ]

unfoldable pub agent_event : World → Agent → String → String → String → String → ℕ → Event
agent_event w ag destination method decision policy_id bytes = record {
  timestamp = "";
  request_id = w.request_id;
  agent_id = ag.agent_id;
  team_id = ag.team_id;
  project_id = ag.project_id;
  environment = ag.environment;
  destination = destination;
  method = method;
  decision = decision;
  policy_id = policy_id;
  latency_ms = w.latency_ms;
  bytes_out = bytes;
}

-- a CONNECT request, once its connection has gone as the outcome says
unfoldable pub connected :
    World → Request → Agent → Decision → Gateway → ConnectOutcome → Gateway × Response
unfolding write_audit agent_event
connected w r ag dec g dial_failed = (
  write_audit w (agent_event w ag r.host r.method "allow-upstream-error" dec.policy_id 0) g,
  bad_gateway,
)
connected w r ag dec g no_hijacker = (g, hijack_unsupported)
connected w r ag dec g hijack_failed = (g, connection_lost)
connected w r ag dec g (tunnelled n) =
    (write_audit w (agent_event w ag r.host r.method "allow" dec.policy_id n) g, tunnel_closed)

unfoldable pub handle_connect : World → Request → Agent → Decision → Gateway → Gateway × Response
unfolding connected
handle_connect w r ag dec g = connected w r ag dec g w.connect

-- a plain request, once its round trip has gone as the outcome says
unfoldable pub round_tripped :
    World → Request → Agent → Decision → Gateway → HttpOutcome → Gateway × Response
unfolding write_audit agent_event request_host
round_tripped w r ag dec g request_failed = (g, bad_gateway)
round_tripped w r ag dec g (answered status n) = (
  write_audit w (agent_event w ag (request_host r) r.method "allow" dec.policy_id n) g,
  forwarded status,
)

unfoldable pub handle_http : World → Request → Agent → Decision → Gateway → Gateway × Response
unfolding round_tripped
handle_http w r ag dec g = round_tripped w r ag dec g w.http

unfoldable pub context_of : Request → Agent → RequestContext
unfolding request_host request_path
context_of r ag = record {
  agent_id = ag.agent_id;
  destination = request_host r;
  method = r.method;
  path = request_path r;
  environment = ag.environment;
  team_id = ag.team_id;
  project_id = ag.project_id;
}

-- the policy check and what follows
unfoldable pub serve_allowed : World → Request → Agent → Gateway → Gateway × Response
unfolding context_of handle_connect handle_http write_audit agent_event request_host
serve_allowed w r ag g =
    let dec = evaluate_rich g.eng (context_of r ag) in
    if not (dec.action == "allow")
    then (
      write_audit w (agent_event w ag (request_host r) r.method "deny" dec.policy_id 0) g,
      forbidden dec.reason,
    )
    else if r.method == "CONNECT"
    then handle_connect w r ag dec g
    else handle_http w r ag dec g

-- the quota check and what follows
unfoldable pub serve_agent : World → Request → Agent → Gateway → Gateway × Response
unfolding serve_allowed write_audit agent_event request_host
serve_agent w r ag g =
    let (lim, qd) = check w.now ag.agent_id g.lim in
    let g = record g { lim = lim } in
    if not qd.allowed
    then (
      write_audit w (agent_event w ag (request_host r) r.method "deny" "quota-exceeded" 0) g,
      too_many_requests qd.reason,
    )
    else serve_allowed w r ag g

unfoldable pub unknown_event : World → Request → String → Event
unfolding request_host
unknown_event w r agent_id = record {
  timestamp = "";
  request_id = w.request_id;
  agent_id = agent_id;
  team_id = "";
  project_id = "";
  environment = "";
  destination = request_host r;
  method = r.method;
  decision = "deny";
  policy_id = "no-identity";
  latency_ms = w.latency_ms;
  bytes_out = 0;
}

unfoldable pub serve_http : World → Request → Gateway → Gateway × Response
unfolding extract_proxy_auth identify write_audit unknown_event serve_agent
serve_http w r g =
    let credentials = extract_proxy_auth w.basic_decode r in
    elim (identify w g credentials) [
      | none ↦ (write_audit w (unknown_event w r credentials.agent_id) g, proxy_auth_required)
      | some ag ↦ serve_agent w r ag g
    ]
