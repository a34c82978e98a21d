-- ===== src/Gateway/Handler/Logging.antt =====
-- What the gateway writes to the audit log, and what a request changes.
use crispy_garbanzo.Base.{
  ℕ, String, Bool, true, false, not, List, [], ◌∷◌, ◌++◌, append-nil, ◌≡◌, ◌↔◌, sym, inl, inr, refl,
  arith, eq_iff, ◌==◌, if◌then◌else◌, Bool-cases, Option-cases, length, All,
}
use crispy_garbanzo.Identity.Registry.{Agent}
use crispy_garbanzo.Policy.Rule.{Decision}
use crispy_garbanzo.Policy.Engine.{evaluate_rich}
use crispy_garbanzo.Quota.Limiter.{Limiter, check}
use crispy_garbanzo.Audit.Event.{Event, stamp}
use crispy_garbanzo.Gateway.Auth.{Request, extract_proxy_auth, request_host}
use crispy_garbanzo.Gateway.Handler.{
  World, Gateway, Response, ConnectOutcome, dial_failed, no_hijacker, hijack_failed, tunnelled,
  HttpOutcome, request_failed, answered, proxy_auth_required, too_many_requests, forbidden,
  bad_gateway, hijack_unsupported, connection_lost, tunnel_closed, forwarded, identify, context_of,
  connected, handle_connect, round_tripped, handle_http, serve_allowed, serve_agent, serve_http,
  write_audit, agent_event, unknown_event,
}
use crispy_garbanzo.Gateway.Handler.Access.{is_refused}

-- The outcomes that leave no trace in the log: a tunnel that cannot be taken over from the server, and
-- a plain request whose destination does not answer.
abbrev pub is_silent : Request → Response → Bool
is_silent r hijack_unsupported = true
is_silent r connection_lost = true
is_silent r bad_gateway = not (r.method == "CONNECT")
is_silent r _ = false

-- the events that one request may add to the log, for its response
abbrev Adds : Request → Response → String → Event → Type 0
Adds r res id e =
    (e.request_id ≡ id) × (e.method ≡ r.method) × ((e.decision ≡ "deny") ↔ (is_refused res ≡ true))

-- One request adds one event, or none if it is silent or the log cannot be written.
pub record Logged (w : World) (r : Request) (g : Gateway) (after : Gateway × Response)
    : Type 0 where
  pub events : List Event
  pub appended : after.0.log ≡ g.log ++ events
  pub counted : length events ≡ (if is_silent r after.1 then 0 else if w.log_writable then 1 else 0)
  pub described : All (Adds r after.1 w.request_id) events
  pub registry_kept : after.0.reg ≡ g.reg
  pub policy_kept : after.0.eng ≡ g.eng

stamp-Adds :
    (r : Request) (res : Response) (id now : String) (e : Event)
    → Adds r res id e
    → Adds r res id (stamp now e)
unfolding stamp
stamp-Adds r res id now e a = elim (Bool-cases (e.timestamp == "")) [
  | inl unset ↦ rw (unset, stamp) a
  | inr given ↦ rw (given, stamp) a
]

module _ (w : World) (r : Request) where
  silent_Logged : (g : Gateway) (res : Response) → is_silent r res ≡ true → Logged w r g (g, res)
  silent_Logged g res s = record {
    events = [];
    appended = sym (append-nil g.log);
    counted = rw s;
    described = tt;
    registry_kept = refl;
    policy_kept = refl;
  }

  write_Logged :
      (e : Event) (g : Gateway) (res : Response)
      → Adds r res w.request_id e
      → is_silent r res ≡ false
      → Logged w r g (write_audit w e g, res)
  write_Logged e g res a s = elim (Bool-cases w.log_writable) [
    | inl ok ↦ record {
      events = stamp w.timestamp e ∷ [];
      appended = unfold write_audit in ground arith;
      counted = rw (s, ok);
      described = (stamp-Adds r res w.request_id w.timestamp e a, tt);
      registry_kept = unfold write_audit in refl;
      policy_kept = unfold write_audit in refl;
    }
    | inr full ↦ record {
      events = [];
      appended = unfold write_audit in rw append-nil (ground arith);
      counted = rw (s, full);
      described = tt;
      registry_kept = unfold write_audit in refl;
      policy_kept = unfold write_audit in refl;
    }
  ]

  agent_Logged :
      (ag : Agent) (destination decision policy_id : String) (bytes : ℕ) (g : Gateway)
      (res : Response)
      → ((decision ≡ "deny") ↔ (is_refused res ≡ true))
      → is_silent r res ≡ false
      → Logged w r g
          (write_audit w (agent_event w ag destination r.method decision policy_id bytes) g, res)
  agent_Logged ag destination decision policy_id bytes g res d s =
      write_Logged (agent_event w ag destination r.method decision policy_id bytes) g res
        (unfold agent_event in (refl, refl, d)) s

  allow_not_deny :
      (res : Response)
      → is_refused res ≡ false
      → (decision : String) → (decision == "deny") ≡ false
      → (decision ≡ "deny") ↔ (is_refused res ≡ true)
  allow_not_deny res h decision d = ground (arith, eq_iff decision "deny")

  module _ (ag : Agent) (dec : Decision) (g : Gateway) where
    connect_at :
        (r.method == "CONNECT") ≡ true
        → (o : ConnectOutcome) → Logged w r g (connected w r ag dec g o)
    unfolding connected
    connect_at m dial_failed =
        agent_Logged ag r.host "allow-upstream-error" dec.policy_id 0 g bad_gateway
          (allow_not_deny bad_gateway refl "allow-upstream-error" refl) (rw m)
    connect_at m no_hijacker = silent_Logged g hijack_unsupported refl
    connect_at m hijack_failed = silent_Logged g connection_lost refl
    connect_at m (tunnelled n) =
        agent_Logged ag r.host "allow" dec.policy_id n g tunnel_closed
          (allow_not_deny tunnel_closed refl "allow" refl) refl

    http_at :
        (r.method == "CONNECT") ≡ false
        → (o : HttpOutcome) → Logged w r g (round_tripped w r ag dec g o)
    unfolding round_tripped
    http_at m request_failed = silent_Logged g bad_gateway (rw m)
    http_at m (answered status n) =
        agent_Logged ag (request_host r) "allow" dec.policy_id n g (forwarded status)
          (allow_not_deny (forwarded status) refl "allow" refl) refl

  deny_refused :
      (res : Response)
      → is_refused res ≡ true
      → ◌≡◌ {A = String} "deny" "deny" ↔ (is_refused res ≡ true)
  deny_refused res h = (λ _. h, λ _. refl)

  serve_allowed-Logged : (ag : Agent) (g : Gateway) → Logged w r g (serve_allowed w r ag g)
  unfolding serve_allowed handle_connect handle_http
  serve_allowed-Logged ag g =
      let dec = evaluate_rich g.eng (context_of r ag) in
      elim (Bool-cases (dec.action == "allow")) [
        | inl ok ↦ elim (Bool-cases (r.method == "CONNECT")) [
          | inl c ↦ rw (ok, c) (connect_at ag dec g c w.connect)
          | inr p ↦ rw (ok, p) (http_at ag dec g p w.http)
        ]
        | inr refused ↦ rw refused (
            agent_Logged ag (request_host r) "deny" dec.policy_id 0 g (forbidden dec.reason)
              (deny_refused (forbidden dec.reason) refl) refl)
      ]

  -- the limiter is all that a check changes
  limiter_Logged :
      (lim : Limiter) (g : Gateway) (after : Gateway × Response)
      → Logged w r (record g { lim = lim }) after
      → Logged w r g after
  limiter_Logged lim g after l = record {
    events = l.events;
    appended = l.appended;
    counted = l.counted;
    described = l.described;
    registry_kept = l.registry_kept;
    policy_kept = l.policy_kept;
  }

  serve_agent-Logged : (ag : Agent) (g : Gateway) → Logged w r g (serve_agent w r ag g)
  unfolding serve_agent
  serve_agent-Logged ag g =
      let (lim, qd) = check w.now ag.agent_id g.lim in
      elim (Bool-cases qd.allowed) [
        | inl ok ↦ rw ok (limiter_Logged lim g _ (serve_allowed-Logged ag (record g { lim = lim })))
        | inr refused ↦ rw refused (
            limiter_Logged lim g _ (
              agent_Logged ag (request_host r) "deny" "quota-exceeded" 0 (record g { lim = lim })
                (too_many_requests qd.reason) (deny_refused (too_many_requests qd.reason) refl)
                refl))
      ]

-- Every request adds exactly one event to a writable log, unless a tunnel cannot be taken over or the
-- destination of a plain request does not answer, which add none. The event has the request's id and
-- method, and the decision "deny" exactly if the request is refused. The registry and the policy stay.
pub serve_http-Logged : (w : World) (r : Request) (g : Gateway) → Logged w r g (serve_http w r g)
unfolding serve_http
serve_http-Logged w r g = elim (Option-cases (identify w g (extract_proxy_auth w.basic_decode r))) [
  | inl unknown ↦
      rw (unknown, serve_http)
        (write_Logged w r (unknown_event w r (extract_proxy_auth w.basic_decode r).agent_id) g
          proxy_auth_required
          (unfold unknown_event in (refl, refl, deny_refused w r proxy_auth_required refl)) refl)
  | inr (ag, known) ↦ rw (known, serve_http) (serve_agent-Logged w r ag g)
]
