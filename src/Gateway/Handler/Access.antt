-- ===== src/Gateway/Handler/Access.antt =====
-- Who gets through the gateway.
use mathlib.Core.Bool.{false≢true}
use crispy_garbanzo.Base.{
  Bool, true, false, some, ◌≡◌, ◌≢◌, ◌↔◌, ◌∙◌, sym, inl, inr, refl, arith, eq_iff, Option-cases,
}
use crispy_garbanzo.Identity.Registry.{Agent, lookup_by_key}
use crispy_garbanzo.Identity.Jwt
use crispy_garbanzo.Identity.Jwt.{Claims, verify_jwt}
use crispy_garbanzo.Policy.Rule.{Decision}
use crispy_garbanzo.Policy.Engine.{evaluate_rich}
use crispy_garbanzo.Policy.Domain.{sanitize_host, strip_port}
use crispy_garbanzo.Policy.Engine.Evaluation.{Allowed, evaluate_rich-Allowed}
use crispy_garbanzo.Quota.Limiter.{check}
use crispy_garbanzo.Gateway.Auth.{Request, Credentials, extract_proxy_auth, request_host}
use crispy_garbanzo.Gateway.Handler.{
  World, Gateway, Response, proxy_auth_required, too_many_requests, forbidden, identify, by_key,
  by_token, agent_of, verified_agent, context_of, handle_connect, handle_http, serve_allowed,
  serve_agent, serve_http,
}

-- 407, 429 and 403
abbrev pub is_refused : Response → Bool
is_refused proxy_auth_required = true
is_refused (too_many_requests _) = true
is_refused (forbidden _) = true
is_refused _ = false

-- Where the agent of a request comes from: an active agent of the registry under the request's key, or
-- the claims of a verified token.
pub data Genuine (w : World) (g : Gateway) (c : Credentials) (a : Agent) : Type 0 where
  of_key : c.api_key ≢ "" → lookup_by_key c.api_key g.reg ≡ some a → Genuine w g c a
  of_token :
      (claims : Claims)
      → g.jwt_secret ≢ ""
      → verify_jwt w.codec c.bearer_token g.jwt_secret w.unix_now ≡ Jwt.ok claims
      → a ≡ agent_of claims
      → Genuine w g c a

-- Everything that a request needs to be forwarded.
pub record Admitted (w : World) (r : Request) (g : Gateway) : Type 0 where
  pub agent : Agent
  pub identified : identify w g (extract_proxy_auth w.basic_decode r) ≡ some agent
  pub within : (check w.now agent.agent_id g.lim).1.allowed ≡ true
  pub permitted : (evaluate_rich g.eng (context_of r agent)).action ≡ "allow"

verified :
    (res : Jwt.Result Claims) (a : Agent)
    → verified_agent res ≡ some a
    → (claims : Claims) × (res ≡ Jwt.ok claims) × (a ≡ agent_of claims)
unfolding verified_agent
verified (Jwt.ok claims) a h = (claims, refl, cc)
verified (Jwt.err e) a h = cc

token-Genuine :
    (w : World) (g : Gateway) (c : Credentials) (a : Agent)
    → by_token w g c ≡ some a
    → Genuine w g c a
unfolding by_token
token-Genuine w g c a h =
    let secret : g.jwt_secret ≢ "" = λ e. ground (arith, eq_iff g.jwt_secret "") in
    let (claims, e, same) =
      verified (verify_jwt w.codec c.bearer_token g.jwt_secret w.unix_now) a (ground arith) in
    of_token claims secret e same

key-found :
    (g : Gateway) (c : Credentials) (a : Agent)
    → by_key g c ≡ some a
    → (c.api_key ≢ "") × (lookup_by_key c.api_key g.reg ≡ some a)
unfolding by_key
key-found g c a h = (λ e. ground (arith, eq_iff c.api_key ""), ground arith)

-- The agent of a request is an active agent of the registry under the request's key, or has the
-- identity of a token that verifies under the gateway's secret.
pub identify-Genuine :
    (w : World) (g : Gateway) (c : Credentials) (a : Agent)
    → identify w g c ≡ some a
    → Genuine w g c a
identify-Genuine w g c a h = elim (Option-cases (by_key g c)) [
  | inl nothing ↦ token-Genuine w g c a (unfold identify in ground arith)
  | inr (b, found) ↦
      let same : some b ≡ some a = unfold identify in ground arith in
      let (nonempty, active) = key-found g c a (found ∙ same) in of_key nonempty active
]

module _ (w : World) (r : Request) where
  connect-reached :
      (ag : Agent) (dec : Decision) (g : Gateway)
      → is_refused (handle_connect w r ag dec g).1 ≡ false
  unfolding handle_connect
  connect-reached ag dec g = ground arith

  http-reached :
      (ag : Agent) (dec : Decision) (g : Gateway) → is_refused (handle_http w r ag dec g).1 ≡ false
  unfolding handle_http
  http-reached ag dec g = ground arith

  allowed_iff :
      (ag : Agent) (g : Gateway)
      → (is_refused (serve_allowed w r ag g).1 ≡ false)
        ↔ ((evaluate_rich g.eng (context_of r ag)).action ≡ "allow")
  unfolding serve_allowed
  allowed_iff ag g = ground (
    arith,
    eq_iff (evaluate_rich g.eng (context_of r ag)).action "allow",
    connect-reached ag (evaluate_rich g.eng (context_of r ag)) g,
    http-reached ag (evaluate_rich g.eng (context_of r ag)) g,
  )

  agent_iff :
      (ag : Agent) (g : Gateway)
      → (is_refused (serve_agent w r ag g).1 ≡ false) ↔ (
          ((check w.now ag.agent_id g.lim).1.allowed ≡ true)
          × ((evaluate_rich g.eng (context_of r ag)).action ≡ "allow"))
  unfolding serve_agent
  agent_iff ag g =
      ground (arith, allowed_iff ag (record g { lim = (check w.now ag.agent_id g.lim).0 }))

  admitted : (g : Gateway) → is_refused (serve_http w r g).1 ≡ false → Admitted w r g
  admitted g h = elim (Option-cases (identify w g (extract_proxy_auth w.basic_decode r))) [
    | inl unknown ↦ absurd (false≢true (sym h ∙ (unfold serve_http in ground arith)))
    | inr (ag, known) ↦
        let (within, permitted) = (agent_iff ag g).0 (unfold serve_http in ground arith) in
        record { agent = ag; identified = known; within = within; permitted = permitted }
  ]

  reaches : (g : Gateway) → Admitted w r g → is_refused (serve_http w r g).1 ≡ false
  unfolding serve_http
  reaches g a = rw (a.identified, serve_http) ((agent_iff a.agent g).1 (a.within, a.permitted))

-- A request is refused neither with 407 nor with 429 nor with 403, and so goes on to be forwarded, exactly
-- if it is identified, its agent's quota lets it through and the policy allows it.
pub serve_http_iff :
    (w : World) (r : Request) (g : Gateway)
    → (is_refused (serve_http w r g).1 ≡ false) ↔ Admitted w r g
serve_http_iff w r g = (admitted w r g, reaches w r g)

-- A request that is not refused belongs to a genuine agent, an active one of the registry under its key or
-- that of a verified token, and a rule of the policy with the action "allow" applies to it while no earlier
-- rule does.
pub serve_http-Allowed :
    (w : World) (r : Request) (g : Gateway)
    → is_refused (serve_http w r g).1 ≡ false
    → (a : Agent) × Genuine w g (extract_proxy_auth w.basic_decode r) a
      × Allowed
          (context_of r a)
          (sanitize_host (strip_port (request_host r)))
          g.eng.rules
          (evaluate_rich g.eng (context_of r a))
serve_http-Allowed w r g h =
    let a = admitted w r g h in
    (
      a.agent,
      identify-Genuine w g (extract_proxy_auth w.basic_decode r) a.agent a.identified,
      unfold context_of in evaluate_rich-Allowed g.eng (context_of r a.agent) a.permitted,
    )
