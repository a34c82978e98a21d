-- ===== src/Gateway/Startup.antt =====
-- cmd/clawgress-gateway/main.go: what `main` loads, the reload on SIGHUP, and the ids of requests. The server,
-- the port for metrics and the environment are left out.
pub mod Reloaded
mod Tests
use crispy_garbanzo.Base.{
  ℕ, ◌+◌, ◌-◌, ◌%◌, ◌^◌, String, Bool, true, false, Option, none, some, List, [], ◌∷◌, ◌++◌, print,
  ReadResult, IoError,
}
use crispy_garbanzo.Base.Digits.{itoa}
use crispy_garbanzo.Base.Text.{pad_zero}
use crispy_garbanzo.Identity.Registry
use crispy_garbanzo.Identity.Registry.{Agent, Registry}
use crispy_garbanzo.Policy.Rule.{Rule}
use crispy_garbanzo.Policy.Engine
use crispy_garbanzo.Policy.Engine.{Engine}
use crispy_garbanzo.Quota.Limiter
use crispy_garbanzo.Quota.Limiter.{Limit, Limiter}
use crispy_garbanzo.Audit.Event.{Event}
use crispy_garbanzo.Gateway.Handler.{Gateway, Metrics}

-- what reading the three files gives
pub record Files : Type 0 where
  pub agents : ReadResult (List Agent)
  pub policy : ReadResult (List Rule)
  pub quotas : ReadResult (List Limit)

-- the lines that a failed reload logs
pub data Complaint : Type 0 where
  reload_identity reload_policy reload_quotas : IoError → Complaint

unfoldable pub complain : (IoError → Complaint) → Option IoError → List Complaint
complain c none = []
complain c (some e) = c e ∷ []

-- one SIGHUP: each of the three is loaded, whatever became of those before it
unfoldable pub reload : ℕ → Files → Gateway → Gateway × List Complaint
unfolding complain
reload now f g =
    let (reg, e1) = Registry.load f.agents g.reg in
    let (eng, e2) = Engine.load f.policy g.eng in
    let (lim, e3) = Limiter.load now f.quotas g.lim in
    (
      record g { reg = reg; eng = eng; lim = lim },
      complain reload_identity e1 ++ complain reload_policy e2 ++ complain reload_quotas e3,
    )

abbrev pub no_metrics : Metrics
no_metrics = record { requests = []; durations = []; audit_events = 0; bytes_out = []; denies = [] }

-- why `main` ends before it serves
pub data Fatal : Type 0 where
  no_registry no_engine no_limiter : IoError → Fatal
  no_log : Fatal

pub data Started : Type 0 where
  started : Gateway → Started
  ended : Fatal → Started

unfoldable pub start_log : Bool → Gateway → Started
start_log true g = started g
start_log false g = ended no_log

unfoldable pub start_limiter : Bool → Limiter × Option IoError → Gateway → Started
unfolding start_log
start_limiter opened (lim, none) g = start_log opened (record g { lim = lim })
start_limiter opened (lim, some e) g = ended (no_limiter e)

unfoldable pub start_engine : ℕ → Files → Bool → Engine × Option IoError → Gateway → Started
unfolding start_limiter
start_engine now f opened (eng, none) g =
    start_limiter opened (Limiter.load now f.quotas Limiter.empty) (record g { eng = eng })
start_engine now f opened (eng, some e) g = ended (no_engine e)

unfoldable pub start_registry : ℕ → Files → Bool → Registry × Option IoError → Gateway → Started
unfolding start_engine
start_registry now f opened (reg, none) g =
    start_engine now f opened (Engine.load f.policy (record { rules = [] }))
      (record g { reg = reg })
start_registry now f opened (reg, some e) g = ended (no_registry e)

-- `main`, with the events that the log has already, and whether it could be opened
unfoldable pub start : ℕ → Files → String → Bool → List Event → Started
unfolding start_registry
start now f jwt_secret opened log =
    start_registry now f opened (Registry.load f.agents Registry.empty) (record {
      reg = Registry.empty;
      eng = record { rules = [] };
      lim = Limiter.empty;
      jwt_secret = jwt_secret;
      log = log;
      metrics = no_metrics;
    })

-- the counter of requests after one more, and the id of the request
unfoldable pub new_request_id : ℕ → ℕ → ℕ × String
unfolding print itoa pad_zero
new_request_id millis seq =
    let n = (seq + 1) % 2 ^ 64 in
    (n, print ("req-" ∷ itoa millis ∷ "-" ∷ pad_zero 4 (itoa (n % 10000)) ∷ []))
