-- ===== src/Gateway/Startup/Reloaded.antt =====
-- What the gateway enforces after a reload, and what a reload does to the quotas.
use crispy_garbanzo.Base.{
  ℕ, ◌+◌, ◌*◌, ◌≤◌, ◌⊎◌, All, String, true, Option, none, some, List, [], ◌∷◌, ◌==◌, if◌then◌else◌,
  ◌≡◌, inl, inr, refl, sym, ap, ◌∙◌, arith, ltb, lookup, lookup-insert, Option-cases, Bool-cases,
  subst, ReadResult, not_exist, unreadable, malformed, parsed, read_back, Disk,
}
use crispy_garbanzo.Policy.Rule.{Rule}
use crispy_garbanzo.Policy.Engine
use crispy_garbanzo.Policy.Engine.{Engine}
use crispy_garbanzo.Policy.Engine.Rules.{IsKeyed}
use crispy_garbanzo.Quota.Bucket.{Bucket, allow, refill, token, millionth, rps_bucket, rpm_bucket}
use crispy_garbanzo.Quota.Limiter
use crispy_garbanzo.Quota.Limiter.{
  Limit, AgentBuckets, Limiter, Decision, with_mode, new_buckets, set, set_all, take, check_buckets,
  check_limited, check,
}
use crispy_garbanzo.Gateway.Handler.{Gateway}
use crispy_garbanzo.Gateway.Startup.{Files, reload}
use crispy_garbanzo.Admin.Resource.{
  Method, Target, Reply, failed, listed, found, created, deleted, Service, System, serve,
}
use crispy_garbanzo.Admin.Resource.Laws.{Effect}
use crispy_garbanzo.Admin.Policies.{policies, serve-policies}

-- A bucket, if there is one, holds a token and has room for one.
abbrev HasToken : Option Bucket → Type 0
HasToken none = Unit
HasToken (some b) = (token ≤ b.tokens) × (token ≤ b.capacity)

abbrev HaveTokens : AgentBuckets → Type 0
HaveTokens ab = HasToken ab.rps × HasToken ab.rpm

AllHaveTokens : Limiter → Type 0
AllHaveTokens l = (a : String) (ab : AgentBuckets) → lookup a l.buckets ≡ some ab → HaveTokens ab

-- a limit that is off, or of at least one request
abbrev pub Usable : ℕ → Type 0
Usable n = (n ≡ 0) ⊎ (1000000 ≤ n)

-- the limits of the file of the quotas, if it can be read
abbrev pub UsableLimits : ReadResult (List Limit) → Type 0
UsableLimits not_exist = Unit
UsableLimits unreadable = Unit
UsableLimits malformed = Unit
UsableLimits (parsed limits) = All (λ (lim : Limit). Usable lim.rps × Usable lim.rpm) limits

full-HasToken :
    (n rate now : ℕ)
    → Usable n
    → HasToken (
        if ltb 0 n
        then some
            (record { tokens = n * millionth; capacity = n * millionth; rate = rate; last = now })
        else none)
full-HasToken n rate now (inl off) = rw off tt
full-HasToken n rate now (inr one) =
    let on : ltb 0 n ≡ true = ground arith in rw on (omega arith, omega arith)

new_buckets-HaveTokens :
    (lim : Limit) (now : ℕ) → Usable lim.rps × Usable lim.rpm → HaveTokens (new_buckets lim now)
unfolding new_buckets rps_bucket rpm_bucket
new_buckets-HaveTokens lim now (p, q) =
    (full-HasToken lim.rps (lim.rps * 60) now p, full-HasToken lim.rpm lim.rpm now q)

with_mode-Usable :
    (lim : Limit)
    → Usable lim.rps × Usable lim.rpm
    → Usable (with_mode lim).rps × Usable (with_mode lim).rpm
unfolding with_mode
with_mode-Usable lim h = elim (Bool-cases (lim.mode == "")) [ inl e ↦ rw e h | inr e ↦ rw e h ]

abbrev HeldHaveTokens : Option AgentBuckets → Type 0
HeldHaveTokens none = Unit
HeldHaveTokens (some ab) = HaveTokens ab

set-AllHaveTokens :
    (now : ℕ) (lim : Limit) (l : Limiter)
    → Usable lim.rps × Usable lim.rpm
    → AllHaveTokens l
    → AllHaveTokens (set now lim l)
unfolding set AllHaveTokens
set-AllHaveTokens now lim l usable h a ab e =
    let found =
      sym e
      ∙ lookup-insert (with_mode lim).agent_id a (new_buckets (with_mode lim) now) l.buckets in
    elim (Bool-cases ((with_mode lim).agent_id == a)) [
      | inl same ↦
          subst HeldHaveTokens
            (sym (
              found
              ∙ ap (λ b. if b then some (new_buckets (with_mode lim) now) else lookup a l.buckets)
                  same))
            (new_buckets-HaveTokens (with_mode lim) now (with_mode-Usable lim usable))
      | inr other ↦ h a ab (
          sym (
            found
            ∙ ap (λ b. if b then some (new_buckets (with_mode lim) now) else lookup a l.buckets)
                other))
    ]

set_all-AllHaveTokens :
    (now : ℕ) (limits : List Limit) (l : Limiter)
    → All (λ (lim : Limit). Usable lim.rps × Usable lim.rpm) limits
    → AllHaveTokens l
    → AllHaveTokens (set_all now limits l)
unfolding set_all
set_all-AllHaveTokens now [] l u h = h
set_all-AllHaveTokens now (lim ∷ limits) l (u, us) h =
    set_all-AllHaveTokens now limits (set now lim l) us (set-AllHaveTokens now lim l u h)

empty-AllHaveTokens : AllHaveTokens Limiter.empty
unfolding AllHaveTokens lookup
empty-AllHaveTokens a ab h = cc

load-AllHaveTokens :
    (now : ℕ) (file : ReadResult (List Limit)) (l : Limiter)
    → UsableLimits file
    → (Limiter.load now file l).1 ≡ none
    → AllHaveTokens (Limiter.load now file l).0
unfolding Limiter.load
load-AllHaveTokens now not_exist l u e = empty-AllHaveTokens
load-AllHaveTokens now unreadable l u e = ground arith
load-AllHaveTokens now malformed l u e = ground arith
load-AllHaveTokens now (parsed limits) l u e =
    set_all-AllHaveTokens now limits Limiter.empty u empty-AllHaveTokens

take-HasToken : (now : ℕ) (b : Option Bucket) → HasToken b → (take now b).1 ≡ true
unfolding take allow refill
take-HasToken now none h = refl
take-HasToken now (some b) (p, q) = ground arith

check_buckets-allowed :
    (now : ℕ) (lim : Limit) (ab : AgentBuckets)
    → HaveTokens ab
    → (check_buckets now lim ab).1.allowed ≡ true
unfolding check_buckets
check_buckets-allowed now lim ab (p, q) =
    ground (arith, take-HasToken now ab.rps p, take-HasToken now ab.rpm q)

check_limited-allowed :
    (now : ℕ) (a : String) (lim : Limit) (o : Option AgentBuckets) (l : Limiter)
    → ((ab : AgentBuckets) → o ≡ some ab → HaveTokens ab)
    → (check_limited now a lim o l).1.allowed ≡ true
unfolding check_limited
check_limited-allowed now a lim none l h = refl
check_limited-allowed now a lim (some ab) l h = check_buckets-allowed now lim ab (h ab refl)

check-allowed :
    (now : ℕ) (a : String) (l : Limiter) → AllHaveTokens l → (check now a l).1.allowed ≡ true
unfolding check AllHaveTokens
check-allowed now a l h = elim (Option-cases (lookup a l.limits)) [
  | inl none' ↦ rw (none', check) refl
  | inr (lim, e) ↦ rw (e, check) (check_limited-allowed now a lim (lookup a l.buckets) l (h a))
]

-- Once a reload has read the file of the quotas, or found none, the next check of every agent lets through,
-- however much the agent had used before, if every limit of the file is off or at least one request.
pub reload-check :
    (now later : ℕ) (f : Files) (g : Gateway) (a : String)
    → UsableLimits f.quotas
    → (Limiter.load now f.quotas g.lim).1 ≡ none
    → (check later a (reload now f g).0.lim).1.allowed ≡ true
unfolding reload
reload-check now later f g a u e =
    check-allowed later a _ (load-AllHaveTokens now f.quotas g.lim u e)

-- The engine of the gateway after a reload, from what the admin API answered to the change before it.
abbrev pub Takes : Service Engine Rule → Service Engine Rule × Reply Rule → Engine → Engine → Type 0
Takes s (s', created r) old new =
    (Engine.lookup_by_id r.policy_id new ≡ some r)
    × (new ≡ s'.content)
    × (s'.signals ≡ s.signals + 1)
Takes s (s', deleted id) old new =
    (Engine.lookup_by_id id new ≡ none) × (new ≡ s'.content) × (s'.signals ≡ s.signals + 1)
Takes s (s', failed status e) old new = new ≡ (Engine.load (read_back s.file) old).0
Takes s (s', listed rules) old new = new ≡ (Engine.load (read_back s.file) old).0
Takes s (s', found r) old new = new ≡ (Engine.load (read_back s.file) old).0

loaded_rules :
    (d : Disk (List Rule)) (rules : List Rule) (e old : Engine)
    → d.file ≡ some rules
    → rules ≡ e.rules
    → (Engine.load (read_back d) old).0 ≡ e
unfolding read_back Engine.load
loaded_rules d rules e old h k = rw h (ap (λ (rs : List Rule). record { rules = rs }) k)

kept_rules :
    (d d' : Disk (List Rule)) (old : Engine)
    → d'.file ≡ d.file
    → (Engine.load (read_back d') old).0 ≡ (Engine.load (read_back d) old).0
unfolding read_back
kept_rules d d' old h = rw h refl

Effect-Takes :
    (s : Service Engine Rule) (r : Service Engine Rule × Reply Rule) (old : Engine)
    → Effect policies IsKeyed s r
    → Takes s r old (Engine.load (read_back r.0.file) old).0
Effect-Takes s (s', created r) old (i, (p, n), f) =
    let same = loaded_rules s'.file s'.content.rules s'.content old p refl in
    (ap (λ (x : Engine). Engine.lookup_by_id r.policy_id x) same ∙ f, same, n)
Effect-Takes s (s', deleted id) old (i, (p, n), f) =
    let same = loaded_rules s'.file s'.content.rules s'.content old p refl in
    (ap (λ (x : Engine). Engine.lookup_by_id id x) same ∙ f, same, n)
Effect-Takes s (s', failed status e) old (i, (p, n), f) = kept_rules s.file s'.file old p
Effect-Takes s (s', listed rules) old (e, _) =
    kept_rules s.file s'.file old (ap (λ (x : Service Engine Rule). x.file.file) e)
Effect-Takes s (s', found r) old e =
    kept_rules s.file s'.file old (ap (λ (x : Service Engine Rule). x.file.file) e)

-- Once the gateway reloads the file of rules, which a created or deleted rule tells it to do, its engine is
-- that of the admin API: a rule that was answered as created is the one it finds under its id, and under an
-- id that was answered as deleted it finds none. After any other answer, a reload gives what it would have
-- given before the request. The admin API's rules had distinct ids before it.
pub reload-serve :
    (sys : System Rule) (m : Method) (t : Target) (body : Option Rule) (s : Service Engine Rule)
    (now : ℕ) (f : Files) (g : Gateway)
    → IsKeyed s.content
    → f.policy ≡ read_back (serve policies sys m t body s).0.file
    → Takes s (serve policies sys m t body s) g.eng (reload now f g).0.eng
unfolding reload
reload-serve sys m t body s now f g k e =
    rw e (Effect-Takes s (serve policies sys m t body s) g.eng (serve-policies sys m t body s k))
