-- ===== src/Quota/Limiter/Rate.antt =====
-- How often an agent with a hard limit passes `Check` in a span of time, among the requests of others.
use mathlib.Core.Bool.{false≢true}
use crispy_garbanzo.Base.{
  ℕ, ◌+◌, ◌-◌, ◌*◌, ◌≤◌, String, Bool, true, false, Option, some, List, [], ◌∷◌, ◌≡◌, ◌≢◌, ap, sym,
  ◌∙◌, refl, arith, eq_iff, eq_refl, ◌==◌, if◌then◌else◌, Bool-cases, Option-cases, ◌⊎◌, inl, inr,
  lookup, insert, lookup-insert, ◌&&◌,
}
use crispy_garbanzo.Quota.Bucket.{Bucket, token, allow}
use crispy_garbanzo.Quota.Bucket.Window.{allow_balance, allow_fields, balance_step}
use crispy_garbanzo.Quota.Limiter.{
  Limit, AgentBuckets, Limiter, check_buckets, check, check_limited,
}

-- The requests of all agents, each with its time, and how many of one agent's were let through.
pub allowed_count : String → List (String × ℕ) → Limiter → ℕ
allowed_count a [] l = 0
allowed_count a ((agent_id, now) ∷ requests) l =
    let (l', d) = check now agent_id l in
    let n = allowed_count a requests l' in if agent_id == a && d.allowed then n + 1 else n

-- the times lie between two others and do not fall
abbrev pub Between : ℕ → ℕ → List (String × ℕ) → Type 0
Between from to [] = from ≤ to
Between from to ((_, now) ∷ requests) = (from ≤ now) × Between now to requests

Between-le : (from to : ℕ) (requests : List (String × ℕ)) → Between from to requests → from ≤ to
Between-le from to [] h = h
Between-le from to ((_, now) ∷ requests) (le, h) = omega (arith, Between-le now to requests h)

Between-earlier :
    (from now to : ℕ) (requests : List (String × ℕ))
    → from ≤ now
    → Between now to requests
    → Between from to requests
Between-earlier from now to [] le h = omega arith
Between-earlier from now to ((_, t) ∷ requests) le (k, h) = (omega arith, h)

module _ (agent_id : String) (now : ℕ) (l : Limiter) (lim : Limit) (ab : AgentBuckets) where
  check_known :
      lookup agent_id l.limits ≡ some lim
      → lookup agent_id l.buckets ≡ some ab
      → check now agent_id l ≡ (
        record l { buckets = insert agent_id (check_buckets now lim ab).0 l.buckets },
        (check_buckets now lim ab).1,
      )
  unfolding check
  check_known known held = rw (known, check) (rw (held, check_limited))

module _ (agent_id : String) (now : ℕ) (l : Limiter) where
  -- a check changes no limit, and no other agent's buckets
  limits-check : (check now agent_id l).0.limits ≡ l.limits
  unfolding check
  limits-check = ground arith

  buckets-check :
      (a : String) → agent_id ≢ a → lookup a (check now agent_id l).0.buckets ≡ lookup a l.buckets
  unfolding check
  buckets-check a h = elim (Option-cases (lookup agent_id l.limits)) [
    | inl unknown ↦ rw (unknown, check)
    | inr (lim, known) ↦ elim (Option-cases (lookup agent_id l.buckets)) [
      | inl none_held ↦ rw (known, check) (rw (none_held, check_limited))
      | inr (ab, held) ↦
          rw (check_known agent_id now l lim ab known held, lookup-insert)
            (ground (arith, eq_iff agent_id a))
    ]
  ]

-- the bucket for seconds, or that for minutes
abbrev Side : Type 0
Side = AgentBuckets → Option Bucket

module _ (lim : Limit) (ab : AgentBuckets) (now : ℕ) (hard : lim.mode ≡ "hard_stop") where
  alert_false : (lim.mode == "alert_only") ≡ false
  alert_false = ground (arith, eq_iff lim.mode "alert_only", eq_iff "hard_stop" "alert_only")

  -- what one check does to a bucket: it is asked, and a request that passes was admitted, or it is left
  rps_step :
      (b : Bucket)
      → ab.rps ≡ some b
      → ((check_buckets now lim ab).0.rps ≡ some (allow now b).0)
        × ((check_buckets now lim ab).1.allowed ≡ true → (allow now b).1 ≡ true)
  unfolding check_buckets
  rps_step b e = ground (arith, alert_false)

  rpm_step :
      (b : Bucket)
      → ab.rpm ≡ some b
      → (((check_buckets now lim ab).0.rpm ≡ some (allow now b).0)
          × ((check_buckets now lim ab).1.allowed ≡ true → (allow now b).1 ≡ true))
        ⊎ (((check_buckets now lim ab).0.rpm ≡ some b)
            × ((check_buckets now lim ab).1.allowed ≡ false))
  unfolding check_buckets
  rpm_step b e = ground (arith, alert_false)

module _ (a : String) (requests : List (String × ℕ)) (now : ℕ) (l : Limiter) where
  count-other :
      (agent_id : String)
      → agent_id ≢ a
      → allowed_count a ((agent_id, now) ∷ requests) l
        ≡ allowed_count a requests (check now agent_id l).0
  unfolding allowed_count
  count-other agent_id h = ground (arith, eq_iff agent_id a)

  count-own :
      (lim : Limit) (ab : AgentBuckets)
      → lookup a l.limits ≡ some lim
      → lookup a l.buckets ≡ some ab
      → allowed_count a ((a, now) ∷ requests) l ≡ (
          let n =
            allowed_count a requests
              (record l { buckets = insert a (check_buckets now lim ab).0 l.buckets }) in
          if (check_buckets now lim ab).1.allowed then n + 1 else n)
  unfolding allowed_count
  count-own lim ab known held = rw (check_known a now l lim ab known held, eq_refl a)

-- the arithmetic of one request of the agent: `n` requests later pass, `tokens` are left for them
own_bound :
    (b : Bucket) (now to n : ℕ) (allowed : Bool)
    → (allowed ≡ true → (allow now b).1 ≡ true)
    → b.last ≤ now
    → now ≤ to
    → n * token ≤ (allow now b).0.tokens + (to - now) * b.rate
    → (if allowed then n + 1 else n) * token ≤ b.tokens + (to - b.last) * b.rate
own_bound b now to n true admitted le le' h = omega (
  arith,
  balance_step 0 n (allow now b).0.tokens b.tokens to now b.last b.rate true (omega arith)
      (rw (admitted refl) at (allow_balance now b)) le le',
)
own_bound b now to n false admitted le le' h = omega (
  arith,
  balance_step 0 n (allow now b).0.tokens b.tokens to now b.last b.rate false (omega arith)
      (omega (arith, allow_balance now b)) le le',
)

module _ (a : String) (lim : Limit) (side : Side)
    (step : (ab : AgentBuckets) (b : Bucket) (now : ℕ)
      → side ab ≡ some b
      → ((side (check_buckets now lim ab).0 ≡ some (allow now b).0)
          × ((check_buckets now lim ab).1.allowed ≡ true → (allow now b).1 ≡ true))
        ⊎ ((side (check_buckets now lim ab).0 ≡ some b)
            × ((check_buckets now lim ab).1.allowed ≡ false))) where
  count-le :
      (requests : List (String × ℕ)) (l : Limiter) (ab : AgentBuckets) (b : Bucket) (to : ℕ)
      → lookup a l.limits ≡ some lim
      → lookup a l.buckets ≡ some ab
      → side ab ≡ some b
      → Between b.last to requests
      → allowed_count a requests l * token ≤ b.tokens + (to - b.last) * b.rate
  count-le [] l ab b to known held has times = unfold allowed_count in omega arith
  count-le ((agent_id, now) ∷ requests) l ab b to known held has (le, times) =
      elim (Bool-cases (agent_id == a)) [
        | inl same ↦
            rw ((eq_iff agent_id a).0 same, count-own a requests now l lim ab known held)
              (elim (step ab b now has) [
                | inl (has', admitted) ↦
                    let (rate, last, _) = allow_fields now b in
                    own_bound b now to _ (check_buckets now lim ab).1.allowed admitted le
                      (Between-le now to requests times)
                      (rw (rate, last) at
                        (count-le requests _ (check_buckets now lim ab).0 (allow now b).0 to known
                          (lookup-insert a a (check_buckets now lim ab).0 l.buckets
                            ∙ rw (eq_refl a))
                          has' (rw last times)))
                | inr (has', refused) ↦ rw refused (
                    count-le requests _ (check_buckets now lim ab).0 b to known
                      (lookup-insert a a (check_buckets now lim ab).0 l.buckets ∙ rw (eq_refl a))
                      has' (Between-earlier b.last now to requests le times))
              ])
        | inr other ↦
            let differ : agent_id ≢ a =
              λ e. absurd (false≢true (sym other ∙ (eq_iff agent_id a).1 e)) in
            rw (count-other a requests now l agent_id differ) (
              count-le requests (check now agent_id l).0 ab b to
                (ap (lookup a) (limits-check agent_id now l) ∙ known)
                (buckets-check agent_id now l a differ ∙ held) has
                (Between-earlier b.last now to requests le times))
      ]

-- Among any requests of all agents, at times that do not fall up to `to`, an agent with a "hard_stop"
-- limit is let through at most as often as its bucket for seconds, and its bucket for minutes, pays
-- for: with what the bucket held at first and what its rate brings until `to`.
pub allowed_count-le :
    (a : String) (requests : List (String × ℕ)) (l : Limiter) (lim : Limit) (ab : AgentBuckets)
    (b : Bucket) (to : ℕ)
    → lookup a l.limits ≡ some lim
    → lookup a l.buckets ≡ some ab
    → lim.mode ≡ "hard_stop"
    → (ab.rps ≡ some b) ⊎ (ab.rpm ≡ some b)
    → Between b.last to requests
    → allowed_count a requests l * token ≤ b.tokens + (to - b.last) * b.rate
allowed_count-le a requests l lim ab b to known held hard (inl has) times =
    count-le a lim (λ x. x.rps) (λ ab b now e. inl (rps_step lim ab now hard b e)) requests l ab b
      to known held has times
allowed_count-le a requests l lim ab b to known held hard (inr has) times =
    count-le a lim (λ x. x.rpm) (λ ab b now e. rpm_step lim ab now hard b e) requests l ab b to
      known held has times
