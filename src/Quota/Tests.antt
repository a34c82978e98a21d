-- ===== src/Quota/Tests.antt =====
-- The theorems on quotas, at concrete limits and times.
use crispy_garbanzo.Base.{
  ℕ, ◌+◌, ◌-◌, ◌*◌, ◌≤◌, String, none, some, List, [], ◌∷◌, ◌≡◌, inl, refl, arith, lookup,
}
use crispy_garbanzo.Quota.Bucket.{Bucket, token}
use crispy_garbanzo.Quota.Limiter.{Limit, AgentBuckets, Limiter}
use crispy_garbanzo.Quota.Limiter.Rate.{allowed_count, allowed_count-le}

-- two requests per second, at time 0
abbrev two_per_second : Bucket
two_per_second = record {
  tokens = 120000000000000000;
  capacity = 120000000000000000;
  rate = 120000000;
  last = 0;
}

abbrev hard_limit : Limit
hard_limit = record { agent_id = "a1"; rps = 2000000; rpm = 0; mode = "hard_stop" }

abbrev held : AgentBuckets
held = record { rps = some two_per_second; rpm = none }

abbrev one_limit : Limiter
one_limit = record { limits = ("a1", hard_limit) ∷ []; buckets = ("a1", held) ∷ [] }

limit_found : lookup "a1" one_limit.limits ≡ some hard_limit
unfolding lookup
limit_found = refl

buckets_found : lookup "a1" one_limit.buckets ≡ some held
unfolding lookup
buckets_found = refl

abbrev requests_of_two : List (String × ℕ)
requests_of_two = ("a1", 0) ∷ ("a2", 3) ∷ ("a1", 5) ∷ ("a1", 1000000000) ∷ []

allowed_count-le_example :
    allowed_count "a1" requests_of_two one_limit * token
    ≤ two_per_second.tokens + (2000000000 - two_per_second.last) * two_per_second.rate
allowed_count-le_example =
    allowed_count-le "a1" requests_of_two one_limit hard_limit held two_per_second 2000000000
      limit_found buckets_found refl (inl refl)
      (omega arith, (omega arith, (omega arith, (omega arith, omega arith))))
