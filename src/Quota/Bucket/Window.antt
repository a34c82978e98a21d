-- ===== src/Quota/Bucket/Window.antt =====
-- How many requests a bucket admits in a span of time.
use crispy_garbanzo.Base.{
  ℕ, ◌+◌, ◌-◌, ◌*◌, ◌≤◌, ◌<◌, Bool, true, false, List, [], ◌∷◌, ◌≡◌, ap, ◌⊎◌, ◌↔◌, arith,
  if◌then◌else◌,
}
use crispy_garbanzo.Quota.Bucket.{Bucket, token, allow}

pub record IsFull (b : Bucket) : Type 0 where
  pub within : b.tokens ≤ b.capacity

-- the bucket after requests at some times, and how many it admitted
pub run : List ℕ → Bucket → Bucket × ℕ
run [] b = (b, 0)
run (now ∷ times) b =
    let (b', admitted) = allow now b in
    let (b'', n) = run times b' in (b'', if admitted then n + 1 else n)

-- the times do not fall
abbrev pub Ordered : ℕ → List ℕ → Type 0
Ordered last [] = Unit
Ordered last (now ∷ times) = (last ≤ now) × Ordered now times

allow-IsFull : (now : ℕ) (b : Bucket) → IsFull b → IsFull (allow now b).0
unfolding allow
allow-IsFull now b h = ground arith

-- one request: what it takes comes from what was there and what the time brought
pub allow_balance :
    (now : ℕ) (b : Bucket)
    → ((allow now b).0.tokens + (if (allow now b).1 then token else 0)
        ≤ b.tokens + (now - b.last) * b.rate)
unfolding allow
allow_balance now b = ground arith

pub allow_fields :
    (now : ℕ) (b : Bucket)
    → ((allow now b).0.rate ≡ b.rate)
      × ((allow now b).0.last ≡ now)
      × ((allow now b).0.capacity ≡ b.capacity)
unfolding allow
allow_fields now b = ground arith

spans_add :
    (last now later rate : ℕ)
    → last ≤ now
    → now ≤ later
    → (later - now) * rate + (now - last) * rate ≡ (later - last) * rate
spans_add last now later rate h k =
    let e : (later - now) + (now - last) ≡ later - last = omega arith in
    omega (arith, ap (λ (t : ℕ). t * rate) e)

pub balance_step :
    (t2 n t1 t0 later now last rate : ℕ) (admitted : Bool)
    → t2 + n * token ≤ t1 + (later - now) * rate
    → t1 + (if admitted then token else 0) ≤ t0 + (now - last) * rate
    → last ≤ now
    → now ≤ later
    → t2 + (if admitted then n + 1 else n) * token ≤ t0 + (later - last) * rate
balance_step t2 n t1 t0 later now last rate true h k p q =
    omega (arith, spans_add last now later rate p q)
balance_step t2 n t1 t0 later now last rate false h k p q =
    omega (arith, spans_add last now later rate p q)

run_balance :
    (times : List ℕ) (b : Bucket)
    → Ordered b.last times
    → ((run times b).0.tokens + (run times b).1 * token
        ≤ b.tokens + ((run times b).0.last - b.last) * b.rate)
      × (b.last ≤ (run times b).0.last)
unfolding run
run_balance [] b h = (omega arith, omega arith)
run_balance (now ∷ times) b (le, h) =
    let (rate, last, _) = allow_fields now b in
    let (kept, later) = run_balance times (allow now b).0 (rw last h) in
    (
      balance_step (run times (allow now b).0).0.tokens (run times (allow now b).0).1
          (allow now b).0.tokens b.tokens (run times (allow now b).0).0.last now b.last b.rate
          (allow now b).1 (rw (rate, last) at kept) (allow_balance now b) le (rw last at later),
      omega (arith, rw last at later),
    )

-- The requests that a bucket admits, at times that do not fall, cost at most what it held at first
-- and what its rate brings until the last of them; a bucket that is within its capacity so admits
-- in a span at most its capacity and the span's refill.
pub run-le :
    (times : List ℕ) (b : Bucket)
    → IsFull b
    → Ordered b.last times
    → (run times b).1 * token ≤ b.capacity + ((run times b).0.last - b.last) * b.rate
run-le times b full h = omega (arith, (run_balance times b h).0, full.within)

-- A bucket that is within its capacity stays so, and it refuses a request exactly if, refilled up to
-- its capacity, it holds less than a token.
pub allow_lem :
    (now : ℕ) (b : Bucket)
    → IsFull b
    → IsFull (allow now b).0
      × (((allow now b).1 ≡ false)
          ↔ ((b.capacity < token) ⊎ (b.tokens + (now - b.last) * b.rate < token)))
allow_lem now b h = (allow-IsFull now b h, unfold allow in ground arith)
