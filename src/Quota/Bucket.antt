-- ===== src/Quota/Bucket.antt =====
-- internal/quota/bucket.go: one token bucket. Go's float64 tokens are whole numbers of units here, and a
-- limit is a number of millionths of a request, of which each is 60 thousand million units; a time is a
-- number of nanoseconds. So the refill of a bucket whose limit has at most six decimals is exact. Rounding,
-- finer limits and negative ones are left out. Go's clock is monotonic: a time before the last one does not
-- occur.
pub mod Window
use crispy_garbanzo.Base.{ℕ, ◌+◌, ◌-◌, ◌*◌, Bool, true, false, ltb, leb, if◌then◌else◌}

-- the units of a millionth of a token, and of a token
abbrev pub millionth : ℕ
millionth = 60000000000

abbrev pub token : ℕ
token = 60000000000000000

pub record Bucket : Type 0 where
  pub tokens : ℕ
  pub capacity : ℕ
  -- units per nanosecond
  pub rate : ℕ
  pub last : ℕ

unfoldable pub refill : ℕ → Bucket → ℕ
refill now b =
    let tokens = b.tokens + (now - b.last) * b.rate in
    if ltb b.capacity tokens then b.capacity else tokens

unfoldable pub allow : ℕ → Bucket → Bucket × Bool
unfolding refill
allow now b =
    let tokens = refill now b in
    if leb token tokens
    then (record b { tokens = tokens - token; last = now }, true)
    else (record b { tokens = tokens; last = now }, false)

-- the bucket of a limit of `n` millionths of a request per second, and per minute
unfoldable pub rps_bucket : ℕ → ℕ → Bucket
rps_bucket n now = record {
  tokens = n * millionth;
  capacity = n * millionth;
  rate = n * 60;
  last = now;
}

unfoldable pub rpm_bucket : ℕ → ℕ → Bucket
rpm_bucket n now = record { tokens = n * millionth; capacity = n * millionth; rate = n; last = now }
