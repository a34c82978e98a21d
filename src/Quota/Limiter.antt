-- ===== src/Quota/Limiter.antt =====
-- internal/quota/bucket.go: the limiter. Its maps hold pointers: `Check` changes a bucket in place,
-- which is an insertion at the same key here. The text of a decision's reason is a constructor.
pub mod Laws
pub mod Rate
use crispy_garbanzo.Base.{
  ℕ, String, Bool, true, false, not, Option, none, some, List, [], ◌∷◌, ◌==◌, if◌then◌else◌, ltb,
  Dict, lookup, insert, erase, values, ReadResult, not_exist, unreadable, malformed, parsed,
  IoError, read_failed, parse_failed, Disk, Faults, save_atomic,
}
use crispy_garbanzo.Quota.Bucket.{Bucket, allow, rps_bucket, rpm_bucket}

-- limits in millionths of a request; 0 is "unlimited"
pub record Limit : Type 0 where
  pub agent_id : String
  pub rps : ℕ
  pub rpm : ℕ
  pub mode : String

pub data Reason : Type 0 where
  no_reason : Reason
  rps_exceeded rpm_exceeded : ℕ → Reason

pub record Decision : Type 0 where
  pub allowed : Bool
  pub mode : String
  pub reason : Reason

pub record AgentBuckets : Type 0 where
  pub rps : Option Bucket
  pub rpm : Option Bucket

pub record Limiter : Type 0 where
  pub limits : Dict Limit
  pub buckets : Dict AgentBuckets

abbrev pub empty : Limiter
empty = record { limits = []; buckets = [] }

unfoldable pub with_mode : Limit → Limit
with_mode lim = if lim.mode == "" then record lim { mode = "hard_stop" } else lim

unfoldable pub new_buckets : Limit → ℕ → AgentBuckets
new_buckets lim now = record {
  rps = if ltb 0 lim.rps then some (rps_bucket lim.rps now) else none;
  rpm = if ltb 0 lim.rpm then some (rpm_bucket lim.rpm now) else none;
}

-- `Set`, and one round of the loop of `Load`
unfoldable pub set : ℕ → Limit → Limiter → Limiter
unfolding with_mode new_buckets
set now lim l =
    let lim = with_mode lim in
    record {
      limits = insert lim.agent_id lim l.limits;
      buckets = insert lim.agent_id (new_buckets lim now) l.buckets;
    }

-- the loop of `Load`
unfoldable pub set_all : ℕ → List Limit → Limiter → Limiter
unfolding set
set_all now [] l = l
set_all now (lim ∷ limits) l = set_all now limits (set now lim l)

unfoldable pub load : ℕ → ReadResult (List Limit) → Limiter → Limiter × Option IoError
unfolding set_all
load now not_exist l = (empty, none)
load now unreadable l = (l, some read_failed)
load now malformed l = (l, some parse_failed)
load now (parsed limits) l = (set_all now limits empty, none)

-- `b != nil && !b.allow(now)`, negated: no bucket lets every request through
unfoldable pub take : ℕ → Option Bucket → Option Bucket × Bool
take now none = (none, true)
take now (some b) = let (b', ok) = allow now b in (some b', ok)

unfoldable pub check_buckets : ℕ → Limit → AgentBuckets → AgentBuckets × Decision
unfolding take
check_buckets now lim ab =
    let (rps, rps_ok) = take now ab.rps in
    if not rps_ok
    then (
      record ab { rps = rps },
      record { allowed = lim.mode == "alert_only"; mode = lim.mode; reason = rps_exceeded lim.rps },
    )
    else (let (rpm, rpm_ok) = take now ab.rpm in
        if not rpm_ok
        then (
          record { rps = rps; rpm = rpm },
          record {
            allowed = lim.mode == "alert_only";
            mode = lim.mode;
            reason = rpm_exceeded lim.rpm;
          },
        )
        else (
          record { rps = rps; rpm = rpm },
          record { allowed = true; mode = lim.mode; reason = no_reason },
        ))

abbrev pub unlimited : Decision
unlimited = record { allowed = true; mode = ""; reason = no_reason }

unfoldable pub check_limited :
    ℕ → String → Limit → Option AgentBuckets → Limiter → Limiter × Decision
check_limited now agent_id lim none l = (l, unlimited)
check_limited now agent_id lim (some ab) l =
    let (ab', d) = check_buckets now lim ab in
    (record l { buckets = insert agent_id ab' l.buckets }, d)

unfoldable pub check : ℕ → String → Limiter → Limiter × Decision
unfolding check_limited
check now agent_id l = elim (lookup agent_id l.limits) [
  | none ↦ (l, unlimited)
  | some lim ↦ check_limited now agent_id lim (lookup agent_id l.buckets) l
]

unfoldable pub all_limits : Limiter → List Limit
all_limits l = values l.limits

unfoldable pub lookup_by_id : String → Limiter → Option Limit
lookup_by_id agent_id l = lookup agent_id l.limits

unfoldable pub remove : String → Limiter → Limiter × Bool
remove agent_id l = elim (lookup agent_id l.limits) [
  | none ↦ (l, false)
  | some _ ↦ (record { limits = erase agent_id l.limits; buckets = erase agent_id l.buckets }, true)
]

unfoldable pub save :
    Faults (List Limit) → Limiter → Disk (List Limit) → Disk (List Limit) × Option IoError
unfolding save_atomic all_limits
save f l = save_atomic f (all_limits l)
