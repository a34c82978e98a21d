-- ===== src/Quota/Limiter/Laws.antt =====
-- What the limiter finds and answers, operation by operation.
use crispy_garbanzo.Base.{
  ℕ, String, Bool, true, false, Option, none, some, List, [], ◌∷◌, ◌≡◌, ◌≢◌, refl, arith, inl, inr,
  ◌⊎◌, ◌↔◌, eq_iff, ◌==◌, if◌then◌else◌, Option-cases, lookup, insert, lookup-insert, lookup-erase,
  ReadResult, not_exist, unreadable, malformed, parsed,
}
use crispy_garbanzo.Quota.Limiter.{
  Limit, AgentBuckets, Limiter, no_reason, empty, unlimited, with_mode, new_buckets, set, set_all,
  load, take, check_buckets, check, check_limited, lookup_by_id, remove,
}

abbrev is_some {ℓ} : {A : Type ℓ} → Option A → Bool
is_some none = false
is_some (some a) = true

-- An agent has a limit exactly if it has buckets, no limit has an empty mode, and each stands under
-- its agent's id.
pub record IsPaired (l : Limiter) : Type 0 where
  pub paired : (a : String) → is_some (lookup a l.limits) ≡ is_some (lookup a l.buckets)
  pub moded : (a : String) (lim : Limit) → lookup a l.limits ≡ some lim → lim.mode ≢ ""
  pub named : (a : String) (lim : Limit) → lookup a l.limits ≡ some lim → lim.agent_id ≡ a

with_mode-ne : (lim : Limit) → (with_mode lim).mode ≢ ""
unfolding with_mode
with_mode-ne lim = ground (arith, eq_iff lim.mode "", eq_iff "hard_stop" "")

pub set-IsPaired : (now : ℕ) (lim : Limit) (l : Limiter) → IsPaired l → IsPaired (set now lim l)
unfolding set
set-IsPaired now lim l p = record {
  paired = λ a. simp lookup-insert (ground (arith, p.paired a));
  moded = λ a lim'. simp lookup-insert (ground (arith, p.moded a lim', with_mode-ne lim));
  named = λ a lim'.
      simp lookup-insert (ground (arith, p.named a lim', eq_iff (with_mode lim).agent_id a));
}

pub empty-IsPaired : IsPaired empty
unfolding lookup
empty-IsPaired = record { paired = λ a. refl; moded = λ a lim h. cc; named = λ a lim h. cc }

set_all-IsPaired :
    (now : ℕ) (limits : List Limit) (l : Limiter) → IsPaired l → IsPaired (set_all now limits l)
unfolding set_all
set_all-IsPaired now [] l p = p
set_all-IsPaired now (lim ∷ limits) l p =
    set_all-IsPaired now limits (set now lim l) (set-IsPaired now lim l p)

load-IsPaired :
    (now : ℕ) (file : ReadResult (List Limit)) (l : Limiter)
    → IsPaired l
    → IsPaired (load now file l).0
unfolding load
load-IsPaired now not_exist l p = empty-IsPaired
load-IsPaired now unreadable l p = p
load-IsPaired now malformed l p = p
load-IsPaired now (parsed limits) l p = set_all-IsPaired now limits empty empty-IsPaired

remove-IsPaired : (a : String) (l : Limiter) → IsPaired l → IsPaired (remove a l).0
unfolding remove
remove-IsPaired a l p = elim (Option-cases (lookup a l.limits)) [
  | inl unknown ↦ rw (unknown, remove) p
  | inr (lim, known) ↦
      rw (known, remove)
        (record {
          paired = λ b. simp lookup-erase (ground (arith, p.paired b));
          moded = λ b lim'. simp lookup-erase (ground (arith, p.moded b lim'));
          named = λ b lim'. simp lookup-erase (ground (arith, p.named b lim'));
        })
]

updated-IsPaired :
    (a : String) (ab : AgentBuckets) (l : Limiter)
    → is_some (lookup a l.buckets) ≡ true
    → IsPaired l
    → IsPaired (record l { buckets = insert a ab l.buckets })
updated-IsPaired a ab l held p = record {
  paired = λ b. simp lookup-insert (ground (arith, p.paired b, eq_iff a b));
  moded = p.moded;
  named = p.named;
}

check-IsPaired : (now : ℕ) (a : String) (l : Limiter) → IsPaired l → IsPaired (check now a l).0
unfolding check
check-IsPaired now a l p = elim (Option-cases (lookup a l.limits)) [
  | inl unknown ↦ rw (unknown, check) p
  | inr (lim, known) ↦ elim (Option-cases (lookup a l.buckets)) [
    | inl nothing ↦ rw (known, check) (rw (nothing, check_limited) p)
    | inr (ab, held) ↦
        rw (known, check)
          (rw (held, check_limited) (updated-IsPaired a (check_buckets now lim ab).0 l (rw held) p))
  ]
]

-- Every operation keeps limits and buckets together: an agent has a limit exactly if it has buckets,
-- every limit has a mode, and stands under its agent's id.
pub limiter-IsPaired :
    (now : ℕ) (file : ReadResult (List Limit)) (lim : Limit) (a : String) (l : Limiter)
    → IsPaired l
    → IsPaired (load now file l).0
      × IsPaired (set now lim l)
      × IsPaired (remove a l).0
      × IsPaired (check now a l).0
limiter-IsPaired now file lim a l p = (
  load-IsPaired now file l p,
  set-IsPaired now lim l p,
  remove-IsPaired a l p,
  check-IsPaired now a l p,
)

agent_id-with_mode : (lim : Limit) → (with_mode lim).agent_id ≡ lim.agent_id
unfolding with_mode
agent_id-with_mode lim = ground arith

new_buckets-with_mode :
    (lim : Limit) (now : ℕ) → new_buckets (with_mode lim) now ≡ new_buckets lim now
unfolding with_mode new_buckets
new_buckets-with_mode lim now = ground arith

-- After `Set` the agent's limit is the given one, with "hard_stop" for an empty mode, and its buckets
-- are full; every other agent's limit and buckets are as before.
pub set_lem :
    (now : ℕ) (lim : Limit) (l : Limiter) (a : String)
    → (lookup_by_id a (set now lim l)
        ≡ (if lim.agent_id == a then some (with_mode lim) else lookup_by_id a l))
      × (lookup a (set now lim l).buckets
          ≡ (if lim.agent_id == a then some (new_buckets lim now) else lookup a l.buckets))
unfolding set lookup_by_id
set_lem now lim l a = simp (lookup-insert, agent_id-with_mode, new_buckets-with_mode) (refl, refl)

-- A check of an agent without a limit lets it through and changes nothing.
pub check-unlimited :
    (now : ℕ) (a : String) (l : Limiter) → lookup_by_id a l ≡ none → check now a l ≡ (l, unlimited)
unfolding check lookup_by_id
check-unlimited now a l h = rw (h, check)

-- A check of an agent with a limit lets it through exactly if both its buckets, asked in turn, admit
-- the request, or the mode is "alert_only"; it gives a reason exactly if one of the two refused.
pub check_buckets_iff :
    (now : ℕ) (lim : Limit) (ab : AgentBuckets)
    → (((check_buckets now lim ab).1.allowed ≡ true) ↔ (
        (lim.mode ≡ "alert_only") ⊎ (((take now ab.rps).1 ≡ true) × ((take now ab.rpm).1 ≡ true))))
      × (((check_buckets now lim ab).1.reason ≡ no_reason)
          ↔ (((take now ab.rps).1 ≡ true) × ((take now ab.rpm).1 ≡ true)))
unfolding check_buckets
check_buckets_iff now lim ab = ground (arith, eq_iff lim.mode "alert_only")
