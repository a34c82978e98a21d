-- ===== src/Policy/Conflict/Found.antt =====
-- The conflicts that `DetectConflicts` reports, by its own tests of overlap.
use mathlib.Core.Bool.{false≢true}
use crispy_garbanzo.Base.{
  String, true, false, ◌&&◌, not, List, [], ◌∷◌, ◌≡◌, ◌≢◌, ◌⊎◌, inl, inr, sym, ◌∙◌, arith, eq_iff,
  ◌==◌, Any, Any-append, Any-append_left, Any-append_right, Any-const, Bool-cases, if◌then◌else◌,
}
use crispy_garbanzo.Policy.Rule.{Rule}
use crispy_garbanzo.Policy.Conflict.{
  Conflict, agent_overlaps, domain_overlaps, conflict_at, conflicts_with, domain_conflicts,
  pair_conflicts, later_conflicts, detect_conflicts,
}

-- the report for two rules, of which `a` comes first, and one domain of each
abbrev pub Found : Conflict → Rule → Rule → String → String → Type 0
Found c a b da db =
    (a.action ≢ b.action)
    × (agent_overlaps a.agent_id b.agent_id ≡ true)
    × (domain_overlaps da db ≡ true)
    × (c ≡ conflict_at a b da db)

abbrev pub LaterFound : Conflict → Rule → List Rule → Type 0
LaterFound c a bs =
    Any (λ (b : Rule). Any (λ da. Any (λ db. Found c a b da db) b.domains) a.domains) bs

abbrev pub IsFound : Conflict → List Rule → Type 0
IsFound c [] = ⊥
IsFound c (a ∷ rs) = LaterFound c a rs ⊎ IsFound c rs

eq_false : (s t : String) → s ≢ t → (s == t) ≡ false
eq_false s t n = ground (arith, eq_iff s t)

pair_split :
    {R : Type 0} (P : Conflict → Type 0) (a b : Rule) (l : List Conflict)
    → Any P (if not (a.action == b.action) && agent_overlaps a.agent_id b.agent_id then l else [])
    → (a.action ≢ b.action → agent_overlaps a.agent_id b.agent_id ≡ true → Any P l → R)
    → R
pair_split P a b l h k = elim (Bool-cases (a.action == b.action)) [
  | inl same ↦ absurd (rw same at h)
  | inr differ ↦ elim (Bool-cases (agent_overlaps a.agent_id b.agent_id)) [
    | inl agents ↦
        k (λ e. absurd (false≢true (sym differ ∙ (eq_iff _ _).1 e))) agents
          (rw (differ, agents) at h)
    | inr apart ↦ absurd (rw (differ, apart) at h)
  ]
]

module _ (c : Conflict) (a b : Rule) where
  module _ (differ : a.action ≢ b.action)
      (agents : agent_overlaps a.agent_id b.agent_id ≡ true) where
    with_sound :
        (da : String) (dbs : List String)
        → Any (λ x. c ≡ x) (conflicts_with a b da dbs)
        → Any (λ db. Found c a b da db) dbs
    unfolding conflicts_with
    with_sound da [] h = h
    with_sound da (db ∷ dbs) h = ground (arith, with_sound da dbs)

    with_complete :
        (da : String) (dbs : List String)
        → Any (λ db. Found c a b da db) dbs
        → Any (λ x. c ≡ x) (conflicts_with a b da dbs)
    unfolding conflicts_with
    with_complete da [] h = h
    with_complete da (db ∷ dbs) h = ground (arith, with_complete da dbs)

    domains_sound :
        (das : List String)
        → Any (λ x. c ≡ x) (domain_conflicts a b das)
        → Any (λ da. Any (λ db. Found c a b da db) b.domains) das
    unfolding domain_conflicts
    domains_sound [] h = h
    domains_sound (da ∷ das) h = elim (Any-append _ (conflicts_with a b da b.domains) _ h) [
      | inl here ↦ inl (with_sound da b.domains here)
      | inr later ↦ inr (domains_sound das later)
    ]

    domains_complete :
        (das : List String)
        → Any (λ da. Any (λ db. Found c a b da db) b.domains) das
        → Any (λ x. c ≡ x) (domain_conflicts a b das)
    unfolding domain_conflicts
    domains_complete [] h = h
    domains_complete (da ∷ das) (inl here) =
        Any-append_left _ (conflicts_with a b da b.domains) _ (with_complete da b.domains here)
    domains_complete (da ∷ das) (inr later) =
        Any-append_right _ (conflicts_with a b da b.domains) _ (domains_complete das later)

  pair_conflicts_of : pair_conflicts a b ≡ (
      if not (a.action == b.action) && agent_overlaps a.agent_id b.agent_id
      then domain_conflicts a b a.domains
      else [])
  unfolding pair_conflicts
  pair_conflicts_of = ground arith

  pair_sound :
      Any (λ x. c ≡ x) (pair_conflicts a b)
      → Any (λ da. Any (λ db. Found c a b da db) b.domains) a.domains
  pair_sound h =
      pair_split (λ x. c ≡ x) a b (domain_conflicts a b a.domains) (rw pair_conflicts_of at h)
        (λ differ agents. domains_sound differ agents a.domains)

  parts_of :
      (das : List String)
      → Any (λ da. Any (λ db. Found c a b da db) b.domains) das
      → (a.action ≢ b.action) × (agent_overlaps a.agent_id b.agent_id ≡ true)
  parts_of das =
      Any-const (λ da. Any-const (λ db (differ, agents, _, _). (differ, agents)) b.domains) das

  pair_complete :
      Any (λ da. Any (λ db. Found c a b da db) b.domains) a.domains
      → Any (λ x. c ≡ x) (pair_conflicts a b)
  pair_complete h =
      let (differ, agents) = parts_of a.domains h in
      rw (pair_conflicts_of, eq_false a.action b.action differ, agents)
        (domains_complete differ agents a.domains h)

module _ (c : Conflict) where
  later_sound :
      (a : Rule) (bs : List Rule) → Any (λ x. c ≡ x) (later_conflicts a bs) → LaterFound c a bs
  unfolding later_conflicts
  later_sound a [] h = h
  later_sound a (b ∷ bs) h = elim (Any-append _ (pair_conflicts a b) _ h) [
    | inl here ↦ inl (pair_sound c a b here)
    | inr later ↦ inr (later_sound a bs later)
  ]

  later_complete :
      (a : Rule) (bs : List Rule) → LaterFound c a bs → Any (λ x. c ≡ x) (later_conflicts a bs)
  unfolding later_conflicts
  later_complete a [] h = h
  later_complete a (b ∷ bs) (inl here) =
      Any-append_left _ (pair_conflicts a b) _ (pair_complete c a b here)
  later_complete a (b ∷ bs) (inr later) =
      Any-append_right _ (pair_conflicts a b) _ (later_complete a bs later)

  pub detect_sound : (rs : List Rule) → Any (λ x. c ≡ x) (detect_conflicts rs) → IsFound c rs
  unfolding detect_conflicts
  detect_sound [] h = h
  detect_sound (a ∷ rs) h = elim (Any-append _ (later_conflicts a rs) _ h) [
    | inl here ↦ inl (later_sound a rs here)
    | inr later ↦ inr (detect_sound rs later)
  ]

  pub detect_complete : (rs : List Rule) → IsFound c rs → Any (λ x. c ≡ x) (detect_conflicts rs)
  unfolding detect_conflicts
  detect_complete [] h = h
  detect_complete (a ∷ rs) (inl here) =
      Any-append_left _ (later_conflicts a rs) _ (later_complete a rs here)
  detect_complete (a ∷ rs) (inr later) =
      Any-append_right _ (later_conflicts a rs) _ (detect_complete rs later)
