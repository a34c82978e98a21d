-- ===== src/Enforcer/Plan/Order.antt =====
-- `dedupeOps`: which operations a plan keeps, and in which order.
use crispy_garbanzo.Base.{
  String, true, false, ◌||◌, List, [], ◌∷◌, ◌≡◌, ◌≢◌, inl, inr, arith, eq_iff, ◌==◌, Bool-cases,
  any, All, Any,
}
use crispy_garbanzo.Base.Sort.{Ascending}
use crispy_garbanzo.Enforcer.Interfaces.{Operation}
use crispy_garbanzo.Enforcer.Plan.{key_of, first_ops, op_before}

abbrev pub IsNamed : Operation → Type 0
IsNamed op = (op.backend ≢ "") × (op.scope ≢ "")

-- no two operations have one key
abbrev pub DistinctKeys : List Operation → Type 0
DistinctKeys [] = Unit
DistinctKeys (op ∷ ops) = All (λ o. key_of o ≢ key_of op) ops × DistinctKeys ops

-- an operation of the list with that key
abbrev pub HasKey : String → List Operation → Type 0
HasKey k = Any (λ o. key_of o ≡ k)

-- what a plan made of a list of operations is
pub record IsPlanOf (ops plan : List Operation) : Type 0 where
  pub ascending : Ascending op_before plan
  pub distinct : DistinctKeys plan
  pub kept : All (λ o. IsNamed o × Any (λ op. op ≡ o) ops) plan
  pub complete : All (λ op. IsNamed op → HasKey (key_of op) plan) ops

abbrev pub Seen : List String → Operation → Type 0
Seen seen op = any (λ k. k == key_of op) seen ≡ true

abbrev pub Fresh : List String → Operation → Type 0
Fresh seen op = any (λ k. k == key_of op) seen ≡ false

-- one turn of the loop: the operation is left out or kept
pub first-step :
    (P : List Operation → Type 0) (seen : List String) (op : Operation) (ops : List Operation)
    → ((IsNamed op → Seen seen op) → P (first_ops seen ops))
    → (IsNamed op → Fresh seen op → P (op ∷ first_ops (key_of op ∷ seen) ops))
    → P (first_ops seen (op ∷ ops))
unfolding first_ops
first-step P seen op ops skip keep = elim (Bool-cases (op.backend == "" || op.scope == "")) [
  | inl blank ↦
      rw blank (skip (λ named. absurd (ground (arith, eq_iff op.backend "", eq_iff op.scope ""))))
  | inr named ↦ elim (Bool-cases (any (λ k. k == key_of op) seen)) [
    | inl old ↦ rw (named, old) (skip (λ _. old))
    | inr new ↦
        rw (named, new) (keep (ground (arith, eq_iff op.backend "", eq_iff op.scope "")) new)
  ]
]
