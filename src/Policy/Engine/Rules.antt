-- ===== src/Policy/Engine/Rules.antt =====
-- The list of rules under `Add`, `Remove`, `LookupByID`, `Save` and `Load`.
use crispy_garbanzo.Base.{
  String, Bool, true, false, Option, none, some, List, [], ◌∷◌, ◌≡◌, refl, arith, eq_iff, ◌==◌,
  if◌then◌else◌, Disk, Faults, read_back,
}
use crispy_garbanzo.Base.Files.Laws.{is_none}
use crispy_garbanzo.Policy.Rule.{Rule}
use crispy_garbanzo.Policy.Engine.{
  Engine, load, find_rule, lookup_by_id, add_rule, add, remove_rule, remove, save,
}

-- no two rules have one id
abbrev UniqueIds : List Rule → Type 0
UniqueIds [] = Unit
UniqueIds (r ∷ rs) = (find_rule r.policy_id rs ≡ none) × UniqueIds rs

pub record IsKeyed (e : Engine) : Type 0 where
  pub unique : UniqueIds e.rules

find_rule-add_rule :
    (r : Rule) (j : String) (rs : List Rule)
    → find_rule j (add_rule r rs) ≡ (if r.policy_id == j then some r else find_rule j rs)
unfolding find_rule add_rule
find_rule-add_rule r j [] = refl
find_rule-add_rule r j (q ∷ rs) = ground (
  arith,
  find_rule-add_rule r j rs,
  eq_iff q.policy_id r.policy_id,
  eq_iff r.policy_id j,
  eq_iff q.policy_id j,
)

-- After `Add` the rule's id finds the rule, and every other id finds what it found before.
pub lookup_by_id-add :
    (r : Rule) (j : String) (e : Engine)
    → lookup_by_id j (add r e) ≡ (if r.policy_id == j then some r else lookup_by_id j e)
unfolding lookup_by_id add
lookup_by_id-add r j e = find_rule-add_rule r j e.rules

add_rule-UniqueIds : (r : Rule) (rs : List Rule) → UniqueIds rs → UniqueIds (add_rule r rs)
unfolding add_rule find_rule
add_rule-UniqueIds r [] u = (refl, tt)
add_rule-UniqueIds r (q ∷ rs) (fresh, u) = ground (
  arith,
  add_rule-UniqueIds r rs u,
  find_rule-add_rule r q.policy_id rs,
  eq_iff q.policy_id r.policy_id,
  eq_iff r.policy_id q.policy_id,
)

abbrev pub is_some {ℓ} : {A : Type ℓ} → Option A → Bool
is_some none = false
is_some (some a) = true

find_rule-remove_rule :
    (id j : String) (rs : List Rule)
    → UniqueIds rs
    → (find_rule j (remove_rule id rs).0 ≡ (if id == j then none else find_rule j rs))
      × ((remove_rule id rs).1 ≡ is_some (find_rule id rs))
unfolding find_rule remove_rule
find_rule-remove_rule id j [] u = ground arith
find_rule-remove_rule id j (q ∷ rs) (fresh, u) = ground (
  arith,
  find_rule-remove_rule id j rs u,
  eq_iff q.policy_id id,
  eq_iff q.policy_id j,
  eq_iff id j,
)

remove_rule-UniqueIds :
    (id : String) (rs : List Rule) → UniqueIds rs → UniqueIds (remove_rule id rs).0
unfolding remove_rule
remove_rule-UniqueIds id [] u = tt
remove_rule-UniqueIds id (q ∷ rs) (fresh, u) =
    ground (arith, remove_rule-UniqueIds id rs u, find_rule-remove_rule id q.policy_id rs u)

-- In an engine with no id twice, `Remove` makes its id unknown and leaves what every other id finds;
-- it reports true exactly if the id was known.
pub lookup_by_id-remove :
    (id j : String) (e : Engine)
    → IsKeyed e
    → (lookup_by_id j (remove id e).0 ≡ (if id == j then none else lookup_by_id j e))
      × ((remove id e).1 ≡ is_some (lookup_by_id id e))
unfolding lookup_by_id remove
lookup_by_id-remove id j e h = find_rule-remove_rule id j e.rules h.unique

-- `Add` and `Remove` keep the ids of the rules distinct.
pub add-remove-IsKeyed :
    (r : Rule) (id : String) (e : Engine) → IsKeyed e → IsKeyed (add r e) × IsKeyed (remove id e).0
unfolding add remove
add-remove-IsKeyed r id e h = (
  record { unique = add_rule-UniqueIds r e.rules h.unique },
  record { unique = remove_rule-UniqueIds id e.rules h.unique },
)

-- Loading what the disk holds after a save without error gives the saved engine; a save that
-- reports an error leaves on disk, for the next load, what was there before.
pub load-save_rules :
    (f : Faults (List Rule)) (d : Disk (List Rule)) (e e' : Engine)
    → load (read_back (save f e d).0) e'
      ≡ (if is_none (save f e d).1 then (e, none) else load (read_back d) e')
unfolding save load read_back
load-save_rules f d e e' = ground arith
