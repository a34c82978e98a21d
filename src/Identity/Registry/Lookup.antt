-- ===== src/Identity/Registry/Lookup.antt =====
-- What the registry finds after each operation.
use crispy_garbanzo.Base.{
  String, true, none, some, List, [], ◌∷◌, ◌≡◌, ◌≢◌, ◌∙◌, refl, arith, eq_iff, eq_refl, ◌==◌,
  if◌then◌else◌, lookup, erase, NodupKeys, insert-NodupKeys, erase-NodupKeys, lookup-insert,
  lookup-erase, Option-cases, inl, inr, ReadResult, not_exist, unreadable, malformed, parsed,
}
use crispy_garbanzo.Identity.Registry.{
  Agent, Registry, add, add_all, empty, lookup_by_key, lookup_by_id, remove, load,
}

-- Each map holds an agent under its own key or id, and no id twice.
pub record IsConsistent (r : Registry) : Type 0 where
  pub keyed : (k : String) (a : Agent) → lookup k r.by_key ≡ some a → a.api_key ≡ k
  pub named : (i : String) (a : Agent) → lookup i r.by_id ≡ some a → a.agent_id ≡ i
  pub nodup : NodupKeys r.by_id

pub empty-IsConsistent : IsConsistent empty
unfolding lookup
empty-IsConsistent = record { keyed = λ k a h. cc; named = λ i a h. cc; nodup = tt }

pub add-IsConsistent : (a : Agent) (r : Registry) → IsConsistent r → IsConsistent (add a r)
unfolding add
add-IsConsistent a r c = record {
  keyed = λ k b. rw lookup-insert (ground (arith, eq_iff a.api_key k, c.keyed k b));
  named = λ i b. rw lookup-insert (ground (arith, eq_iff a.agent_id i, c.named i b));
  nodup = insert-NodupKeys a.agent_id a r.by_id c.nodup;
}

pub add_all-IsConsistent :
    (agents : List Agent) (r : Registry) → IsConsistent r → IsConsistent (add_all agents r)
unfolding add_all
add_all-IsConsistent [] r c = c
add_all-IsConsistent (a ∷ agents) r c =
    add_all-IsConsistent agents (add a r) (add-IsConsistent a r c)

erased-IsConsistent :
    (k i : String) (r : Registry)
    → IsConsistent r
    → IsConsistent (record { by_key = erase k r.by_key; by_id = erase i r.by_id })
erased-IsConsistent k i r c = record {
  keyed = λ j b. rw lookup-erase (ground (arith, c.keyed j b));
  named = λ j b. rw lookup-erase (ground (arith, c.named j b));
  nodup = erase-NodupKeys i r.by_id c.nodup;
}

remove-found :
    (id : String) (r : Registry) (a : Agent)
    → lookup id r.by_id ≡ some a
    → remove id r ≡ (record { by_key = erase a.api_key r.by_key; by_id = erase id r.by_id }, true)
unfolding remove
remove-found id r a known = rw (known, remove)

pub remove-IsConsistent :
    (id : String) (r : Registry) → IsConsistent r → IsConsistent (remove id r).0
unfolding remove
remove-IsConsistent id r c = elim (Option-cases (lookup id r.by_id)) [
  | inl unknown ↦ rw (unknown, remove) c
  | inr (a, known) ↦ rw (known, remove) (erased-IsConsistent a.api_key id r c)
]

load-IsConsistent :
    (file : ReadResult (List Agent)) (r : Registry) → IsConsistent r → IsConsistent (load file r).0
unfolding load
load-IsConsistent not_exist r c = empty-IsConsistent
load-IsConsistent unreadable r c = c
load-IsConsistent malformed r c = c
load-IsConsistent (parsed agents) r c =
    unfold add_all in add_all-IsConsistent agents empty empty-IsConsistent

-- Every operation keeps the registry consistent: each agent stands under its own key and its own id.
pub registry-IsConsistent :
    (file : ReadResult (List Agent)) (a : Agent) (id : String) (r : Registry)
    → IsConsistent r
    → IsConsistent (load file r).0 × IsConsistent (add a r) × IsConsistent (remove id r).0
unfolding load
registry-IsConsistent file a id r c =
    (load-IsConsistent file r c, add-IsConsistent a r c, remove-IsConsistent id r c)

-- The agent that a key finds, after `Add`: the added one under its key, if it is active.
pub lookup_by_key-add :
    (a : Agent) (k : String) (r : Registry)
    → lookup_by_key k (add a r) ≡ (
        if a.api_key == k
        then (if a.status == "active" then some a else none)
        else lookup_by_key k r)
unfolding lookup_by_key add
lookup_by_key-add a k r = rw lookup-insert (ground arith)

pub lookup_by_id-add :
    (a : Agent) (i : String) (r : Registry)
    → lookup_by_id i (add a r) ≡ (if a.agent_id == i then some a else lookup_by_id i r)
unfolding lookup_by_id add
lookup_by_id-add a i r = lookup-insert a.agent_id i a r.by_id

-- Only an active agent is found by its key, and it is the one with that key.
pub lookup_by_key-active :
    (k : String) (r : Registry) (a : Agent)
    → IsConsistent r
    → lookup_by_key k r ≡ some a
    → (a.status ≡ "active") × (a.api_key ≡ k)
unfolding lookup_by_key
lookup_by_key-active k r a c h = grind (arith, c.keyed, eq_iff)

-- `Remove` of a known id reports true and makes the id and the agent's current key unknown; every
-- other id and every other key finds what it found before.
pub remove_lem :
    (id : String) (r : Registry) (a : Agent) (i k : String)
    → lookup_by_id id r ≡ some a
    → ((remove id r).1 ≡ true)
      × (lookup_by_id i (remove id r).0 ≡ (if id == i then none else lookup_by_id i r))
      × (lookup_by_key k (remove id r).0 ≡ (if a.api_key == k then none else lookup_by_key k r))
unfolding lookup_by_id
remove_lem id r a i k known =
    rw (remove-found id r a known)
      (refl, lookup-erase id i r.by_id, unfold lookup_by_key in rw lookup-erase (ground arith))

-- A key that an agent had before it was given another still authenticates: after `Add` of a new
-- record with the same id and another key the old key finds the old record, and it does so even
-- after `Remove` of that id.
pub old_key_survives :
    (a b : Agent) (r : Registry)
    → a.agent_id ≡ b.agent_id
    → a.api_key ≢ b.api_key
    → a.status ≡ "active"
    → (lookup_by_key a.api_key (add b (add a r)) ≡ some a)
      × (lookup_by_key a.api_key (remove b.agent_id (add b (add a r))).0 ≡ some a)
old_key_survives a b r same other active =
    let found : lookup_by_key a.api_key (add b (add a r)) ≡ some a = ground (
      arith,
      lookup_by_key-add b a.api_key (add a r),
      lookup_by_key-add a a.api_key r,
      eq_iff b.api_key a.api_key,
      eq_refl a.api_key,
      eq_iff a.status "active",
    ) in
    let named : lookup_by_id b.agent_id (add b (add a r)) ≡ some b =
      lookup_by_id-add b b.agent_id (add a r) ∙ rw (eq_refl b.agent_id) in
    let removed = remove_lem b.agent_id (add b (add a r)) b a.api_key a.api_key named in
    (found, ground (arith, removed.2, found, eq_iff b.api_key a.api_key))
