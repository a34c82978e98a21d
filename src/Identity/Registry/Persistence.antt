-- ===== src/Identity/Registry/Persistence.antt =====
-- The registry through its file: what a save followed by a load keeps and what it drops.
use crispy_garbanzo.Base.{
  String, Option, none, some, List, [], ◌∷◌, ◌≡◌, ◌≢◌, ◌==◌, ◌∙◌, refl, sym, ap, Bool-cases,
  Any-const, All, insert, arith, eq_iff, eq_refl, Dict, lookup, values, NodupKeys, lookup-insert,
  lookup-nil, Any, ◌⊎◌, inl, inr, parsed, Disk, Faults, read_back,
}
use crispy_garbanzo.Identity.Registry.{
  Agent, Registry, add, add_all, empty, all_agents, lookup_by_key, lookup_by_id, load, save,
  active_only,
}
use crispy_garbanzo.Identity.Registry.Lookup.{IsConsistent}

abbrev or_else : Option Agent → Option Agent → Option Agent
or_else none o = o
or_else (some a) o = some a

-- every entry stands under its agent's id
abbrev Named : Dict Agent → Type 0
Named [] = Unit
Named ((i, a) ∷ m) = (a.agent_id ≡ i) × Named m

-- adding the values of a map of agents by id puts the map in front
by_id-add_all :
    (m : Dict Agent) (j : String) (r : Registry)
    → NodupKeys m
    → Named m
    → lookup j (add_all (values m) r).by_id ≡ or_else (lookup j m) (lookup j r.by_id)
unfolding add_all lookup
by_id-add_all [] j r u n = refl
by_id-add_all ((i, a) ∷ m) j r (fresh, u) (e, n) =
    by_id-add_all m j (add a r) u n
    ∙ ground (arith, lookup-insert a.agent_id j a r.by_id, eq_iff a.agent_id j, eq_iff i j)

lookup-skip :
    (i : String) (a : Agent) (m : Dict Agent) (j : String) (b : Agent)
    → lookup i m ≡ none
    → lookup j m ≡ some b
    → lookup j ((i, a) ∷ m) ≡ some b
unfolding lookup
lookup-skip i a m j b fresh h = ground (arith, eq_iff i j)

Named-values :
    (m : Dict Agent)
    → NodupKeys m
    → ((i : String) (a : Agent) → lookup i m ≡ some a → a.agent_id ≡ i)
    → Named m
Named-values [] u h = tt
Named-values ((i, a) ∷ m) (fresh, u) h = (
  h i a (unfold lookup in rw (eq_refl i)),
  Named-values m u (λ j b e. h j b (lookup-skip i a m j b fresh e)),
)

abbrev status_of : Option Agent → String
status_of none = ""
status_of (some a) = a.status

not_inserted :
    (i k : String) (a : Agent) (m : Dict Agent)
    → lookup k (insert i a m) ≡ none
    → (i ≢ k) × (lookup k m ≡ none)
not_inserted i k a m h = ground (arith, lookup-insert i k a m, eq_iff i k)

-- a key that is found after adding agents belongs to an added one
by_key-add_all :
    (agents : List Agent) (k : String) (a : Agent) (r : Registry)
    → lookup k (add_all agents r).by_key ≡ some a
    → Any (λ b. (b ≡ a) × (b.api_key ≡ k)) agents ⊎ (lookup k r.by_key ≡ some a)
unfolding add_all
by_key-add_all [] k a r h = inr h
by_key-add_all (b ∷ agents) k a r h = elim (by_key-add_all agents k a (add b r) h) [
  | inl later ↦ inl (inr later)
  | inr now ↦ ground (arith, lookup-insert b.api_key k b r.by_key, eq_iff b.api_key k)
]

member-lookup :
    (m : Dict Agent) (k : String) (a : Agent)
    → NodupKeys m
    → Named m
    → Any (λ b. (b ≡ a) × (b.api_key ≡ k)) (values m)
    → lookup a.agent_id m ≡ some a
unfolding lookup
member-lookup [] k a u n h = absurd h
member-lookup ((i, b) ∷ m) k a (fresh, u) (e, n) (inl (same, _)) =
    ground (arith, eq_iff i a.agent_id, ap (λ (x : Agent). x.agent_id) same)
member-lookup ((i, b) ∷ m) k a (fresh, u) (e, n) (inr later) =
    ground (arith, eq_iff i a.agent_id, member-lookup m k a u n later)

or_none : (o : Option Agent) → or_else o none ≡ o
or_none none = refl
or_none (some a) = refl

active_found :
    (o : Option Agent) (a : Agent) → active_only o ≡ some a → (o ≡ some a) × (a.status ≡ "active")
unfolding active_only
active_found none a h = cc
active_found (some b) a h = elim (Bool-cases (b.status == "active")) [
  | inl active ↦
      let same : some b ≡ some a = rw active at h in
      (same, ap (λ (x : Option Agent). status_of x) (sym same) ∙ (eq_iff _ _).0 active)
  | inr inactive ↦ let bad : none ≡ some a = rw inactive at h in cc
]

active_missed :
    (o : Option Agent)
    → active_only o ≡ none
    → (o ≡ none) ⊎ ((a : Agent) × (o ≡ some a) × (a.status ≢ "active"))
unfolding active_only
active_missed none h = inl refl
active_missed (some b) h =
    inr (b, refl, λ e. let i = (eq_iff b.status "active").1 e in ground arith)

-- no agent whose key finds nothing after adding agents is among them
by_key-none :
    (agents : List Agent) (k : String) (r : Registry)
    → lookup k (add_all agents r).by_key ≡ none
    → All (λ (a : Agent). a.api_key ≢ k) agents × (lookup k r.by_key ≡ none)
unfolding add_all
by_key-none [] k r h = (tt, h)
by_key-none (b ∷ agents) k r h =
    let (later, now) = by_key-none agents k (add b r) h in
    let (other, before) = not_inserted b.api_key k b r.by_key now in ((other, later), before)

key_of :
    (agents : List Agent) (k : String) (a : Agent)
    → Any (λ b. (b ≡ a) × (b.api_key ≡ k)) agents
    → a.api_key ≡ k
key_of agents k a =
    Any-const {P = λ (b : Agent). (b ≡ a) × (b.api_key ≡ k)}
      (λ (b : Agent) (same, key). ap (λ (x : Agent). x.api_key) (sym same) ∙ key) agents

nil_finds : (k : String) (a : Agent) → ¬ (lookup k [] ≡ some a)
unfolding lookup
nil_finds k a h = cc

saved_file :
    (f : Faults (List Agent)) (d : Disk (List Agent)) (r : Registry)
    → (save f r d).1 ≡ none
    → read_back (save f r d).0 ≡ parsed (all_agents r)
unfolding save read_back
saved_file f d r h = ground arith

module _ (r : Registry) (c : IsConsistent r) where
  abbrev reloaded : Registry
  reloaded = add_all (all_agents r) empty

  named : Named r.by_id
  named = Named-values r.by_id c.nodup c.named

  reloaded-by_id : (i : String) → lookup_by_id i reloaded ≡ lookup_by_id i r
  unfolding lookup_by_id all_agents
  reloaded-by_id i =
      by_id-add_all r.by_id i empty c.nodup named ∙ rw lookup-nil (or_none (lookup i r.by_id))

  -- the agent that the map of keys has for a key is registered, with this key
  reloaded-by_key :
      (k : String) (a : Agent)
      → lookup k reloaded.by_key ≡ some a
      → (lookup_by_id a.agent_id r ≡ some a) × (a.api_key ≡ k)
  unfolding lookup_by_id all_agents
  reloaded-by_key k a h = elim (by_key-add_all (all_agents r) k a empty h) [
    | inl member ↦
        (member-lookup r.by_id k a c.nodup named member, key_of (all_agents r) k a member)
    | inr nothing ↦ absurd (nil_finds k a nothing)
  ]

-- What a key finds after a reload: an active agent that is registered under its own id, with this key;
-- or nothing, where no registered agent has this key or one with this key is not active.
abbrev pub FindsRegistered : String → Option Agent → Registry → Type 0
FindsRegistered k none r =
    All (λ (a : Agent). a.api_key ≢ k) (all_agents r)
    ⊎ ((a : Agent) × (lookup_by_id a.agent_id r ≡ some a) × (a.api_key ≡ k) × (a.status ≢ "active"))
FindsRegistered k (some a) r =
    (lookup_by_id a.agent_id r ≡ some a) × (a.api_key ≡ k) × (a.status ≡ "active")

reloaded-FindsRegistered :
    (r : Registry) (c : IsConsistent r) (k : String) (found : Option Agent)
    → lookup_by_key k (reloaded r c) ≡ found
    → FindsRegistered k found r
unfolding lookup_by_key
reloaded-FindsRegistered r c k none e = elim (active_missed _ e) [
  | inl missing ↦ inl (by_key-none (all_agents r) k empty missing).0
  | inr (a, found, inactive) ↦
      let (registered, key) = reloaded-by_key r c k a found in inr (a, registered, key, inactive)
]
reloaded-FindsRegistered r c k (some a) e =
    let (found, active) = active_found _ a e in
    let (registered, key) = reloaded-by_key r c k a found in (registered, key, active)

-- After a save that reports no error, a load from the disk gives a registry with the same agents by
-- id. A key then finds an active agent that was registered under its own id, and whose key it is: keys
-- that were replaced before the save are gone. It finds nothing only if no registered agent has this
-- key, or a registered agent with this key is not active.
pub load-save_agents :
    (f : Faults (List Agent)) (d : Disk (List Agent)) (r old : Registry) (i k : String)
    → IsConsistent r
    → (save f r d).1 ≡ none
    → (lookup_by_id i (load (read_back (save f r d).0) old).0 ≡ lookup_by_id i r)
      × FindsRegistered k (lookup_by_key k (load (read_back (save f r d).0) old).0) r
load-save_agents f d r old i k c saved = rw (saved_file f d r saved) (
    unfold load in
    (reloaded-by_id r c i, reloaded-FindsRegistered r c k (lookup_by_key k (reloaded r c)) refl))
