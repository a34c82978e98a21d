-- ===== src/Admin/Agents.antt =====
-- cmd/clawgress-admin-api/main.go: "/v1/agents", over the registry of agents.
use crispy_garbanzo.Base.{
  String, false, ◌||◌, Option, none, ◌==◌, if◌then◌else◌, ◌≡◌, ◌∙◌, sym, ap, eq_refl, Option-cases,
  inl, inr,
}
use mathlib.Core.Bool.{false≢true}
use crispy_garbanzo.Identity.Registry.{Agent, Registry, add, remove, all_agents, lookup_by_id}
use crispy_garbanzo.Identity.Registry.Lookup.{
  IsConsistent, add-IsConsistent, remove-IsConsistent, lookup_by_id-add, remove_lem,
}
use crispy_garbanzo.Admin.Resource.{
  Checked, valid, rejected, Resource, Method, Target, Service, System, serve,
}
use crispy_garbanzo.Admin.Resource.Laws.{IsResource, Effect, serve-Effect}

unfoldable pub check_agent : Agent → Checked Agent
check_agent a =
    if a.agent_id == "" || a.api_key == ""
    then rejected "agent_id and api_key are required"
    else if a.status == ""
    then valid (record a { status = "active" })
    else valid a

abbrev pub agents : Resource Registry Agent
agents = record {
  all = all_agents;
  find = lookup_by_id;
  put = λ now a r. add a r;
  delete = remove;
  check = check_agent;
  label = "agent not found";
  key = λ a. a.agent_id;
  stored = λ a. a;
}

remove-unknown : (id : String) (r : Registry) → lookup_by_id id r ≡ none → remove id r ≡ (r, false)
unfolding lookup_by_id remove
remove-unknown id r h = rw (h, remove)

lookup_by_id-removed : (id : String) (r : Registry) → lookup_by_id id (remove id r).0 ≡ none
lookup_by_id-removed id r = elim (Option-cases (lookup_by_id id r)) [
  | inl unknown ↦ ap (λ t. lookup_by_id id t.0) (remove-unknown id r unknown) ∙ unknown
  | inr (a, known) ↦
      let (_, by_id, _) = remove_lem id r a id a.api_key known in by_id ∙ rw (eq_refl id)
]

remove-missing : (id : String) (r : Registry) → (remove id r).1 ≡ false → (remove id r).0 ≡ r
remove-missing id r h = elim (Option-cases (lookup_by_id id r)) [
  | inl unknown ↦ ap (λ t. t.0) (remove-unknown id r unknown)
  | inr (a, known) ↦
      let (reported, _, _) = remove_lem id r a id a.api_key known in
      absurd (false≢true (sym h ∙ reported))
]

agents-IsResource : IsResource agents IsConsistent
agents-IsResource = record {
  find-put = λ now a r. lookup_by_id-add a a.agent_id r ∙ rw (eq_refl a.agent_id);
  find-delete = λ id r c. lookup_by_id-removed id r;
  delete-missing = remove-missing;
  put-Inv = λ now a r c. add-IsConsistent a r c;
  delete-Inv = λ id r c. remove-IsConsistent id r c;
}

-- Whatever a request to the agents asks and the disk does, on a consistent registry: an agent is
-- answered as created, or an id as deleted, only if the registry finds the agent, or not the id any
-- more, the file holds exactly the registry's agents, and the gateway was told to reload; a failure
-- leaves the file and the gateway alone, and the registry too unless the answer is 500; reading changes
-- nothing; and the registry stays consistent.
pub serve-agents :
    (sys : System Agent) (m : Method) (t : Target) (body : Option Agent)
    (s : Service Registry Agent)
    → IsConsistent s.content
    → Effect agents IsConsistent s (serve agents sys m t body s)
serve-agents = serve-Effect agents IsConsistent agents-IsResource
