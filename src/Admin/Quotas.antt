-- ===== src/Admin/Quotas.antt =====
-- cmd/clawgress-admin-api/main.go: "/v1/quotas", over the limiter.

use crispy_garbanzo.Base.{
  String, false, ◌&&◌, not, Option, none, ◌==◌, if◌then◌else◌, ◌≡◌, ◌∙◌, eq_refl, arith, eqb,
  Option-cases, inl, inr, lookup, lookup-erase, not_exist,
}
use crispy_garbanzo.Quota.Limiter.{Limit, Limiter, all_limits, lookup_by_id, set, remove, with_mode}
use crispy_garbanzo.Quota.Limiter.Laws.{IsPaired, set_lem, limiter-IsPaired}
use crispy_garbanzo.Admin.Resource.{
  Checked, valid, rejected, Resource, Method, Target, Service, System, serve,
}
use crispy_garbanzo.Admin.Resource.Laws.{IsResource, Effect, serve-Effect}

-- a limit is no negative number here
unfoldable pub check_limit : Limit → Checked Limit
check_limit lim =
    if lim.agent_id == ""
    then rejected "agent_id is required"
    else if eqb lim.rps 0 && eqb lim.rpm 0
    then rejected "at least one of rps or rpm must be > 0"
    else if not (lim.mode == "") && not (lim.mode == "hard_stop") && not (lim.mode == "alert_only")
    then rejected "mode must be 'hard_stop' or 'alert_only'"
    else valid lim

abbrev pub quotas : Resource Limiter Limit
quotas = record {
  all = all_limits;
  find = lookup_by_id;
  put = set;
  delete = remove;
  check = check_limit;
  label = "quota not found";
  key = λ a. a.agent_id;
  stored = with_mode;
}

lookup_by_id-removed : (id : String) (l : Limiter) → lookup_by_id id (remove id l).0 ≡ none
unfolding lookup_by_id remove
lookup_by_id-removed id l = elim (Option-cases (lookup id l.limits)) [
  | inl unknown ↦ rw (unknown, remove) unknown
  | inr (lim, known) ↦ rw (known, remove) (lookup-erase id id l.limits ∙ rw (eq_refl id))
]

remove-missing : (id : String) (l : Limiter) → (remove id l).1 ≡ false → (remove id l).0 ≡ l
unfolding remove
remove-missing id l h = ground arith

quotas-IsResource : IsResource quotas IsPaired
quotas-IsResource = record {
  find-put = λ now lim l. (set_lem now lim l lim.agent_id).0 ∙ rw (eq_refl lim.agent_id);
  find-delete = λ id l p. lookup_by_id-removed id l;
  delete-missing = remove-missing;
  put-Inv = λ now lim l p. (limiter-IsPaired now not_exist lim "" l p).1;
  delete-Inv = λ id l p.
      (limiter-IsPaired 0 not_exist (record { agent_id = ""; rps = 0; rpm = 0; mode = "" }) id l
        p).2;
}

-- Whatever a request to the quotas asks and the disk does, on a limiter whose limits and buckets belong
-- together: a limit is answered as created, or an id as deleted, only if the limiter finds the limit,
-- with its mode filled in, or not the id any more, the file holds exactly the limiter's limits, and the
-- gateway was told to reload; a failure leaves the file and the gateway alone, and the limiter too
-- unless the answer is 500; reading changes nothing; and limits and buckets stay together.
pub serve-quotas :
    (sys : System Limit) (m : Method) (t : Target) (body : Option Limit) (s : Service Limiter Limit)
    → IsPaired s.content
    → Effect quotas IsPaired s (serve quotas sys m t body s)
serve-quotas = serve-Effect quotas IsPaired quotas-IsResource
