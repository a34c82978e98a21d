-- ===== src/Admin/Commit/Applied.antt =====
-- When the plan of a commit over the API makes calls of the system.
use crispy_garbanzo.Base.{
  String, Option, none, some, List, [], ◌==◌, if◌then◌else◌, ◌≡◌, ◌≢◌, ◌⊎◌, inl, inr, refl, sym,
  ◌∙◌,
}
use crispy_garbanzo.Opmode.Revisions
use crispy_garbanzo.Opmode.Revisions.{Revision, Store, Error, Result, ok, err}
use crispy_garbanzo.Opmode.Store.{StateView, commit, state}
use crispy_garbanzo.Opmode.Store.Commit.{Outcome, commit-Outcome}
use crispy_garbanzo.Enforcer.Interfaces.{Operation}
use crispy_garbanzo.Enforcer.Plan.{build_ops_plan}
use crispy_garbanzo.Enforcer.Execution
use crispy_garbanzo.Enforcer.Execution.{Mode, dry_run, apply, invalid, Call, execute_in, plan_lines}
use crispy_garbanzo.Admin.Commit.{
  Body, World, Appliance, effective_mode, plan_step, state_step, commit_step, handle_commit,
}
use crispy_garbanzo.Admin.Commit.Rules.{nft_step-Same, after_plan-Same}

-- what the calls may be after a commit step
abbrev pub OnlyApplied : World → Body → Appliance → Appliance → Type 0
OnlyApplied w b a a' =
    (a'.calls ≡ a.calls) ⊎ ((effective_mode w b ≡ apply) × (a.store.staged.file ≢ none))

execute_in-idle :
    (sys : Execution.System) (plan : List Operation) (m : Mode) (calls : List Call)
    → ((execute_in sys plan m calls).0 ≡ calls) ⊎ (m ≡ apply)
unfolding execute_in
execute_in-idle sys plan dry_run calls = inl refl
execute_in-idle sys plan apply calls = inr refl
execute_in-idle sys plan invalid calls = inl refl

module _ (w : World) (b : Body) (a : Appliance) (was : a.store.staged.file ≢ none) where
  plan_step-OnlyApplied :
      (r : Revisions.Response) (s : Store) (active : Option Revision)
      → OnlyApplied w b a (plan_step w b r active (record a { store = s })).0
  unfolding plan_step
  plan_step-OnlyApplied r s none = inl (nft_step-Same w r [] none (record a { store = s })).1
  plan_step-OnlyApplied r s (some rev) =
      let plan = build_ops_plan rev.changes in
      let out = execute_in w.ops_system plan (effective_mode w b) a.calls in
      let kept = (after_plan-Same w r plan rev out.2 (record a { store = s; calls = out.0 })).1 in
      elim (execute_in-idle w.ops_system plan (effective_mode w b) a.calls) [
        | inl idle ↦ inl (kept ∙ idle)
        | inr applies ↦ inr (applies, was)
      ]

  state_step-OnlyApplied :
      (r : Revisions.Response) (s : Store) (seen : Result StateView)
      → OnlyApplied w b a (state_step w b r seen (record a { store = s })).0
  unfolding state_step
  state_step-OnlyApplied r s (err e) = inl refl
  state_step-OnlyApplied r s (ok view) = plan_step-OnlyApplied r s view.active

some_ne_none : {rev : Revision} → some rev ≢ none
some_ne_none h = cc

commit_step-OnlyApplied :
    (w : World) (b : Body) (a : Appliance) (actor : String)
    (out : Store × Result Revisions.Response)
    → Outcome w.store_system actor b.expected_revision_id a.store out
    → OnlyApplied w b a (commit_step w b out a).0
unfolding commit_step
commit_step-OnlyApplied w b a actor (s, err e) o = inl refl
commit_step-OnlyApplied w b a actor (s, ok r) o =
    state_step-OnlyApplied w b a (λ none_staged. some_ne_none (sym o.was_staged ∙ none_staged)) r
      (w.between s) (state w.state_reads (w.between s))

-- Whatever the answer: the plan of a commit over the API makes no call of the system unless a revision was
-- staged and the mode is "apply".
pub handle_commit-OnlyApplied :
    (w : World) (b : Body) (a : Appliance) → OnlyApplied w b a (handle_commit w (some b) a).0
unfolding handle_commit
handle_commit-OnlyApplied w b a =
    let actor = if b.actor == "" then "unknown" else b.actor in
    commit_step-OnlyApplied w b a actor (commit w.store_system actor b.expected_revision_id a.store)
      (commit-Outcome w.store_system actor b.expected_revision_id a.store)
