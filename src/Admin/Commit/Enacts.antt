-- ===== src/Admin/Commit/Enacts.antt =====
-- When a commit over the API changes the system, and how.
use crispy_garbanzo.Base.{
  String, Bool, true, false, Option, none, some, List, [], ◌++◌, ◌==◌, if◌then◌else◌, ◌≡◌, ◌≢◌, ◌⊎◌,
  inl, inr, refl, sym, ap, ◌∙◌, subst, arith, ReadResult, not_exist, unreadable, malformed, parsed,
}
use crispy_garbanzo.Opmode.Revisions
use crispy_garbanzo.Opmode.Revisions.{Revision, Store, Error, Result, ok, err}
use crispy_garbanzo.Opmode.Store.{
  StateView, StateReads, read_or_nil, commit, state, view_of, state_read, read_commit_history,
}
use crispy_garbanzo.Opmode.Store.Commit.{Outcome, commit-Outcome}
use crispy_garbanzo.Enforcer.Interfaces.{Operation}
use crispy_garbanzo.Enforcer.Plan.{build_ops_plan}
use crispy_garbanzo.Enforcer.Execution
use crispy_garbanzo.Enforcer.Execution.{Mode, dry_run, apply, invalid, Call, execute_in, plan_lines}
use crispy_garbanzo.Enforcer.Execution.Run.{calls_of, requests, execute_in-calls}
use crispy_garbanzo.Admin.Commit.{
  Body, World, Appliance, Reply, effective_mode, plan_step, state_step, commit_step, handle_commit,
  error_status,
}
use crispy_garbanzo.Admin.Commit.Rules.{Ruled, nft_step-none, nft_step-Same, after_plan-200}

-- the calls of a run without an error, for its mode
abbrev pub Made : Mode → List Call → List Operation → List Call → Type 0
Made dry_run calls plan calls' = calls' ≡ calls
Made apply calls plan calls' = calls' ≡ calls ++ calls_of (requests (plan_lines plan))
Made invalid calls plan calls' = calls' ≡ calls

-- the revision that active.json has when the state is read: its plan was run and its rules were loaded
pub record Carried (w : World) (b : Body) (a a' : Appliance) (r : Reply) (seen : Revision)
    : Type 0 where
  pub readable : w.state_reads.active_readable ≡ true
  pub active : a'.store.active.file ≡ some seen
  pub planned : r.plan ≡ build_ops_plan seen.changes
  pub made : Made (effective_mode w b) a.calls (build_ops_plan seen.changes) a'.calls
  pub ruled : Ruled w seen a.kernel a'.kernel

-- no active revision was read: nothing was planned, called or loaded
pub record Skipped (w : World) (a a' : Appliance) (r : Reply) : Type 0 where
  pub unread : (w.state_reads.active_readable ≡ false) ⊎ (a'.store.active.file ≡ none)
  pub unplanned : r.plan ≡ []
  pub uncalled : a'.calls ≡ a.calls
  pub unruled : (w.nft_apply ≡ false) × (a'.kernel ≡ a.kernel)

-- What an answer with 200 says: a revision was staged and was made active, in the store that the other
-- requests then found; and the active revision of the store that they left was carried out or not read.
pub record Enacted (w : World) (b : Body) (a : Appliance) (a' : Appliance) (r : Reply)
    : Type 0 where
  pub rev : Revision
  pub was_staged : a.store.staged.file ≡ some rev
  pub committed : Store
  pub activated : committed.active.file ≡ some rev
  pub left : a'.store ≡ w.between committed
  pub enacted : ((seen : Revision) × Carried w b a a' r seen) ⊎ Skipped w a a' r

executed-Made :
    (sys : Execution.System) (plan : List Operation) (m : Mode) (calls : List Call)
    → sys.mock ≡ false
    → (execute_in sys plan m calls).2 ≡ none
    → Made m calls plan (execute_in sys plan m calls).0
unfolding execute_in
executed-Made sys plan dry_run calls mock h = refl
executed-Made sys plan apply calls mock h =
    unfold execute_in in execute_in-calls sys plan calls mock h
executed-Made sys plan invalid calls mock h = refl

error_status-not_200 : (e : Error) → error_status e ≢ 200
unfolding error_status
error_status-not_200 Revisions.no_staged_revision h = omega arith
error_status-not_200 Revisions.revision_mismatch h = omega arith
error_status-not_200 Revisions.no_random_id h = omega arith
error_status-not_200 Revisions.remove_failed h = omega arith
error_status-not_200 (Revisions.io e) h = omega arith

ok-injective : {x y : StateView} → ok x ≡ ok y → x ≡ y
ok-injective h = cc

state_read-active :
    (reads : StateReads) (s : Store) (found : ReadResult (List Revisions.CommitRecord))
    (view : StateView)
    → state_read reads s found ≡ ok view
    → view.active ≡ read_or_nil reads.active_readable s.active.file
unfolding state_read view_of
state_read-active reads s not_exist view h = ap (λ (x : StateView). x.active) (ok-injective (sym h))
state_read-active reads s unreadable view h = cc
state_read-active reads s malformed view h = cc
state_read-active reads s (parsed commits) view h =
    ap (λ (x : StateView). x.active) (ok-injective (sym h))

state-active :
    (reads : StateReads) (s : Store) (view : StateView)
    → state reads s ≡ ok view
    → view.active ≡ read_or_nil reads.active_readable s.active.file
unfolding state
state-active reads s view h = state_read-active reads s (read_commit_history s.commits) view h

read-none :
    (readable : Bool) (file : Option Revision)
    → none ≡ read_or_nil readable file
    → (readable ≡ false) ⊎ (file ≡ none)
unfolding read_or_nil
read-none true file e = inr (sym e)
read-none false file e = inl refl

read-some :
    (readable : Bool) (file : Option Revision) (rev : Revision)
    → some rev ≡ read_or_nil readable file
    → (readable ≡ true) × (file ≡ some rev)
unfolding read_or_nil
read-some true file rev e = (refl, sym e)
read-some false file rev e = cc

module _ (w : World) (b : Body) (a : Appliance) (mock : w.ops_system.mock ≡ false) where
  abbrev EnactedHere : Appliance → Reply → Type 0
  EnactedHere a' r = ((seen : Revision) × Carried w b a a' r seen) ⊎ Skipped w a a' r

  plan_step-Enacted :
      (r : Revisions.Response) (s : Store) (active : Option Revision)
      → active ≡ read_or_nil w.state_reads.active_readable s.active.file
      → (plan_step w b r active (record a { store = s })).1.status ≡ 200
      → ((plan_step w b r active (record a { store = s })).0.store ≡ s)
        × EnactedHere
            (plan_step w b r active (record a { store = s })).0
            (plan_step w b r active (record a { store = s })).1
  unfolding plan_step
  plan_step-Enacted r s none e h =
      let (stored, kept, planned) = nft_step-Same w r [] none (record a { store = s }) in
      (
        stored,
        inr (record {
          unread = elim (read-none _ _ e) [
            | inl unreadable' ↦ inl unreadable'
            | inr missing ↦ inr (ap (λ (x : Store). x.active.file) stored ∙ missing)
          ];
          unplanned = planned;
          uncalled = kept;
          unruled = nft_step-none w r [] (record a { store = s }) h;
        }),
      )
  plan_step-Enacted r s (some active) e h =
      let plan = build_ops_plan active.changes in
      let out = execute_in w.ops_system plan (effective_mode w b) a.calls in
      let (fine, (stored, kept, planned), ruled) =
        after_plan-200 w r plan active out.2 (record a { store = s; calls = out.0 }) h in
      let (readable, file) = read-some _ _ active e in
      (
        stored,
        inl (
          active,
          record {
            readable = readable;
            active = ap (λ (x : Store). x.active.file) stored ∙ file;
            planned = planned;
            made =
                subst (Made (effective_mode w b) a.calls plan) (sym kept)
                  (executed-Made w.ops_system plan (effective_mode w b) a.calls mock fine);
            ruled = ruled;
          },
        ),
      )

  state_step-Enacted :
      (r : Revisions.Response) (s : Store) (seen : Result StateView)
      → state w.state_reads s ≡ seen
      → (state_step w b r seen (record a { store = s })).1.status ≡ 200
      → ((state_step w b r seen (record a { store = s })).0.store ≡ s)
        × EnactedHere
            (state_step w b r seen (record a { store = s })).0
            (state_step w b r seen (record a { store = s })).1
  unfolding state_step
  state_step-Enacted r s (err e) found h = let bad : ⊥ = omega arith in absurd bad
  state_step-Enacted r s (ok view) found h =
      plan_step-Enacted r s view.active (state-active w.state_reads s view found) h

  commit_step-Enacted :
      (actor : String) (out : Store × Result Revisions.Response)
      → Outcome w.store_system actor b.expected_revision_id a.store out
      → (commit_step w b out a).1.status ≡ 200
      → Enacted w b a (commit_step w b out a).0 (commit_step w b out a).1
  unfolding commit_step
  commit_step-Enacted actor (s, err e) o h = absurd (error_status-not_200 e h)
  commit_step-Enacted actor (s, ok r) o h =
      let (stored, enacted) =
        state_step-Enacted r (w.between s) (state w.state_reads (w.between s)) refl h in
      record {
        rev = o.rev;
        was_staged = o.was_staged;
        committed = s;
        activated = o.now_active;
        left = stored;
        enacted = enacted;
      }

-- A commit over the API that is answered with 200 has made a revision that was staged the active one.
-- Other requests may then change the store; of the revision that is active when the state is read, the
-- answer has the plan, the plan was carried out with exactly its calls, in order, in the mode "apply" and
-- with none otherwise, without the mock of the tests, and in every mode each table of nftables was loaded
-- with its rules, behind those it had only if its delete failed, unless the loading of rules is switched
-- off. If the read of active.json fails or finds no file, then nothing is planned, called or loaded, and
-- the loading of rules is switched off.
pub handle_commit-Enacted :
    (w : World) (b : Body) (a : Appliance)
    → w.ops_system.mock ≡ false
    → (handle_commit w (some b) a).1.status ≡ 200
    → Enacted w b a (handle_commit w (some b) a).0 (handle_commit w (some b) a).1
unfolding handle_commit
handle_commit-Enacted w b a mock h =
    let actor = if b.actor == "" then "unknown" else b.actor in
    commit_step-Enacted w b a mock actor
      (commit w.store_system actor b.expected_revision_id a.store)
      (commit-Outcome w.store_system actor b.expected_revision_id a.store) h
