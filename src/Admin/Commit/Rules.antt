-- ===== src/Admin/Commit/Rules.antt =====
-- What the last step of a commit over the API, the rules of nftables, changes and leaves alone.
use crispy_garbanzo.Base.{
  String, Bool-cases, true, false, Option, none, some, List, ◌≡◌, ◌⊎◌, inl, inr, refl, sym, ap, ◌∙◌,
  subst, arith,
}
use crispy_garbanzo.Opmode.Revisions
use crispy_garbanzo.Opmode.Revisions.{Revision, Store, Error, Result, ok, err}
use crispy_garbanzo.Enforcer.Interfaces.{Operation}
use crispy_garbanzo.Enforcer.Nftables.{
  Kernel, ApplyResult, no_directory, not_written, rendered, applied, nft_refused, apply_nftables,
  load_rules, render_rules,
}
use mathlib.Core.Bool.{false≢true}
use crispy_garbanzo.Enforcer.Nftables.Loaded.{Reloaded, apply_nftables-Application}
use crispy_garbanzo.Admin.Commit.{World, Appliance, Reply, nft_reply, nft_step, after_plan}

-- what an answer with 200 did to the tables of nftables: each has the rules of this revision alone, or
-- behind those it had if its delete failed, unless the loading of rules is switched off
abbrev pub Ruled : World → Revision → Kernel → Kernel → Type 0
Ruled w rev k k' =
    ((w.nft_apply ≡ true)
      × (k'.rules_file ≡ some (render_rules rev.changes))
      × Reloaded w.nft_system.inet_deleted k.inet_files (render_rules rev.changes) k'.inet_files
      × Reloaded w.nft_system.nat_deleted k.nat_files (render_rules rev.changes) k'.nat_files)
    ⊎ ((w.nft_apply ≡ false) × (k' ≡ k))

-- what the last step leaves alone
abbrev pub Same : List Operation → Appliance → Appliance × Reply → Type 0
Same plan a out = (out.0.store ≡ a.store) × (out.0.calls ≡ a.calls) × (out.1.plan ≡ plan)

nft_reply-Same :
    (r : Revisions.Response) (plan : List Operation) (out : Kernel × ApplyResult) (a : Appliance)
    → Same plan a (nft_reply r plan out a)
unfolding nft_reply
nft_reply-Same r plan (k, applied) a = (refl, refl, refl)
nft_reply-Same r plan (k, rendered) a = (refl, refl, refl)
nft_reply-Same r plan (k, no_directory) a = (refl, refl, refl)
nft_reply-Same r plan (k, not_written) a = (refl, refl, refl)
nft_reply-Same r plan (k, nft_refused) a = (refl, refl, refl)

pub nft_step-Same :
    (w : World) (r : Revisions.Response) (plan : List Operation) (active : Option Revision)
    (a : Appliance)
    → Same plan a (nft_step w r plan active a)
unfolding nft_step
nft_step-Same w r plan none a = ground arith
nft_step-Same w r plan (some rev) a = elim (Bool-cases w.nft_apply) [
  | inl on ↦ rw on (nft_reply-Same r plan (apply_nftables w.nft_system rev.changes true a.kernel) a)
  | inr off ↦ rw off (refl, refl, refl)
]

nft_reply-loaded :
    (w : World) (r : Revisions.Response) (plan : List Operation) (rev : Revision) (a : Appliance)
    (out : Kernel × ApplyResult)
    → apply_nftables w.nft_system rev.changes true a.kernel ≡ out
    → (nft_reply r plan out a).1.status ≡ 200
    → (k' : Kernel) × ((nft_reply r plan out a).0.kernel ≡ k') × (out ≡ (k', applied))
unfolding nft_reply apply_nftables load_rules
nft_reply-loaded w r plan rev a (k, applied) e h = (k, refl, refl)
nft_reply-loaded w r plan rev a (k, rendered) e h = ground arith
nft_reply-loaded w r plan rev a (k, no_directory) e h = ground arith
nft_reply-loaded w r plan rev a (k, not_written) e h = ground arith
nft_reply-loaded w r plan rev a (k, nft_refused) e h = ground arith

-- the tables after rules that were applied
applied-Ruled :
    (w : World) (rev : Revision) (k k' : Kernel)
    → apply_nftables w.nft_system rev.changes true k ≡ (k', applied)
    → (k'.rules_file ≡ some (render_rules rev.changes))
      × Reloaded w.nft_system.inet_deleted k.inet_files (render_rules rev.changes) k'.inet_files
      × Reloaded w.nft_system.nat_deleted k.nat_files (render_rules rev.changes) k'.nat_files
applied-Ruled w rev k k' e =
    let rules = render_rules rev.changes in
    let app = apply_nftables-Application w.nft_system rev.changes true k in
    let is_applied = ap (λ (out : Kernel × ApplyResult). out.1) e in
    let (inet, nat) = app.applied_rules is_applied in
    let (made, written, _, _) = app.applied_iff.0 is_applied in
    (
      elim app.file [
        | inl (unmade, _) ↦ absurd (false≢true (sym unmade ∙ made))
        | inr (inl (_, unwritten, _)) ↦ absurd (false≢true (sym unwritten ∙ written))
        | inr (inr (_, _, file)) ↦
            ap (λ (out : Kernel × ApplyResult). out.0.rules_file) (sym e) ∙ file
      ],
      subst (λ (x : Kernel). Reloaded w.nft_system.inet_deleted k.inet_files rules x.inet_files)
          (ap (λ (out : Kernel × ApplyResult). out.0) e) inet,
      subst (λ (x : Kernel). Reloaded w.nft_system.nat_deleted k.nat_files rules x.nat_files)
          (ap (λ (out : Kernel × ApplyResult). out.0) e) nat,
    )

nft_step-on :
    (w : World) (r : Revisions.Response) (plan : List Operation) (rev : Revision) (a : Appliance)
    → w.nft_apply ≡ true
    → nft_step w r plan (some rev) a
      ≡ nft_reply r plan (apply_nftables w.nft_system rev.changes true a.kernel) a
unfolding nft_step
nft_step-on w r plan rev a on = rw on refl

nft_step-off :
    (w : World) (r : Revisions.Response) (plan : List Operation) (rev : Revision) (a : Appliance)
    → w.nft_apply ≡ false
    → nft_step w r plan (some rev) a
      ≡ (a, record { status = 200; committed = some r; plan = plan; nft = "disabled" })
unfolding nft_step
nft_step-off w r plan rev a off = rw off refl

-- an outcome with 200 leaves the rules so
abbrev Holds : World → Revision → Kernel → Appliance × Reply → Type 0
Holds w rev k out = out.1.status ≡ 200 → Ruled w rev k out.0.kernel

nft_step-Ruled :
    (w : World) (r : Revisions.Response) (plan : List Operation) (rev : Revision) (a : Appliance)
    → (nft_step w r plan (some rev) a).1.status ≡ 200
    → Ruled w rev a.kernel (nft_step w r plan (some rev) a).0.kernel
nft_step-Ruled w r plan rev a h = elim (Bool-cases w.nft_apply) [
  | inl on ↦
      let out = apply_nftables w.nft_system rev.changes true a.kernel in
      subst (Holds w rev a.kernel) (sym (nft_step-on w r plan rev a on))
        (λ h.
          let (k', at, e) = nft_reply-loaded w r plan rev a out refl h in
          let (file, inet, nat) =
            subst
              (λ (x : Kernel).
                (x.rules_file ≡ some (render_rules rev.changes))
                × Reloaded w.nft_system.inet_deleted a.kernel.inet_files (render_rules rev.changes)
                    x.inet_files
                × Reloaded w.nft_system.nat_deleted a.kernel.nat_files (render_rules rev.changes)
                    x.nat_files)
              (sym at) (applied-Ruled w rev a.kernel k' e) in
          inl (on, file, inet, nat))
        h
  | inr off ↦
      subst (Holds w rev a.kernel) (sym (nft_step-off w r plan rev a off)) (λ h. inr (off, refl)) h
]

-- without an active revision, an answer with 200 means that the loading of rules is switched off
pub nft_step-none :
    (w : World) (r : Revisions.Response) (plan : List Operation) (a : Appliance)
    → (nft_step w r plan none a).1.status ≡ 200
    → (w.nft_apply ≡ false) × ((nft_step w r plan none a).0.kernel ≡ a.kernel)
unfolding nft_step
nft_step-none w r plan a h = elim (Bool-cases w.nft_apply) [
  | inl on ↦ let bad : ⊥ = ground arith in absurd bad
  | inr off ↦ (off, rw off refl)
]

pub after_plan-200 :
    (w : World) (r : Revisions.Response) (plan : List Operation) (rev : Revision)
    (error : Option String) (a : Appliance)
    → (after_plan w r plan rev error a).1.status ≡ 200
    → (error ≡ none)
      × Same plan a (after_plan w r plan rev error a)
      × Ruled w rev a.kernel (after_plan w r plan rev error a).0.kernel
unfolding after_plan
after_plan-200 w r plan rev none a h =
    (refl, nft_step-Same w r plan (some rev) a, nft_step-Ruled w r plan rev a h)
after_plan-200 w r plan rev (some e) a h = let bad : ⊥ = omega arith in absurd bad

pub after_plan-Same :
    (w : World) (r : Revisions.Response) (plan : List Operation) (rev : Revision)
    (error : Option String) (a : Appliance)
    → Same plan a (after_plan w r plan rev error a)
unfolding after_plan
after_plan-Same w r plan rev none a = nft_step-Same w r plan (some rev) a
after_plan-Same w r plan rev (some e) a = (refl, refl, refl)
