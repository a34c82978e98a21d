-- ===== src/Admin/Commit.antt =====
-- cmd/clawgress-admin-api/main.go: "/v1/opmode/commit", which commits the staged revision and then carries
-- out its plan and loads its rules.
pub mod Rules
pub mod Enacts
pub mod Applied
use crispy_garbanzo.Base.{
  ℕ, String, Bool, true, false, Option, none, some, List, [], ◌∷◌, ◌==◌, if◌then◌else◌,
}
use crispy_garbanzo.Opmode.Revisions
use crispy_garbanzo.Opmode.Revisions.{
  Revision, Store, Error, no_staged_revision, revision_mismatch, no_random_id, remove_failed, io,
  Result, ok, err,
}
use crispy_garbanzo.Opmode.Store.{StateView, StateReads, commit, state}
use crispy_garbanzo.Enforcer.Interfaces.{Operation}
use crispy_garbanzo.Enforcer.Plan.{build_ops_plan}
use crispy_garbanzo.Enforcer.Execution
use crispy_garbanzo.Enforcer.Execution.{
  Mode, dry_run, apply, invalid, Call, normalize_ops_mode, execute_in,
}
use crispy_garbanzo.Enforcer.Nftables
use crispy_garbanzo.Enforcer.Nftables.{
  Kernel, ApplyResult, no_directory, not_written, rendered, applied, nft_refused, apply_nftables,
}
use crispy_garbanzo.Admin.Resource.{Method, get, post, delete_method, other_method}

pub record Body : Type 0 where
  pub actor : String
  pub expected_revision_id : String
  pub ops_mode : String

-- `between` is what other requests do to the store between the commit and the read of the state, which
-- take the mutex one after the other
pub record World : Type 0 where
  pub store_system : Revisions.System
  pub between : Store → Store
  pub state_reads : StateReads
  pub ops_system : Execution.System
  pub default_ops_mode : String
  pub nft_apply : Bool
  pub nft_system : Nftables.System

-- the store, the calls that plans have made of the system, and the rules of nftables
pub record Appliance : Type 0 where
  pub store : Store
  pub calls : List Call
  pub kernel : Kernel

pub record Reply : Type 0 where
  pub status : ℕ
  pub committed : Option Revisions.Response
  pub plan : List Operation
  pub nft : String

unfoldable pub error_status : Error → ℕ
error_status no_staged_revision = 409
error_status revision_mismatch = 412
error_status no_random_id = 500
error_status remove_failed = 500
error_status (io e) = 500

-- an invalid mode is a dry run
unfoldable pub valid_or_dry : Mode → Mode
valid_or_dry invalid = dry_run
valid_or_dry dry_run = dry_run
valid_or_dry apply = apply

unfoldable pub effective_mode : World → Body → Mode
unfolding normalize_ops_mode valid_or_dry
effective_mode w b =
    valid_or_dry (normalize_ops_mode (if b.ops_mode == "" then w.default_ops_mode else b.ops_mode))

-- the answer once ApplyNftables has returned
unfoldable pub nft_reply :
    Revisions.Response → List Operation → Kernel × ApplyResult → Appliance → Appliance × Reply
nft_reply r plan (k, applied) a = (
  record a { kernel = k },
  record { status = 200; committed = some r; plan = plan; nft = "applied" },
)
nft_reply r plan (k, rendered) a = (
  record a { kernel = k },
  record { status = 200; committed = some r; plan = plan; nft = "applied" },
)
nft_reply r plan (k, no_directory) a = (
  record a { kernel = k },
  record { status = 500; committed = some r; plan = plan; nft = "error" },
)
nft_reply r plan (k, not_written) a = (
  record a { kernel = k },
  record { status = 500; committed = some r; plan = plan; nft = "error" },
)
nft_reply r plan (k, nft_refused) a = (
  record a { kernel = k },
  record { status = 500; committed = some r; plan = plan; nft = "error" },
)

-- the last step: the rules of nftables
unfoldable pub nft_step :
    World → Revisions.Response → List Operation → Option Revision → Appliance → Appliance × Reply
unfolding apply_nftables nft_reply
nft_step w r plan none a =
    if w.nft_apply
    then (a, record { status = 500; committed = some r; plan = plan; nft = "error" })
    else (a, record { status = 200; committed = some r; plan = plan; nft = "disabled" })
nft_step w r plan (some rev) a =
    if w.nft_apply
    then nft_reply r plan (apply_nftables w.nft_system rev.changes true a.kernel) a
    else (a, record { status = 200; committed = some r; plan = plan; nft = "disabled" })

-- once the plan has run, with its error or none
unfoldable pub after_plan :
    World
    → Revisions.Response
    → List Operation
    → Revision
    → Option String
    → Appliance
    → Appliance × Reply
unfolding nft_step
after_plan w r plan rev (some e) a =
    (a, record { status = 500; committed = some r; plan = plan; nft = "" })
after_plan w r plan rev none a = nft_step w r plan (some rev) a

-- the plan of the active revision, if there is one
unfoldable pub plan_step :
    World → Body → Revisions.Response → Option Revision → Appliance → Appliance × Reply
unfolding nft_step after_plan execute_in build_ops_plan effective_mode
plan_step w b r none a = nft_step w r [] none a
plan_step w b r (some rev) a =
    let plan = build_ops_plan rev.changes in
    let (calls, out, error) = execute_in w.ops_system plan (effective_mode w b) a.calls in
    after_plan w r plan rev error (record a { calls = calls })

-- with the state after the commit
unfoldable pub state_step :
    World → Body → Revisions.Response → Result StateView → Appliance → Appliance × Reply
unfolding plan_step
state_step w b r (err e) a =
    (a, record { status = 500; committed = some r; plan = []; nft = "error" })
state_step w b r (ok view) a = plan_step w b r view.active a

-- with the result of the commit
unfoldable pub commit_step :
    World → Body → Store × Result Revisions.Response → Appliance → Appliance × Reply
unfolding state_step state error_status
commit_step w b (s, err e) a = (
  record a { store = s },
  record { status = error_status e; committed = none; plan = []; nft = "" },
)
commit_step w b (s, ok r) a =
    state_step w b r (state w.state_reads (w.between s)) (record a { store = w.between s })

-- a POST with its body, `none` if it is no JSON
unfoldable pub handle_commit : World → Option Body → Appliance → Appliance × Reply
unfolding commit commit_step
handle_commit w none a = (a, record { status = 400; committed = none; plan = []; nft = "" })
handle_commit w (some b) a =
    let actor = if b.actor == "" then "unknown" else b.actor in
    commit_step w b (commit w.store_system actor b.expected_revision_id a.store) a

abbrev not_allowed : Reply
not_allowed = record { status = 405; committed = none; plan = []; nft = "" }

-- a request with any method
unfoldable pub serve_commit : World → Method → Option Body → Appliance → Appliance × Reply
unfolding handle_commit
serve_commit w post body a = handle_commit w body a
serve_commit w get body a = (a, not_allowed)
serve_commit w delete_method body a = (a, not_allowed)
serve_commit w other_method body a = (a, not_allowed)
