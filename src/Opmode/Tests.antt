-- ===== src/Opmode/Tests.antt =====
-- The theorems on the store of revisions, at a concrete store.
use crispy_garbanzo.Base.{true, none, some, List, [], ◌∷◌, Any, ◌≡◌, refl}
use crispy_garbanzo.Base.Value.{flag, Fields, no_fields, field}
use crispy_garbanzo.Opmode.Revisions.{Revision, Store, System, appended, removed, Response, ok}
use crispy_garbanzo.Opmode.Store.{commit}
use crispy_garbanzo.Opmode.Store.Commit.{Outcome, commit-Outcome}
use crispy_garbanzo.Opmode.Store.Machine.{
  Call, configure_call, commit_call, Steps, Submits, view, run, run-Steps,
}

abbrev wan_block : Fields
wan_block = field "wan_block" (flag true) no_fields

abbrev staged_revision : Revision
staged_revision = record {
  revision_id = "rev_1";
  actor = "ann";
  changes = wan_block;
  created_at = 5;
}

abbrev staged_store : Store
staged_store = record {
  staged = record { file = some staged_revision; tmp = none };
  active = record { file = none; tmp = none };
  commits = none;
  audit = none;
}

abbrev well : System
well = record {
  now = 9;
  new_id = some "cmt_1";
  staged_readable = true;
  replace = record { write_ok = true; left_behind = none; rename_ok = true };
  append_commit = appended;
  append_audit = appended;
  removal = removed;
}

abbrev answer : Response
answer = record { commit_id = "cmt_1"; revision_id = "rev_1"; status = "committed"; timestamp = 9 }

commits_well :
    commit well "bob" "rev_1" staged_store ≡ ((commit well "bob" "rev_1" staged_store).0, ok answer)
unfolding commit
commits_well = refl

commit-Outcome_example :
    Outcome well "bob" "rev_2" staged_store (commit well "bob" "rev_2" staged_store)
commit-Outcome_example = commit-Outcome well "bob" "rev_2" staged_store

abbrev calls : List Call
calls = configure_call well "bob" no_fields ∷ commit_call well "eve" "rev_1" ∷ []

run-Steps_example :
    Steps (λ rev. Any (Submits rev) calls) (view staged_store) (view (run calls staged_store))
run-Steps_example = run-Steps calls staged_store
