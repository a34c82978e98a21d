-- ===== src/Admin/Operate/Tests.antt =====
-- The theorem on configure and commit, at one request.
use crispy_garbanzo.Base.{ℕ, String, true, none, some, ◌≡◌, refl}
use crispy_garbanzo.Base.Value.{flag, no_fields, field}
use crispy_garbanzo.Opmode.Revisions.{Store, System, appended, removed, Response, ok}
use crispy_garbanzo.Opmode.Store.{commit}
use crispy_garbanzo.Admin.Resource.{post}
use crispy_garbanzo.Admin.Operate.{ConfigureBody, actor_of, changes_of, answered, handle_configure}
use crispy_garbanzo.Admin.Operate.Live.{Working, configure_commit-Live}

abbrev system : ℕ → String → System
system now id = record {
  now = now;
  new_id = some id;
  staged_readable = true;
  replace = record { write_ok = true; left_behind = none; rename_ok = true };
  append_commit = appended;
  append_audit = appended;
  removal = removed;
}

system-Working : (now : ℕ) (id : String) → Working (system now id) id
system-Working now id = record {
  drawn = refl;
  readable = refl;
  writes = refl;
  renames = refl;
  records = refl;
  logs = refl;
  removes = refl;
}

abbrev first_store : Store
first_store = record {
  staged = record { file = none; tmp = none };
  active = record { file = none; tmp = none };
  commits = none;
  audit = none;
}

abbrev wan_block : ConfigureBody
wan_block = record { actor = ""; changes = some (field "wan_block" (flag true) no_fields) }

configure_commit-Live_example :
    (r : Response) × ((handle_configure (system 5 "rev_1") post (some wan_block) first_store).1
      ≡ answered r)
    × (let after =
          commit
            (system 9 "cmt_1")
            "eve"
            r.revision_id
            (handle_configure (system 5 "rev_1") post (some wan_block) first_store).0 in
        (after.0.active.file
          ≡ some (record {
            revision_id = "rev_1";
            actor = "unknown";
            changes = field "wan_block" (flag true) no_fields;
            created_at = 5;
          }))
        × (after.0.staged.file ≡ none)
        × (after.1
            ≡ ok (record {
              commit_id = "cmt_1";
              revision_id = "rev_1";
              status = "committed";
              timestamp = 9;
            })))
unfolding actor_of changes_of
configure_commit-Live_example =
    configure_commit-Live (system 5 "rev_1") (system 9 "cmt_1") "rev_1" "cmt_1" wan_block "eve"
      first_store (system-Working 5 "rev_1") (system-Working 9 "cmt_1")
