-- ===== src/Admin/Tests.antt =====
-- The theorems on the collections, and on the commit, at one request each.
use crispy_garbanzo.Base.{true, false, none, some, List, [], ◌≡◌, Disk, refl, to_lower, print}
use crispy_garbanzo.Base.Value
use crispy_garbanzo.Base.Value.{object, Fields, no_fields, field}
use crispy_garbanzo.Opmode.Revisions.{Revision, appended, removed}
use crispy_garbanzo.Admin.Commit
use crispy_garbanzo.Admin.Commit.{Body, Appliance, handle_commit}
use crispy_garbanzo.Admin.Commit.Enacts.{Enacted, handle_commit-Enacted}
use crispy_garbanzo.Identity.Registry.{Agent, Registry, empty}
use crispy_garbanzo.Identity.Registry.Lookup.{IsConsistent, empty-IsConsistent}
use crispy_garbanzo.Admin.Resource.{post, collection, Service, System, serve}
use crispy_garbanzo.Admin.Resource.Laws.{Effect}
use crispy_garbanzo.Admin.Agents.{agents, serve-agents}

abbrev no_file : {A : Type 0} → Disk (List A)
no_file = record { file = none; tmp = none }

abbrev works : {A : Type 0} → System A
works = record {
  now = 5;
  faults = record { write_ok = true; left_behind = none; rename_ok = true };
}

abbrev new_agent : Agent
new_agent = record {
  agent_id = "a1";
  team_id = "";
  project_id = "";
  environment = "";
  api_key = "k1";
  status = "";
}

abbrev no_agents : Service Registry Agent
no_agents = record { content = empty; file = no_file; signals = 0 }

serve-agents_example :
    Effect agents IsConsistent no_agents
      (serve agents works post collection (some new_agent) no_agents)
serve-agents_example =
    serve-agents works post collection (some new_agent) no_agents empty-IsConsistent

abbrev ssh_changes : Fields
ssh_changes =
    field "service"
      (object (field "ssh" (object (field "port" (Value.string "22") no_fields)) no_fields))
      no_fields

abbrev staged_revision : Revision
staged_revision = record {
  revision_id = "rev_1";
  actor = "ann";
  changes = ssh_changes;
  created_at = 5;
}

abbrev appliance : Appliance
appliance = record {
  store = record {
    staged = record { file = some staged_revision; tmp = none };
    active = record { file = none; tmp = none };
    commits = none;
    audit = none;
  };
  calls = [];
  kernel = record { rules_file = none; inet_files = []; nat_files = [] };
}

abbrev good_world : Commit.World
good_world = record {
  store_system = record {
    now = 9;
    new_id = some "cmt_1";
    staged_readable = true;
    replace = record { write_ok = true; left_behind = none; rename_ok = true };
    append_commit = appended;
    append_audit = appended;
    removal = removed;
  };
  between = λ s. s;
  state_reads = record { staged_readable = true; active_readable = true };
  ops_system = record { answer = λ calls c. none; mock = false };
  default_ops_mode = "dry-run";
  nft_apply = true;
  nft_system = record {
    directory_made = true;
    write_ok = true;
    left_behind = none;
    inet_deleted = true;
    nat_deleted = true;
    nft_accepts = true;
  };
}

abbrev apply_body : Body
apply_body = record { actor = "ann"; expected_revision_id = "rev_1"; ops_mode = "apply" }

answered_200 : (handle_commit good_world (some apply_body) appliance).1.status ≡ 200
unfolding handle_commit to_lower print
answered_200 = refl

handle_commit-Enacted_example :
    Enacted good_world apply_body appliance
      (handle_commit good_world (some apply_body) appliance).0
      (handle_commit good_world (some apply_body) appliance).1
handle_commit-Enacted_example =
    handle_commit-Enacted good_world apply_body appliance refl answered_200
