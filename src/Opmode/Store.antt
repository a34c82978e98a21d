-- ===== src/Opmode/Store.antt =====
-- internal/opmode/store.go: the store of revisions in a directory. Its four files are the state; the
-- clock, the new ids and the outcome of every call of the operating system are an argument. The
-- mutex makes each operation one step.
pub mod Commit
pub mod Configure
pub mod State
pub mod Machine
use crispy_garbanzo.Opmode.Revisions.{
  Revision, CommitRecord, AuditEntry, JsonLines, Store, Append, Removal, System, Error, Response,
  Result, extended, or_empty, append_line, appended, not_opened, torn_write, removed, gone,
  not_removed, no_staged_revision, revision_mismatch, no_random_id, remove_failed, io, ok, err,
}
use crispy_garbanzo.Base.{
  String, ℕ, Bool, true, false, ◌&&◌, not, Option, none, some, List, [], ◌∷◌, ◌++◌, ◌==◌,
  if◌then◌else◌, length, last, ReadResult, not_exist, unreadable, malformed, parsed, IoError,
  read_failed, parse_failed, write_failed, Disk, Faults, save_atomic, read_back,
}
use crispy_garbanzo.Base.Value.{Fields}

-- the end of a configure: the entry in the audit log
unfoldable pub log_configure : System → Append → String → String → Store → Store × Result Response
unfolding append_line
log_configure sys append actor id s =
    let entry : AuditEntry = record {
      event = "configure";
      actor = actor;
      commit_id = "";
      revision_id = id;
      timestamp = sys.now;
    } in
    let (audit, logged) = append_line append entry s.audit in
    let s = record s { audit = audit } in
    if logged
    then (
      s,
      ok (record { commit_id = ""; revision_id = id; status = "staged"; timestamp = sys.now }),
    )
    else (s, err (io write_failed))

-- the end of a configure, once the revision is written or not
unfoldable pub staged_as :
    System → String → String → Store → Option IoError → Store × Result Response
unfolding log_configure
staged_as sys actor id s (some e) = (s, err (io e))
staged_as sys actor id s none = log_configure sys sys.append_audit actor id s

-- a configure with the id that was drawn
unfoldable pub configure_as :
    System → String → Fields → Store → Option String → Store × Result Response
unfolding save_atomic staged_as
configure_as sys actor changes s none = (s, err no_random_id)
configure_as sys actor changes s (some id) =
    let rev : Revision = record {
      revision_id = id;
      actor = actor;
      changes = changes;
      created_at = sys.now;
    } in
    let (staged, failed) = save_atomic sys.replace rev s.staged in
    staged_as sys actor id (record s { staged = staged }) failed

unfoldable pub configure : System → String → Fields → Store → Store × Result Response
unfolding configure_as
configure sys actor changes s = configure_as sys actor changes s sys.new_id

-- what reading staged.json finds
unfoldable pub read_staged : System → Store → ReadResult Revision
unfolding read_back
read_staged sys s = if sys.staged_readable then read_back s.staged else unreadable

-- the last step of a commit
unfoldable pub unstage : Removal → Response → Store → Store × Result Response
unstage removed r s = (record s { staged = record (s.staged) { file = none } }, ok r)
unstage gone r s = (s, ok r)
unstage not_removed r s = (s, err remove_failed)

-- a commit whose record is in the history
unfoldable pub log_commit :
    System → Append → Removal → String → String → Revision → Store → Store × Result Response
unfolding append_line unstage
log_commit sys append removal actor id rev s =
    let entry : AuditEntry = record {
      event = "commit";
      actor = actor;
      commit_id = id;
      revision_id = rev.revision_id;
      timestamp = sys.now;
    } in
    let (audit, logged) = append_line append entry s.audit in
    let s = record s { audit = audit } in
    if logged
    then unstage removal
        (record {
          commit_id = id;
          revision_id = rev.revision_id;
          status = "committed";
          timestamp = sys.now;
        })
        s
    else (s, err (io write_failed))

unfoldable pub commit_record : System → String → String → Revision → CommitRecord
commit_record sys actor id rev = record {
  commit_id = id;
  revision_id = rev.revision_id;
  actor = actor;
  committed = sys.now;
}

-- a commit of a revision that active.json holds
unfoldable pub record_commit :
    System
    → Append
    → Append
    → Removal
    → String
    → String
    → Revision
    → Store
    → Store × Result Response
unfolding append_line log_commit commit_record
record_commit sys append_history append_log removal actor id rev s =
    let (commits, recorded) =
      append_line append_history (commit_record sys actor id rev) s.commits in
    let s = record s { commits = commits } in
    if recorded
    then log_commit sys append_log removal actor id rev s
    else (s, err (io write_failed))

-- a commit of a revision, once active.json is written or not
unfoldable pub activated :
    System → String → String → Revision → Store → Option IoError → Store × Result Response
unfolding record_commit
activated sys actor id rev s (some e) = (s, err (io e))
activated sys actor id rev s none =
    record_commit sys sys.append_commit sys.append_audit sys.removal actor id rev s

-- a commit with the id that was drawn
unfoldable pub commit_as :
    System → String → Revision → Store → Option String → Store × Result Response
unfolding save_atomic activated
commit_as sys actor rev s none = (s, err no_random_id)
commit_as sys actor rev s (some id) =
    let (active, failed) = save_atomic sys.replace rev s.active in
    activated sys actor id rev (record s { active = active }) failed

-- a commit of what staged.json holds
unfoldable pub commit_read :
    System → String → String → Store → ReadResult Revision → Store × Result Response
unfolding commit_as
commit_read sys actor expected s not_exist = (s, err no_staged_revision)
commit_read sys actor expected s unreadable = (s, err (io read_failed))
commit_read sys actor expected s malformed = (s, err (io parse_failed))
commit_read sys actor expected s (parsed rev) =
    if not (expected == "") && not (expected == rev.revision_id)
    then (s, err revision_mismatch)
    else commit_as sys actor rev s sys.new_id

unfoldable pub commit : System → String → String → Store → Store × Result Response
unfolding read_staged commit_read
commit sys actor expected s = commit_read sys actor expected s (read_staged sys s)

-- the records of a file of JSON lines, unless one does not parse
unfoldable pub all_parsed : {A : Type 0} → List (Option A) → Option (List A)
all_parsed [] = some []
all_parsed (none ∷ ls) = none
all_parsed (some a ∷ ls) = elim (all_parsed ls) [ none ↦ none | some as' ↦ some (a ∷ as') ]

unfoldable pub read_commit_history :
    Option (JsonLines CommitRecord) → ReadResult (List CommitRecord)
unfolding all_parsed
read_commit_history none = not_exist
read_commit_history (some l) =
    if l.torn
    then malformed
    else elim (all_parsed l.lines) [ none ↦ malformed | some cs ↦ parsed cs ]

pub record StateView : Type 0 where
  pub staged : Option Revision
  pub active : Option Revision
  pub last_commit : Option CommitRecord
  pub history_size : ℕ

-- whether `State` can read staged.json and active.json, if they exist
pub record StateReads : Type 0 where
  pub staged_readable : Bool
  pub active_readable : Bool

-- a read that fails leaves the field nil
unfoldable pub read_or_nil : Bool → Option Revision → Option Revision
read_or_nil true file = file
read_or_nil false file = none

unfoldable pub view_of : StateReads → Store → List CommitRecord → StateView
unfolding read_or_nil
view_of reads s commits = record {
  staged = read_or_nil reads.staged_readable s.staged.file;
  active = read_or_nil reads.active_readable s.active.file;
  last_commit = last commits;
  history_size = length commits;
}

-- the view, for what reading commits.jsonl finds
unfoldable pub state_read : StateReads → Store → ReadResult (List CommitRecord) → Result StateView
unfolding view_of
state_read reads s not_exist = ok (view_of reads s [])
state_read reads s unreadable = err (io read_failed)
state_read reads s malformed = err (io parse_failed)
state_read reads s (parsed commits) = ok (view_of reads s commits)

unfoldable pub state : StateReads → Store → Result StateView
unfolding read_commit_history state_read
state reads s = state_read reads s (read_commit_history s.commits)
