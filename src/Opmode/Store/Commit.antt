-- ===== src/Opmode/Store/Commit.antt =====
-- What a commit does, on every outcome of the system's calls.
use crispy_garbanzo.Base.{
  String, true, Option, none, some, ◌==◌, ◌≡◌, ◌≢◌, ◌⊎◌, inl, inr, refl, sym, arith, eq_iff,
  Bool-cases, IoError, Disk, Faults, save_atomic, read_back, ReadResult, not_exist, unreadable,
  malformed, parsed,
}
use crispy_garbanzo.Opmode.Revisions.{
  Revision, CommitRecord, AuditEntry, JsonLines, Store, System, Append, appended, not_opened,
  torn_write, Removal, removed, gone, not_removed, Response, Result, ok, err, append_line, extended,
  or_empty,
}
use crispy_garbanzo.Opmode.Store.{
  commit, log_commit, record_commit, commit_record, activated, commit_as, commit_read, unstage,
  read_staged,
}

-- the line of commits.jsonl and the entry of audit.log of a commit of this revision
abbrev pub record_of : System → String → String → Revision → CommitRecord
record_of sys actor id rev = record {
  commit_id = id;
  revision_id = rev.revision_id;
  actor = actor;
  committed = sys.now;
}

abbrev pub entry_of : System → String → String → Revision → AuditEntry
entry_of sys actor id rev = record {
  event = "commit";
  actor = actor;
  commit_id = id;
  revision_id = rev.revision_id;
  timestamp = sys.now;
}

-- A file of lines after an append that may fail: as before, with a torn line at its end, or with the line.
abbrev pub AtMost : {A : Type 0} → A → Option (JsonLines A) → Option (JsonLines A) → Type 0
AtMost a old new =
    (new ≡ old)
    ⊎ (new ≡ some (record { lines = (or_empty old).lines; torn = true }))
    ⊎ (new ≡ some (extended a (or_empty old)))

-- A commit that succeeds: what it needs of the revision that was staged, and what it leaves.
pub record Committed (sys : System) (actor expected : String) (s s' : Store) (r : Response)
    : Type 0 where
  pub rev : Revision
  pub was_staged : s.staged.file ≡ some rev
  pub as_expected : (expected ≡ "") ⊎ (expected ≡ rev.revision_id)
  pub revision : r.revision_id ≡ rev.revision_id
  pub now_active : s'.active.file ≡ some rev
  pub drawn : sys.new_id ≡ some r.commit_id
  pub history :
      s'.commits ≡ some (extended (record_of sys actor r.commit_id rev) (or_empty s.commits))
  pub logged : s'.audit ≡ some (extended (entry_of sys actor r.commit_id rev) (or_empty s.audit))
  pub unstaged : (s'.staged.file ≡ none) ⊎ ((sys.removal ≡ gone) × (s'.staged ≡ s.staged))

-- What a commit that fails may do: active.json is as before or holds the staged revision, staged.json is
-- as before, and the two logs are as before or have at most this commit's line.
pub record Safe (sys : System) (actor : String) (s s' : Store) : Type 0 where
  pub active_whole :
      (s'.active.file ≡ s.active.file)
      ⊎ ((rev : Revision) × (s.staged.file ≡ some rev) × (s'.active.file ≡ some rev))
  pub staged_kept : s'.staged ≡ s.staged
  pub logs :
      ((s'.commits ≡ s.commits) × (s'.audit ≡ s.audit))
      ⊎ ((rev : Revision) × (id : String) × (s.staged.file ≡ some rev)
          × (sys.new_id ≡ some id)
          × (s'.active.file ≡ some rev)
          × AtMost (record_of sys actor id rev) s.commits s'.commits
          × AtMost (entry_of sys actor id rev) s.audit s'.audit)

-- the result of a commit, in either case
abbrev pub Outcome : System → String → String → Store → Store × Result Response → Type 0
Outcome sys actor expected s (s', ok r) = Committed sys actor expected s s' r
Outcome sys actor expected s (s', err e) = Safe sys actor s s'

pub save_atomic-new :
    (f : Faults Revision) (rev : Revision) (d : Disk Revision)
    → (save_atomic f rev d).1 ≡ none
    → (save_atomic f rev d).0.file ≡ some rev
unfolding save_atomic
save_atomic-new f rev d h = ground arith

pub save_atomic-old :
    (f : Faults Revision) (rev : Revision) (d : Disk Revision)
    → (save_atomic f rev d).1 ≢ none
    → (save_atomic f rev d).0.file ≡ d.file
unfolding save_atomic
save_atomic-old f rev d h = ground arith

nothing_done : (sys : System) (actor : String) (s : Store) → Safe sys actor s s
nothing_done sys actor s = record {
  active_whole = inl refl;
  staged_kept = refl;
  logs = inl (refl, refl);
}

module _ (sys : System) (actor expected : String) (s : Store) (rev : Revision)
    (staged : s.staged.file ≡ some rev)
    (expects : (expected ≡ "") ⊎ (expected ≡ rev.revision_id)) where
  after_active :
      (id : String) (s' : Store)
      → sys.new_id ≡ some id
      → s'.active.file ≡ some rev
      → s'.staged ≡ s.staged
      → AtMost (record_of sys actor id rev) s.commits s'.commits
      → AtMost (entry_of sys actor id rev) s.audit s'.audit
      → Safe sys actor s s'
  after_active id s' drawn a k c l = record {
    active_whole = inr (rev, staged, a);
    staged_kept = k;
    logs = inr (rev, id, staged, drawn, a, c, l);
  }

  record_commit-Outcome :
      (append_history append_log : Append) (x : Removal) (id : String) (s' : Store)
      → sys.new_id ≡ some id
      → x ≡ sys.removal
      → s'.active.file ≡ some rev
      → s'.staged ≡ s.staged
      → s'.commits ≡ s.commits
      → s'.audit ≡ s.audit
      → Outcome sys actor expected s (record_commit sys append_history append_log x actor id rev s')
  unfolding record_commit append_line log_commit unstage commit_record
  record_commit-Outcome not_opened l x id s' n e a k c g = after_active id _ n a k (inl c) (inl g)
  record_commit-Outcome torn_write l x id s' n e a k c g =
      after_active id _ n a k (inr (inl (rw c refl))) (inl g)
  record_commit-Outcome appended not_opened x id s' n e a k c g =
      after_active id _ n a k (inr (inr (rw c refl))) (inl g)
  record_commit-Outcome appended torn_write x id s' n e a k c g =
      after_active id _ n a k (inr (inr (rw c refl))) (inr (inl (rw g refl)))
  record_commit-Outcome appended appended not_removed id s' n e a k c g =
      after_active id _ n a k (inr (inr (rw c refl))) (inr (inr (rw g refl)))
  record_commit-Outcome appended appended removed id s' n e a k c g = record {
    rev = rev;
    was_staged = staged;
    as_expected = expects;
    revision = refl;
    now_active = a;
    drawn = n;
    history = rw c refl;
    logged = rw g refl;
    unstaged = inl refl;
  }
  record_commit-Outcome appended appended gone id s' n e a k c g = record {
    rev = rev;
    was_staged = staged;
    as_expected = expects;
    revision = refl;
    now_active = a;
    drawn = n;
    history = rw c refl;
    logged = rw g refl;
    unstaged = inr (sym e, k);
  }

  activated-Outcome :
      (id : String) (d : Disk Revision) (failed : Option IoError)
      → sys.new_id ≡ some id
      → (failed ≡ none → d.file ≡ some rev)
      → (failed ≢ none → d.file ≡ s.active.file)
      → Outcome sys actor expected s (activated sys actor id rev (record s { active = d }) failed)
  unfolding activated
  activated-Outcome id d none n new old =
      record_commit-Outcome sys.append_commit sys.append_audit sys.removal id
        (record s { active = d }) n refl (new refl) refl refl refl
  activated-Outcome id d (some e) n new old = record {
    active_whole = inl (old (λ h. cc));
    staged_kept = refl;
    logs = inl (refl, refl);
  }

  commit_as-Outcome :
      (id : Option String)
      → sys.new_id ≡ id
      → Outcome sys actor expected s (commit_as sys actor rev s id)
  unfolding commit_as
  commit_as-Outcome none n = nothing_done sys actor s
  commit_as-Outcome (some id) n =
      activated-Outcome id _ _ n (save_atomic-new sys.replace rev s.active)
        (save_atomic-old sys.replace rev s.active)

commit_read-Outcome :
    (sys : System) (actor expected : String) (s : Store) (found : ReadResult Revision)
    → ((rev : Revision) → found ≡ parsed rev → s.staged.file ≡ some rev)
    → Outcome sys actor expected s (commit_read sys actor expected s found)
unfolding commit_read
commit_read-Outcome sys actor expected s not_exist h = nothing_done sys actor s
commit_read-Outcome sys actor expected s unreadable h = nothing_done sys actor s
commit_read-Outcome sys actor expected s malformed h = nothing_done sys actor s
commit_read-Outcome sys actor expected s (parsed rev) h = elim (Bool-cases (expected == "")) [
  | inl free ↦ rw free (
      commit_as-Outcome sys actor expected s rev (h rev refl) (inl ((eq_iff expected "").0 free))
        sys.new_id refl)
  | inr given ↦ elim (Bool-cases (expected == rev.revision_id)) [
    | inl same ↦
        rw (given, same)
          (commit_as-Outcome sys actor expected s rev (h rev refl)
            (inr ((eq_iff expected rev.revision_id).0 same)) sys.new_id refl)
    | inr other ↦ rw (given, other) (nothing_done sys actor s)
  ]
]

read_staged-parsed :
    (sys : System) (s : Store) (rev : Revision)
    → read_staged sys s ≡ parsed rev
    → s.staged.file ≡ some rev
unfolding read_staged read_back
read_staged-parsed sys s rev h = ground arith

-- Whatever the system's calls do: a commit that succeeds had a staged revision, with the id that was
-- expected if one was; it is now the active one; the id it answers is the one that was drawn; one line with
-- this id, the revision, the actor and the time is added to commits.jsonl and one entry "commit" to
-- audit.log; and nothing is staged unless the file had gone before it was removed. A commit that fails
-- leaves staged.json as it was, active.json as it was or with the staged revision, and the two logs as
-- they were or, once the revision is active, each as it was, with a torn line or with this commit's line.
pub commit-Outcome :
    (sys : System) (actor expected : String) (s : Store)
    → Outcome sys actor expected s (commit sys actor expected s)
unfolding commit
commit-Outcome sys actor expected s =
    commit_read-Outcome sys actor expected s (read_staged sys s) (read_staged-parsed sys s)
