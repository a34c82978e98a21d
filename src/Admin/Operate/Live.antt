-- ===== src/Admin/Operate/Live.antt =====
-- What a request leads to when the calls of the system succeed, and how many events an audit query answers.
use crispy_garbanzo.Base.{
  ℕ, zero, suc, ◌≤◌, String, true, Option, none, some, List, if◌then◌else◌, ◌≡◌, ◌⊎◌, inr, refl,
  arith, eq_iff, length, min, eqb, ℤ, pos, negsuc, save_atomic,
}
use crispy_garbanzo.Base.Digits.{atoi}
use crispy_garbanzo.Base.Value.{Fields}
use crispy_garbanzo.Opmode.Revisions.{Revision, Store, System, appended, removed, ok, Response}
use crispy_garbanzo.Opmode.Store.{
  configure, configure_as, staged_as, log_configure, commit, commit_read, commit_as, activated,
  record_commit, log_commit, unstage, read_staged,
}
use crispy_garbanzo.Audit.Event.{Event}
use crispy_garbanzo.Audit.Query.{Line, Times, query, query_lem}
use crispy_garbanzo.Admin.Resource.{get, post}
use crispy_garbanzo.Admin.Operate.{
  answered, configure_reply, audit_reply, ConfigureBody, actor_of, changes_of, configure_body,
  handle_configure, AuditParams, log_lines, limit_of_number, limit_of, filter_of, handle_audit,
}

-- Every call of the system succeeds, and an id is drawn.
pub record Working (sys : System) (id : String) : Type 0 where
  pub drawn : sys.new_id ≡ some id
  pub readable : sys.staged_readable ≡ true
  pub writes : sys.replace.write_ok ≡ true
  pub renames : sys.replace.rename_ok ≡ true
  pub records : sys.append_commit ≡ appended
  pub logs : sys.append_audit ≡ appended
  pub removes : sys.removal ≡ removed

abbrev submitted : System → String → String → Fields → Revision
submitted sys id actor changes = record {
  revision_id = id;
  actor = actor;
  changes = changes;
  created_at = sys.now;
}

module _ (sys : System) (id actor : String) (changes : Fields) (s : Store)
    (w : Working sys id) where
  configure-staged :
      ((configure sys actor changes s).0.staged.file ≡ some (submitted sys id actor changes))
      × ((configure sys actor changes s).1
          ≡ ok
              (record { commit_id = ""; revision_id = id; status = "staged"; timestamp = sys.now }))
  unfolding configure configure_as staged_as log_configure save_atomic
  configure-staged = ground arith

commit-active :
    (sys : System) (id actor expected : String) (s : Store) (rev : Revision)
    → Working sys id
    → s.staged.file ≡ some rev
    → (expected ≡ "") ⊎ (expected ≡ rev.revision_id)
    → ((commit sys actor expected s).0.active.file ≡ some rev)
      × ((commit sys actor expected s).0.staged.file ≡ none)
      × ((commit sys actor expected s).1
          ≡ ok (record {
            commit_id = id;
            revision_id = rev.revision_id;
            status = "committed";
            timestamp = sys.now;
          }))
unfolding commit read_staged commit_read commit_as activated record_commit log_commit unstage
    save_atomic
commit-active sys id actor expected s rev w h e =
    ground (arith, eq_iff expected "", eq_iff expected rev.revision_id)

configure_reply-ok :
    (sys : System) (id : String) (b : ConfigureBody) (s : Store)
    → Working sys id
    → (r : Response) × ((handle_configure sys post (some b) s).1 ≡ answered r)
      × (r.revision_id ≡ id)
      × ((handle_configure sys post (some b) s).0.staged.file
          ≡ some (submitted sys id (actor_of b.actor) (changes_of b.changes)))
unfolding handle_configure configure_body configure_reply
configure_reply-ok sys id b s w =
    let (staged, ok') = configure-staged sys id (actor_of b.actor) (changes_of b.changes) s w in
    (
      record { commit_id = ""; revision_id = id; status = "staged"; timestamp = sys.now },
      ground arith,
      refl,
      ground arith,
    )

-- When the calls of the system succeed, a configure over the API is answered with the id of a revision, and a
-- commit that expects this id makes the submitted changes active, in the name of their actor, and leaves
-- nothing staged.
pub configure_commit-Live :
    (sys sys' : System) (id id' : String) (b : ConfigureBody) (actor : String) (s : Store)
    → Working sys id
    → Working sys' id'
    → (r : Response) × ((handle_configure sys post (some b) s).1 ≡ answered r)
      × (let after = commit sys' actor r.revision_id (handle_configure sys post (some b) s).0 in
          (after.0.active.file
            ≡ some (record {
              revision_id = id;
              actor = actor_of b.actor;
              changes = changes_of b.changes;
              created_at = sys.now;
            }))
          × (after.0.staged.file ≡ none)
          × (after.1
              ≡ ok (record {
                commit_id = id';
                revision_id = id;
                status = "committed";
                timestamp = sys'.now;
              })))
configure_commit-Live sys sys' id id' b actor s w w' =
    let (r, answer, named, staged) = configure_reply-ok sys id b s w in
    (
      r,
      answer,
      commit-active sys' id' actor r.revision_id (handle_configure sys post (some b) s).0 _ w'
          staged (inr named),
    )

limit_pos : (o : Option ℤ) → 1 ≤ limit_of_number o
unfolding limit_of_number
limit_pos none = omega arith
limit_pos (some (negsuc n)) = omega arith
limit_pos (some (pos zero)) = omega arith
limit_pos (some (pos (suc n))) = omega arith

limit_of-pos : (v : String) → 1 ≤ limit_of v
unfolding limit_of
limit_of-pos v = ground (arith, limit_pos (atoi v))

-- A GET of the events of a log is answered with at most as many events as the limit of the request, which is
-- at least 1, whatever text the request gives for it.
pub handle_audit-le :
    (t : Times) (lines : List Line) (q : AuditParams)
    → (events : List Event) × (handle_audit t get (log_lines lines) q ≡ answered events)
      × (length events ≤ limit_of q.limit)
      × (1 ≤ limit_of q.limit)
unfolding handle_audit audit_reply filter_of
handle_audit-le t lines q =
    let (_, _, matched, _, _, _, size) = query_lem t lines (filter_of q) in
    (
      query t (some lines) (filter_of q),
      refl,
      bounded_by (limit_of q.limit) (length matched) _ (limit_of-pos q.limit) size,
      limit_of-pos q.limit,
    )
  where
    bounded_by :
        (limit n m : ℕ) → 1 ≤ limit → m ≡ (if eqb limit 0 then n else min limit n) → m ≤ limit
    bounded_by limit n m p e = ground arith
