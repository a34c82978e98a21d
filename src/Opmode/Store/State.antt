-- ===== src/Opmode/Store/State.antt =====
-- What the state shows of the operations before it.
use crispy_garbanzo.Base.{
  String, ℕ, ◌+◌, false, Option, none, some, List, [], ◌∷◌, ◌++◌, ◌≡◌, refl, ap, ◌∙◌, subst, length,
  length-append, last-concat, map,
}
use crispy_garbanzo.Opmode.Revisions.{
  Revision, CommitRecord, Store, System, Response, ok, JsonLines, or_empty, extended,
}
use crispy_garbanzo.Opmode.Store.{
  StateView, all_parsed, read_commit_history, view_of, state, state_read, StateReads, read_or_nil,
  commit,
}
use crispy_garbanzo.Opmode.Store.Commit.{record_of, Committed, Outcome, commit-Outcome}

-- a history that reads back as these records
abbrev pub History : List CommitRecord → Option (JsonLines CommitRecord) → Type 0
History commits file = ((or_empty file).lines ≡ map some commits) × ((or_empty file).torn ≡ false)

all_parsed-map : (commits : List CommitRecord) → all_parsed (map some commits) ≡ some commits
unfolding all_parsed
all_parsed-map [] = refl
all_parsed-map (c ∷ commits) = rw (all_parsed-map commits) refl

map-snoc :
    (commits : List CommitRecord) (c : CommitRecord)
    → map some commits ++ some c ∷ [] ≡ map some (commits ++ c ∷ [])
map-snoc [] c = refl
map-snoc (d ∷ commits) c = ap (λ t. some d ∷ t) (map-snoc commits c)

map-nil : (commits : List CommitRecord) → [] ≡ map some commits → commits ≡ []
map-nil [] h = refl
map-nil (c ∷ commits) h = cc

read-History :
    (reads : StateReads) (s : Store) (file : Option (JsonLines CommitRecord))
    (commits : List CommitRecord)
    → History commits file
    → state_read reads s (read_commit_history file) ≡ ok (view_of reads s commits)
unfolding or_empty state_read read_commit_history
read-History reads s none commits (lines, torn) = rw (map-nil commits lines) refl
read-History reads s (some l) commits (lines, torn) = simp (lines, torn, all_parsed-map commits)

extended-History :
    (file : Option (JsonLines CommitRecord)) (commits : List CommitRecord) (c : CommitRecord)
    → History commits file
    → History (commits ++ c ∷ []) (some (extended c (or_empty file)))
unfolding extended or_empty
extended-History file commits c (lines, torn) = (rw (lines, torn) (map-snoc commits c), refl)

-- the view after a commit of a revision
abbrev pub view_after_commit :
    StateReads → System → String → Revision → String → Store → ℕ → StateView
view_after_commit reads sys actor rev id s' n = record {
  staged = read_or_nil reads.staged_readable s'.staged.file;
  active = read_or_nil reads.active_readable (some rev);
  last_commit = some (record_of sys actor id rev);
  history_size = n + 1;
}

shown_after :
    (reads : StateReads) (sys : System) (actor expected : String) (s s' : Store) (r : Response)
    (commits : List CommitRecord)
    → History commits s.commits
    → (c : Committed sys actor expected s s' r)
    → state reads s' ≡ ok (view_after_commit reads sys actor c.rev r.commit_id s' (length commits))
unfolding state view_of
shown_after reads sys actor expected s s' r commits h c =
    let new = record_of sys actor r.commit_id c.rev in
    ap (λ t. state_read reads s' (read_commit_history t)) c.history
    ∙ read-History reads s' _ (commits ++ new ∷ []) (extended-History s.commits commits new h)
    ∙ rw (c.now_active, last-concat commits new, length-append commits (new ∷ [])) refl

-- After a commit that succeeds on a history that reads back, the state shows a revision that was staged
-- as the active one, if active.json can be read, the new record, of that revision and the actor, as the last commit, and a history
-- that is longer by one.
pub commit-state :
    (reads : StateReads) (sys : System) (actor expected : String) (s s' : Store) (r : Response)
    (commits : List CommitRecord)
    → commit sys actor expected s ≡ (s', ok r)
    → History commits s.commits
    → (rev : Revision) × (s.staged.file ≡ some rev)
      × (state reads s'
          ≡ ok (view_after_commit reads sys actor rev r.commit_id s' (length commits)))
commit-state reads sys actor expected s s' r commits e h =
    let c : Committed sys actor expected s s' r =
      subst (Outcome sys actor expected s) e (commit-Outcome sys actor expected s) in
    (c.rev, c.was_staged, shown_after reads sys actor expected s s' r commits h c)
