-- ===== src/Opmode/Store/Machine.antt =====
-- The store as a machine with a staged and an active revision, of which the two files are the details.
use crispy_garbanzo.Base.{
  String, Option, none, some, List, [], ◌∷◌, ◌≡◌, inl, inr, refl, sym, ap, subst, Disk, Any,
}
use crispy_garbanzo.Base.Value.{Fields}
use crispy_garbanzo.Opmode.Revisions.{Revision, Store, System, Result, ok, err, Response}
use crispy_garbanzo.Opmode.Store.{configure, commit}
use crispy_garbanzo.Opmode.Store.Commit.{Outcome, commit-Outcome}
use crispy_garbanzo.Opmode.Store.Configure.{Configured, configure-Configured}

-- What a client of the store sees.
pub record View : Type 0 where
  pub staged : Option Revision
  pub active : Option Revision

abbrev pub view : Store → View
view s = record { staged = s.staged.file; active = s.active.file }

-- A call of the store, with what the system answers to it.
pub data Call : Type 0 where
  configure_call : System → String → Fields → Call
  commit_call : System → String → String → Call

-- A revision is the one that a call submits: its actor and changes, and the id that was drawn.
abbrev pub Submits : Revision → Call → Type 0
Submits rev (configure_call sys actor changes) =
    (rev.actor ≡ actor) × (rev.changes ≡ changes) × (sys.new_id ≡ some rev.revision_id)
Submits rev (commit_call sys actor expected) = ⊥

-- The machine stages a revision that is submitted, makes the staged one active, and forgets the staged one once it is active.
pub data Step (P : Revision → Type 0) : View → View → Type 0 where
  stage : {v : View} → (rev : Revision) → P rev → Step P v (record v { staged = some rev })
  activate :
      {v : View} {rev : Revision} → v.staged ≡ some rev → Step P v (record v { active = some rev })
  finish :
      {v : View} {rev : Revision}
      → v.staged ≡ some rev
      → v.active ≡ some rev
      → Step P v (record v { staged = none })

pub data Steps (P : Revision → Type 0) : View → View → Type 0 where
  here : {v : View} → Steps P v v
  next : {u v w : View} → Step P u v → Steps P v w → Steps P u w

unfoldable pub call : Call → Store → Store
unfolding configure commit
call (configure_call sys actor changes) s = (configure sys actor changes s).0
call (commit_call sys actor expected) s = (commit sys actor expected s).0

unfoldable pub run : List Call → Store → Store
unfolding call
run [] s = s
run (c ∷ calls) s = run calls (call c s)

Step-map :
    {P Q : Revision → Type 0} {u v : View} → ((r : Revision) → P r → Q r) → Step P u v → Step Q u v
Step-map f (stage rev p) = stage rev (f rev p)
Step-map f (activate e) = activate e
Step-map f (finish e e') = finish e e'

Steps-map :
    {P Q : Revision → Type 0} {u v : View}
    → ((r : Revision) → P r → Q r)
    → Steps P u v
    → Steps Q u v
Steps-map f here = here
Steps-map f (next st r) = next (Step-map f st) (Steps-map f r)

Steps-append : {P : Revision → Type 0} {u v w : View} → Steps P u v → Steps P v w → Steps P u w
Steps-append here s = s
Steps-append (next st r) s = next st (Steps-append r s)

view_path :
    {v : View} {st ac : Option Revision}
    → v.staged ≡ st
    → v.active ≡ ac
    → v ≡ record { staged = st; active = ac }
view_path e f = λ i. record { staged = e i; active = f i }

module _ (P : Revision → Type 0) where
  -- the same view, given its two parts
  same :
      (s s' : Store)
      → s'.staged.file ≡ s.staged.file
      → s'.active.file ≡ s.active.file
      → Steps P (view s) (view s')
  same s s' e f = subst (Steps P (view s)) (sym (view_path e f)) here

  staged_new :
      (s s' : Store) (rev : Revision)
      → P rev
      → s'.staged.file ≡ some rev
      → s'.active.file ≡ s.active.file
      → Steps P (view s) (view s')
  staged_new s s' rev p e f =
      subst (Steps P (view s)) (sym (view_path e f)) (next (stage rev p) here)

  active_new :
      (s s' : Store) (rev : Revision)
      → s.staged.file ≡ some rev
      → s'.staged.file ≡ s.staged.file
      → s'.active.file ≡ some rev
      → Steps P (view s) (view s')
  active_new s s' rev h e f =
      subst (Steps P (view s)) (sym (view_path e f)) (next (activate h) here)

  finished :
      (s s' : Store) (rev : Revision)
      → s.staged.file ≡ some rev
      → s'.staged.file ≡ none
      → s'.active.file ≡ some rev
      → Steps P (view s) (view s')
  finished s s' rev h e f =
      subst (Steps P (view s)) (sym (view_path e f)) (next (activate h) (next (finish h refl) here))

file_of : {d d' : Disk Revision} → d ≡ d' → d.file ≡ d'.file
file_of e = ap (λ (d : Disk Revision). d.file) e

configure-Steps :
    (sys : System) (actor : String) (changes : Fields) (s : Store) (r : Store × Result Response)
    → Configured sys actor changes s r
    → Steps (λ rev. Submits rev (configure_call sys actor changes)) (view s) (view r.0)
configure-Steps sys actor changes s (s', ok r) (staged, drawn, active, _, _) =
    staged_new _ s s' _ (refl, refl, drawn) staged (file_of active)
configure-Steps sys actor changes s (s', err e) (active, _, inl kept) =
    same _ s s' kept (file_of active)
configure-Steps sys actor changes s (s', err e) (active, _, inr (id, drawn, staged)) =
    staged_new _ s s' _ (refl, refl, drawn) staged (file_of active)

commit-Steps :
    (sys : System) (actor expected : String) (s : Store) (r : Store × Result Response)
    → Outcome sys actor expected s r
    → Steps (λ rev. Submits rev (commit_call sys actor expected)) (view s) (view r.0)
commit-Steps sys actor expected s (s', ok r) c = elim c.unstaged [
  | inl gone' ↦ finished _ s s' c.rev c.was_staged gone' c.now_active
  | inr (_, kept) ↦ active_new _ s s' c.rev c.was_staged (file_of kept) c.now_active
]
commit-Steps sys actor expected s (s', err e) c = elim c.active_whole [
  | inl old ↦ same _ s s' (file_of c.staged_kept) old
  | inr (rev, staged, new) ↦ active_new _ s s' rev staged (file_of c.staged_kept) new
]

call-Steps : (c : Call) (s : Store) → Steps (λ rev. Submits rev c) (view s) (view (call c s))
unfolding call
call-Steps (configure_call sys actor changes) s =
    configure-Steps sys actor changes s (configure sys actor changes s)
      (configure-Configured sys actor changes s)
call-Steps (commit_call sys actor expected) s =
    commit-Steps sys actor expected s (commit sys actor expected s)
      (commit-Outcome sys actor expected s)

-- Whatever calls are made of the store and whatever fails in them, what a client sees moves as the machine
-- does: only revisions that one of the calls submits are staged, a revision becomes active only while it
-- is staged, and the staged one is forgotten only once it is active.
pub run-Steps :
    (calls : List Call) (s : Store)
    → Steps (λ rev. Any (Submits rev) calls) (view s) (view (run calls s))
unfolding run
run-Steps [] s = here
run-Steps (c ∷ calls) s =
    Steps-append (Steps-map (λ rev p. inl p) (call-Steps c s))
      (Steps-map (λ rev p. inr p) (run-Steps calls (call c s)))
