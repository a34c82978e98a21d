-- ===== src/Opmode/Store/Configure.antt =====
-- What a configure does, on every outcome of the system's calls.
use crispy_garbanzo.Base.{String, Option, none, some, ◌≡◌, ◌≢◌, ◌⊎◌, inl, inr, refl, IoError, Disk}
use crispy_garbanzo.Base.Value.{Fields}
use crispy_garbanzo.Opmode.Revisions.{
  Revision, AuditEntry, Store, System, Append, appended, not_opened, torn_write, Response, Result,
  ok, err, append_line, extended, or_empty,
}
use crispy_garbanzo.Opmode.Store.{configure, log_configure, staged_as, configure_as}
use crispy_garbanzo.Opmode.Store.Commit.{save_atomic-new, save_atomic-old}

-- the entry of a configure
abbrev pub configure_entry : System → String → String → AuditEntry
configure_entry sys actor id = record {
  event = "configure";
  actor = actor;
  commit_id = "";
  revision_id = id;
  timestamp = sys.now;
}

-- staged.json after a configure that succeeds, and what one that fails leaves alone
abbrev pub Configured : System → String → Fields → Store → Store × Result Response → Type 0
Configured sys actor changes s (s', ok r) =
    (s'.staged.file
      ≡ some (record {
        revision_id = r.revision_id;
        actor = actor;
        changes = changes;
        created_at = sys.now;
      }))
    × (sys.new_id ≡ some r.revision_id)
    × (s'.active ≡ s.active)
    × (s'.commits ≡ s.commits)
    × (s'.audit ≡ some (extended (configure_entry sys actor r.revision_id) (or_empty s.audit)))
Configured sys actor changes s (s', err e) =
    (s'.active ≡ s.active)
    × (s'.commits ≡ s.commits)
    × ((s'.staged.file ≡ s.staged.file)
        ⊎ ((id : String) × (sys.new_id ≡ some id)
            × (s'.staged.file
                ≡ some (record {
                  revision_id = id;
                  actor = actor;
                  changes = changes;
                  created_at = sys.now;
                }))))

module _ (sys : System) (actor id : String) (changes : Fields) (s : Store)
    (drawn : sys.new_id ≡ some id) where
  abbrev drawn_revision : Revision
  drawn_revision = record {
    revision_id = id;
    actor = actor;
    changes = changes;
    created_at = sys.now;
  }

  log_configure-Configured :
      (append : Append) (d : Disk Revision)
      → d.file ≡ some drawn_revision
      → Configured sys actor changes s (log_configure sys append actor id (record s { staged = d }))
  unfolding log_configure append_line
  log_configure-Configured appended d h = (h, drawn, refl, refl, refl)
  log_configure-Configured not_opened d h = (refl, refl, inr (id, drawn, h))
  log_configure-Configured torn_write d h = (refl, refl, inr (id, drawn, h))

  staged_as-Configured :
      (d : Disk Revision) (failed : Option IoError)
      → (failed ≡ none → d.file ≡ some drawn_revision)
      → (failed ≢ none → d.file ≡ s.staged.file)
      → Configured sys actor changes s (staged_as sys actor id (record s { staged = d }) failed)
  unfolding staged_as
  staged_as-Configured d none h old = log_configure-Configured sys.append_audit d (h refl)
  staged_as-Configured d (some e) h old = (refl, refl, inl (old (λ n. cc)))

configure_as-Configured :
    (sys : System) (actor : String) (changes : Fields) (s : Store) (id : Option String)
    → sys.new_id ≡ id
    → Configured sys actor changes s (configure_as sys actor changes s id)
unfolding configure_as
configure_as-Configured sys actor changes s none e = (refl, refl, inl refl)
configure_as-Configured sys actor changes s (some id) e =
    staged_as-Configured sys actor id changes s e _ _
      (save_atomic-new sys.replace (drawn_revision sys actor id changes s e) s.staged)
      (save_atomic-old sys.replace (drawn_revision sys actor id changes s e) s.staged)

-- Whatever the system's calls do: a configure that succeeds stages exactly the given changes of the
-- actor, under the new id that it answers, and adds its entry to audit.log; one that fails leaves staged.json as it was or with these
-- changes; and one that succeeds or fails leaves the active revision and the history as they were.
pub configure-Configured :
    (sys : System) (actor : String) (changes : Fields) (s : Store)
    → Configured sys actor changes s (configure sys actor changes s)
unfolding configure
configure-Configured sys actor changes s =
    configure_as-Configured sys actor changes s sys.new_id refl
