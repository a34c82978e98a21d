-- ===== src/Opmode/Revisions.antt =====
-- internal/opmode/store.go: the data of the store of revisions, its files of JSON lines, and what the system answers
-- to one operation.
use crispy_garbanzo.Base.{
  String, ℕ, Bool, true, false, Option, none, some, List, [], ◌∷◌, ◌++◌, if◌then◌else◌, IoError,
  Disk, Faults,
}
use crispy_garbanzo.Base.Value.{Fields}

pub record Revision : Type 0 where
  pub revision_id : String
  pub actor : String
  pub changes : Fields
  pub created_at : ℕ

pub record CommitRecord : Type 0 where
  pub commit_id : String
  pub revision_id : String
  pub actor : String
  pub committed : ℕ

pub record AuditEntry : Type 0 where
  pub event : String
  pub actor : String
  -- empty for a configure, which has none
  pub commit_id : String
  pub revision_id : String
  pub timestamp : ℕ

-- A file of JSON lines: its whole lines, one that does not parse being `none`, and whether a part of a
-- line, which does not parse, stands after them.
pub record JsonLines (A : Type 0) : Type 0 where
  pub lines : List (Option A)
  pub torn : Bool

pub record Store : Type 0 where
  pub staged : Disk Revision
  pub active : Disk Revision
  -- absent until the first commit
  pub commits : Option (JsonLines CommitRecord)
  pub audit : Option (JsonLines AuditEntry)

-- how an append goes: a write that fails may leave a part of the line
pub data Append : Type 0 where
  appended not_opened torn_write : Append

-- how `os.Remove` goes
pub data Removal : Type 0 where
  removed gone not_removed : Removal

-- what the system answers to one operation
pub record System : Type 0 where
  pub now : ℕ
  pub new_id : Option String
  pub staged_readable : Bool
  pub replace : Faults Revision
  pub append_commit : Append
  pub append_audit : Append
  pub removal : Removal

pub data Error : Type 0 where
  no_staged_revision revision_mismatch no_random_id remove_failed : Error
  io : IoError → Error

pub record Response : Type 0 where
  pub commit_id : String
  pub revision_id : String
  pub status : String
  pub timestamp : ℕ

pub data Result (A : Type 0) : Type 0 where
  ok : A → Result A
  err : Error → Result A

-- a complete line after what the file holds: text left behind becomes part of it, and spoils it
unfoldable pub extended : {A : Type 0} → A → JsonLines A → JsonLines A
extended a l = record { lines = l.lines ++ (if l.torn then none else some a) ∷ []; torn = false }

unfoldable pub or_empty : {A : Type 0} → Option (JsonLines A) → JsonLines A
or_empty none = record { lines = []; torn = false }
or_empty (some l) = l

-- the file after an append, and whether the append succeeds
unfoldable pub append_line :
    {A : Type 0} → Append → A → Option (JsonLines A) → Option (JsonLines A) × Bool
unfolding extended or_empty
append_line appended a file = (some (extended a (or_empty file)), true)
append_line not_opened a file = (file, false)
append_line torn_write a file = (some (record (or_empty file) { torn = true }), false)
