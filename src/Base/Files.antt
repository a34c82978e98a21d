-- ===== src/Base/Files.antt =====
-- A JSON file as the program reads and replaces it: `os.ReadFile` with `json.Unmarshal`, and
-- `os.WriteFile` to a temporary name with `os.Rename`. What the file holds is the decoded value; the
-- outcome of each call of the operating system is an argument.
pub mod Laws
use mathlib.Core.Bool.{Bool}
use mathlib.Core.Option.{Option, none, some}
use crispy_garbanzo.Base.Tests.{if◌then◌else◌}

-- the outcome of `os.ReadFile` and `json.Unmarshal`
pub data ReadResult {ℓ} (A : Type ℓ) : Type ℓ where
  not_exist unreadable malformed : ReadResult A
  parsed : A → ReadResult A

pub data IoError : Type 0 where
  read_failed parse_failed write_failed rename_failed : IoError

-- a file and its temporary neighbour
pub record Disk {ℓ} (A : Type ℓ) : Type ℓ where
  pub file : Option A
  pub tmp : Option A

-- which calls of one save succeed; a failed write may leave any part of the text behind
pub record Faults {ℓ} (A : Type ℓ) : Type ℓ where
  pub write_ok : Bool
  pub left_behind : Option A
  pub rename_ok : Bool

module _ {ℓ} {A : Type ℓ} where
  unfoldable pub save_atomic : Faults A → A → Disk A → Disk A × Option IoError
  save_atomic f data' d =
      if f.write_ok
      then (if f.rename_ok
          then (record { file = some data'; tmp = none }, none)
          else (record d { tmp = some data' }, some rename_failed))
      else (record d { tmp = f.left_behind }, some write_failed)

  -- what a later read of the file finds
  unfoldable pub read_back : Disk A → ReadResult A
  read_back d = elim d.file [ none ↦ not_exist | some a ↦ parsed a ]
