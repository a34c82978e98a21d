-- ===== src/Base/Files/Laws.antt =====
-- A save replaces the whole file or leaves it as it was.
use mathlib.Core.Path.{◌≡◌}
use mathlib.Core.Bool.{Bool, true, false}
use mathlib.Core.Option.{Option, none, some}
use native.Mathlib.Omega.{arith}
use crispy_garbanzo.Base.Tests.{if◌then◌else◌}
use crispy_garbanzo.Base.Files.{parsed, Disk, Faults, save_atomic, read_back}

abbrev pub is_none {ℓ} : {A : Type ℓ} → Option A → Bool
is_none none = true
is_none (some a) = false

module _ {ℓ} {A : Type ℓ} (f : Faults A) (a : A) (d : Disk A) where
  pub read_back-save_atomic :
      read_back (save_atomic f a d).0
      ≡ (if is_none (save_atomic f a d).1 then parsed a else read_back d)
  unfolding save_atomic read_back
  read_back-save_atomic = ground arith
