-- ===== src/Policy/Signing.antt =====
-- internal/policy/signing.go: signed bundles of rules. The HMAC in hexadecimal digits, a function of a text
-- and a key, and the JSON of the rules are arguments.
pub mod Bundles
use crispy_garbanzo.Base.{
  ℕ, String, Bool, true, false, Option, none, some, List, ◌==◌, if◌then◌else◌, ReadResult,
  not_exist, unreadable, malformed, parsed, IoError, read_failed, parse_failed, Disk, Faults,
  save_atomic,
}
use crispy_garbanzo.Policy.Rule.{Rule}

pub record SignedBundle : Type 0 where
  pub rules : List Rule
  pub signature : String
  pub signed_at : String
  pub version : ℕ

pub data LoadError : Type 0 where
  file_error : IoError → LoadError
  signature_mismatch : LoadError

pub data Loaded : Type 0 where
  ok : List Rule → Loaded
  err : LoadError → Loaded

module _ (hmac_hex : String → String → String) (marshal : List Rule → String) where
  unfoldable pub sign_bundle : String → List Rule → String → SignedBundle
  sign_bundle now rules secret = record {
    rules = rules;
    signature = hmac_hex (marshal rules) secret;
    signed_at = now;
    version = 1;
  }

  -- whether there is no error
  unfoldable pub verify_bundle : SignedBundle → String → Bool
  verify_bundle bundle secret = hmac_hex (marshal bundle.rules) secret == bundle.signature

  unfoldable pub save_signed_bundle :
      Faults SignedBundle → SignedBundle → Disk SignedBundle → Disk SignedBundle × Option IoError
  unfolding save_atomic
  save_signed_bundle f bundle d = save_atomic f bundle d

  unfoldable pub load_signed_bundle : ReadResult SignedBundle → String → Loaded
  unfolding verify_bundle
  load_signed_bundle not_exist secret = err (file_error read_failed)
  load_signed_bundle unreadable secret = err (file_error read_failed)
  load_signed_bundle malformed secret = err (file_error parse_failed)
  load_signed_bundle (parsed bundle) secret =
      if verify_bundle bundle secret then ok bundle.rules else err signature_mismatch
