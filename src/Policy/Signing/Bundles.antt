-- ===== src/Policy/Signing/Bundles.antt =====
-- What a signed bundle proves, through its file.
use crispy_garbanzo.Base.{
  String, true, none, List, ◌==◌, if◌then◌else◌, ◌≡◌, ◌↔◌, ◌∙◌, ap, sym, refl, arith, eq_iff,
  ReadResult, not_exist, unreadable, malformed, parsed, Disk, Faults, read_back,
}
use crispy_garbanzo.Policy.Rule.{Rule}
use crispy_garbanzo.Policy.Signing.{
  SignedBundle, ok, err, signature_mismatch, sign_bundle, verify_bundle, save_signed_bundle,
  load_signed_bundle,
}

module _ (hmac_hex : String → String → String) (marshal : List Rule → String) where
  -- the bundle of a file, whose signature is the hash of its rules
  abbrev pub IsSigned : ReadResult SignedBundle → String → List Rule → Type 0
  IsSigned file secret rules =
      (b : SignedBundle) × (file ≡ parsed b)
      × (b.rules ≡ rules)
      × (hmac_hex (marshal rules) secret ≡ b.signature)

  loaded :
      (file : ReadResult SignedBundle) (secret : String) (rules : List Rule)
      → load_signed_bundle hmac_hex marshal file secret ≡ ok rules
      → IsSigned file secret rules
  unfolding load_signed_bundle verify_bundle
  loaded not_exist secret rules h = cc
  loaded unreadable secret rules h = cc
  loaded malformed secret rules h = cc
  loaded (parsed b) secret rules h =
      let good : (hmac_hex (marshal b.rules) secret == b.signature) ≡ true = ground arith in
      let same : b.rules ≡ rules = ground arith in
      (b, refl, same, ap (λ t. hmac_hex (marshal t) secret) (sym same) ∙ (eq_iff _ _).0 good)

  loads :
      (file : ReadResult SignedBundle) (secret : String) (rules : List Rule)
      → IsSigned file secret rules
      → load_signed_bundle hmac_hex marshal file secret ≡ ok rules
  unfolding load_signed_bundle verify_bundle
  loads file secret rules (b, e, same, signed) =
      let good : (hmac_hex (marshal b.rules) secret == b.signature) ≡ true =
        (eq_iff _ _).1 (ap (λ t. hmac_hex (marshal t) secret) same ∙ signed) in
      rw (e, load_signed_bundle) (rw good (ap ok same))

  saved_bundle :
      (f : Faults SignedBundle) (d : Disk SignedBundle) (b : SignedBundle)
      → (save_signed_bundle hmac_hex marshal f b d).1 ≡ none
      → read_back (save_signed_bundle hmac_hex marshal f b d).0 ≡ parsed b
  unfolding save_signed_bundle read_back
  saved_bundle f d b h = ground arith

-- Rules are loaded from a file exactly if it holds a bundle of these rules with their hash under the secret
-- as its signature.
pub load_signed_bundle_iff :
    (hmac_hex : String → String → String) (marshal : List Rule → String)
    (file : ReadResult SignedBundle) (secret : String) (rules : List Rule)
    → (load_signed_bundle hmac_hex marshal file secret ≡ ok rules)
      ↔ IsSigned hmac_hex marshal file secret rules
load_signed_bundle_iff hmac_hex marshal file secret rules =
    (loaded hmac_hex marshal file secret rules, loads hmac_hex marshal file secret rules)

-- Rules that are signed, and saved without an error, are loaded under the same secret; under another one
-- they are loaded exactly if the two secrets give the rules one hash.
pub load-save_signed_bundle :
    (hmac_hex : String → String → String) (marshal : List Rule → String) (f : Faults SignedBundle)
    (d : Disk SignedBundle) (now secret other : String) (rules : List Rule)
    → (save_signed_bundle hmac_hex marshal f (sign_bundle hmac_hex marshal now rules secret) d).1
      ≡ none
    → load_signed_bundle hmac_hex marshal
        (read_back
          (save_signed_bundle hmac_hex marshal f
            (sign_bundle hmac_hex marshal now rules secret)
            d).0)
        other
      ≡ (if hmac_hex (marshal rules) other == hmac_hex (marshal rules) secret
          then ok rules
          else err signature_mismatch)
unfolding load_signed_bundle sign_bundle
load-save_signed_bundle hmac_hex marshal f d now secret other rules h =
    rw
      (
        saved_bundle hmac_hex marshal f d (sign_bundle hmac_hex marshal now rules secret) h,
        load_signed_bundle,
      )
      refl
