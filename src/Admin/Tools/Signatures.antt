-- ===== src/Admin/Tools/Signatures.antt =====
-- Which bundles "/v1/policy/verify" takes.
use crispy_garbanzo.Base.{
  String, true, some, List, ◌==◌, ◌≡◌, ◌≢◌, ◌⊎◌, ◌↔◌, inl, inr, refl, arith, eq_iff, Bool-cases,
}
use crispy_garbanzo.Policy.Rule.{Rule}
use crispy_garbanzo.Policy.Signing.{SignedBundle, sign_bundle, verify_bundle}
use crispy_garbanzo.Admin.Resource.{post}
use crispy_garbanzo.Admin.Operate.{answered}
use crispy_garbanzo.Admin.Tools.{sign_secret, handle_sign, handle_verify, verify_body}

-- The key that signs: that of the environment, and the one that the source names where there is none.
abbrev pub SigningKey : String → String → Type 0
SigningKey env key =
    ((env ≢ "") × (key ≡ env)) ⊎ ((env ≡ "") × (key ≡ "clawgress-default-sign-key"))

sign_secret-SigningKey : (env : String) → SigningKey env (sign_secret env)
unfolding sign_secret
sign_secret-SigningKey env = elim (Bool-cases (env == "")) [
  | inl e ↦ inr ((eq_iff env "").0 e, rw e)
  | inr n ↦ inl ((λ e. ground (arith, eq_iff env "")), rw n)
]

verify_body_iff :
    (hmac_hex : String → String → String) (marshal : List Rule → String) (env : String)
    (b : SignedBundle)
    → (verify_body hmac_hex marshal env (some b) ≡ answered true)
      ↔ (hmac_hex (marshal b.rules) (sign_secret env) ≡ b.signature)
unfolding verify_body verify_bundle
verify_body_iff hmac_hex marshal env b =
    ground (arith, eq_iff (hmac_hex (marshal b.rules) (sign_secret env)) b.signature)

-- A bundle is answered as valid exactly if its signature is the HMAC of its rules under the signing key, which
-- without one in the environment is the one that stands in the source; and what "/v1/policy/sign"
-- answers under an environment, "/v1/policy/verify" takes under the same one.
pub handle_verify_iff :
    (hmac_hex : String → String → String) (marshal : List Rule → String) (env now : String)
    (b : SignedBundle) (rules : List Rule)
    → ((key : String) × SigningKey env key
        × ((handle_verify hmac_hex marshal post env (some b) ≡ answered true)
            ↔ (hmac_hex (marshal b.rules) key ≡ b.signature)))
      × ((signed : SignedBundle) × (handle_sign hmac_hex marshal post env now rules
            ≡ answered signed)
          × (handle_verify hmac_hex marshal post env (some signed) ≡ answered true))
unfolding handle_verify handle_sign sign_bundle
handle_verify_iff hmac_hex marshal env now b rules =
    let signed = sign_bundle hmac_hex marshal now rules (sign_secret env) in
    (
      (sign_secret env, sign_secret-SigningKey env, verify_body_iff hmac_hex marshal env b),
      (signed, refl, (verify_body_iff hmac_hex marshal env signed).1 signature),
    )
  where
    signature :
        hmac_hex
          (marshal (sign_bundle hmac_hex marshal now rules (sign_secret env)).rules)
          (sign_secret env)
        ≡ (sign_bundle hmac_hex marshal now rules (sign_secret env)).signature
    signature = refl
