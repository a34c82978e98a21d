-- ===== src/Identity/Jwt/Verification.antt =====
-- Which tokens `VerifyJWT` accepts, and that it accepts what `SignJWT` made.
use crispy_garbanzo.Base.{
  ℕ, String, ◌<>◌, Bool, true, false, not, Option, none, some, List, [], ◌∷◌, ◌≡◌, ◌≢◌, ◌↔◌, ◌∙◌,
  ap, sym, refl, arith, eq_iff, ◌≤◌, ◌⊎◌, ℤ, pos, negsuc, eq_refl, ◌==◌, contains_char, split_n,
}
use mathlib.Core.Bool.{false≢true}
use crispy_garbanzo.Base.Text.Split.{split_n_three}
use crispy_garbanzo.Identity.Jwt.{
  Claims, Codec, JwtError, Result, ok, err, ◌>>=◌, ◌>>◌, or_fail, reject_if, is_expired,
  verify_parts, verify_split, verify_jwt, sign_jwt,
}

-- Claims expire after the second that they name; 0 and times before 1970 are no limit.
abbrev pub IsCurrent : ℤ → ℕ → Type 0
IsCurrent (pos exp) now = (exp ≡ 0) ⊎ (now ≤ exp)
IsCurrent (negsuc n) now = Unit

is_expired_iff : (exp : ℤ) (now : ℕ) → (is_expired exp now ≡ false) ↔ IsCurrent exp now
unfolding is_expired
is_expired_iff (pos exp) now = ground arith
is_expired_iff (negsuc n) now = (λ e. tt, λ e. refl)

-- The three parts of a token that is accepted.
pub record IsVerified (c : Codec) (token secret : String) (now : ℕ) (claims : Claims) : Type 0 where
  pub header : String
  pub payload : String
  pub signature : String
  pub parts : split_n 2 b'.' token ≡ header ∷ payload ∷ signature ∷ []
  pub header_json : String
  pub header_decoded : c.base64_decode header ≡ some header_json
  pub algorithm : c.parse_alg header_json ≡ some "HS256"
  pub signed : c.base64_decode signature ≡ some (c.hmac_sha256 (header <> ("." <> payload)) secret)
  pub claims_json : String
  pub claims_decoded : c.base64_decode payload ≡ some claims_json
  pub claims_parsed : c.parse_claims claims_json ≡ some claims
  pub current : IsCurrent claims.exp now
  pub named : claims.agent_id ≢ ""

or_fail-ok {ℓ κ} :
    {A : Type ℓ} {B : Type κ} (o : Option A) (e : JwtError) (f : A → Result B) {b : B}
    → (or_fail o e >>= f) ≡ ok b
    → (a : A) × (o ≡ some a) × (f a ≡ ok b)
or_fail-ok none e f h = cc
or_fail-ok (some a) e f h = (a, refl, h)

reject_if-ok {ℓ} :
    {B : Type ℓ} (b : Bool) (e : JwtError) (m : Result B) {x : B}
    → (reject_if b e >> m) ≡ ok x
    → (b ≡ false) × (m ≡ ok x)
reject_if-ok true e m h = cc
reject_if-ok false e m h = (refl, h)

err-ne-ok : {e : JwtError} {claims : Claims} → err e ≡ ok claims → ⊥
err-ne-ok h = cc

not-false : (b : Bool) → not b ≡ false → b ≡ true
not-false b h = ground arith

module _ (c : Codec) (secret : String) (now : ℕ) where
  complete :
      (token : String) (claims : Claims)
      → IsVerified c token secret now claims
      → verify_jwt c token secret now ≡ ok claims
  unfolding verify_jwt
  complete token claims v =
      rw (v.parts, verify_split)
        (unfold verify_parts in
          rw
            (
              v.header_decoded,
              v.algorithm,
              v.signed,
              v.claims_decoded,
              v.claims_parsed,
              (is_expired_iff claims.exp now).1 v.current,
            )
            (ground (
              arith,
              eq_refl "HS256",
              eq_refl (c.hmac_sha256 (v.header <> ("." <> v.payload)) secret),
              eq_iff claims.agent_id "",
            )))

  sound_parts :
      (token header payload signature : String) (claims : Claims)
      → split_n 2 b'.' token ≡ header ∷ payload ∷ signature ∷ []
      → verify_parts c header payload signature secret now ≡ ok claims
      → IsVerified c token secret now claims
  unfolding verify_parts
  sound_parts token header payload signature claims parts h =
      let (header_json, header_decoded, h) = or_fail-ok (c.base64_decode header) _ _ h in
      let (alg, parsed, h) = or_fail-ok (c.parse_alg header_json) _ _ h in
      let (same_alg, h) = reject_if-ok (not (alg == "HS256")) _ _ h in
      let (got, decoded, h) = or_fail-ok (c.base64_decode signature) _ _ h in
      let (same, h) =
        reject_if-ok (not (c.hmac_sha256 (header <> ("." <> payload)) secret == got)) _ _ h in
      let (claims_json, claims_decoded, h) = or_fail-ok (c.base64_decode payload) _ _ h in
      let (claims', claims_parsed, h) = or_fail-ok (c.parse_claims claims_json) _ _ h in
      let (current, h) = reject_if-ok (is_expired claims'.exp now) _ _ h in
      let (named, h) = reject_if-ok (claims'.agent_id == "") _ _ h in
      let equal : claims' ≡ claims = cc in
      record {
        header = header;
        payload = payload;
        signature = signature;
        parts = parts;
        header_json = header_json;
        header_decoded = header_decoded;
        algorithm = parsed ∙ ap some ((eq_iff _ _).0 (not-false _ same_alg));
        signed = decoded ∙ ap some (sym ((eq_iff _ _).0 (not-false _ same)));
        claims_json = claims_json;
        claims_decoded = claims_decoded;
        claims_parsed = claims_parsed ∙ ap some equal;
        current =
            (is_expired_iff claims.exp now).0
              (sym (ap (λ (x : Claims). is_expired x.exp now) equal) ∙ current);
        named = λ e. absurd (
            false≢true (
              sym named
              ∙ (eq_iff claims'.agent_id "").1 (ap (λ (x : Claims). x.agent_id) equal ∙ e)));
      }

  sound_split :
      (token : String) (parts : List String) (claims : Claims)
      → split_n 2 b'.' token ≡ parts
      → verify_split c parts secret now ≡ ok claims
      → IsVerified c token secret now claims
  unfolding verify_split
  sound_split token [] claims e h = absurd (err-ne-ok h)
  sound_split token (p ∷ []) claims e h = absurd (err-ne-ok h)
  sound_split token (p ∷ q ∷ []) claims e h = absurd (err-ne-ok h)
  sound_split token (p ∷ q ∷ r ∷ []) claims e h =
      sound_parts token p q r claims e (unfold verify_parts in h)
  sound_split token (p ∷ q ∷ r ∷ s ∷ t) claims e h = absurd (err-ne-ok h)

-- A token is accepted with its claims exactly if it has three parts, its header decodes and names
-- HS256, its third part decodes to the HMAC of the first two under the secret, its second part
-- decodes to the claims, their expiry is 0, before 1970, or not before the present second, and they
-- name an agent.
pub verify_jwt_iff :
    (c : Codec) (token secret : String) (now : ℕ) (claims : Claims)
    → (verify_jwt c token secret now ≡ ok claims) ↔ IsVerified c token secret now claims
verify_jwt_iff c token secret now claims = (
  λ h. sound_split c secret now token (split_n 2 b'.' token) claims refl (unfold verify_jwt in h),
  complete c secret now token claims,
)

-- What the program relies on of the parts of a token with these claims: base64url has no dot and
-- decodes to what was encoded, and JSON gives the header and the claims back.
pub record IsLawful (c : Codec) (claims : Claims) (secret : String) : Type 0 where
  pub header_no_dot :
      contains_char b'.' (c.base64_encode "{\"alg\":\"HS256\",\"typ\":\"JWT\"}") ≡ false
  pub claims_no_dot : contains_char b'.' (c.base64_encode (c.marshal_claims claims)) ≡ false
  pub decode-header :
      c.base64_decode (c.base64_encode "{\"alg\":\"HS256\",\"typ\":\"JWT\"}")
      ≡ some "{\"alg\":\"HS256\",\"typ\":\"JWT\"}"
  pub decode-claims :
      c.base64_decode (c.base64_encode (c.marshal_claims claims)) ≡ some (c.marshal_claims claims)
  pub decode-hash :
      (text : String)
      → c.base64_decode (c.base64_encode (c.hmac_sha256 text secret))
        ≡ some (c.hmac_sha256 text secret)
  pub header_alg : c.parse_alg "{\"alg\":\"HS256\",\"typ\":\"JWT\"}" ≡ some "HS256"
  pub parse-marshal : c.parse_claims (c.marshal_claims claims) ≡ some claims

sign_jwt-parts :
    (c : Codec) (claims : Claims) (secret : String)
    → IsLawful c claims secret
    → let header = c.base64_encode "{\"alg\":\"HS256\",\"typ\":\"JWT\"}" in
      let payload = c.base64_encode (c.marshal_claims claims) in
      split_n 2 b'.' (sign_jwt c claims secret)
      ≡ header ∷ payload ∷ c.base64_encode (c.hmac_sha256 (header <> ("." <> payload)) secret) ∷ []
unfolding sign_jwt
sign_jwt-parts c claims secret l = split_n_three "." _ _ _ l.header_no_dot l.claims_no_dot

-- A token that `SignJWT` made is accepted under the same secret and gives the claims back, if they
-- name an agent and have not expired, with a codec that is lawful for it.
pub verify_jwt-sign_jwt :
    (c : Codec) (claims : Claims) (secret : String) (now : ℕ)
    → IsLawful c claims secret
    → claims.agent_id ≢ ""
    → is_expired claims.exp now ≡ false
    → verify_jwt c (sign_jwt c claims secret) secret now ≡ ok claims
verify_jwt-sign_jwt c claims secret now l named current =
    (verify_jwt_iff c (sign_jwt c claims secret) secret now claims).1 (record {
      header = c.base64_encode "{\"alg\":\"HS256\",\"typ\":\"JWT\"}";
      payload = c.base64_encode (c.marshal_claims claims);
      signature = c.base64_encode (
          c.hmac_sha256
            (c.base64_encode "{\"alg\":\"HS256\",\"typ\":\"JWT\"}"
              <> ("." <> c.base64_encode (c.marshal_claims claims)))
            secret);
      parts = sign_jwt-parts c claims secret l;
      header_json = "{\"alg\":\"HS256\",\"typ\":\"JWT\"}";
      header_decoded = l.decode-header;
      algorithm = l.header_alg;
      signed = l.decode-hash _;
      claims_json = c.marshal_claims claims;
      claims_decoded = l.decode-claims;
      claims_parsed = l.parse-marshal;
      current = (is_expired_iff claims.exp now).0 current;
      named = named;
    })
