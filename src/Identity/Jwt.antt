-- ===== src/Identity/Jwt.antt =====
-- internal/identity/jwt.go. HMAC-SHA256, base64url and JSON come from Go's standard library and are
-- the parameter `Codec`; a byte slice is a text.
pub mod Verification
use crispy_garbanzo.Base.{
  ℕ, String, ◌<>◌, Bool, true, false, ◌&&◌, not, Option, none, some, List, [], ◌∷◌, ◌==◌,
  if◌then◌else◌, ltb, length, split_n, ℤ, pos, negsuc,
}

pub record Claims : Type 0 where
  pub agent_id : String
  pub team_id : String
  pub project_id : String
  pub environment : String
  pub exp : ℤ
  pub iat : ℤ

pub record Codec : Type 0 where
  -- the hash of a text under a key
  pub hmac_sha256 : String → String → String
  pub base64_encode : String → String
  pub base64_decode : String → Option String
  -- the `alg` of a header, and the claims, as `json.Unmarshal` reads them
  pub parse_alg : String → Option String
  pub parse_claims : String → Option Claims
  pub marshal_claims : Claims → String

pub data JwtError : Type 0 where
  wrong_parts : ℕ → JwtError
  bad_header_encoding bad_header : JwtError
  unsupported_algorithm : String → JwtError
  bad_signature_encoding invalid_signature bad_claims_encoding bad_claims token_expired : JwtError
  missing_agent_id : JwtError

pub data Result {ℓ} (A : Type ℓ) : Type ℓ where
  ok : A → Result A
  err : JwtError → Result A

-- an early return, if the test holds
abbrev pub reject_if : Bool → JwtError → Result (Unit {0})
reject_if true e = err e
reject_if false e = ok tt

-- a call that returns a value and an error
abbrev pub or_fail {ℓ} : {A : Type ℓ} → Option A → JwtError → Result A
or_fail none e = err e
or_fail (some a) e = ok a

-- what a function does after each early return
abbrev pub ◌>>=◌ {ℓ κ} : {A : Type ℓ} {B : Type κ} → Result A → (A → Result B) → Result B
(err failure) >>= next = err failure
(ok value) >>= next = next value

abbrev pub ◌>>◌ {κ} : {B : Type κ} → Result (Unit {0}) → Result B → Result B
first >> second = first >>= λ _. second

infixl 5 ◌>>=◌ ◌>>◌
-- `claims.Exp > 0 && now > claims.Exp`
unfoldable pub is_expired : ℤ → ℕ → Bool
is_expired (pos exp) now = ltb 0 exp && ltb exp now
is_expired (negsuc n) now = false

module _ (c : Codec) where
  unfoldable pub verify_parts : String → String → String → String → ℕ → Result Claims
  unfolding is_expired
  verify_parts header payload signature secret now = do
    header_json ← or_fail (c.base64_decode header) bad_header_encoding
    alg ← or_fail (c.parse_alg header_json) bad_header
    reject_if (not (alg == "HS256")) (unsupported_algorithm alg)
    let expected = c.hmac_sha256 (header <> ("." <> payload)) secret
    got ← or_fail (c.base64_decode signature) bad_signature_encoding
    reject_if (not (expected == got)) invalid_signature
    claims_json ← or_fail (c.base64_decode payload) bad_claims_encoding
    claims ← or_fail (c.parse_claims claims_json) bad_claims
    reject_if (is_expired claims.exp now) token_expired
    reject_if (claims.agent_id == "") missing_agent_id
    ok claims

  unfoldable pub verify_split : List String → String → ℕ → Result Claims
  unfolding verify_parts
  verify_split (header ∷ payload ∷ signature ∷ []) secret now =
      verify_parts header payload signature secret now
  verify_split parts secret now = err (wrong_parts (length parts))

  -- `now` is the Unix time in seconds
  unfoldable pub verify_jwt : String → String → ℕ → Result Claims
  unfolding verify_split
  verify_jwt token secret now = verify_split (split_n 2 b'.' token) secret now

  unfoldable pub sign_jwt : Claims → String → String
  sign_jwt claims secret =
      let header = c.base64_encode "{\"alg\":\"HS256\",\"typ\":\"JWT\"}" in
      let payload = c.base64_encode (c.marshal_claims claims) in
      let signing_input = header <> ("." <> payload) in
      signing_input <> ("." <> c.base64_encode (c.hmac_sha256 signing_input secret))
