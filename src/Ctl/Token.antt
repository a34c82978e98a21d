-- ===== src/Ctl/Token.antt =====
-- cmd/clawgressctl/main.go: runToken, after its flags are parsed.
pub mod Accepted
mod Tests
use crispy_garbanzo.Base.{
  ℕ, ◌+◌, ◌-◌, ◌/◌, String, Bool, ◌||◌, Option, none, some, ◌==◌, if◌then◌else◌, leb, ℤ, pos,
  negsuc,
}
use crispy_garbanzo.Identity.Jwt.{Claims, Codec, sign_jwt}

-- the time to live in nanoseconds
pub record TokenFlags : Type 0 where
  pub agent_id : String
  pub team_id : String
  pub project_id : String
  pub environment : String
  pub secret : String
  pub ttl : ℤ

-- `now.Add(ttl).Unix()`, of a time in nanoseconds since 1970: whole seconds, rounded down
unfoldable pub unix_after : ℕ → ℤ → ℤ
unix_after now (pos n) = pos ((now + n) / 1000000000)
unix_after now (negsuc n) =
    if leb (n + 1) now then pos ((now - (n + 1)) / 1000000000) else negsuc ((n - now) / 1000000000)

unfoldable pub claims_of : TokenFlags → ℕ → Claims
unfolding unix_after
claims_of f now = record {
  agent_id = f.agent_id;
  team_id = f.team_id;
  project_id = f.project_id;
  environment = f.environment;
  exp = unix_after now f.ttl;
  iat = pos (now / 1000000000);
}

-- the token that is printed, `none` for the usage
unfoldable pub run_token : Codec → TokenFlags → ℕ → Option String
unfolding claims_of sign_jwt
run_token c f now =
    if f.agent_id == "" || f.secret == ""
    then none
    else some (sign_jwt c (claims_of f now) f.secret)
