-- ===== src/Ctl/Token/Accepted.antt =====
-- The gateway takes the tokens that the command line client prints.
use crispy_garbanzo.Base.{ℕ, String, false, ◌==◌, ◌≡◌, ◌≢◌}
use crispy_garbanzo.Identity.Jwt
use crispy_garbanzo.Identity.Jwt.{Codec, sign_jwt}
use crispy_garbanzo.Gateway.Handler.{Gateway}
use crispy_garbanzo.Ctl.Token.{TokenFlags, claims_of}

record Printed (c : Codec) (f : TokenFlags) (now : ℕ) (token : String) : Type 0 where
  named : f.agent_id ≢ ""
  keyed : f.secret == "" ≡ false
  signed : sign_jwt c (claims_of f now) f.secret ≡ token
