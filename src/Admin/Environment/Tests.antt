-- ===== src/Admin/Environment/Tests.antt =====
-- The signal and the Booleans, at a few texts.
use crispy_garbanzo.Base.{true, false, none, some, [], ◌∷◌, ◌≡◌, refl, pos}
use crispy_garbanzo.Admin.Environment.{signal_gateway, getenv_bool}

two_gateways : signal_gateway (some "41 x 7\n") ≡ pos 41 ∷ pos 7 ∷ []
unfolding signal_gateway
two_gateways = refl

no_gateway : signal_gateway none ≡ []
unfolding signal_gateway
no_gateway = refl

off : getenv_bool "F" true ≡ false
unfolding getenv_bool
off = refl

neither : getenv_bool "off" true ≡ true
unfolding getenv_bool
neither = refl
