-- ===== src/Config/Loading.antt =====
-- Which configurations a load gives, and with which error.
use crispy_garbanzo.Base.{
  ℕ, String, false, Option, none, some, ◌==◌, ◌≡◌, ◌≢◌, ◌⊎◌, ◌↔◌, inl, inr, refl, arith, eq_iff,
  Bool-cases, ℤ, pos, negsuc,
}
use crispy_garbanzo.Config.{
  Config, defaults, Invalid, is_negative, validate, Contents, missing, unreadable, contents,
  Decoded, filled, refused, LoadError, read_error, parse_error, invalid, validated, decoded,
  load_contents, load,
}

-- A time in seconds that is not negative.
abbrev pub IsSpan : ℤ → Type 0
IsSpan z = (n : ℕ) × (z ≡ pos n)

-- What the services need of a configuration.
pub record IsValid (cfg : Config) : Type 0 where
  pub gateway_listens : cfg.gateway.listen ≢ ""
  pub admin_listens : cfg.admin_api.listen ≢ ""
  pub reads : IsSpan cfg.gateway.read_timeout
  pub writes : IsSpan cfg.gateway.write_timeout
  pub has_agents : cfg.files.agents ≢ ""
  pub has_policy : cfg.files.policy ≢ ""
  pub has_audit : cfg.files.audit ≢ ""

is_negative_iff : (z : ℤ) → (is_negative z ≡ false) ↔ IsSpan z
unfolding is_negative
is_negative_iff (pos n) = (λ e. (n, refl), λ s. refl)
is_negative_iff (negsuc n) = (λ e. ground arith, λ (k, e). ground (arith, e))

validate-IsValid : (cfg : Config) → validate cfg ≡ none → IsValid cfg
unfolding validate
validate-IsValid cfg e = record {
  gateway_listens = ground (arith, eq_iff cfg.gateway.listen "");
  admin_listens = ground (arith, eq_iff cfg.admin_api.listen "");
  reads = (is_negative_iff cfg.gateway.read_timeout).0 (ground arith);
  writes = (is_negative_iff cfg.gateway.write_timeout).0 (ground arith);
  has_agents = ground (arith, eq_iff cfg.files.agents "");
  has_policy = ground (arith, eq_iff cfg.files.policy "");
  has_audit = ground (arith, eq_iff cfg.files.audit "");
}

IsValid-validate : (cfg : Config) → IsValid cfg → validate cfg ≡ none
unfolding validate
IsValid-validate cfg v = ground (
  arith,
  eq_iff cfg.gateway.listen "",
  eq_iff cfg.admin_api.listen "",
  (is_negative_iff cfg.gateway.read_timeout).1 v.reads,
  (is_negative_iff cfg.gateway.write_timeout).1 v.writes,
  eq_iff cfg.files.agents "",
  eq_iff cfg.files.policy "",
  eq_iff cfg.files.audit "",
)

-- How a load ends: with the defaults, or with what the decoder filled in, if that is valid; and with an
-- error otherwise.
abbrev pub Loaded :
    (String → Contents) → (String → Config → Decoded) → String → Config × Option LoadError → Type 0
Loaded read_file decode path (cfg, none) =
    IsValid cfg
    × ((((path ≡ "") ⊎ (read_file path ≡ missing)) × (cfg ≡ defaults))
        ⊎ ((path ≢ "")
            × ((text : String) × (read_file path ≡ contents text)
                × (decode text defaults ≡ filled cfg))))
Loaded read_file decode path (cfg, some read_error) =
    (path ≢ "") × (read_file path ≡ unreadable) × (cfg ≡ defaults)
Loaded read_file decode path (cfg, some parse_error) =
    (path ≢ "")
    × ((text : String) × (read_file path ≡ contents text) × (decode text defaults ≡ refused cfg))
Loaded read_file decode path (cfg, some (invalid e)) =
    (path ≢ "")
    × ¬ IsValid cfg
    × ((text : String) × (read_file path ≡ contents text)
        × (decode text defaults ≡ filled cfg)
        × (validate cfg ≡ some e))

defaults-IsValid : IsValid defaults
unfolding validate
defaults-IsValid = validate-IsValid defaults refl

module _ (read_file : String → Contents) (decode : String → Config → Decoded) (path : String) where
  validated-Loaded :
      (cfg : Config) (text : String) (o : Option Invalid)
      → path ≢ ""
      → read_file path ≡ contents text
      → decode text defaults ≡ filled cfg
      → validate cfg ≡ o
      → Loaded read_file decode path (validated cfg o)
  unfolding validated
  validated-Loaded cfg text none n e f v = (validate-IsValid cfg v, inr (n, (text, e, f)))
  validated-Loaded cfg text (some i) n e f v =
      (n, (λ w. ground (arith, IsValid-validate cfg w)), (text, e, f, v))

  decoded-Loaded :
      (text : String) (d : Decoded)
      → path ≢ ""
      → read_file path ≡ contents text
      → decode text defaults ≡ d
      → Loaded read_file decode path (decoded d)
  unfolding decoded
  decoded-Loaded text (filled cfg) n e f = validated-Loaded cfg text (validate cfg) n e f refl
  decoded-Loaded text (refused cfg) n e f = (n, (text, e, f))

  contents-Loaded :
      (c : Contents)
      → path ≢ ""
      → read_file path ≡ c
      → Loaded read_file decode path (load_contents read_file decode c)
  unfolding load_contents
  contents-Loaded missing n e = (defaults-IsValid, inl (inr e, refl))
  contents-Loaded unreadable n e = (n, e, refl)
  contents-Loaded (contents text) n e = decoded-Loaded text (decode text defaults) n e refl

  -- A load without an error gives a valid configuration: the defaults, if no path is given or the file is missing,
  -- and otherwise what the decoder fills into the defaults. It fails exactly in the other cases: with the
  -- defaults if the file cannot be read, with what the decoder left if it refuses the text, and with what it
  -- filled in if that is not valid.
  pub load-Loaded : Loaded read_file decode path (load read_file decode path)
  unfolding load
  load-Loaded = elim (Bool-cases (path == "")) [
    | inl e ↦ rw e (defaults-IsValid, inl (inl ((eq_iff path "").0 e), refl))
    | inr n ↦ rw n (contents-Loaded (read_file path) (ground (arith, eq_iff path "")) refl)
  ]
