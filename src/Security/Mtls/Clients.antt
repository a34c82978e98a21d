-- ===== src/Security/Mtls/Clients.antt =====
-- When a server asks its clients for certificates.
use crispy_garbanzo.Base.{
  String, Bool, true, Option, none, some, ◌==◌, ◌≡◌, ◌≢◌, ◌⊎◌, ◌↔◌, inl, inr, refl, arith, eq_iff,
  Bool-cases,
}
use crispy_garbanzo.Security.Mtls.{
  MtlsConfig, no_client_cert, require_and_verify, TlsConfig, no_server_cert, no_ca_file,
  no_ca_certs, Built, built, failed, Crypto, server_config, with_pool, with_ca, with_cert,
  new_tls_config, check_files, check_ca, validate_mtls_config,
}

module _ {Cert Pool : Type 0} (crypto : Crypto Cert Pool) (cfg : MtlsConfig) where
  -- What the clients of a server show: nothing, or a certificate of the CA.
  abbrev pub Clients : TlsConfig Cert Pool → Type 0
  Clients c =
      ((cfg.ca_file ≡ "") × (c.client_auth ≡ no_client_cert) × (c.client_cas ≡ none))
      ⊎ ((cfg.ca_file ≢ "")
          × (c.client_auth ≡ require_and_verify)
          × ((pem : String) × (pool : Pool) × (crypto.read_file cfg.ca_file ≡ some pem)
              × (crypto.pool_of_pem pem ≡ some pool)
              × (c.client_cas ≡ some pool)))

  -- How the building of a configuration ends.
  abbrev pub Ends : Built Cert Pool → Type 0
  Ends (built c) =
      (crypto.load_key_pair cfg.cert_file cfg.key_file ≡ some c.certificate) × Clients c
  Ends (failed no_server_cert) = crypto.load_key_pair cfg.cert_file cfg.key_file ≡ none
  Ends (failed no_ca_file) = (cfg.ca_file ≢ "") × (crypto.read_file cfg.ca_file ≡ none)
  Ends (failed no_ca_certs) =
      (cfg.ca_file ≢ "")
      × ((pem : String) × (crypto.read_file cfg.ca_file ≡ some pem)
          × (crypto.pool_of_pem pem ≡ none))

  with_pool-Ends :
      (cert : Cert) (pem : String) (o : Option Pool)
      → crypto.load_key_pair cfg.cert_file cfg.key_file ≡ some cert
      → cfg.ca_file ≢ ""
      → crypto.read_file cfg.ca_file ≡ some pem
      → crypto.pool_of_pem pem ≡ o
      → Ends (with_pool (server_config cert) o)
  unfolding with_pool server_config
  with_pool-Ends cert pem none l n r p = (n, (pem, r, p))
  with_pool-Ends cert pem (some pool) l n r p = (l, inr (n, refl, (pem, pool, r, p, refl)))

  with_ca-Ends :
      (cert : Cert) (o : Option String)
      → crypto.load_key_pair cfg.cert_file cfg.key_file ≡ some cert
      → cfg.ca_file ≢ ""
      → crypto.read_file cfg.ca_file ≡ o
      → Ends (with_ca crypto (server_config cert) o)
  unfolding with_ca
  with_ca-Ends cert none l n r = (n, r)
  with_ca-Ends cert (some pem) l n r = with_pool-Ends cert pem (crypto.pool_of_pem pem) l n r refl

  with_cert-Ends :
      (o : Option Cert)
      → crypto.load_key_pair cfg.cert_file cfg.key_file ≡ o
      → Ends (with_cert crypto cfg o)
  unfolding with_cert server_config
  with_cert-Ends none l = l
  with_cert-Ends (some cert) l = elim (Bool-cases (cfg.ca_file == "")) [
    | inl e ↦ rw e (l, inl ((eq_iff cfg.ca_file "").0 e, refl, refl))
    | inr n ↦ rw n (
        with_ca-Ends cert (crypto.read_file cfg.ca_file) l (ground (arith, eq_iff cfg.ca_file ""))
          refl)
  ]

  -- A TLS configuration is built with the certificate of its key pair; its clients have to show a certificate of
  -- the pool of the CA file exactly if such a file is named. An error says that the key pair, the CA file
  -- or its certificates could not be loaded.
  pub new_tls_config-Ends : Ends (new_tls_config crypto cfg)
  unfolding new_tls_config
  new_tls_config-Ends = with_cert-Ends (crypto.load_key_pair cfg.cert_file cfg.key_file) refl

-- ValidateMTLSConfig accepts exactly the configurations whose certificate and key are named and exist, and whose
-- CA file, if one is named, exists.
pub validate_mtls_config_iff :
    (exists : String → Bool) (cfg : MtlsConfig)
    → (validate_mtls_config exists cfg ≡ none) ↔ (
        (cfg.cert_file ≢ "")
        × (exists cfg.cert_file ≡ true)
        × (cfg.key_file ≢ "")
        × (exists cfg.key_file ≡ true)
        × ((cfg.ca_file ≡ "") ⊎ (exists cfg.ca_file ≡ true)))
unfolding validate_mtls_config check_files check_ca
validate_mtls_config_iff exists cfg =
    ground (arith, eq_iff cfg.cert_file "", eq_iff cfg.key_file "", eq_iff cfg.ca_file "")
