-- ===== src/Security/Mtls.antt =====
-- internal/security/mtls.go: the TLS configuration of a server. Key pairs, files and certificates are read by
-- arguments that stand for Go's crypto/tls, crypto/x509 and os.
pub mod Clients
use crispy_garbanzo.Base.{
  String, Bool, true, false, Option, none, some, List, [], ◌∷◌, ◌==◌, if◌then◌else◌, not, ◌&&◌,
}

pub record MtlsConfig : Type 0 where
  pub cert_file : String
  pub key_file : String
  pub ca_file : String

-- the cipher suites that the source names, and the policies on certificates of clients that it uses
pub data CipherSuite : Type 0 where
  ecdhe_ecdsa_aes_256 ecdhe_rsa_aes_256 ecdhe_ecdsa_aes_128 ecdhe_rsa_aes_128 : CipherSuite

pub data Version : Type 0 where
  tls12 : Version

pub data ClientAuth : Type 0 where
  no_client_cert require_and_verify : ClientAuth

pub record TlsConfig (Cert Pool : Type 0) : Type 0 where
  pub certificate : Cert
  pub min_version : Version
  pub cipher_suites : List CipherSuite
  pub client_cas : Option Pool
  pub client_auth : ClientAuth

pub data TlsError : Type 0 where
  no_server_cert no_ca_file no_ca_certs : TlsError

pub data Built (Cert Pool : Type 0) : Type 0 where
  built : TlsConfig Cert Pool → Built Cert Pool
  failed : TlsError → Built Cert Pool

-- what the functions call: the key pair of two files, the text of a file, and a pool of the certificates of a text
pub record Crypto (Cert Pool : Type 0) : Type 0 where
  pub load_key_pair : String → String → Option Cert
  pub read_file : String → Option String
  pub pool_of_pem : String → Option Pool

module _ {Cert Pool : Type 0} where
  unfoldable pub server_config : Cert → TlsConfig Cert Pool
  server_config cert = record {
    certificate = cert;
    min_version = tls12;
    cipher_suites =
        ecdhe_ecdsa_aes_256 ∷ ecdhe_rsa_aes_256 ∷ ecdhe_ecdsa_aes_128 ∷ ecdhe_rsa_aes_128 ∷ [];
    client_cas = none;
    client_auth = no_client_cert;
  }

  unfoldable pub with_pool : TlsConfig Cert Pool → Option Pool → Built Cert Pool
  with_pool c none = failed no_ca_certs
  with_pool c (some pool) =
      built (record c { client_cas = some pool; client_auth = require_and_verify })

  unfoldable pub with_ca : Crypto Cert Pool → TlsConfig Cert Pool → Option String → Built Cert Pool
  unfolding with_pool
  with_ca crypto c none = failed no_ca_file
  with_ca crypto c (some pem) = with_pool c (crypto.pool_of_pem pem)

  unfoldable pub with_cert : Crypto Cert Pool → MtlsConfig → Option Cert → Built Cert Pool
  unfolding server_config with_ca
  with_cert crypto cfg none = failed no_server_cert
  with_cert crypto cfg (some cert) =
      if not (cfg.ca_file == "")
      then with_ca crypto (server_config cert) (crypto.read_file cfg.ca_file)
      else built (server_config cert)

  unfoldable pub new_tls_config : Crypto Cert Pool → MtlsConfig → Built Cert Pool
  unfolding with_cert
  new_tls_config crypto cfg = with_cert crypto cfg (crypto.load_key_pair cfg.cert_file cfg.key_file)

pub data Missing : Type 0 where
  empty_path no_file : String → Missing
  no_ca : Missing

module _ (exists : String → Bool) where
  -- the loop over the certificate and its key
  unfoldable pub check_files : List (String × String) → Option Missing
  check_files [] = none
  check_files ((name, path) ∷ fs) =
      if path == ""
      then some (empty_path name)
      else if not (exists path)
      then some (no_file name)
      else check_files fs

  unfoldable pub check_ca : MtlsConfig → Option Missing → Option Missing
  check_ca cfg (some m) = some m
  check_ca cfg none =
      if not (cfg.ca_file == "") && not (exists cfg.ca_file) then some no_ca else none

  unfoldable pub validate_mtls_config : MtlsConfig → Option Missing
  unfolding check_files check_ca
  validate_mtls_config cfg =
      check_ca cfg (check_files (("cert", cfg.cert_file) ∷ ("key", cfg.key_file) ∷ []))
