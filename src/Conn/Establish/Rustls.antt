-- ===== src/Conn/Establish/Rustls.antt =====
-- src/conn.rs: the set-up of TLS with the `tls-rustls` feature, and what it reads off the certificate
-- of the server.
use ldap.Common.{
  ℕ, Bool, true, not, Option, none, some, List, [], ◌∷◌, Bytes, if◌then◌else◌, ok, err, ◌>>=◌,
  codes,
}
use ldap.Conn.Establish.{LdapConnSettings}
use ldap.Result.Types.{Run, dns_name}

pub data SignatureScheme : Type 0 where
  rsa_pkcs1_sha1 ecdsa_sha1_legacy rsa_pkcs1_sha256 ecdsa_nistp256_sha256 : SignatureScheme
  rsa_pkcs1_sha384 ecdsa_nistp384_sha384 rsa_pkcs1_sha512 ecdsa_nistp521_sha512 : SignatureScheme
  rsa_pss_sha256 rsa_pss_sha384 rsa_pss_sha512 : SignatureScheme

-- The trait of rustls, over its type of server names. A certificate is its DER octets.
pub record ServerCertVerifier (ServerName : Type 0) : Type 0 where
  pub verify_server_cert : Bytes → List Bytes → ServerName → Bytes → ℕ → Bool
  pub verify_tls12_signature : Bytes → Bytes → Bytes → Bool
  pub verify_tls13_signature : Bytes → Bytes → Bytes → Bool
  pub supported_verify_schemes : List SignatureScheme

abbrev pub no_cert_verification : {ServerName : Type 0} → ServerCertVerifier ServerName
no_cert_verification = record {
  verify_server_cert = λ cert chain name ocsp now. true;
  verify_tls12_signature = λ message cert signature. true;
  verify_tls13_signature = λ message cert signature. true;
  supported_verify_schemes =
      SignatureScheme.rsa_pkcs1_sha1 ∷ SignatureScheme.ecdsa_sha1_legacy
      ∷ SignatureScheme.rsa_pkcs1_sha256 ∷ SignatureScheme.ecdsa_nistp256_sha256
      ∷ SignatureScheme.rsa_pkcs1_sha384 ∷ SignatureScheme.ecdsa_nistp384_sha384
      ∷ SignatureScheme.rsa_pkcs1_sha512 ∷ SignatureScheme.ecdsa_nistp521_sha512
      ∷ SignatureScheme.rsa_pss_sha256 ∷ SignatureScheme.rsa_pss_sha384
      ∷ SignatureScheme.rsa_pss_sha512 ∷ [];
}

-- What the crates rustls, rustls_native_certs and tokio_rustls and the standard library do. `none`
-- in the place of a result is an error; the native certificates come with whether there were errors.
pub record Rustls : Type 1 where
  pub ServerName : Type 0
  pub RootCertStore : Type 0
  pub ClientConfig : Type 0
  pub empty_store : RootCertStore
  pub add : RootCertStore → Bytes → Option RootCertStore
  pub load_native_certs : List Bytes × Bool
  pub with_root_certificates : RootCertStore → ClientConfig
  pub set_certificate_verifier : ClientConfig → ServerCertVerifier ServerName → ClientConfig
  pub try_server_name : Bytes → Option ServerName
  pub is_ip_address : Bytes → Bool
  pub connect : ClientConfig → ServerName → Run (Unit {0})

module _ (rustls : Rustls) where
  abbrev pub or_same : rustls.RootCertStore → Option rustls.RootCertStore → rustls.RootCertStore
  or_same store none = store
  or_same store (some store') = store'

  unfoldable pub add_all : List Bytes → rustls.RootCertStore → rustls.RootCertStore
  add_all [] store = store
  add_all (cert ∷ certs) store = add_all certs (or_same store (rustls.add store cert))

  abbrev pub cert_vec : List Bytes × Bool → List Bytes
  cert_vec (certs, failed) = if not failed then certs else []

  unfoldable pub cacerts : rustls.RootCertStore
  unfolding add_all
  cacerts = add_all (cert_vec rustls.load_native_certs) rustls.empty_store

  unfoldable pub create_config : LdapConnSettings → rustls.ClientConfig
  unfolding cacerts
  create_config settings =
      let config = rustls.with_root_certificates cacerts in
      if settings.no_tls_verify
      then rustls.set_certificate_verifier config no_cert_verification
      else config

  abbrev pub or_dns_name : Option rustls.ServerName → Run rustls.ServerName
  or_dns_name none = err dns_name
  or_dns_name (some name) = ok name

  -- The name to connect to. A host that is an address needs no name where nothing is verified.
  abbrev pub name_of : LdapConnSettings → Bytes → Option rustls.ServerName → Run rustls.ServerName
  name_of settings hostname (some name) = ok name
  name_of settings hostname none =
      if settings.no_tls_verify
      then (if rustls.is_ip_address hostname
          then or_dns_name (rustls.try_server_name (codes "_irrelevant"))
          else err dns_name)
      else err dns_name

  abbrev pub config_of : LdapConnSettings → Option rustls.ClientConfig → rustls.ClientConfig
  config_of settings none = create_config settings
  config_of settings (some config) = config

  -- The settings with their field `config`.
  unfoldable pub create_tls_stream :
      LdapConnSettings → Option rustls.ClientConfig → Bytes → Run (Unit {0})
  unfolding create_config
  create_tls_stream settings config hostname = do
    name ← name_of settings hostname (rustls.try_server_name hostname)
    rustls.connect (config_of settings config) name
