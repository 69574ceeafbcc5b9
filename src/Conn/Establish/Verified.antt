-- ===== src/Conn/Establish/Verified.antt =====
-- What a connection over rustls has verified (src/conn.rs).
use ldap.Common.{
  ◌≡◌, refl, ◌∙◌, sym, ap, true, false, Option, none, some, Bytes, bytes_eq, ok, err, panic, codes,
  ◌>>=◌, if◌then◌else◌,
}
use ldap.Conn.Establish.{
  Opened, Outside, Address, LdapConnSettings, tls, hostname_of, from_url_with_settings,
}
use ldap.Conn.Establish.Rustls
use ldap.Conn.Establish.Rustls.{Rustls as Crate}
use ldap.Conn.Establish.Secure.{IsSecured, wants_tls, from_url_with_settings-IsSecured}
use ldap.Result.Types.{Run, dns_name}

-- The rest of the world, where the TLS stream is made by `create_tls_stream`.
abbrev pub with_rustls :
    (rustls : Crate) → LdapConnSettings → Option rustls.ClientConfig → Outside → Outside
with_rustls rustls settings config out = record out {
  create_tls_stream = Rustls.create_tls_stream rustls settings config;
}

-- The handshake succeeded for the name of the host, with the verifier of the crate and the system's
-- certificates as its roots.
abbrev pub IsVerified : Crate → Bytes → Type 0
IsVerified rustls host =
    (name : rustls.ServerName) × (rustls.try_server_name host ≡ some name)
    × (rustls.connect (rustls.with_root_certificates (Rustls.cacerts rustls)) name ≡ ok tt)

module _ (rustls : Crate) (settings : LdapConnSettings)
    (checks : settings.no_tls_verify ≡ false) where
  named-IsVerified :
      (host : Bytes) (name : Option rustls.ServerName)
      → rustls.try_server_name host ≡ name
      → (Rustls.name_of rustls settings host name
          >>= rustls.connect (rustls.with_root_certificates (Rustls.cacerts rustls)))
        ≡ ok tt
      → IsVerified rustls host
  named-IsVerified host (some name) e h = (name, e, h)
  named-IsVerified host none e h =
      let refused : err dns_name ≡ ok tt =
        sym (
          ap
            (λ b.
              (if b
                then (if rustls.is_ip_address host
                    then Rustls.or_dns_name rustls (rustls.try_server_name (codes "_irrelevant"))
                    else err dns_name)
                else err dns_name)
              >>= rustls.connect (rustls.with_root_certificates (Rustls.cacerts rustls)))
            checks)
        ∙ h in
      cc

  create_tls_stream-IsVerified :
      (host : Bytes)
      → Rustls.create_tls_stream rustls settings none host ≡ ok tt
      → IsVerified rustls host
  unfolding Rustls.create_tls_stream
  create_tls_stream-IsVerified host h = named-IsVerified host _ refl (
      ap
        (λ b.
          Rustls.name_of rustls settings host (rustls.try_server_name host)
          >>= rustls.connect (
              if b
              then rustls.set_certificate_verifier
                  (rustls.with_root_certificates (Rustls.cacerts rustls))
                  Rustls.no_cert_verification
              else rustls.with_root_certificates (Rustls.cacerts rustls)))
        (sym checks)
      ∙ h)

  secured-IsVerified :
      (host_str : Option Bytes) (out : Outside) (r : Option (Run Opened)) (o : Opened)
      → IsSecured (with_rustls rustls settings none out) host_str r
      → r ≡ some (ok o)
      → (o.ctype ≡ tls)
        × ((host : Bytes) × (hostname_of host_str ≡ ok host) × IsVerified rustls host)
  secured-IsVerified host_str out (some (ok o')) o (has_tls, ctype, (host, named, opened)) e =
      let same : o' ≡ o = cc in
      (
        ap (λ o. o.ctype) (sym same) ∙ ctype,
        (host, named, create_tls_stream-IsVerified host opened),
      )
  secured-IsVerified host_str out (some (err b)) o secured e = cc
  secured-IsVerified host_str out (some panic) o secured e = cc
  secured-IsVerified host_str out none o secured e = cc

-- With the TLS of rustls and no configuration of its own in the settings, when these do not ask
-- to leave out the verification, a URL has another scheme than ldapi, its scheme is ldaps or the
-- settings ask for StartTLS, and `from_url_with_settings` returns a connection, then its stream
-- is a TLS stream and the handshake succeeded with the host of the URL, or localhost where that
-- is empty, as the name of the server, the system's certificates as the roots and the verifier
-- that rustls has by default.
pub from_url_with_settings-IsVerified :
    (rustls : Crate) (url : Address) (settings : LdapConnSettings) (out : Outside) (o : Opened)
    → settings.no_tls_verify ≡ false
    → bytes_eq url.scheme (codes "ldapi") ≡ false
    → wants_tls url settings ≡ true
    → from_url_with_settings url settings (with_rustls rustls settings none out) ≡ some (ok o)
    → (o.ctype ≡ tls)
      × ((host : Bytes) × (hostname_of url.host_str ≡ ok host) × IsVerified rustls host)
from_url_with_settings-IsVerified rustls url settings out o checks no_unix wants opened =
    secured-IsVerified rustls settings checks url.host_str out _ o
      (from_url_with_settings-IsSecured url settings (with_rustls rustls settings none out) no_unix
        wants)
      opened
