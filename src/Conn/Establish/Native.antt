-- ===== src/Conn/Establish/Native.antt =====
-- src/conn.rs: the set-up of TLS with the `tls-native` feature.
use ldap.Common.{
  Bool, true, false, Option, none, some, Bytes, if◌then◌else◌, ok, err, ◌>>=◌, expect,
}
use ldap.Conn.Establish.{LdapConnSettings, ConnType, tcp, tls, unix}
use ldap.Result.Types.{Run, native_tls}

-- What the crates native_tls and tokio_native_tls do. A builder is whether invalid certificates are
-- accepted, which they are not at first; `none` in the place of a result is an error.
pub record NativeTls : Type 1 where
  pub TlsConnector : Type 0
  pub TlsStream : Type 0
  pub build : Bool → Option TlsConnector
  pub connect : TlsConnector → Bytes → Run TlsStream
  pub tls_server_end_point : TlsStream → Option (Option Bytes)
  pub peer_certificate : TlsStream → Option (Option Bytes)
  pub to_der : Bytes → Option Bytes

module _ (native : NativeTls) where
  unfoldable pub create_connector : LdapConnSettings → Run native.TlsConnector
  create_connector settings =
      let builder = false in
      expect (native.build (if settings.no_tls_verify then true else builder))

  abbrev pub connector_of : LdapConnSettings → Option native.TlsConnector → Run native.TlsConnector
  connector_of settings none = create_connector settings
  connector_of settings (some connector) = ok connector

  -- The settings with their field `connector`.
  unfoldable pub create_tls_stream :
      LdapConnSettings → Option native.TlsConnector → Bytes → Run native.TlsStream
  unfolding create_connector
  create_tls_stream settings connector hostname = do
    connector ← connector_of settings connector
    native.connect connector hostname

  abbrev pub end_point : Option (Option Bytes) → Option Bytes
  end_point none = none
  end_point (some ep) = ep

  abbrev pub get_tls_endpoint_token : native.TlsStream → Option Bytes
  get_tls_endpoint_token s = end_point (native.tls_server_end_point s)

  abbrev pub or_native_tls : Option Bytes → Run (Option Bytes)
  or_native_tls none = err native_tls
  or_native_tls (some der) = ok (some der)

  abbrev pub der_of : Option (Option Bytes) → Run (Option Bytes)
  der_of none = err native_tls
  der_of (some none) = ok none
  der_of (some (some cert)) = or_native_tls (native.to_der cert)

  -- The stream is that of a TLS connection.
  abbrev pub get_peer_certificate : ConnType → native.TlsStream → Run (Option Bytes)
  get_peer_certificate tcp s = ok none
  get_peer_certificate unix s = ok none
  get_peer_certificate tls s = der_of (native.peer_certificate s)
