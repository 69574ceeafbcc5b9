-- ===== src/Tests/Openings.antt =====
-- Opening a connection, at concrete inputs.
use ldap.Common.{◌≡◌, refl, true, false, none, some, [], ◌∷◌, Outcome, codes, arith, List, Bytes}
use ldap.Common.Utf8.{utf8_valid, utf8_run, utf8_step}
use ldap.Ber.Asn.{Tag, sequence, octet_string, vec}
use ldap.Ber.Structure.{application, context}
use ldap.Conn.Turn.{op_tuple, response, message}
use ldap.Conn.Establish.{
  Outside, Address, LdapConnSettings, tls, tcp, conn_pair, hostname_of, new_tcp,
  from_url_with_settings,
}
use ldap.Conn.Establish.Rustls.{Rustls, create_tls_stream, cacerts}
use ldap.Conn.Establish.Verified.{IsVerified, from_url_with_settings-IsVerified}
use ldap.Conn.Establish.Secure.{IsSecured, from_url_with_settings-IsSecured}
use ldap.Conn.Establish.Upgrade.{upgraded, new_tcp-start_tls}
use ldap.Requests.Build.{op_extended, request, extended, construct_exop}
use ldap.Requests.Call.Completes.{response_of}
use ldap.Requests.Exops.{start_tls, starttls_oid}
use ldap.Result.Convert.{LdapResultExt, success}

abbrev start_tls_tag : Tag
start_tls_tag = sequence 23 application (vec (octet_string 0 context starttls_oid ∷ []))

built : request (op_extended start_tls) ≡ Outcome.ok start_tls_tag
unfolding request extended construct_exop start_tls
built = refl

abbrev accepted : LdapResultExt
accepted = record {
  base = record { rc = 0; matched = []; text = []; refs = []; ctrls = [] };
  exop = record { name = none; val = none };
  sasl_creds = none;
}

-- A server that accepts StartTLS, and a handshake that succeeds.
abbrev server : Outside
server = record {
  connect = λ host_port. Outcome.ok tt;
  connect_unix = λ path. Outcome.ok tt;
  take_over = Outcome.ok tt;
  create_tls_stream = λ host. Outcome.ok tt;
  late = false;
  decode_lossy = λ path. path;
  events = λ r.
      op_tuple (some r) true
      ∷ response (message (response_of 1 application 24 accepted [])) true
      ∷ [];
}

abbrev address : Address
address = record { scheme = codes "ldap"; host_str = some (codes "a"); port = none }

abbrev settings : LdapConnSettings
settings = record { conn_timeout = none; starttls = true; no_tls_verify = false; std_stream = none }

from_url_with_settings-IsSecured_example :
    IsSecured server address.host_str (from_url_with_settings address settings server)
from_url_with_settings-IsSecured_example =
    from_url_with_settings-IsSecured address settings server refl refl

new_tcp-start_tls_example : new_tcp address settings server ≡ some (Outcome.ok (upgraded tls true))
unfolding utf8_valid utf8_run utf8_step success
new_tcp-start_tls_example =
    new_tcp-start_tls server start_tls_tag built accepted application 24 [] true [] refl address
      settings (codes "a") (omega arith, refl, refl, tt, tt, refl) refl

-- The TLS crates with no roots, where a handshake is made with any host.
abbrev trusting : Rustls
trusting = record {
  ServerName = Bytes;
  RootCertStore = List Bytes;
  ClientConfig = List Bytes;
  empty_store = [];
  add = λ store cert. some (cert ∷ store);
  load_native_certs = ((1 ∷ []) ∷ [], false);
  with_root_certificates = λ store. store;
  set_certificate_verifier = λ config verifier. [];
  try_server_name = λ host. some host;
  is_ip_address = λ host. false;
  connect = λ config name. Outcome.ok tt;
}

abbrev secure_address : Address
secure_address = record { scheme = codes "ldaps"; host_str = some (codes "a"); port = none }

from_url_with_settings-IsVerified_example :
    (tls ≡ tls)
    × ((host : Bytes) × (hostname_of secure_address.host_str ≡ Outcome.ok host)
        × IsVerified trusting host)
unfolding from_url_with_settings create_tls_stream cacerts
from_url_with_settings-IsVerified_example =
    from_url_with_settings-IsVerified trusting secure_address settings server
      (record (conn_pair tcp) { ctype = tls; has_tls = true }) refl refl refl refl
