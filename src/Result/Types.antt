-- ===== src/Result/Types.antt =====
-- src/result.rs: `LdapResult` and `LdapError`. A string is its UTF-8 bytes. What other crates put
-- into an error is left out, and so are the variants of the TLS features.
use ldap.Common.{ℕ, List, Bytes, Outcome}
use ldap.Controls.Types.{Control}

pub record LdapResult : Type 0 where
  pub rc : ℕ
  pub matched : Bytes
  pub text : Bytes
  pub refs : List Bytes
  pub ctrls : List Control

pub data LdapError : Type 0 where
  empty_unix_path port_in_unix_path mismatched_stream_type io op_send result_recv : LdapError
  id_scrub_send misc_send timeout filter_parsing end_of_stream url_parsing : LdapError
  unknown_scheme : Bytes → LdapError
  ldap_result : LdapResult → LdapError
  add_no_values : LdapError
  adapter_init : Bytes → LdapError
  decoding_utf8 : LdapError
  invalid_scope_string : Bytes → LdapError
  unrecognized_critical_extension : Bytes → LdapError
  native_tls rustls_error dns_name : LdapError
  gssapi_operation no_gssapi_token sspi_error no_ntlm_challenge_token : LdapError

-- A run of the library's code: a value, an error, or a panic.
abbrev pub Run {ℓ} : Type ℓ → Type ℓ
Run A = Outcome LdapError A
