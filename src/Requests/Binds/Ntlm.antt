-- ===== src/Requests/Binds/Ntlm.antt =====
-- src/ldap.rs: `sasl_ntlm_bind`. What the `sspi` crate does is a parameter.
use ldap.Common.{
  Bool, true, false, not, Option, none, some, [], ◌++◌, Bytes, ◌==◌, if◌then◌else◌, ok, err, panic,
  codes,
}
use ldap.Result.Types.{Run, LdapResult, sspi_error, no_ntlm_challenge_token}
use ldap.Requests.Build.{sasl_bind_req}
use ldap.Requests.Binds.{Exchange, returns, calls}
use ldap.Requests.Binds.Gssapi.{bind_in_progress}

-- `SecurityStatus`, of which the code tells these apart.
pub data SecurityStatus : Type 0 where
  complete_needed complete_and_continue other : SecurityStatus

-- The calls of the crate; `none` in the place of a result is an error. `Creds` is the handle of
-- `acquire_credentials_handle`.
pub record Sspi : Type 1 where
  pub Username : Type 0
  pub Ntlm : Type 0
  pub Creds : Type 0
  pub new : Ntlm
  pub parse_username : Bytes → Option Username
  pub acquire_credentials_handle : Ntlm → Username → Bytes → Option (Ntlm × Creds)
  pub initialize_security_context :
      Ntlm → Creds → Bytes → Option (Ntlm × Creds × SecurityStatus × Bytes)
  pub complete_auth_token : Ntlm → Bytes → Option (Ntlm × Bytes)
  pub set_channel_bindings : Ntlm → Bytes → Ntlm

module _ (sspi : Sspi) where
  abbrev pub completed :
      sspi.Creds → Option (sspi.Ntlm × Bytes) → Run (sspi.Ntlm × sspi.Creds × Bytes)
  completed creds none = err sspi_error
  completed creds (some (ntlm, buffer)) = ok (ntlm, creds, buffer)

  abbrev pub initialized :
      Option (sspi.Ntlm × sspi.Creds × SecurityStatus × Bytes)
      → Run (sspi.Ntlm × sspi.Creds × Bytes)
  initialized none = err sspi_error
  initialized (some (ntlm, creds, SecurityStatus.complete_needed, buffer)) =
      completed creds (sspi.complete_auth_token ntlm buffer)
  initialized (some (ntlm, creds, SecurityStatus.complete_and_continue, buffer)) =
      completed creds (sspi.complete_auth_token ntlm buffer)
  initialized (some (ntlm, creds, SecurityStatus.other, buffer)) = ok (ntlm, creds, buffer)

  -- `step`, with the buffer of the output that it returns.
  unfoldable pub step : sspi.Ntlm → sspi.Creds → Bytes → Run (sspi.Ntlm × sspi.Creds × Bytes)
  step ntlm creds input = initialized (sspi.initialize_security_context ntlm creds input)

  abbrev pub bind_channel : Bool → Option Bytes → sspi.Ntlm → sspi.Ntlm
  bind_channel false endpoint ntlm = ntlm
  bind_channel true none ntlm = ntlm
  bind_channel true (some token) ntlm =
      sspi.set_channel_bindings ntlm (codes "tls-server-end-point:" ++ token)

  module _ (has_tls : Bool) (endpoint : Option Bytes) where
    abbrev pub authenticated : Run (sspi.Ntlm × sspi.Creds × Bytes) → Exchange LdapResult
    authenticated (err e) = returns (err e)
    authenticated panic = returns panic
    authenticated (ok (ntlm, creds, buffer)) =
        calls (sasl_bind_req (codes "GSS-SPNEGO") (some buffer)) λ ans. returns (ok ans.base)

    abbrev pub challenged : sspi.Ntlm → sspi.Creds → Option Bytes → Exchange LdapResult
    challenged ntlm creds none = returns (err no_ntlm_challenge_token)
    challenged ntlm creds (some token) =
        authenticated (step (bind_channel has_tls endpoint ntlm) creds token)

    abbrev pub negotiated : Run (sspi.Ntlm × sspi.Creds × Bytes) → Exchange LdapResult
    negotiated (err e) = returns (err e)
    negotiated panic = returns panic
    negotiated (ok (ntlm, creds, buffer)) =
        calls (sasl_bind_req (codes "GSS-SPNEGO") (some buffer)) λ ans.
          if not (ans.base.rc == bind_in_progress)
          then returns (ok ans.base)
          else challenged ntlm creds ans.sasl_creds

    abbrev pub acquired : Option (sspi.Ntlm × sspi.Creds) → Exchange LdapResult
    acquired none = returns (err sspi_error)
    acquired (some (ntlm, creds)) = negotiated (step ntlm creds [])

    abbrev pub identified : Bytes → Option sspi.Username → Exchange LdapResult
    identified password none = returns panic
    identified password (some username) =
        acquired (sspi.acquire_credentials_handle sspi.new username password)

    unfoldable pub sasl_ntlm_bind : Bytes → Bytes → Exchange LdapResult
    unfolding step sasl_bind_req
    sasl_ntlm_bind username password = identified password (sspi.parse_username username)
