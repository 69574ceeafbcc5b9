-- ===== src/Requests/Binds/Channel.antt =====
-- An NTLM bind up to its end, and the channel that it binds (src/ldap.rs).
use ldap.Common.{◌≡◌, refl, Bool, Option, some, [], ◌∷◌, Bytes, ok, codes}
use ldap.Result.Convert.{LdapResultExt}
use ldap.Requests.Build.{sasl_bind_req}
use ldap.Requests.Binds
use ldap.Requests.Binds.Ntlm
use ldap.Requests.Binds.Ntlm.{Sspi}

-- With TLS and a token for the end point of the channel, the second step is made by a context that is
-- bound to it; the two requests hold what the two steps give.
sasl_ntlm_bind-completed :
    (sspi : Sspi) (has_tls : Bool) (endpoint : Option Bytes) (username password : Bytes)
    (user : sspi.Username) (ntlm ntlm1 ntlm2 : sspi.Ntlm) (creds creds1 creds2 : sspi.Creds)
    (negotiate challenge authenticate : Bytes) (first second : LdapResultExt)
    → sspi.parse_username username ≡ some user
    → sspi.acquire_credentials_handle sspi.new user password ≡ some (ntlm, creds)
    → Ntlm.step sspi ntlm creds [] ≡ ok (ntlm1, creds1, negotiate)
    → first.base.rc ≡ 14
    → first.sasl_creds ≡ some challenge
    → Ntlm.step sspi (Ntlm.bind_channel sspi has_tls endpoint ntlm1) creds1 challenge
      ≡ ok (ntlm2, creds2, authenticate)
    → Binds.run
        (Ntlm.sasl_ntlm_bind sspi has_tls endpoint username password)
        (ok first ∷ ok second ∷ [])
      ≡ (
        sasl_bind_req (codes "GSS-SPNEGO") (some negotiate)
            ∷ sasl_bind_req (codes "GSS-SPNEGO") (some authenticate)
            ∷ [],
        some (ok second.base),
      )
unfolding Ntlm.sasl_ntlm_bind Binds.run
sasl_ntlm_bind-completed sspi has_tls endpoint username password user ntlm ntlm1 ntlm2 creds creds1
      creds2 negotiate challenge authenticate first second parsed acquired one rc sasl two =
    rw (parsed, acquired, one, rc, sasl, two) refl
