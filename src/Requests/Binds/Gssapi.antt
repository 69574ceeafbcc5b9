-- ===== src/Requests/Binds/Gssapi.antt =====
-- src/ldap.rs: `gssapi_bind`, with the state that the handle shares with the codec.
use ldap.Common.{
  ℕ, ◌*◌, ◌^◌, Bool, true, false, not, Option, none, some, [], ◌∷◌, ◌++◌, Bytes, length, ◌==◌,
  bit_or, if◌then◌else◌, ok, err, panic, codes,
}
use ldap.Ber.Write.{to_be_bytes}
use ldap.Result.Types.{LdapResult, gssapi_operation, no_gssapi_token}
use ldap.Protocol.Gssapi.{Gssapi, Step, finished, proceed}
use ldap.Protocol.Sasl.{LdapCodec, from_be_bytes}
use ldap.Requests.Build.{sasl_bind_req}
use ldap.Requests.Binds.{Exchange, returns, calls}

abbrev pub bind_in_progress : ℕ
bind_in_progress = 14

abbrev pub gssauth_p_none : ℕ
gssauth_p_none = 1

abbrev pub gssauth_p_privacy : ℕ
gssauth_p_privacy = 4

abbrev pub needed_layer : Bool → ℕ
needed_layer has_tls = if has_tls then gssauth_p_none else gssauth_p_privacy

-- The channel binding token.
abbrev pub channel_binding : Bool → Option Bytes → Option Bytes
channel_binding false endpoint = none
channel_binding true none = none
channel_binding true (some token) = some (codes "tls-server-end-point:" ++ token)

-- The layer that is selected and the longest message that may be received.
unfoldable pub recv_max_size : ℕ → Bytes
unfolding to_be_bytes
recv_max_size layer = to_be_bytes 4 (bit_or 0x9FFFB8 (layer * 2 ^ 24))

pub data GssapiCred (gssapi : Gssapi) : Type 0 where
  default : GssapiCred gssapi
  supplied : gssapi.Cred → GssapiCred gssapi

module _ (gssapi : Gssapi) where
  abbrev pub new_ctx :
      GssapiCred gssapi → Bytes → Option Bytes → Option (gssapi.PendingClientCtx × Bytes)
  new_ctx default spn cbt = gssapi.new spn cbt
  new_ctx (supplied cred) spn cbt = gssapi.new_with_cred cred spn cbt

module _ (gssapi : Gssapi) (has_tls : Bool) (c : LdapCodec gssapi) where
  abbrev Bind : Type 0
  Bind = Exchange (LdapCodec gssapi × LdapResult)

  -- The first octet of the offer is cleared, so it has no argument here.
  abbrev pub installed : gssapi.ClientCtx → Bytes → LdapResult → Bind
  installed ctx size res =
      if needed_layer has_tls == gssauth_p_privacy
      then (if length (0 ∷ size) == 4
          then returns (
              ok (
                record c { sasl_param = (true, from_be_bytes (0 ∷ size)); client_ctx = some ctx },
                res,
              ))
          else returns panic)
      else returns (ok (record c { client_ctx = some ctx }, res))

  abbrev pub selected : Bytes → gssapi.ClientCtx × Option Bytes → Bind
  selected size (ctx, none) = returns (err gssapi_operation)
  selected size (ctx, some size_msg) =
      calls (sasl_bind_req (codes "GSSAPI") (some size_msg))
        λ ans. if ans.base.rc == 0 then installed ctx size ans.base else returns (ok (c, ans.base))

  abbrev pub offered : gssapi.ClientCtx × Option Bytes → Bind
  offered (ctx, none) = returns (err gssapi_operation)
  offered (ctx, some []) = returns panic
  offered (ctx, some (mask ∷ size)) =
      if bit_or mask (needed_layer has_tls) == 0
      then returns (err gssapi_operation)
      else selected size (gssapi.wrap ctx true (recv_max_size (needed_layer has_tls)))

  abbrev pub with_offer : gssapi.ClientCtx → Option Bytes → Bind
  with_offer ctx none = returns (err no_gssapi_token)
  with_offer ctx (some token) = offered (gssapi.unwrap ctx token)

  abbrev pub established : Option (Step gssapi.PendingClientCtx gssapi.ClientCtx) → Bind
  established none = returns (err gssapi_operation)
  established (some (proceed pending token)) = returns (err gssapi_operation)
  established (some (finished ctx (some token))) = returns (err gssapi_operation)
  established (some (finished ctx none)) = calls (sasl_bind_req (codes "GSSAPI") none) λ ans.
      if not (ans.base.rc == bind_in_progress)
      then returns (ok (c, ans.base))
      else with_offer ctx ans.sasl_creds

  abbrev pub with_token : gssapi.PendingClientCtx → Option Bytes → Bind
  with_token pending none = returns (err no_gssapi_token)
  with_token pending (some token) = established (gssapi.step pending token)

  abbrev pub initiated : Option (gssapi.PendingClientCtx × Bytes) → Bind
  initiated none = returns (err gssapi_operation)
  initiated (some (pending, token)) = calls (sasl_bind_req (codes "GSSAPI") (some token)) λ ans.
      if not (ans.base.rc == bind_in_progress)
      then returns (ok (c, ans.base))
      else with_token pending ans.sasl_creds

  unfoldable pub gssapi_bind :
      Option Bytes → Bytes → GssapiCred gssapi → Exchange (LdapCodec gssapi × LdapResult)
  unfolding sasl_bind_req recv_max_size
  gssapi_bind endpoint server_fqdn cred =
      initiated
        (new_ctx gssapi cred (codes "ldap/" ++ server_fqdn) (channel_binding has_tls endpoint))

module _ (gssapi : Gssapi) (has_tls : Bool) (c : LdapCodec gssapi) (endpoint : Option Bytes) where
  abbrev pub sasl_gssapi_bind : Bytes → Exchange (LdapCodec gssapi × LdapResult)
  sasl_gssapi_bind server_fqdn = gssapi_bind gssapi has_tls c endpoint server_fqdn default

  abbrev pub sasl_gssapi_cred_bind : gssapi.Cred → Bytes → Exchange (LdapCodec gssapi × LdapResult)
  sasl_gssapi_cred_bind cred server_fqdn =
      gssapi_bind gssapi has_tls c endpoint server_fqdn (supplied cred)
