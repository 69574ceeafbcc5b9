-- ===== src/Requests/Binds/Offer.antt =====
-- A GSSAPI bind up to its end, and the layers that the server offers (src/ldap.rs).
use ldap.Common.{
  ℕ, ◌/◌, ◌≡◌, refl, ap, ◌∙◌, Bool, true, false, Option, none, some, [], ◌∷◌, ◌++◌, Bytes, length,
  ok, arith, ◌==◌, ==_false, bit_or, if◌then◌else◌, codes,
}
use ldap.Common.Bits.{bit_or_step}
use ldap.Protocol.Gssapi.{Gssapi, finished}
use ldap.Protocol.Sasl.{LdapCodec, from_be_bytes}
use ldap.Result.Types.{LdapResult}
use ldap.Requests.Binds.{returns}
use ldap.Result.Convert.{LdapResultExt}
use ldap.Requests.Build.{sasl_bind_req}
use ldap.Requests.Binds
use ldap.Requests.Binds.Gssapi
use ldap.Requests.Binds.Layer.{with_layer}

-- `buf[0] | needed_layer == 0` holds of no octet.
mask_or_layer :
    (mask : ℕ) (has_tls : Bool) → (bit_or mask (Gssapi.needed_layer has_tls) == 0) ≡ false
mask_or_layer mask true = ==_false _ 0 (omega (arith, bit_or_step mask 1))
mask_or_layer mask false =
    ==_false _ 0
      (omega (arith, bit_or_step mask 4, bit_or_step (mask / 2) 2, bit_or_step (mask / 2 / 2) 1))

module _ (gssapi : Gssapi) where
  abbrev completed : LdapCodec gssapi → Bool → gssapi.ClientCtx → Bytes → LdapCodec gssapi
  completed c has_tls ctx size =
      if has_tls
      then record c { client_ctx = some ctx }
      else with_layer gssapi (from_be_bytes (0 ∷ size)) ctx c

  installed-completed :
      (c : LdapCodec gssapi) (has_tls : Bool) (ctx : gssapi.ClientCtx) (size : Bytes)
      (res : LdapResult)
      → length size ≡ 3
      → Gssapi.installed gssapi has_tls c ctx size res
        ≡ returns (ok (completed c has_tls ctx size, res))
  installed-completed c true ctx size res three = refl
  installed-completed c false ctx size res three = rw three refl

  offered-completed :
      (c : LdapCodec gssapi) (has_tls : Bool) (ctx1 ctx2 : gssapi.ClientCtx) (size_msg size : Bytes)
      (mask : ℕ) (third : LdapResultExt)
      → length size ≡ 3
      → gssapi.wrap ctx1 true (Gssapi.recv_max_size (Gssapi.needed_layer has_tls))
        ≡ (ctx2, some size_msg)
      → third.base.rc ≡ 0
      → Binds.run (Gssapi.offered gssapi has_tls c (ctx1, some (mask ∷ size))) (ok third ∷ []) ≡ (
        sasl_bind_req (codes "GSSAPI") (some size_msg) ∷ [],
        some (ok (completed c has_tls ctx2 size, third.base)),
      )
  unfolding Binds.run
  offered-completed c has_tls ctx1 ctx2 size_msg size mask third three sealed done =
      rw (mask_or_layer mask has_tls) (
        ap (λ r. Binds.run (Gssapi.selected gssapi has_tls c size r) (ok third ∷ [])) sealed
        ∙ ap
            (λ b. Binds.sent_first (sasl_bind_req (codes "GSSAPI") (some size_msg)) (
              Binds.run
                (if b
                  then Gssapi.installed gssapi has_tls c ctx2 size third.base
                  else returns (ok (c, third.base)))
                []))
            (ap (λ rc. rc == 0) done)
        ∙ ap
            (λ e.
              Binds.sent_first (sasl_bind_req (codes "GSSAPI") (some size_msg)) (Binds.run e []))
            (installed-completed c has_tls ctx2 size third.base three))

  -- When a GSSAPI context is made and finishes in one step without a further token, the server
  -- answers two requests with the code 14 and credentials, its offer unwraps to an octet for
  -- the layers and three octets for the size, the choice of the layer is wrapped, and the
  -- third answer is a success, then the bind sends the three requests with the token, with no
  -- credentials and with the wrapped choice, and returns the third result; without TLS the
  -- codec then wraps messages up to the offered size, with TLS it only keeps the context. It
  -- does so for every octet of offered layers, also where the needed layer is not among them.
  pub gssapi_bind-any_mask :
      (c : LdapCodec gssapi) (has_tls : Bool) (endpoint : Option Bytes) (server_fqdn : Bytes)
      (cred : Gssapi.GssapiCred gssapi) (pending : gssapi.PendingClientCtx)
      (ctx ctx1 ctx2 : gssapi.ClientCtx) (token challenge offer size_msg size : Bytes) (mask : ℕ)
      (first second third : LdapResultExt)
      → Gssapi.new_ctx gssapi cred
          (codes "ldap/" ++ server_fqdn)
          (Gssapi.channel_binding has_tls endpoint)
        ≡ some (pending, token)
      → first.base.rc ≡ 14
      → first.sasl_creds ≡ some challenge
      → gssapi.step pending challenge ≡ some (finished ctx none)
      → second.base.rc ≡ 14
      → second.sasl_creds ≡ some offer
      → gssapi.unwrap ctx offer ≡ (ctx1, some (mask ∷ size))
      → length size ≡ 3
      → gssapi.wrap ctx1 true (Gssapi.recv_max_size (Gssapi.needed_layer has_tls))
        ≡ (ctx2, some size_msg)
      → third.base.rc ≡ 0
      → Binds.run
          (Gssapi.gssapi_bind gssapi has_tls c endpoint server_fqdn cred)
          (ok first ∷ ok second ∷ ok third ∷ [])
        ≡ (
          sasl_bind_req (codes "GSSAPI") (some token)
              ∷ sasl_bind_req (codes "GSSAPI") none
              ∷ sasl_bind_req (codes "GSSAPI") (some size_msg)
              ∷ [],
          some (
              ok (
                (if has_tls
                    then record c { client_ctx = some ctx2 }
                    else with_layer gssapi (from_be_bytes (0 ∷ size)) ctx2 c),
                third.base,
              )),
        )
  unfolding Gssapi.gssapi_bind Binds.run
  gssapi_bind-any_mask c has_tls endpoint server_fqdn cred pending ctx ctx1 ctx2 token challenge
        offer size_msg size mask first second third made one one_creds stepped two two_creds opened
        three sealed done =
      rw (made, one, one_creds, stepped, two, two_creds)
        (ap
            (λ r. Binds.sent_first (sasl_bind_req (codes "GSSAPI") (some token)) (
              Binds.sent_first (sasl_bind_req (codes "GSSAPI") none)
                (Binds.run (Gssapi.offered gssapi has_tls c r) (ok third ∷ []))))
            opened
          ∙ ap
              (λ r.
                Binds.sent_first (sasl_bind_req (codes "GSSAPI") (some token))
                  (Binds.sent_first (sasl_bind_req (codes "GSSAPI") none) r))
              (offered-completed c has_tls ctx1 ctx2 size_msg size mask third three sealed done))
