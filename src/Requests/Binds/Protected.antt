-- ===== src/Requests/Binds/Protected.antt =====
-- Messages after a GSSAPI bind (src/ldap.rs, src/protocol.rs).
use ldap.Common.{
  ℕ, ◌≤◌, ◌≡◌, ◌⊎◌, inl, inr, subst, true, false, Option, some, List, ◌++◌, Bytes, length, ok,
}
use ldap.Common.Int.{pos}
use ldap.Ber.Asn.{Tag}
use ldap.Controls.Types.{RawControl}
use ldap.Protocol.Gssapi.{Gssapi}
use ldap.Protocol.Sasl.{LdapCodec, new_codec, encode}
use ldap.Protocol.Sasl.Packets.{Outgoing, plain, prefix, layered, encode_inv, encode_limit}
use ldap.Result.Types.{Run, LdapResult}
use ldap.Result.Convert.{LdapResultExt}
use ldap.Requests.Binds
use ldap.Requests.Binds.Gssapi.{GssapiCred, gssapi_bind}
use ldap.Requests.Binds.Layer.{gssapi_bind-IsSettled}

-- What was appended is one packet of what a security context made of the message, the codec has the
-- context that follows, and the message is no longer than the limit that the codec has.
abbrev pub IsProtected : (gssapi : Gssapi) → Outgoing → Bytes → LdapCodec gssapi → Bytes → Type 0
IsProtected gssapi m into c into' =
    (max : ℕ) × (ctx ctx' : gssapi.ClientCtx) × (sealed : Bytes) × (gssapi.wrap ctx true (plain m)
      ≡ (ctx', some sealed))
    × (into' ≡ into ++ (prefix sealed ++ sealed))
    × (c ≡ layered gssapi max ctx')
    × ((max ≡ 0) ⊎ (length (plain m) ≤ max))

module _ (gssapi : Gssapi) where
  layered-IsProtected :
      (n : ℕ) (tag : Tag) (controls : Option (List RawControl)) (max : ℕ) (ctx : gssapi.ClientCtx)
      (into into' : Bytes) (c : LdapCodec gssapi)
      → encode gssapi (layered gssapi max ctx) (pos n, tag, controls) into ≡ (c, ok into')
      → IsProtected gssapi (n, tag, controls) into c into'
  layered-IsProtected n tag controls max ctx into into' c h =
      let (ctx', sealed, wrapped, codec, appended) =
        encode_inv gssapi n tag controls max ctx into c into' h in
      (
        max,
        ctx,
        ctx',
        sealed,
        wrapped,
        appended,
        codec,
        encode_limit gssapi n tag controls max ctx into c into' h,
      )

  -- When a GSSAPI bind on a new connection without TLS sends three requests and returns a
  -- success, whatever the answers of the server, and a message is encoded after it without an
  -- error, then what the codec appends to the buffer is exactly one packet: the length and
  -- what a security context made of the whole encoded message with encryption; the codec has
  -- the context that follows, and the message is no longer than the limit of the codec, unless
  -- that is 0.
  pub gssapi_bind-IsProtected :
      (endpoint : Option Bytes) (server_fqdn : Bytes) (cred : GssapiCred gssapi)
      (answers : List (Run LdapResultExt)) (reqs : List Tag) (bound c : LdapCodec gssapi)
      (res : LdapResult) (n : ℕ) (tag : Tag) (controls : Option (List RawControl))
      (into into' : Bytes)
      → Binds.run (gssapi_bind gssapi false (new_codec gssapi) endpoint server_fqdn cred) answers
        ≡ (reqs, some (ok (bound, res)))
      → length reqs ≡ 3
      → res.rc ≡ 0
      → encode gssapi bound (pos n, tag, controls) into ≡ (c, ok into')
      → IsProtected gssapi (n, tag, controls) into c into'
  gssapi_bind-IsProtected endpoint server_fqdn cred answers reqs bound c res n tag controls into
        into' ran three success sent =
      elim (gssapi_bind-IsSettled gssapi (new_codec gssapi) endpoint server_fqdn cred answers reqs
        bound res ran) [
          | inl (_, _, (max, ctx, e)) ↦
              layered-IsProtected n tag controls max ctx into into' c
                (subst (λ b. encode gssapi b (pos n, tag, controls) into ≡ (c, ok into')) e sent)
          | inr (inl fewer, _) ↦ absurd (fewer three)
          | inr (inr failed, _) ↦ absurd (failed success)
        ]
