-- ===== src/Tests/Binds.antt =====
-- Binds of several requests at concrete inputs.
use ldap.Common.{
  ℕ, ◌≡◌, refl, true, false, Option, none, some, [], ◌∷◌, ◌++◌, Bytes, Outcome, codes,
}
use ldap.Protocol.Sasl.{new_codec}
use ldap.Result.Convert.{LdapResultExt}
use ldap.Requests.Build.{sasl_bind_req}
use ldap.Requests.Binds
use ldap.Requests.Binds.Gssapi
use ldap.Requests.Binds.Ntlm
use ldap.Requests.Binds.Layer.{with_layer, IsSettled, gssapi_bind-IsSettled}
use ldap.Requests.Binds.Offer.{gssapi_bind-any_mask}
use ldap.Tests.Layers.{counting, unbind}
use ldap.Protocol.Sasl.{encode}
use ldap.Protocol.Sasl.Packets.{layered}
use ldap.Requests.Binds.Protected.{IsProtected, gssapi_bind-IsProtected}
use ldap.Ber.Asn.{into_structure, integer_octets, count_rem, i_e_into_structure}
use ldap.Ber.Write.{to_be_bytes, encode_inner, write_type, write_length}

abbrev answer : ℕ → Option Bytes → LdapResultExt
answer rc creds = record {
  base = record { rc = rc; matched = []; text = []; refs = []; ctrls = [] };
  exop = record { name = none; val = none };
  sasl_creds = creds;
}

-- A server that offers no layer at all, and messages of at most 65536 octets.
abbrev no_layer : Bytes
no_layer = 0 ∷ 1 ∷ 0 ∷ 0 ∷ []

gssapi_bind-any_mask_example :
    Binds.run
      (Gssapi.gssapi_bind counting false (new_codec counting) none (codes "host") Gssapi.default)
      (Outcome.ok (answer 14 (some (7 ∷ [])))
        ∷ Outcome.ok (answer 14 (some no_layer))
        ∷ Outcome.ok (answer 0 none)
        ∷ [])
    ≡ (
      sasl_bind_req (codes "GSSAPI") (some (codes "ldap/host"))
          ∷ sasl_bind_req (codes "GSSAPI") none
          ∷ sasl_bind_req (codes "GSSAPI") (some (0 ∷ 4 ∷ 0x9F ∷ 0xFF ∷ 0xB8 ∷ []))
          ∷ [],
      some (Outcome.ok (with_layer counting 65536 1 (new_codec counting), (answer 0 none).base)),
    )
unfolding Gssapi.recv_max_size
gssapi_bind-any_mask_example =
    gssapi_bind-any_mask counting (new_codec counting) false none (codes "host") Gssapi.default 0 0
      0 1 (codes "ldap/host") (7 ∷ []) no_layer (0 ∷ 4 ∷ 0x9F ∷ 0xFF ∷ 0xB8 ∷ []) (1 ∷ 0 ∷ 0 ∷ []) 0
      (answer 14 (some (7 ∷ []))) (answer 14 (some no_layer)) (answer 0 none) refl refl refl refl
      refl refl refl refl refl refl

-- An unbind request after the bind of above.
gssapi_bind-IsProtected_example :
    IsProtected counting unbind []
      (layered counting 65536 2)
      (0 ∷ 0 ∷ 0 ∷ 8 ∷ 1 ∷ 0x30 ∷ 5 ∷ 2 ∷ 1 ∷ 2 ∷ 0x42 ∷ 0 ∷ [])
unfolding Gssapi.gssapi_bind Binds.run Gssapi.recv_max_size encode into_structure encode_inner
    write_type write_length integer_octets count_rem i_e_into_structure to_be_bytes
gssapi_bind-IsProtected_example =
    gssapi_bind-IsProtected counting none (codes "host") Gssapi.default
      (Outcome.ok (answer 14 (some (7 ∷ [])))
        ∷ Outcome.ok (answer 14 (some no_layer))
        ∷ Outcome.ok (answer 0 none)
        ∷ [])
      (sasl_bind_req (codes "GSSAPI") (some (codes "ldap/host"))
        ∷ sasl_bind_req (codes "GSSAPI") none
        ∷ sasl_bind_req (codes "GSSAPI") (some (0 ∷ 4 ∷ 0x9F ∷ 0xFF ∷ 0xB8 ∷ []))
        ∷ [])
      (layered counting 65536 1) (layered counting 65536 2) (answer 0 none).base 2 unbind.1 none []
      (0 ∷ 0 ∷ 0 ∷ 8 ∷ 1 ∷ 0x30 ∷ 5 ∷ 2 ∷ 1 ∷ 2 ∷ 0x42 ∷ 0 ∷ []) refl refl refl refl

-- A server that answers the first request with success.
gssapi_bind-IsSettled_example :
    IsSettled counting (new_codec counting) 1 (new_codec counting, (answer 0 none).base)
unfolding Gssapi.gssapi_bind Binds.run
gssapi_bind-IsSettled_example =
    gssapi_bind-IsSettled counting (new_codec counting) none (codes "host") Gssapi.default
      (Outcome.ok (answer 0 none) ∷ [])
      (sasl_bind_req (codes "GSSAPI") (some (codes "ldap/host")) ∷ []) (new_codec counting)
      (answer 0 none).base refl

-- A context that remembers the channel it is bound to.
abbrev remembering : Ntlm.Sspi
remembering = record {
  Username = Bytes;
  Ntlm = Bytes;
  Creds = ℕ;
  new = [];
  parse_username = λ name. some name;
  acquire_credentials_handle = λ ntlm user password. some (ntlm, 0);
  initialize_security_context =
      λ ntlm creds input. some (ntlm, creds, Ntlm.SecurityStatus.other, input ++ ntlm);
  complete_auth_token = λ ntlm buffer. some (ntlm, buffer);
  set_channel_bindings = λ ntlm token. token;
}

-- The second request has the challenge and the channel.
ntlm_exchange :
    Binds.run
      (Ntlm.sasl_ntlm_bind remembering true (some (9 ∷ [])) (codes "user") (codes "secret"))
      (Outcome.ok (answer 14 (some (7 ∷ []))) ∷ Outcome.ok (answer 0 none) ∷ [])
    ≡ (
      sasl_bind_req (codes "GSS-SPNEGO") (some [])
          ∷ sasl_bind_req (codes "GSS-SPNEGO") (some (7 ∷ codes "tls-server-end-point:" ++ 9 ∷ []))
          ∷ [],
      some (Outcome.ok (answer 0 none).base),
    )
unfolding Binds.run Ntlm.sasl_ntlm_bind
ntlm_exchange = refl
