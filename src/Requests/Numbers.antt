-- ===== src/Requests/Numbers.antt =====
-- What the receiver of a request reads (src/ldap.rs, src/protocol.rs).
use ldap.Common.{
  ℕ, ◌<◌, ◌^◌, ◌≡◌, refl, Bool, true, false, Option, none, some, List, [], ◌++◌, Bytes, ok, err,
  panic, subst, ap, if◌then◌else◌,
}
use ldap.Common.Int.{pos}
use ldap.Nom.{NomStreaming, IsNomStreaming}
use ldap.Ber.Structure.{application, class_of, id_of, context, class_eq}
use ldap.Ber.Asn.{Tag, into_structure, i_e_into_structure}
use ldap.Ber.RoundTrip.{IsEncodable}
use ldap.Controls.Types.{RawControl}
use ldap.Protocol.Codec.{encode, decode_inner, message_tag}
use ldap.Protocol.RoundTrip.{decode_inner-encode, AreNamed, received}
use ldap.Result.Types.{Run, add_no_values}
use ldap.Requests.Build

-- The `[APPLICATION n]` numbers of RFC 4511, section 4.
abbrev pub protocol_number : Build.Operation → ℕ
protocol_number (Build.op_simple_bind dn pw) = 0
protocol_number Build.op_sasl_external_bind = 0
protocol_number (Build.op_add dn attrs) = 8
protocol_number (Build.op_compare dn attr val) = 14
protocol_number (Build.op_delete dn) = 10
protocol_number (Build.op_modify dn mods) = 6
protocol_number (Build.op_modifydn dn rdn delete_old new_sup) = 12
protocol_number (Build.op_extended exop) = 23
protocol_number Build.op_unbind = 2
protocol_number (Build.op_abandon msgid) = 16

-- A request, if there is one, has the class and the number of its operation.
HasNumber : ℕ → Run Tag → Type 0
HasNumber n (ok tag) =
    (class_of (into_structure tag) ≡ application) × (id_of (into_structure tag) ≡ n)
HasNumber n (err e) = Unit {0}
HasNumber n panic = Unit {0}

checked-HasNumber :
    (n : ℕ) (b : Bool) (tag : Tag)
    → HasNumber n (ok tag)
    → HasNumber n (if b then err add_no_values else ok tag)
unfolding HasNumber
checked-HasNumber n true tag h = tt
checked-HasNumber n false tag h = h

extended-HasNumber :
    (name val : Option Bytes) → HasNumber 23 (Build.extended (record { name = name; val = val }))
unfolding HasNumber Build.extended Build.construct_exop into_structure
extended-HasNumber none val = tt
extended-HasNumber (some name) val = (refl, refl)

request-HasNumber : (op : Build.Operation) → HasNumber (protocol_number op) (Build.request op)
unfolding HasNumber Build.request into_structure i_e_into_structure
request-HasNumber (Build.op_simple_bind dn pw) = (refl, refl)
request-HasNumber Build.op_sasl_external_bind = (refl, refl)
request-HasNumber (Build.op_add dn attrs) =
    checked-HasNumber 8 (Build.any_empty attrs) _ (refl, refl)
request-HasNumber (Build.op_compare dn attr val) = (refl, refl)
request-HasNumber (Build.op_delete dn) = (refl, refl)
request-HasNumber (Build.op_modify dn mods) =
    checked-HasNumber 6 (Build.any_add_empty mods) _ (refl, refl)
request-HasNumber (Build.op_modifydn dn rdn delete_old new_sup) = (refl, refl)
request-HasNumber (Build.op_extended exop) = extended-HasNumber exop.name exop.val
request-HasNumber Build.op_unbind = (refl, refl)
request-HasNumber (Build.op_abandon msgid) = (refl, refl)

module _ (nom : NomStreaming) (laws : IsNomStreaming nom) where
  -- When an operation has a request, the message id is below 2^31, the OIDs of the controls
  -- are valid UTF-8 and the message has tag numbers below 31 and contents shorter than 2^64
  -- octets, decoding the encoded message followed by any octets gives the id, the request and
  -- the controls and leaves those octets, and the request has the application class and the
  -- number that RFC 4511 gives the operation.
  pub decode_inner-request :
      (op : Build.Operation) (tag : Tag) (n : ℕ) (controls : Option (List RawControl))
      (rest : Bytes)
      → Build.request op ≡ ok tag
      → n < 2 ^ 31
      → AreNamed controls
      → IsEncodable (message_tag (pos n) tag controls)
      → (decode_inner nom (encode (pos n, tag, controls) [] ++ rest) ≡ (
        rest,
        ok (
            some
              (record { msgid = pos n; protoop = into_structure tag; ctrls = received controls })),
      ))
        × (class_of (into_structure tag) ≡ application)
        × (id_of (into_structure tag) ≡ protocol_number op)
  unfolding HasNumber
  decode_inner-request op tag n controls rest built h named enc =
      let (class, number) = subst (HasNumber (protocol_number op)) built (request-HasNumber op) in
      (
        decode_inner-encode nom laws n tag controls rest h (ap (λ c. class_eq c context) class)
            named enc,
        class,
        number,
      )
