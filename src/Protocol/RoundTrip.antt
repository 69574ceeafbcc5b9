-- ===== src/Protocol/RoundTrip.antt =====
-- Messages: `decode_inner` after `encode` (src/protocol.rs).
use ldap.Common.{
  ℕ, ◌^◌, ◌<◌, ◌≡◌, refl, false, Option, none, some, List, [], ◌++◌, Bytes, ok, All, map, arith,
  pop,
}
use ldap.Common.Int.{pos, to_i32}
use ldap.Nom.{NomStreaming, IsNomStreaming}
use ldap.Ber.Structure.{
  StructureTag, context, class_eq, class_of, match_id, match_class, expect_constructed,
  expect_primitive,
}
use ldap.Ber.Asn.{Tag, into_structure, integer_octets, i_e_into_structure}
use ldap.Ber.Write.{encode_into}
use ldap.Ber.Parse.{parse_uint}
use ldap.Ber.RoundTrip.{IsEncodable, parse-encode_inner}
use ldap.Ber.Integers.{parse_uint-integer_octets}
use ldap.Controls.Types.{RawControl, Control}
use ldap.Controls.RoundTrip.{as_response, IsNamed, parse_controls-build_tag}
use ldap.Protocol.Codec

-- An operation that cannot be mistaken for the controls or for the element that is skipped: LDAP
-- operations have the application class.
abbrev pub IsOperation : StructureTag → Type 0
IsOperation t = class_eq (class_of t) context ≡ false

abbrev pub received : Option (List RawControl) → List Control
received none = []
received (some rcs) = map as_response rcs

abbrev pub AreNamed : Option (List RawControl) → Type 0
AreNamed none = Unit {0}
AreNamed (some rcs) = All IsNamed rcs

msgid_octets : (n : ℕ) → n < 2 ^ 31 → to_i32 (parse_uint (integer_octets (pos n))) ≡ pos n
msgid_octets n h = rw (parse_uint-integer_octets n (omega arith)) (ground arith)

decode_tag-message_tag :
    (n : ℕ) (tag : Tag) (controls : Option (List RawControl))
    → n < 2 ^ 31
    → IsOperation (into_structure tag)
    → AreNamed controls
    → Codec.decode_tag (Codec.message_tag (pos n) tag controls)
      ≡ ok (record { msgid = pos n; protoop = into_structure tag; ctrls = received controls })
unfolding Codec.decode_tag Codec.message_tag pop match_id match_class expect_constructed
    expect_primitive i_e_into_structure
decode_tag-message_tag n tag none h op named = rw op (rw (msgid_octets n h) refl)
decode_tag-message_tag n tag (some rcs) h op named =
    rw (parse_controls-build_tag context rcs named) (rw (msgid_octets n h) refl)

module _ (nom : NomStreaming) (laws : IsNomStreaming nom) where
  -- For a message id below 2^31, an operation whose tag does not have the context class,
  -- controls whose OIDs are valid UTF-8 and a message whose tag numbers are below 31 and whose
  -- contents are shorter than 2^64 octets, decoding the encoded message followed by any octets
  -- gives the message id, the operation and the controls, each control with the type its OID
  -- names, and leaves exactly those octets.
  pub decode_inner-encode :
      (n : ℕ) (tag : Tag) (controls : Option (List RawControl)) (rest : Bytes)
      → n < 2 ^ 31
      → IsOperation (into_structure tag)
      → AreNamed controls
      → IsEncodable (Codec.message_tag (pos n) tag controls)
      → Codec.decode_inner nom (Codec.encode (pos n, tag, controls) [] ++ rest) ≡ (
        rest,
        ok (
            some
              (record { msgid = pos n; protoop = into_structure tag; ctrls = received controls })),
      )
  unfolding Codec.decode_inner Codec.encode encode_into
  decode_inner-encode n tag controls rest h op named enc =
      rw
        (
          parse-encode_inner nom laws (Codec.message_tag (pos n) tag controls) rest enc,
          decode_tag-message_tag n tag controls h op named,
        )
        refl
