-- ===== src/Protocol/Sasl/Packets.antt =====
-- The packets of the SASL layer: what `encode` appends and `decode` opens (src/protocol.rs).
use ldap.Common.{
  ltb, ◌&&◌, ◌⊎◌, ◌≤◌, ℕ, ◌+◌, ◌-◌, ◌%◌, ◌^◌, ◌<◌, ◌≡◌, refl, ap, ◌∙◌, Bool, true, false, Option,
  none, some, List, [], ◌++◌, Bytes, length, length-append, take, drop, is_empty, ok, err, arith,
  if◌then◌else◌, le→ltb_false,
}
use ldap.Common.Int.{pos}
use ldap.Nom.{NomStreaming}
use ldap.Ber.Asn.{Tag, into_structure}
use ldap.Ber.Write.{to_be_bytes}
use ldap.Ber.Integers.{base256-to_be_bytes}
use ldap.Ber.RoundTrip.{IsEncodable}
use ldap.Controls.Types.{RawControl}
use ldap.Result.Types.{Run, io}
use ldap.Protocol.Codec.{Message, message_tag, decode_inner}
use ldap.Protocol.Codec
use ldap.Protocol.RoundTrip.{IsOperation, AreNamed, received}
use ldap.Protocol.Gssapi.{Gssapi}
use ldap.Protocol.Sasl

-- A message to send: its id, the operation and the controls.
abbrev pub Outgoing : Type 0
Outgoing = ℕ × Tag × Option (List RawControl)

-- The octets of a message without a SASL layer.
abbrev pub plain : Outgoing → Bytes
plain (n, tag, controls) = Codec.encode (pos n, tag, controls) []

abbrev pub IsSendable : Outgoing → Type 0
IsSendable (n, tag, controls) =
    (n < 2 ^ 31)
    × IsOperation (into_structure tag)
    × AreNamed controls
    × IsEncodable (message_tag (pos n) tag controls)

-- How it arrives.
abbrev pub arriving : Outgoing → Message
arriving (n, tag, controls) = record {
  msgid = pos n;
  protoop = into_structure tag;
  ctrls = received controls;
}

-- The length in front of a SASL buffer.
abbrev pub prefix : Bytes → Bytes
prefix sealed = to_be_bytes 4 (length sealed % 2 ^ 32)

pub is_empty-prefix : (sealed more : Bytes) → is_empty (prefix sealed ++ more) ≡ false
unfolding to_be_bytes
is_empty-prefix sealed more = refl

take-prefix : (sealed more : Bytes) → take 4 (prefix sealed ++ more) ≡ prefix sealed
unfolding to_be_bytes
take-prefix sealed more = refl

pub drop-prefix : (sealed more : Bytes) → drop 4 (prefix sealed ++ more) ≡ more
unfolding to_be_bytes
drop-prefix sealed more = refl

pub from_be_bytes-prefix :
    (sealed more : Bytes)
    → length sealed < 2 ^ 32
    → Sasl.from_be_bytes (take 4 (prefix sealed ++ more)) ≡ length sealed
from_be_bytes-prefix sealed more h =
    ap Sasl.from_be_bytes (take-prefix sealed more)
    ∙ omega (arith, base256-to_be_bytes 4 (length sealed % 2 ^ 32) 0)

pub length-prefix : (sealed more : Bytes) → length (prefix sealed ++ more) ≡ 4 + length more
unfolding to_be_bytes
length-prefix sealed more = omega arith

pub length-packet :
    (sealed rest : Bytes)
    → length (prefix sealed ++ (sealed ++ rest)) ≡ 4 + (length sealed + length rest)
length-packet sealed rest =
    omega (arith, length-prefix sealed (sealed ++ rest), length-append sealed rest)

within_limit : (max len : ℕ) → (ltb 0 max && ltb max len) ≡ false → (max ≡ 0) ⊎ (len ≤ max)
within_limit max len h = ground arith

module _ (gssapi : Gssapi) where
  -- A codec with the layer, and nothing left of a buffer.
  abbrev pub layered : ℕ → gssapi.ClientCtx → Sasl.LdapCodec gssapi
  layered max ctx = record {
    has_decoded_data = false;
    sasl_param = (true, max);
    client_ctx = some ctx;
  }

  abbrev pub Wrapped :
      Outgoing → ℕ → gssapi.ClientCtx → Bytes → Sasl.LdapCodec gssapi → Bytes → Type 0
  Wrapped m max a into c into' =
      (a' : gssapi.ClientCtx) × (sealed : Bytes) × (gssapi.wrap a true (plain m)
        ≡ (a', some sealed))
      × (c ≡ layered max a')
      × (into' ≡ into ++ (prefix sealed ++ sealed))

  wrapped_inv :
      (m : Outgoing) (max : ℕ) (a : gssapi.ClientCtx) (into : Bytes) (c : Sasl.LdapCodec gssapi)
      (into' : Bytes) (r : gssapi.ClientCtx × Option Bytes)
      → gssapi.wrap a true (plain m) ≡ r
      → Sasl.wrapped gssapi (layered max a) into r ≡ (c, ok into')
      → Wrapped m max a into c into'
  wrapped_inv m max a into c into' (a', none) e h = cc
  wrapped_inv m max a into c into' (a', some sealed) e h = (a', sealed, e, cc, cc)

  unlimited_inv :
      (m : Outgoing) (max : ℕ) (a : gssapi.ClientCtx) (into : Bytes) (c : Sasl.LdapCodec gssapi)
      (into' : Bytes) (long : Bool)
      → (if long
          then (layered max a, err io)
          else Sasl.wrapped gssapi (layered max a) into (gssapi.wrap a true (plain m)))
        ≡ (c, ok into')
      → Wrapped m max a into c into'
  unlimited_inv m max a into c into' true h = cc
  unlimited_inv m max a into c into' false h = wrapped_inv m max a into c into' _ refl h

  -- The packet that `encode` appends.
  pub encode_inv :
      (n : ℕ) (tag : Tag) (controls : Option (List RawControl)) (max : ℕ) (a : gssapi.ClientCtx)
      (into : Bytes) (c : Sasl.LdapCodec gssapi) (into' : Bytes)
      → Sasl.encode gssapi (layered max a) (pos n, tag, controls) into ≡ (c, ok into')
      → Wrapped (n, tag, controls) max a into c into'
  unfolding Sasl.encode Codec.encode
  encode_inv n tag controls max a into c into' h =
      unlimited_inv (n, tag, controls) max a into c into' _ h

  -- A message that was sent is within the limit, if there is one.
  limited_inv :
      (long : Bool) (c c' : Sasl.LdapCodec gssapi) (r : Sasl.LdapCodec gssapi × Run Bytes)
      (into' : Bytes)
      → (if long then (c, err io) else r) ≡ (c', ok into')
      → long ≡ false
  limited_inv true c c' r into' h = cc
  limited_inv false c c' r into' h = refl

  pub encode_limit :
      (n : ℕ) (tag : Tag) (controls : Option (List RawControl)) (max : ℕ) (a : gssapi.ClientCtx)
      (into : Bytes) (c : Sasl.LdapCodec gssapi) (into' : Bytes)
      → Sasl.encode gssapi (layered max a) (pos n, tag, controls) into ≡ (c, ok into')
      → (max ≡ 0) ⊎ (length (plain (n, tag, controls)) ≤ max)
  unfolding Sasl.encode Codec.encode
  encode_limit n tag controls max a into c into' h =
      within_limit max (length (plain (n, tag, controls))) (limited_inv _ _ c _ into' h)

  module _ (nom : NomStreaming) where
    pub decode-packet :
        (max : ℕ) (b : gssapi.ClientCtx) (sealed rest : Bytes)
        → length sealed < 2 ^ 32
        → Sasl.decode gssapi nom (layered max b) (prefix sealed ++ (sealed ++ rest))
          ≡ Sasl.unwrapped gssapi nom
              (layered max b)
              (gssapi.unwrap_iov b (length sealed) (sealed ++ rest))
    unfolding Sasl.decode
    decode-packet max b sealed rest h =
        rw
          (
            is_empty-prefix sealed (sealed ++ rest),
            le→ltb_false (length (prefix sealed ++ (sealed ++ rest))) 4
                (omega (arith, length-packet sealed rest)),
            from_be_bytes-prefix sealed (sealed ++ rest) h,
            le→ltb_false (length (prefix sealed ++ (sealed ++ rest)) - 4) (length sealed)
                (omega (arith, length-packet sealed rest)),
            drop-prefix sealed (sealed ++ rest),
          )
          refl
