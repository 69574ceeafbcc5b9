-- ===== src/Protocol/Sasl/Delivery.antt =====
-- Messages over the SASL layer: the codec of the receiver after that of the sender
-- (src/protocol.rs).
use ldap.Common.{
  ℕ, ◌+◌, ◌^◌, ◌<◌, ◌≡◌, refl, sym, ap, subst, ◌∙◌, true, Option, some, List, [], ◌∷◌, ◌++◌,
  append_assoc, append-nil, Bytes, length, length-append, map, ok, arith,
}
use ldap.Common.Int.{pos}
use ldap.Nom.{NomStreaming, IsNomStreaming}
use ldap.Ber.Asn.{Tag}
use ldap.Controls.Types.{RawControl}
use ldap.Protocol.Codec.{Message, decode_inner}
use ldap.Protocol.RoundTrip.{decode_inner-encode}
use ldap.Protocol.Gssapi.{Gssapi, IsGssapi}
use ldap.Protocol.Sasl
use ldap.Protocol.Sasl.Packets.{
  Outgoing, plain, IsSendable, arriving, prefix, length-prefix, layered, encode_inv, decode-packet,
}

module _ (gssapi : Gssapi) where
  module _ (nom : NomStreaming) where
    -- The sender encodes the messages into its buffer, and a packet is shorter than 2^32 octets.
    pub data Sends
        : Sasl.LdapCodec gssapi
          → Bytes
          → List Outgoing
          → Sasl.LdapCodec gssapi
          → Bytes
          → Type 0 where
      rests : {c : Sasl.LdapCodec gssapi} {into : Bytes} → Sends c into [] c into
      encodes :
          {c c1 c2 : Sasl.LdapCodec gssapi} {into into1 into2 : Bytes} {n : ℕ} {tag : Tag}
          {controls : Option (List RawControl)} {ms : List Outgoing}
          → IsSendable (n, tag, controls)
          → Sasl.encode gssapi c (pos n, tag, controls) into ≡ (c1, ok into1)
          → length into1 < length into + 4 + 2 ^ 32
          → Sends c1 into1 ms c2 into2
          → Sends c into ((n, tag, controls) ∷ ms) c2 into2

    -- The receiver takes the messages one after another.
    pub data Receives
        : Sasl.LdapCodec gssapi
          → Bytes
          → List Message
          → Sasl.LdapCodec gssapi
          → Bytes
          → Type 0 where
      waits : {c : Sasl.LdapCodec gssapi} {buf : Bytes} → Receives c buf [] c buf
      takes :
          {c c1 c2 : Sasl.LdapCodec gssapi} {buf buf1 buf2 : Bytes} {m : Message}
          {ms : List Message}
          → Sasl.decode gssapi nom c buf ≡ (c1, buf1, ok (some m))
          → Receives c1 buf1 ms c2 buf2
          → Receives c buf (m ∷ ms) c2 buf2

    module _ (laws : IsNomStreaming nom) (law : IsGssapi gssapi) where
      pub decode-plain_more :
          (m : Outgoing) (more : Bytes)
          → IsSendable m
          → decode_inner nom (plain m ++ more) ≡ (more, ok (some (arriving m)))
      decode-plain_more (n, tag, controls) more (h, op, named, enc) =
          decode_inner-encode nom laws n tag controls more h op named enc

      pub decode-plain :
          (m : Outgoing) → IsSendable m → decode_inner nom (plain m) ≡ ([], ok (some (arriving m)))
      decode-plain m sendable =
          ap (decode_inner nom) (sym (append-nil (plain m))) ∙ decode-plain_more m [] sendable

      decode-wrapped :
          (m : Outgoing) (max' : ℕ) (a a' b : gssapi.ClientCtx) (sealed rest : Bytes)
          → IsSendable m
          → law.Peers a b
          → gssapi.wrap a true (plain m) ≡ (a', some sealed)
          → length sealed < 2 ^ 32
          → (b' : gssapi.ClientCtx) × (Sasl.decode gssapi nom
                (layered gssapi max' b)
                (prefix sealed ++ (sealed ++ rest))
              ≡ (layered gssapi max' b', rest, ok (some (arriving m))))
            × law.Peers a' b'
      decode-wrapped m max' a a' b sealed rest sendable peers e short =
          let (b', opened, peers') = law.unwrap_iov-wrap a a' b (plain m) sealed rest peers e in
          (
            b',
            decode-packet gssapi nom max' b sealed rest short
                ∙ rw (opened, decode-plain m sendable) refl,
            peers',
          )

      packet-short :
          (into sealed into1 : Bytes)
          → into1 ≡ into ++ (prefix sealed ++ sealed)
          → length into1 < length into + 4 + 2 ^ 32
          → length sealed < 2 ^ 32
      packet-short into sealed into1 e h = omega (
        arith,
        ap length e,
        length-append into (prefix sealed ++ sealed),
        length-prefix sealed sealed,
      )

      packet_assoc :
          (sealed more rest : Bytes)
          → ((prefix sealed ++ sealed) ++ more) ++ rest
            ≡ prefix sealed ++ (sealed ++ (more ++ rest))
      packet_assoc sealed more rest =
          append_assoc (prefix sealed ++ sealed) more rest
          ∙ append_assoc (prefix sealed) sealed (more ++ rest)

      abbrev Delivered : List Outgoing → ℕ → gssapi.ClientCtx → Bytes → Type 0
      Delivered ms max' a stream =
          (b : gssapi.ClientCtx) (rest : Bytes)
          → law.Peers a b
          → (b' : gssapi.ClientCtx) × Receives (layered gssapi max' b) (stream ++ rest)
              (map arriving ms) (layered gssapi max' b') rest

      takes_first :
          (m : Outgoing) (ms : List Outgoing) (max' : ℕ) (a a' : gssapi.ClientCtx)
          (sealed stream : Bytes)
          → IsSendable m
          → gssapi.wrap a true (plain m) ≡ (a', some sealed)
          → length sealed < 2 ^ 32
          → Delivered ms max' a' stream
          → Delivered (m ∷ ms) max' a ((prefix sealed ++ sealed) ++ stream)
      takes_first m ms max' a a' sealed stream sendable e small more b rest peers =
          let (b1, decoded, peers') =
            decode-wrapped m max' a a' b sealed (stream ++ rest) sendable peers e small in
          let (b', received_) = more b1 rest peers' in
          (
            b',
            takes
                (ap (Sasl.decode gssapi nom (layered gssapi max' b))
                    (packet_assoc sealed stream rest)
                  ∙ decoded)
                received_,
          )

      Sends-Delivered :
          (ms : List Outgoing) (max max' : ℕ) (a : gssapi.ClientCtx) (c : Sasl.LdapCodec gssapi)
          (into into' : Bytes)
          → Sends (layered gssapi max a) into ms c into'
          → (stream : Bytes) × (into' ≡ into ++ stream) × Delivered ms max' a stream
      Sends-Delivered [] max max' a c into into' rests =
          ([], sym (append-nil into), λ b rest peers. (b, waits))
      Sends-Delivered ((n, tag, controls) ∷ ms) max max' a c into into'
            (encodes {c1} {into1} sendable e short sends) =
          let (a', sealed, e1, ec, ei) = encode_inv gssapi n tag controls max a into c1 into1 e in
          let (stream, es, more) =
            Sends-Delivered ms max max' a' c into1 into'
              (subst (λ c1. Sends c1 into1 ms c into') ec sends) in
          (
            (prefix sealed ++ sealed) ++ stream,
            es
                ∙ (ap (λ into1. into1 ++ stream) ei
                    ∙ append_assoc into (prefix sealed ++ sealed) stream),
            takes_first (n, tag, controls) ms max' a a' sealed stream sendable e1
                (packet-short into sealed into1 ei short) more,
          )

      -- When the two ends of an established GSSAPI context are in step, and a sender whose
      -- codec has the SASL layer, with any limit on the length of a message, encodes any
      -- list of messages, each with an id below 2^31, an operation whose tag does not have
      -- the context class, controls whose OIDs are valid UTF-8, tag numbers below 31 and
      -- contents shorter than 2^64 octets, one after another into an empty buffer, without
      -- an error and each in a packet shorter than 2^32 octets, then a receiver with the
      -- layer decodes what the buffer holds, followed by any octets, to exactly these
      -- messages in order, is left with exactly the octets that follow, and has nothing
      -- unwrapped left over.
      pub Sends-Receives :
          (ms : List Outgoing) (max max' : ℕ) (a b : gssapi.ClientCtx) (c : Sasl.LdapCodec gssapi)
          (stream rest : Bytes)
          → law.Peers a b
          → Sends (layered gssapi max a) [] ms c stream
          → (b' : gssapi.ClientCtx) × Receives
              (layered gssapi max' b)
              (stream ++ rest)
              (map arriving ms)
              (layered gssapi max' b')
              rest
      Sends-Receives ms max max' a b c stream rest peers sends =
          let (stream', e, delivered) = Sends-Delivered ms max max' a c [] stream sends in
          rw e (delivered b rest peers)
