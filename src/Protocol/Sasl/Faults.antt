-- ===== src/Protocol/Sasl/Faults.antt =====
-- Where the SASL layer and the stream do not agree on where a message ends (src/protocol.rs).
use ldap.Common.{
  ℕ, zero, suc, ◌-◌, ◌^◌, ◌<◌, ◌≡◌, refl, sym, ap, ◌∙◌, true, false, some, none, [], ◌∷◌, ◌++◌,
  append-nil, Bytes, length, take, length-take_le, is_empty, ok, err, arith, ltb, lt→ltb,
  le→ltb_false, if◌then◌else◌,
}
use ldap.Nom.{NomStreaming, IsNomStreaming}
use ldap.Ber.Write.{to_be_bytes, encode_into, encode_inner, write_type}
use ldap.Protocol.Codec
use ldap.Protocol.Codec.{Message, decode_inner}
use ldap.Protocol.Gssapi.{Gssapi, IsGssapi}
use ldap.Result.Types.{io}
use ldap.Protocol.Sasl
use ldap.Protocol.Sasl.Packets.{
  Outgoing, plain, IsSendable, arriving, prefix, layered, length-prefix, is_empty-prefix,
  from_be_bytes-prefix, decode-packet,
}
use ldap.Protocol.Sasl.Delivery.{decode-plain_more, decode-plain, Receives, waits, takes}

module _ (gssapi : Gssapi) (nom : NomStreaming) where
  decode-part :
      (max : ℕ) (b : gssapi.ClientCtx) (sealed part : Bytes)
      → length sealed < 2 ^ 32
      → length part < length sealed
      → Sasl.decode gssapi nom (layered gssapi max b) (prefix sealed ++ part)
        ≡ (layered gssapi max b, prefix sealed ++ part, ok none)
  unfolding Sasl.decode
  decode-part max b sealed part small short =
      rw
        (
          is_empty-prefix sealed part,
          le→ltb_false (length (prefix sealed ++ part)) 4
              (omega (arith, length-prefix sealed part)),
          from_be_bytes-prefix sealed part small,
          lt→ltb (length (prefix sealed ++ part) - 4) (length sealed)
              (omega (arith, length-prefix sealed part)),
        )
        refl

  -- When a receiver with the SASL layer has a non-empty proper beginning of a packet shorter
  -- than 2^32 octets, decoding leaves codec and buffer as they are: it waits for more if at
  -- least four octets are there, and it returns an error if there are one to three.
  pub decode-cut :
      (max k : ℕ) (b : gssapi.ClientCtx) (sealed : Bytes)
      → length sealed < 2 ^ 32
      → 0 < k
      → k < length (prefix sealed ++ sealed)
      → Sasl.decode gssapi nom (layered gssapi max b) (take k (prefix sealed ++ sealed)) ≡ (
        layered gssapi max b,
        take k (prefix sealed ++ sealed),
        if ltb k 4 then err io else ok none,
      )
  unfolding Sasl.decode to_be_bytes
  decode-cut max zero b sealed small some_ short = absurd (omega arith)
  decode-cut max (suc zero) b sealed small some_ short = refl
  decode-cut max (suc (suc zero)) b sealed small some_ short = refl
  decode-cut max (suc (suc (suc zero))) b sealed small some_ short = refl
  decode-cut max (suc (suc (suc (suc j)))) b sealed small some_ short =
      decode-part max b sealed (take j sealed) small
        (omega (arith, length-take_le j sealed (omega arith)))
      ∙ rw (le→ltb_false (suc (suc (suc (suc j)))) 4 (omega arith)) refl

  module _ (laws : IsNomStreaming nom) (law : IsGssapi gssapi) where
    plain-not_empty : (m : Outgoing) → is_empty (plain m) ≡ false
    unfolding Codec.encode encode_into encode_inner write_type
    plain-not_empty m = refl

    decode-leftover :
        (max : ℕ) (b : gssapi.ClientCtx) (m : Outgoing)
        → IsSendable m
        → Sasl.decode gssapi nom
            (record (layered gssapi max b) { has_decoded_data = true })
            (plain m)
          ≡ (layered gssapi max b, [], ok (some (arriving m)))
    unfolding Sasl.decode
    decode-leftover max b m sendable =
        rw (plain-not_empty m, decode-plain gssapi nom laws law m sendable) refl

    -- When the two ends of an established GSSAPI context are in step and one SASL packet
    -- shorter than 2^32 octets holds two messages that can be encoded and decoded, a
    -- receiver that has the packet and nothing after it decodes both messages; one that has
    -- the packet and any further octet decodes the first message, and is left with exactly
    -- the octets after the packet and with no unwrapped data, so that the second message is
    -- lost.
    pub decode-two_wrapped :
        (m m' : Outgoing) (max next : ℕ) (a a' b : gssapi.ClientCtx) (sealed more : Bytes)
        → IsSendable m
        → IsSendable m'
        → law.Peers a b
        → gssapi.wrap a true (plain m ++ plain m') ≡ (a', some sealed)
        → length sealed < 2 ^ 32
        → ((b' : gssapi.ClientCtx) × law.Peers a' b'
            × Receives gssapi nom
                (layered gssapi max b)
                (prefix sealed ++ sealed)
                (arriving m ∷ arriving m' ∷ [])
                (layered gssapi max b')
                [])
          × ((b' : gssapi.ClientCtx) × law.Peers a' b'
              × (Sasl.decode gssapi nom
                    (layered gssapi max b)
                    (prefix sealed ++ (sealed ++ next ∷ more))
                  ≡ (layered gssapi max b', next ∷ more, ok (some (arriving m)))))
    decode-two_wrapped m m' max next a a' b sealed more sendable sendable' peers e small =
        let (b1, all, peers1) =
          law.unwrap_iov-wrap a a' b (plain m ++ plain m') sealed [] peers e in
        let (b2, part, peers2) =
          law.unwrap_iov-wrap a a' b (plain m ++ plain m') sealed (next ∷ more) peers e in
        (
          (b1, peers1, takes (first_of b1 all) (takes (decode-leftover max b1 m' sendable') waits)),
          (
            b2,
            peers2,
            decode-packet gssapi nom max b sealed (next ∷ more) small
                ∙ rw
                    (
                      part,
                      decode-plain_more gssapi nom laws law m (plain m') sendable,
                      plain-not_empty m',
                    )
                    refl,
          ),
        )
      where
        first_of :
            (b1 : gssapi.ClientCtx)
            → gssapi.unwrap_iov b (length sealed) (sealed ++ [])
              ≡ (b1, [], some (plain m ++ plain m'))
            → Sasl.decode gssapi nom (layered gssapi max b) (prefix sealed ++ sealed) ≡ (
              record (layered gssapi max b1) { has_decoded_data = true },
              plain m',
              ok (some (arriving m)),
            )
        first_of b1 all =
            ap (λ sealed_. Sasl.decode gssapi nom (layered gssapi max b) (prefix sealed ++ sealed_))
              (sym (append-nil sealed))
            ∙ decode-packet gssapi nom max b sealed [] small
            ∙ rw
                (
                  all,
                  decode-plain_more gssapi nom laws law m (plain m') sendable,
                  plain-not_empty m',
                )
                refl
