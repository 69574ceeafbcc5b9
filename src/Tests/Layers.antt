-- ===== src/Tests/Layers.antt =====
-- The SASL layer at concrete inputs. A context counts its messages and seals one by writing the
-- number in front of it.
use ldap.Common.{
  ℕ, ◌+◌, ◌≡◌, refl, true, Option, none, some, [], ◌∷◌, ◌++◌, Bytes, length, take, drop,
  take-append, drop-append, ◌==◌, ==_refl, if◌then◌else◌, Outcome, arith, codes,
}
use ldap.Nom.{streaming, streaming-IsNomStreaming}
use ldap.Ber.Structure.{structure_tag, application, P}
use ldap.Ber.Asn.{raw, into_structure, integer_octets, count_rem, i_e_into_structure}
use ldap.Ber.Write.{to_be_bytes, encode_into, encode_inner, write_type, write_length}
use ldap.Result.Types.{io}
use ldap.Protocol.Codec.{message_tag, encode}
use ldap.Protocol.Gssapi.{Gssapi, IsGssapi, finished}
use ldap.Protocol.Sasl.Packets.{Outgoing, layered, plain, prefix, arriving}
use ldap.Protocol.Sasl.Delivery.{Sends, rests, encodes, Receives, Sends-Receives}
use ldap.Protocol.Sasl.Faults.{decode-cut, decode-two_wrapped}
use ldap.Protocol.Sasl

abbrev opened : ℕ → Bytes → Option Bytes
opened b [] = none
opened b (number ∷ message) = if number == b then some message else none

abbrev pub counting : Gssapi
counting = record {
  Cred = ℕ;
  PendingClientCtx = ℕ;
  ClientCtx = ℕ;
  new = λ spn cbt. some (0, spn);
  new_with_cred = λ cred spn cbt. some (cred, spn);
  step = λ pending token. some (finished pending none);
  wrap = λ ctx encrypt message. (ctx + 1, some (ctx ∷ message));
  unwrap = λ ctx message. (ctx, some message);
  unwrap_iov = λ ctx len buf. (ctx + 1, drop len buf, opened ctx (take len buf));
}

counting_opens :
    (b : ℕ) (message sealed rest : Bytes)
    → sealed ≡ b ∷ message
    → counting.unwrap_iov b (length sealed) (sealed ++ rest) ≡ (b + 1, rest, some message)
counting_opens b message sealed rest e =
    rw (take-append sealed rest, drop-append sealed rest, e, ==_refl b) refl

counting_unwraps :
    (a a' b : ℕ) (message sealed rest : Bytes)
    → a ≡ b
    → counting.wrap a true message ≡ (a', some sealed)
    → (b' : ℕ) × (counting.unwrap_iov b (length sealed) (sealed ++ rest) ≡ (b', rest, some message))
      × (a' ≡ b')
counting_unwraps a a' b message sealed rest same e =
    (b + 1, counting_opens b message sealed rest cc, cc)

abbrev counting-IsGssapi : IsGssapi counting
counting-IsGssapi = record { Peers = λ a b. a ≡ b; unwrap_iov-wrap = counting_unwraps }

-- An unbind request, and a request with the name of an object to delete.
abbrev pub unbind : Outgoing
unbind = (2, raw (structure_tag application 2 (P [])), none)

abbrev delete : Outgoing
delete = (1, raw (structure_tag application 10 (P (codes "cn=a"))), none)

abbrev delete_packet : Bytes
delete_packet = 0 ∷ 0 ∷ 0 ∷ 12 ∷ 5 ∷ 0x30 ∷ 9 ∷ 2 ∷ 1 ∷ 1 ∷ 0x4A ∷ 4 ∷ codes "cn=a"

abbrev unbind_packet : Bytes
unbind_packet = 0 ∷ 0 ∷ 0 ∷ 8 ∷ 6 ∷ 0x30 ∷ 5 ∷ 2 ∷ 1 ∷ 2 ∷ 0x42 ∷ 0 ∷ []

two_sent :
    Sends counting streaming
      (layered counting 0 5)
      []
      (delete ∷ unbind ∷ [])
      (layered counting 0 7)
      (delete_packet ++ unbind_packet)
unfolding Sasl.encode to_be_bytes encode_inner write_type write_length integer_octets count_rem
    i_e_into_structure
two_sent =
    encodes (ground arith) refl (ground arith) (encodes (ground arith) refl (ground arith) rests)

Sends-Receives_example :
    (b' : ℕ) × Receives counting streaming
      (layered counting 0 5)
      ((delete_packet ++ unbind_packet) ++ 0 ∷ [])
      (arriving delete ∷ arriving unbind ∷ [])
      (layered counting 0 b')
      (0 ∷ [])
Sends-Receives_example =
    Sends-Receives counting streaming streaming-IsNomStreaming counting-IsGssapi
      (delete ∷ unbind ∷ []) 0 0 5 5 (layered counting 0 7) (delete_packet ++ unbind_packet)
      (0 ∷ []) refl two_sent

decode-cut_example :
    Sasl.decode counting streaming (layered counting 0 9) (0 ∷ 0 ∷ 0 ∷ [])
    ≡ (layered counting 0 9, 0 ∷ 0 ∷ 0 ∷ [], Outcome.err io)
unfolding to_be_bytes
decode-cut_example =
    decode-cut counting streaming 0 3 9 (9 ∷ 7 ∷ []) (ground arith) (ground arith) (ground arith)

decode-two_wrapped_example :
    ((b' : ℕ) × (10 ≡ b')
      × Receives counting streaming
          (layered counting 0 9)
          (prefix (9 ∷ plain delete ++ plain unbind) ++ (9 ∷ plain delete ++ plain unbind))
          (arriving delete ∷ arriving unbind ∷ [])
          (layered counting 0 b')
          [])
    × ((b' : ℕ) × (10 ≡ b')
        × (Sasl.decode counting streaming (layered counting 0 9) (
              prefix (9 ∷ plain delete ++ plain unbind)
              ++ ((9 ∷ plain delete ++ plain unbind) ++ 0 ∷ []))
            ≡ (layered counting 0 b', 0 ∷ [], Outcome.ok (some (arriving delete)))))
unfolding encode encode_into message_tag into_structure encode_inner write_type write_length
    integer_octets count_rem i_e_into_structure
decode-two_wrapped_example =
    decode-two_wrapped counting streaming streaming-IsNomStreaming counting-IsGssapi delete unbind 0
      0 9 10 9 (9 ∷ plain delete ++ plain unbind) [] (ground arith) (ground arith) refl refl
      (ground arith)
