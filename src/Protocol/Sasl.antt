-- ===== src/Protocol/Sasl.antt =====
-- src/protocol.rs with the `gssapi` feature: `decode` and `maybe_wrap` with the SASL layer that a
-- GSSAPI bind installs. What the codec shares with the handles is a part of its state.
use ldap.Common.{
  ℕ, ◌-◌, ◌%◌, ◌^◌, Bool, true, false, ◌&&◌, ◌||◌, not, Option, none, some, List, [], ◌++◌, Bytes,
  length, take, drop, is_empty, ltb, if◌then◌else◌, ok, err, panic,
}
use ldap.Common.Int.{ℤ}
use ldap.Nom.{NomStreaming}
use ldap.Ber.Structure.{StructureTag}
use ldap.Ber.Asn.{Tag}
use ldap.Ber.Write.{encode_into, to_be_bytes}
use ldap.Ber.Integers.{base256}
use ldap.Controls.Types.{RawControl}
use ldap.Result.Types.{Run, io}
use ldap.Protocol.Codec.{Message, message_tag, decode_inner}
use ldap.Protocol.Gssapi.{Gssapi}
pub mod Packets
pub mod Delivery
pub mod Faults

-- `sasl_param` is whether messages are wrapped, and the longest message that may be sent.
pub record LdapCodec (gssapi : Gssapi) : Type 0 where
  pub has_decoded_data : Bool
  pub sasl_param : Bool × ℕ
  pub client_ctx : Option gssapi.ClientCtx

-- `u32::from_be_bytes`.
abbrev pub from_be_bytes : Bytes → ℕ
from_be_bytes octets = base256 0 octets

abbrev pub is_ok {ℓ} : {A : Type ℓ} → Run A → Bool
is_ok (ok a) = true
is_ok (err e) = false
is_ok panic = false

module _ (gssapi : Gssapi) where
  -- The codec of a new connection, in `conn_pair`.
  abbrev pub new_codec : LdapCodec gssapi
  new_codec = record { has_decoded_data = false; sasl_param = (false, 0); client_ctx = none }

  abbrev pub wrapped :
      LdapCodec gssapi → Bytes → gssapi.ClientCtx × Option Bytes → LdapCodec gssapi × Run Bytes
  wrapped c into (ctx, none) = (record c { client_ctx = some ctx }, err io)
  wrapped c into (ctx, some sasl_buf) = (
    record c { client_ctx = some ctx },
    ok (into ++ (to_be_bytes 4 (length sasl_buf % 2 ^ 32) ++ sasl_buf)),
  )

  abbrev pub wrap_with :
      LdapCodec gssapi → Bytes → Bytes → Option gssapi.ClientCtx → LdapCodec gssapi × Run Bytes
  wrap_with c out_buf into none = (c, panic)
  wrap_with c out_buf into (some ctx) =
      if ltb 0 c.sasl_param.1 && ltb c.sasl_param.1 (length out_buf)
      then (c, err io)
      else wrapped c into (gssapi.wrap ctx true out_buf)

  unfoldable pub maybe_wrap : LdapCodec gssapi → StructureTag → Bytes → LdapCodec gssapi × Run Bytes
  unfolding encode_into
  maybe_wrap c outstruct into =
      let out_buf = encode_into [] outstruct in
      if c.sasl_param.0 then wrap_with c out_buf into c.client_ctx else (c, ok (into ++ out_buf))

  unfoldable pub encode :
      LdapCodec gssapi → ℤ × Tag × Option (List RawControl) → Bytes → LdapCodec gssapi × Run Bytes
  unfolding maybe_wrap message_tag
  encode c (id, tag, controls) into = maybe_wrap c (message_tag id tag controls) into

  abbrev pub unchanged :
      LdapCodec gssapi
      → Bytes × Run (Option Message)
      → LdapCodec gssapi × Bytes × Run (Option Message)
  unchanged c (buf, res) = (c, buf, res)

  -- After a message out of the data that had been unwrapped before.
  abbrev pub unwrapped_before :
      LdapCodec gssapi
      → Bytes × Run (Option Message)
      → LdapCodec gssapi × Bytes × Run (Option Message)
  unwrapped_before c (buf, res) =
      if is_ok res && is_empty buf
      then (record c { has_decoded_data = false }, buf, res)
      else (c, buf, res)

  -- After a message out of the data that has just been unwrapped, of which `decoded` is left.
  abbrev pub unwrapped_now :
      LdapCodec gssapi
      → Bytes
      → Bytes × Run (Option Message)
      → LdapCodec gssapi × Bytes × Run (Option Message)
  unwrapped_now c buf (decoded, res) =
      if is_ok res && (not (is_empty decoded) && is_empty buf)
      then (record c { has_decoded_data = true }, buf ++ decoded, res)
      else (c, buf, res)

  module _ (nom : NomStreaming) where
    abbrev pub unwrapped :
        LdapCodec gssapi
        → gssapi.ClientCtx × Bytes × Option Bytes
        → LdapCodec gssapi × Bytes × Run (Option Message)
    unwrapped c (ctx, buf, none) = (record c { client_ctx = some ctx }, buf, err io)
    unwrapped c (ctx, buf, some decoded) =
        unwrapped_now (record c { client_ctx = some ctx }) buf (decode_inner nom decoded)

    abbrev pub unwrap_with :
        LdapCodec gssapi
        → ℕ
        → Bytes
        → Option gssapi.ClientCtx
        → LdapCodec gssapi × Bytes × Run (Option Message)
    unwrap_with c sasl_len buf none = (c, buf, panic)
    unwrap_with c sasl_len buf (some ctx) = unwrapped c (gssapi.unwrap_iov ctx sasl_len buf)

    -- The buffer, the codec and the outcome: no message yet, or one.
    unfoldable pub decode :
        LdapCodec gssapi → Bytes → LdapCodec gssapi × Bytes × Run (Option Message)
    unfolding decode_inner
    decode c buf =
        if not c.sasl_param.0 || is_empty buf
        then unchanged c (decode_inner nom buf)
        else if c.has_decoded_data
        then unwrapped_before c (decode_inner nom buf)
        else if ltb (length buf) 4
        then (c, buf, err io)
        else let sasl_len = from_be_bytes (take 4 buf) in
          if ltb (length buf - 4) sasl_len
          then (c, buf, ok none)
          else unwrap_with c sasl_len (drop 4 buf) c.client_ctx
