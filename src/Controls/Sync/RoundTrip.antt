-- ===== src/Controls/Sync/RoundTrip.antt =====
-- The values that RFC 4533 describes for the synchronisation controls, and their parsers
-- (src/controls_impl/content_sync.rs).
use ldap.Common.{
  ℕ, ◌<◌, ◌^◌, ◌≡◌, refl, Bool, true, false, Option, none, some, List, [], ◌∷◌, ◌++◌, Bytes, ok,
  panic, ◌>>=◌, expect, arith, ◌==◌, if◌then◌else◌,
}
use ldap.Common.Int.{pos}
use ldap.Nom.{NomStreaming, IsNomStreaming}
use ldap.Ber.Structure.{
  StructureTag, to_list, match_class, match_id, expect_constructed, expect_primitive,
}
use ldap.Ber.Asn.{
  Tag, integer_octets, into_structure, into_tags, vec, i_e_into_structure, default_sequence,
  default_enumerated, default_octet_string, default_boolean,
}
use ldap.Ber.Parse.{parse_uint}
use ldap.Ber.Integers.{parse_uint-integer_octets}
use ldap.Ber.Write.{encode_inner, encode_into}
use ldap.Ber.RoundTrip.{IsEncodable}
use ldap.Controls.Value.{field, parse_value, parse_value-encode_inner}
use ldap.Controls.Codec.{first_nonzero}
use ldap.Result.Types.{Run}
use ldap.Controls.Sync.{
  RefreshMode, refresh_only, refresh_and_persist, mode_number, SyncRequest, sync_request_tag,
  sync_request_control, SyncState, EntryState, present, add, modify, delete, SyncDone, pushed,
  sync_state_of, sync_done_of, done_components, parse_sync_state, parse_sync_done, done_component,
  entry_state, last_octets,
}

abbrev pub state_number : EntryState → ℕ
state_number present = 0
state_number add = 1
state_number modify = 2
state_number delete = 3

-- syncStateValue.
abbrev pub sync_state_tag : SyncState → StructureTag
sync_state_tag s = into_structure (
    default_sequence (
      default_enumerated (pos (state_number s.state))
      ∷ default_octet_string s.entry_uuid
      ∷ pushed s.cookie))

-- A flag with a default: it is written if it is not the default, or else at choice.
abbrev pub flag_tags : Bool → Bool → Bool → List Tag
flag_tags written true true = if written then default_boolean true ∷ [] else []
flag_tags written true false = default_boolean false ∷ []
flag_tags written false true = default_boolean true ∷ []
flag_tags written false false = if written then default_boolean false ∷ [] else []

-- syncDoneValue.
abbrev pub sync_done_tag : Bool → SyncDone → StructureTag
sync_done_tag written d =
    into_structure (default_sequence (pushed d.cookie ++ flag_tags written false d.refresh_deletes))

entry_state-state_number : (e : EntryState) → entry_state (state_number e) ≡ ok e
entry_state-state_number present = refl
entry_state-state_number add = refl
entry_state-state_number modify = refl
entry_state-state_number delete = refl

state_number_small : (e : EntryState) → state_number e < 2 ^ 63
state_number_small present = omega arith
state_number_small add = omega arith
state_number_small modify = omega arith
state_number_small delete = omega arith

last_octets-pushed : (c : Option Bytes) → last_octets (to_list (into_tags (vec (pushed c)))) ≡ ok c
unfolding into_structure expect_primitive
last_octets-pushed none = refl
last_octets-pushed (some v) = refl

sync_state_of-sync_state_tag : (s : SyncState) → sync_state_of (sync_state_tag s) ≡ ok s
unfolding sync_state_of into_structure i_e_into_structure expect_constructed expect_primitive
    match_class match_id
sync_state_of-sync_state_tag s =
    rw
      (
        parse_uint-integer_octets (state_number s.state) (state_number_small s.state),
        entry_state-state_number s.state,
        last_octets-pushed s.cookie,
      )
      refl

done_components-flag_tags :
    (written b : Bool) (c : Option Bytes)
    → done_components
        (record { cookie = none; refresh_deletes = false })
        (to_list (into_tags (vec (pushed c ++ flag_tags written false b))))
      ≡ ok (record { cookie = c; refresh_deletes = b })
unfolding done_components done_component into_structure expect_primitive
done_components-flag_tags true true none = refl
done_components-flag_tags true true (some v) = refl
done_components-flag_tags true false none = refl
done_components-flag_tags true false (some v) = refl
done_components-flag_tags false true none = refl
done_components-flag_tags false true (some v) = refl
done_components-flag_tags false false none = refl
done_components-flag_tags false false (some v) = refl

sync_done_of-sync_done_tag :
    (written : Bool) (d : SyncDone) → sync_done_of (sync_done_tag written d) ≡ ok d
unfolding sync_done_of into_structure expect_constructed
sync_done_of-sync_done_tag written d = done_components-flag_tags written d.refresh_deletes d.cookie

-- How a server reads syncRequestValue: `reloadHint` is false by default.
abbrev pub read_mode : ℕ → Run RefreshMode
read_mode n = if n == 1 then ok refresh_only else if n == 3 then ok refresh_and_persist else panic

abbrev pub read_hint : Option Bytes → Run Bool
read_hint none = ok false
read_hint (some v) = first_nonzero v

abbrev pub read_request_tag : StructureTag → Run SyncRequest
read_request_tag tag = do
  tags ← expect (expect_constructed tag)
  v ← expect (field 10 tags)
  mode ← read_mode (parse_uint v)
  hint ← read_hint (field 1 tags)
  ok (record { mode = mode; cookie = field 4 tags; reload_hint = hint })

abbrev pub read_sync_request : NomStreaming → Option Bytes → Run SyncRequest
read_sync_request nom val = do val ← expect val; tag ← parse_value nom val; read_request_tag tag

read_mode-mode_number :
    (m : RefreshMode) → read_mode (parse_uint (integer_octets (pos (mode_number m)))) ≡ ok m
read_mode-mode_number refresh_only = rw (parse_uint-integer_octets 1 (omega arith)) refl
read_mode-mode_number refresh_and_persist = rw (parse_uint-integer_octets 3 (omega arith)) refl

read_request_tag_lem :
    (mode : RefreshMode) (cookie : Option Bytes) (hint : Bool)
    → read_request_tag
        (sync_request_tag (record { mode = mode; cookie = cookie; reload_hint = hint }))
      ≡ ok (record { mode = mode; cookie = cookie; reload_hint = hint })
unfolding sync_request_tag into_structure i_e_into_structure expect_constructed expect_primitive
    field
read_request_tag_lem mode none true = rw (read_mode-mode_number mode) refl
read_request_tag_lem mode none false = rw (read_mode-mode_number mode) refl
read_request_tag_lem mode (some v) true = rw (read_mode-mode_number mode) refl
read_request_tag_lem mode (some v) false = rw (read_mode-mode_number mode) refl

module _ (nom : NomStreaming) (laws : IsNomStreaming nom) where
  parse_sync_state-sync_state_tag :
      (s : SyncState)
      → IsEncodable (sync_state_tag s)
      → parse_sync_state nom (encode_inner (sync_state_tag s)) ≡ ok s
  unfolding parse_sync_state
  parse_sync_state-sync_state_tag s enc =
      rw (parse_value-encode_inner nom laws (sync_state_tag s) enc, sync_state_of-sync_state_tag s)
        refl

  parse_sync_done-sync_done_tag :
      (written : Bool) (d : SyncDone)
      → IsEncodable (sync_done_tag written d)
      → parse_sync_done nom (encode_inner (sync_done_tag written d)) ≡ ok d
  unfolding parse_sync_done
  parse_sync_done-sync_done_tag written d enc =
      rw
        (
          parse_value-encode_inner nom laws (sync_done_tag written d) enc,
          sync_done_of-sync_done_tag written d,
        )
        refl

  -- For every Sync State and Sync Done value, encoded as RFC 4533 describes with the flag of
  -- Sync Done written out or left to its default, and with contents shorter than 2^64 octets,
  -- `SyncState::parse` and `SyncDone::parse` do not panic and give the value back.
  pub parse_sync-response_tags :
      (s : SyncState) (d : SyncDone) (written : Bool)
      → IsEncodable (sync_state_tag s)
      → IsEncodable (sync_done_tag written d)
      → (parse_sync_state nom (encode_inner (sync_state_tag s)) ≡ ok s)
        × (parse_sync_done nom (encode_inner (sync_done_tag written d)) ≡ ok d)
  parse_sync-response_tags s d written enc enc' =
      (parse_sync_state-sync_state_tag s enc, parse_sync_done-sync_done_tag written d enc')

  -- When a Sync Request can be encoded, a server that reads the value of its control by RFC
  -- 4533, with a hint that is false by default, gets the mode, the cookie and the hint back.
  pub read-sync_request_control :
      (sr : SyncRequest)
      → IsEncodable (sync_request_tag sr)
      → read_sync_request nom (sync_request_control sr).val ≡ ok sr
  unfolding sync_request_control encode_into
  read-sync_request_control sr enc =
      rw (parse_value-encode_inner nom laws (sync_request_tag sr) enc)
        (read_request_tag_lem sr.mode sr.cookie sr.reload_hint)
