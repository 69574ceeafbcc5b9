-- ===== src/Controls/Sync.antt =====
-- src/controls_impl/content_sync.rs: the controls of content synchronisation.
use ldap.Common.{
  ℕ, ◌+◌, Bool, true, false, not, ◌&&◌, Option, none, some, List, [], ◌∷◌, ◌++◌, Bytes, ◌==◌, leb,
  ltb, if◌then◌else◌, bytes_eq, ok, panic, ◌>>=◌, expect, and_then, next, codes,
}
use ldap.Common.Int.{pos}
use ldap.Common.Utf8.{from_utf8}
use ldap.Nom.{NomStreaming}
use ldap.Ber.Universal.{Types, number}
use ldap.Ber.Structure.{
  StructureTag, TagClass, universal, context, class_eq, class_of, id_of, match_class, match_id,
  expect_constructed, expect_primitive,
}
use ldap.Ber.Asn.{
  Tag, into_structure, default_sequence, default_enumerated, default_octet_string, default_boolean,
}
use ldap.Ber.Write.{encode_into}
use ldap.Ber.Parse.{parse_uint, parse_tag}
use ldap.Controls.Types.{RawControl}
use ldap.Controls.Codec.{first_nonzero}
use ldap.Controls.Value.{parse_value}
use ldap.Result.Types.{Run}
use ldap.Search.Stream.{ResultEntry}
pub mod RoundTrip
pub mod Info

abbrev pub sync_request_oid : Bytes
sync_request_oid = codes "1.3.6.1.4.1.4203.1.9.1.1"

abbrev pub sync_info_oid : Bytes
sync_info_oid = codes "1.3.6.1.4.1.4203.1.9.1.4"

pub data RefreshMode : Type 0 where
  refresh_only refresh_and_persist : RefreshMode

abbrev pub mode_number : RefreshMode → ℕ
mode_number refresh_only = 1
mode_number refresh_and_persist = 3

pub record SyncRequest : Type 0 where
  pub mode : RefreshMode
  pub cookie : Option Bytes
  pub reload_hint : Bool

-- An optional octet string as the tags that are pushed for it.
abbrev pub pushed : Option Bytes → List Tag
pushed none = []
pushed (some v) = default_octet_string v ∷ []

unfoldable pub sync_request_tag : SyncRequest → StructureTag
unfolding into_structure
sync_request_tag sr = into_structure (
    default_sequence (
      (default_enumerated (pos (mode_number sr.mode)) ∷ pushed sr.cookie)
      ++ (if sr.reload_hint then default_boolean sr.reload_hint ∷ [] else [])))

unfoldable pub sync_request_control : SyncRequest → RawControl
unfolding sync_request_tag encode_into
sync_request_control sr = record {
  ctype = sync_request_oid;
  crit = false;
  val = some (encode_into [] (sync_request_tag sr));
}

pub data EntryState : Type 0 where
  present add modify delete : EntryState

pub record SyncState : Type 0 where
  pub state : EntryState
  pub entry_uuid : Bytes
  pub cookie : Option Bytes

abbrev pub entry_state : ℕ → Run EntryState
entry_state n =
    if n == 0
    then ok present
    else if n == 1
    then ok add
    else if n == 2
    then ok modify
    else if n == 3
    then ok delete
    else panic

-- `match_class`, `match_id` and `expect_primitive`, one after the other.
abbrev pub primitive_of : TagClass → ℕ → StructureTag → Option Bytes
primitive_of class id t =
    and_then (match_class class t) λ t. and_then (match_id id t) expect_primitive

-- `tags.next().map(...)`.
abbrev pub last_octets : List StructureTag → Run (Option Bytes)
last_octets [] = ok none
last_octets (t ∷ tags) = do v ← expect (expect_primitive t); ok (some v)

unfoldable pub sync_state_of : StructureTag → Run SyncState
sync_state_of tag = do
  tags ← expect (expect_constructed tag)
  (first, tags) ← expect (next tags)
  number_octets ← expect (primitive_of universal (number Types.enumerated) first)
  state ← entry_state (parse_uint number_octets)
  (second, tags) ← expect (next tags)
  entry_uuid ← expect (expect_primitive second)
  cookie ← last_octets tags
  ok (record { state = state; entry_uuid = entry_uuid; cookie = cookie })

pub record SyncDone : Type 0 where
  pub cookie : Option Bytes
  pub refresh_deletes : Bool

-- One turn of the loop over the components; their class is not looked at.
unfoldable pub done_component : SyncDone → StructureTag → Run SyncDone
done_component d tag =
    if id_of tag == number Types.octet_string
    then (do v ← expect (expect_primitive tag); ok (record d { cookie = some v }))
    else if id_of tag == number Types.boolean
    then (do
      v ← expect (expect_primitive tag)
      b ← first_nonzero v
      ok (record d { refresh_deletes = b }))
    else panic

unfoldable pub done_components : SyncDone → List StructureTag → Run SyncDone
unfolding done_component
done_components d [] = ok d
done_components d (t ∷ tags) = do d ← done_component d t; done_components d tags

unfoldable pub sync_done_of : StructureTag → Run SyncDone
unfolding done_components
sync_done_of tag = do
  tags ← expect (expect_constructed tag)
  done_components (record { cookie = none; refresh_deletes = false }) tags

pub data SyncInfo : Type 0 where
  new_cookie : Bytes → SyncInfo
  refresh_delete : Option Bytes → Bool → SyncInfo
  refresh_present : Option Bytes → Bool → SyncInfo
  sync_id_set : Option Bytes → Bool → List Bytes → SyncInfo

unfoldable pub contains_uuid : Bytes → List Bytes → Bool
contains_uuid u [] = false
contains_uuid u (v ∷ vs) = let rest = contains_uuid u vs in if bytes_eq u v then true else rest

-- A `HashSet` collected from the values: each once, where it is first.
unfoldable pub collect_uuids : List Bytes → List Bytes → List Bytes
unfolding contains_uuid
collect_uuids seen [] = []
collect_uuids seen (u ∷ us) =
    let rest = collect_uuids (u ∷ seen) us in
    let without = collect_uuids seen us in if contains_uuid u seen then without else u ∷ rest

unfoldable pub primitives : List StructureTag → Run (List Bytes)
primitives [] = ok []
primitives (t ∷ tags) = do v ← expect (expect_primitive t); vs ← primitives tags; ok (v ∷ vs)

-- The variables `sync_cookie`, `flag` and `uuids`.
pub record InfoParts : Type 0 where
  pub sync_cookie : Option Bytes
  pub flag : Bool
  pub uuids : List Bytes

abbrev pub is_universal : ℕ → StructureTag → Bool
is_universal id t = class_eq (class_of t) universal && (id_of t == id)

unfoldable pub info_component : ℕ → InfoParts → StructureTag → Run InfoParts
unfolding primitives collect_uuids
info_component pass parts comp =
    if is_universal (number Types.octet_string) comp && leb pass 1
    then ok (record parts { sync_cookie = expect_primitive comp })
    else if is_universal (number Types.boolean) comp && leb pass 2
    then (do
      v ← expect (expect_primitive comp)
      b ← first_nonzero v
      ok (record parts { flag = b }))
    else if is_universal (number Types.set) comp && leb pass 3
    then (do
      us ← expect (expect_constructed comp)
      vs ← primitives us
      ok (record parts { uuids = collect_uuids [] vs }))
    else panic

unfoldable pub info_components : ℕ → InfoParts → List StructureTag → Run InfoParts
unfolding info_component
info_components pass parts [] = ok parts
info_components pass parts (t ∷ tags) = do
  parts ← info_component pass parts t
  info_components (pass + 1) parts tags

abbrev pub info_by : ℕ → InfoParts → Run SyncInfo
info_by id parts =
    if id == 1
    then ok (refresh_delete parts.sync_cookie parts.flag)
    else if id == 2
    then ok (refresh_present parts.sync_cookie parts.flag)
    else if id == 3
    then ok (sync_id_set parts.sync_cookie parts.flag parts.uuids)
    else panic

-- The `match syncinfo_val`.
unfoldable pub sync_info_of : StructureTag → Run SyncInfo
unfolding info_components
sync_info_of val =
    if class_eq (class_of val) context && ltb (id_of val) 4
    then (if id_of val == 0
        then (do cookie ← expect (expect_primitive val); ok (new_cookie cookie))
        else (do
          comps ← expect (expect_constructed val)
          parts ←
              info_components 1
                (record { sync_cookie = none; flag = not (id_of val == 3); uuids = [] }) comps
          info_by (id_of val) parts))
    else panic

module _ (nom : NomStreaming) where
  -- `SyncState::parse` and `SyncDone::parse`.
  unfoldable pub parse_sync_state : Bytes → Run SyncState
  unfolding sync_state_of
  parse_sync_state val = do tag ← parse_value nom val; sync_state_of tag

  unfoldable pub parse_sync_done : Bytes → Run SyncDone
  unfolding sync_done_of
  parse_sync_done val = do tag ← parse_value nom val; sync_done_of tag

  -- The loop of `parse_syncinfo` over the elements of the message.
  unfoldable pub sync_info_loop : List StructureTag → Run SyncInfo
  unfolding sync_info_of
  sync_info_loop [] = panic
  sync_info_loop (tag ∷ tags) =
      let rest = sync_info_loop tags in
      if id_of tag == 0
      then (do
        v ← expect (expect_primitive tag)
        oid ← expect (from_utf8 v)
        if bytes_eq oid sync_info_oid then rest else panic)
      else if id_of tag == 1
      then (do v ← expect (expect_primitive tag); val ← parse_value nom v; sync_info_of val)
      else panic

  unfoldable pub parse_syncinfo : ResultEntry → Run SyncInfo
  unfolding sync_info_loop
  parse_syncinfo entry = do
    tags ← expect (and_then (match_id 25 entry.tag) expect_constructed)
    sync_info_loop tags
