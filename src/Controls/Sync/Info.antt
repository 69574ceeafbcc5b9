-- ===== src/Controls/Sync/Info.antt =====
-- The Sync Info message of RFC 4533 and `parse_syncinfo` (src/controls_impl/content_sync.rs).
use ldap.Common.{
  ℕ, ◌≡◌, refl, Bool, true, false, Option, none, some, List, [], ◌∷◌, ◌++◌, Bytes, ok, map,
}
use ldap.Common.Utf8.{from_utf8, utf8_valid, utf8_run, utf8_step}
use ldap.Nom.{NomStreaming, IsNomStreaming}
use ldap.Ber.Structure.{
  StructureTag, structure_tag, application, context, P, C, from_list, to_list, match_id,
  expect_constructed, expect_primitive,
}
use ldap.Ber.Asn.{Tag, into_structure, into_tags, vec, default_octet_string, default_set}
use ldap.Ber.Write.{encode_inner}
use ldap.Ber.RoundTrip.{IsEncodable}
use ldap.Controls.Value.{parse_value-encode_inner}
use ldap.Controls.Sync.{
  SyncInfo, new_cookie, refresh_delete, refresh_present, sync_id_set, pushed, sync_info_oid,
  sync_info_of, info_components, info_component, primitives, collect_uuids, parse_syncinfo,
  sync_info_loop,
}
use ldap.Controls.Sync.RoundTrip.{flag_tags}

-- A sequence with a context number.
abbrev choice : ℕ → List Tag → StructureTag
choice id ts = into_structure (Tag.sequence id context (vec ts))

-- syncInfoValue. The values of a set come in any order and number.
abbrev pub sync_info_tag : Bool → SyncInfo → StructureTag
sync_info_tag written (new_cookie c) = into_structure (Tag.octet_string 0 context c)
sync_info_tag written (refresh_delete c b) = choice 1 (pushed c ++ flag_tags written true b)
sync_info_tag written (refresh_present c b) = choice 2 (pushed c ++ flag_tags written true b)
sync_info_tag written (sync_id_set c b us) =
    choice 3
      (pushed c ++ flag_tags written false b ++ (default_set (map default_octet_string us) ∷ []))

-- What is read: of the values that come twice one is kept.
abbrev pub as_set : SyncInfo → SyncInfo
as_set (new_cookie c) = new_cookie c
as_set (refresh_delete c b) = refresh_delete c b
as_set (refresh_present c b) = refresh_present c b
as_set (sync_id_set c b us) = sync_id_set c b (collect_uuids [] us)

-- The Intermediate Response that carries it.
abbrev pub sync_info_message : Bytes → StructureTag
sync_info_message value = structure_tag application 25 (
    C (
      from_list
        (structure_tag context 0 (P sync_info_oid) ∷ structure_tag context 1 (P value) ∷ [])))

primitives-octet_strings :
    (us : List Bytes) → primitives (to_list (into_tags (vec (map default_octet_string us)))) ≡ ok us
unfolding primitives into_structure expect_primitive
primitives-octet_strings [] = refl
primitives-octet_strings (u ∷ us) = rw (primitives-octet_strings us) refl

refresh_of :
    (written b : Bool) (c : Option Bytes)
    → info_components 1
        (record { sync_cookie = none; flag = true; uuids = [] })
        (to_list (into_tags (vec (pushed c ++ flag_tags written true b))))
      ≡ ok (record { sync_cookie = c; flag = b; uuids = [] })
unfolding info_components info_component into_structure expect_primitive
refresh_of true true none = refl
refresh_of true true (some v) = refl
refresh_of true false none = refl
refresh_of true false (some v) = refl
refresh_of false true none = refl
refresh_of false true (some v) = refl
refresh_of false false none = refl
refresh_of false false (some v) = refl

id_set_of :
    (written b : Bool) (c : Option Bytes) (us : List Bytes)
    → info_components 1
        (record { sync_cookie = none; flag = false; uuids = [] })
        (to_list (
          into_tags (
            vec (
              pushed c
              ++ flag_tags written false b
              ++ (default_set (map default_octet_string us) ∷ [])))))
      ≡ ok (record { sync_cookie = c; flag = b; uuids = collect_uuids [] us })
unfolding info_components info_component into_structure expect_primitive expect_constructed
id_set_of true true none us = rw (primitives-octet_strings us) refl
id_set_of true true (some v) us = rw (primitives-octet_strings us) refl
id_set_of true false none us = rw (primitives-octet_strings us) refl
id_set_of true false (some v) us = rw (primitives-octet_strings us) refl
id_set_of false true none us = rw (primitives-octet_strings us) refl
id_set_of false true (some v) us = rw (primitives-octet_strings us) refl
id_set_of false false none us = rw (primitives-octet_strings us) refl
id_set_of false false (some v) us = rw (primitives-octet_strings us) refl

sync_info_of-sync_info_tag :
    (written : Bool) (i : SyncInfo) → sync_info_of (sync_info_tag written i) ≡ ok (as_set i)
unfolding sync_info_of into_structure expect_constructed expect_primitive
sync_info_of-sync_info_tag written (new_cookie c) = refl
sync_info_of-sync_info_tag written (refresh_delete c b) = rw (refresh_of written b c) refl
sync_info_of-sync_info_tag written (refresh_present c b) = rw (refresh_of written b c) refl
sync_info_of-sync_info_tag written (sync_id_set c b us) = rw (id_set_of written b c us) refl

oid_valid : from_utf8 sync_info_oid ≡ some sync_info_oid
unfolding from_utf8 utf8_valid utf8_run utf8_step
oid_valid = refl

module _ (nom : NomStreaming) (laws : IsNomStreaming nom) where
  -- For every Sync Info value that can be encoded, written as RFC 4533 describes with its flag
  -- written out or left to its default, and carried by an intermediate response,
  -- `parse_syncinfo` does not panic and gives the value back, of identifiers that come more
  -- than once in a set the first.
  pub parse_syncinfo-sync_info_tag :
      (written : Bool) (i : SyncInfo)
      → IsEncodable (sync_info_tag written i)
      → parse_syncinfo nom (record {
        tag = sync_info_message (encode_inner (sync_info_tag written i));
        controls = [];
      })
        ≡ ok (as_set i)
  unfolding parse_syncinfo sync_info_loop match_id expect_constructed expect_primitive
  parse_syncinfo-sync_info_tag written i enc =
      rw
        (
          oid_valid,
          parse_value-encode_inner nom laws (sync_info_tag written i) enc,
          sync_info_of-sync_info_tag written i,
        )
        refl
