-- ===== src/Tests/Exchanges.antt =====
-- The values of controls and extended operations, and entries, at concrete inputs.
use ldap.Common.{◌≡◌, refl, true, false, none, List, [], ◌∷◌, Outcome, codes, arith, expect, ◌>>=◌}
use ldap.Common.Utf8.{utf8_valid, utf8_run, utf8_step}
use ldap.Nom.{complete, complete-IsNomComplete, streaming, streaming-IsNomStreaming}
use ldap.Ber.Asn.{into_structure, i_e_into_structure, integer_octets, count_rem}
use ldap.Ber.Write.{encode_inner, write_type, write_length}
use ldap.Controls.Simple.{assertion}
use ldap.Controls.Value.{parse_value}
use ldap.Controls.Values.{assertion-ldap_escape, equality_match}
use ldap.Controls.Sync.{SyncInfo, sync_id_set, parse_syncinfo, collect_uuids, contains_uuid}
use ldap.Controls.Sync.Info.{sync_info_tag, sync_info_message, parse_syncinfo-sync_info_tag}
use ldap.Filter.Equality.{equality_filter}
use ldap.Requests.Exops.{sequence_tag, parse_end_txn}
use ldap.Requests.Exops.Transactions.{updates_tag, parse_end_txn-updates_tag}
use ldap.Search.Attributes.{Attribute, entry_tag, construct-entry_tag}
use ldap.Search.Construct.{construct}
use ldap.Util.Escape.{ldap_escape}

-- A value twice in the set.
abbrev an_id_set : SyncInfo
an_id_set = sync_id_set none true ((1 ∷ []) ∷ (2 ∷ []) ∷ (1 ∷ []) ∷ [])

parse_syncinfo-sync_info_tag_example :
    parse_syncinfo streaming (record {
      tag = sync_info_message (encode_inner (sync_info_tag false an_id_set));
      controls = [];
    })
    ≡ Outcome.ok (sync_id_set none true ((1 ∷ []) ∷ (2 ∷ []) ∷ []))
unfolding into_structure i_e_into_structure encode_inner write_type write_length collect_uuids
    contains_uuid
parse_syncinfo-sync_info_tag_example =
    parse_syncinfo-sync_info_tag streaming streaming-IsNomStreaming false an_id_set (ground arith)

-- The value 255 is no string.
abbrev attributes : List Attribute
attributes = (codes "cn", codes "x" ∷ []) ∷ (codes "photo", codes "y" ∷ (255 ∷ []) ∷ []) ∷ []

construct-entry_tag_example :
    construct (record { tag = entry_tag (codes "dc=a") attributes; controls = [] })
    ≡ Outcome.ok (record {
      dn = codes "dc=a";
      attrs = (codes "cn", codes "x" ∷ []) ∷ [];
      bin_attrs = (codes "photo", (255 ∷ []) ∷ codes "y" ∷ []) ∷ [];
    })
unfolding utf8_valid utf8_run utf8_step
construct-entry_tag_example =
    construct-entry_tag (codes "dc=a") attributes refl (refl, (refl, tt)) ((refl, tt), (tt, tt))

assertion-ldap_escape_example :
    (ldap_escape (codes "(*)") >>= λ val.
    assertion complete (equality_filter (codes "cn") val) >>= λ rc.
    expect rc.val >>= parse_value streaming)
    ≡ Outcome.ok (into_structure (equality_match (codes "cn") (codes "(*)")))
unfolding utf8_valid utf8_run utf8_step into_structure encode_inner write_type write_length
assertion-ldap_escape_example =
    assertion-ldap_escape complete complete-IsNomComplete streaming streaming-IsNomStreaming
      (codes "cn") (codes "(*)") (ground arith) (ground arith) refl (ground arith)

parse_end_txn-updates_tag_example :
    parse_end_txn streaming (encode_inner (updates_tag ((3, []) ∷ []))) ≡ Outcome.panic
unfolding sequence_tag into_structure i_e_into_structure integer_octets count_rem encode_inner
    write_type write_length
parse_end_txn-updates_tag_example =
    parse_end_txn-updates_tag streaming streaming-IsNomStreaming [] (3, []) (ground arith)
