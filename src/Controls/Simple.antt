-- ===== src/Controls/Simple.antt =====
-- src/controls_impl.rs and src/controls_impl: the request controls whose values are strings or
-- filters, and the marking of a control as critical.
use ldap.Common.{true, false, none, some, List, [], Bytes, ok, ◌>>=◌, expect, codes, map}
use ldap.Nom.{NomComplete, NomStreaming}
use ldap.Ber.Structure.{StructureTag}
use ldap.Ber.Asn.{Tag, into_structure, default_sequence, default_octet_string}
use ldap.Ber.Write.{encode_into}
use ldap.Controls.Types.{RawControl}
use ldap.Controls.Codec.{manage_dsa_it_oid, matched_values_oid, pre_read_oid, post_read_oid}
use ldap.Controls.Value.{parse_value}
use ldap.Filter.Grammar.{parse, parse_matched_values}
use ldap.Result.Types.{Run}
use ldap.Search.Construct.{ValueMap, construct}

abbrev pub assertion_oid : Bytes
assertion_oid = codes "1.3.6.1.1.12"

abbrev pub proxy_auth_oid : Bytes
proxy_auth_oid = codes "2.16.840.1.113730.3.4.18"

abbrev pub txn_request_oid : Bytes
txn_request_oid = codes "1.3.6.1.1.21.2"

abbrev pub relax_rules_oid : Bytes
relax_rules_oid = codes "1.3.6.1.4.1.4203.666.5.12"

unfoldable pub proxy_auth : Bytes → RawControl
proxy_auth authzid = record { ctype = proxy_auth_oid; crit = true; val = some authzid }

unfoldable pub txn_spec : Bytes → RawControl
txn_spec txn_id = record { ctype = txn_request_oid; crit = true; val = some txn_id }

unfoldable pub manage_dsa_it : RawControl
manage_dsa_it = record { ctype = manage_dsa_it_oid; crit = false; val = none }

unfoldable pub relax_rules : RawControl
relax_rules = record { ctype = relax_rules_oid; crit = false; val = none }

-- `CriticalControl` into a `RawControl`.
unfoldable pub critical : RawControl → RawControl
critical rc = record rc { crit = true }

-- The control for a filter that was parsed.
abbrev pub assertion_of : Tag → RawControl
assertion_of t = record {
  ctype = assertion_oid;
  crit = false;
  val = some (encode_into [] (into_structure t));
}

module _ (nom : NomComplete) where
  unfoldable pub assertion : Bytes → Run RawControl
  unfolding encode_into
  assertion filter = do t ← expect (parse nom filter); ok (assertion_of t)

  unfoldable pub matched_values : Bytes → Run RawControl
  unfolding encode_into
  matched_values filter = do
    t ← expect (parse_matched_values nom filter)
    ok (record {
      ctype = matched_values_oid;
      crit = false;
      val = some (encode_into [] (into_structure t));
    })

unfoldable pub read_entry_tag : List Bytes → StructureTag
unfolding into_structure
read_entry_tag attrs = into_structure (default_sequence (map default_octet_string attrs))

unfoldable pub from_read_entry : Bytes → List Bytes → RawControl
unfolding read_entry_tag encode_into
from_read_entry oid attrs = record {
  ctype = oid;
  crit = false;
  val = some (encode_into [] (read_entry_tag attrs));
}

abbrev pub pre_read : List Bytes → RawControl
pre_read attrs = from_read_entry pre_read_oid attrs

abbrev pub post_read : List Bytes → RawControl
post_read attrs = from_read_entry post_read_oid attrs

pub record ReadEntryResp : Type 0 where
  pub attrs : ValueMap
  pub bin_attrs : ValueMap

unfoldable pub parse_read_entry : NomStreaming → Bytes → Run ReadEntryResp
unfolding construct
parse_read_entry nom val = do
  tag ← parse_value nom val
  se ← construct (record { tag = tag; controls = [] })
  ok (record { attrs = se.attrs; bin_attrs = se.bin_attrs })
