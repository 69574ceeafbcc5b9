-- ===== src/Controls/Codec.antt =====
-- src/controls_impl.rs: `build_tag` and `parse_controls`.
use ldap.Common.{
  Bool, true, false, not, Option, none, some, List, [], ◌∷◌, ◌++◌, Bytes, ◌==◌, if◌then◌else◌,
  bytes_eq, ok, panic, ◌>>=◌, expect, codes, next,
}
use ldap.Common.Utf8.{from_utf8}
use ldap.Ber.Universal.{Types, number}
use ldap.Ber.Structure.{
  StructureTag, Payload, P, C, expect_constructed, expect_primitive, id_of, payload_of,
}
use ldap.Ber.Asn.{Tag, default_octet_string, default_boolean, default_sequence, into_structure}
use ldap.Controls.Types.{
  ControlType, paged_results, post_read_resp, pre_read_resp, sync_done, sync_state, manage_dsa_it,
  matched_values, RawControl, Control,
}
use ldap.Result.Types.{Run}

abbrev pub paged_results_oid : Bytes
paged_results_oid = codes "1.2.840.113556.1.4.319"

abbrev pub pre_read_oid : Bytes
pre_read_oid = codes "1.3.6.1.1.13.1"

abbrev pub post_read_oid : Bytes
post_read_oid = codes "1.3.6.1.1.13.2"

abbrev pub sync_done_oid : Bytes
sync_done_oid = codes "1.3.6.1.4.1.4203.1.9.1.3"

abbrev pub sync_state_oid : Bytes
sync_state_oid = codes "1.3.6.1.4.1.4203.1.9.1.2"

abbrev pub manage_dsa_it_oid : Bytes
manage_dsa_it_oid = codes "2.16.840.1.113730.3.4.2"

abbrev pub matched_values_oid : Bytes
matched_values_oid = codes "1.2.826.0.1.3344810.2.3"

-- The table `CONTROLS`, and its `get`.
abbrev pub controls : List (Bytes × ControlType)
controls =
    (paged_results_oid, paged_results)
    ∷ (post_read_oid, post_read_resp)
    ∷ (pre_read_oid, pre_read_resp)
    ∷ (sync_done_oid, sync_done)
    ∷ (sync_state_oid, sync_state)
    ∷ (manage_dsa_it_oid, manage_dsa_it)
    ∷ (matched_values_oid, matched_values)
    ∷ []

unfoldable pub find_control : List (Bytes × ControlType) → Bytes → Option ControlType
find_control [] oid = none
find_control ((key, type) ∷ table) oid =
    if bytes_eq key oid then some type else find_control table oid

unfoldable pub known_control : Bytes → Option ControlType
unfolding find_control
known_control oid = find_control controls oid

abbrev value_tags : Option Bytes → List Tag
value_tags none = []
value_tags (some val) = default_octet_string val ∷ []

unfoldable pub build_tag : RawControl → StructureTag
unfolding into_structure
build_tag rc = into_structure (
    default_sequence (
      default_octet_string rc.ctype
      ∷ ((if rc.crit then default_boolean true ∷ [] else []) ++ value_tags rc.val)))

-- `v[0] != 0`, which panics on no bytes.
abbrev pub first_nonzero : Bytes → Run Bool
first_nonzero [] = panic
first_nonzero (b ∷ v) = ok (not (b == 0))

abbrev pub second_tag : List StructureTag → Option StructureTag
second_tag [] = none
second_tag (t ∷ ts) = some t

abbrev pub crit_payload : Payload → List StructureTag → Run (Bool × Option StructureTag)
crit_payload (P v) rest = do crit ← first_nonzero v; ok (crit, second_tag rest)
crit_payload (C ts) rest = panic

-- The `match next`: the criticality, and the tag that may hold the value.
unfoldable pub crit_and_value : List StructureTag → Run (Bool × Option StructureTag)
crit_and_value [] = ok (false, none)
crit_and_value (c ∷ rest) =
    if id_of c == number Types.boolean
    then crit_payload (payload_of c) rest
    else if id_of c == number Types.octet_string
    then ok (false, some c)
    else panic

unfoldable pub control_value : Option StructureTag → Run (Option Bytes)
control_value none = ok none
control_value (some v) = do b ← expect (expect_primitive v); ok (some b)

unfoldable pub parse_control : StructureTag → Run Control
unfolding crit_and_value control_value known_control
parse_control ctrl = do
  components ← expect (expect_constructed ctrl)
  (first, components) ← expect (next components)
  oid ← expect (expect_primitive first)
  ctype ← expect (from_utf8 oid)
  (crit, maybe_val) ← crit_and_value components
  val ← control_value maybe_val
  ok (record {
    known_type = known_control ctype;
    raw = record { ctype = ctype; crit = crit; val = val };
  })

unfoldable pub parse_all : List StructureTag → Run (List Control)
unfolding parse_control
parse_all [] = ok []
parse_all (ctrl ∷ tags) = do c ← parse_control ctrl; ctrls ← parse_all tags; ok (c ∷ ctrls)

unfoldable pub parse_controls : StructureTag → Run (List Control)
unfolding parse_all
parse_controls t = do tags ← expect (expect_constructed t); parse_all tags
