-- ===== src/Controls/RoundTrip.antt =====
-- `parse_controls` after `build_tag` (src/controls_impl.rs).
use ldap.Common.{
  ◌≡◌, refl, Bool, true, false, Option, none, some, List, [], ◌∷◌, Bytes, ok, All, map,
}
use ldap.Common.Utf8.{utf8_valid, from_utf8}
use ldap.Ber.Structure.{
  structure_tag, C, from_list, to_list-from_list, expect_constructed, expect_primitive, TagClass,
}
use ldap.Controls.Types.{RawControl, Control}
use ldap.Controls.Codec.{build_tag, parse_control, parse_all, parse_controls, known_control}

-- What the client sees of a control: the control itself, with the type that its OID names.
abbrev pub as_response : RawControl → Control
as_response rc = record { known_type = known_control rc.ctype; raw = rc }

-- The OID of a control is a string.
abbrev pub IsNamed : RawControl → Type 0
IsNamed rc = utf8_valid rc.ctype ≡ true

control_parts :
    (oid : Bytes) (crit : Bool) (val : Option Bytes)
    → utf8_valid oid ≡ true
    → parse_control (build_tag (record { ctype = oid; crit = crit; val = val }))
      ≡ ok (as_response (record { ctype = oid; crit = crit; val = val }))
unfolding parse_control build_tag from_utf8 expect_constructed expect_primitive
control_parts oid true none h = rw h
control_parts oid true (some v) h = rw h
control_parts oid false none h = rw h
control_parts oid false (some v) h = rw h

pub parse_control-build_tag :
    (rc : RawControl) → IsNamed rc → parse_control (build_tag rc) ≡ ok (as_response rc)
parse_control-build_tag rc h = control_parts rc.ctype rc.crit rc.val h

parse_all-build_tag :
    (rcs : List RawControl)
    → All IsNamed rcs
    → parse_all (map build_tag rcs) ≡ ok (map as_response rcs)
unfolding parse_all
parse_all-build_tag [] h = refl
parse_all-build_tag (rc ∷ rcs) h = rw (parse_control-build_tag rc h.0, parse_all-build_tag rcs h.1)

-- For a list of controls whose OIDs are valid UTF-8, and a sequence of any class that holds
-- their encodings, `parse_controls` does not panic and gives the controls in order, each with
-- its OID, criticality and value and with the type that its OID names.
pub parse_controls-build_tag :
    (c : TagClass) (rcs : List RawControl)
    → All IsNamed rcs
    → parse_controls (structure_tag c 0 (C (from_list (map build_tag rcs))))
      ≡ ok (map as_response rcs)
unfolding parse_controls expect_constructed
parse_controls-build_tag c rcs h =
    rw (to_list-from_list (map build_tag rcs)) (parse_all-build_tag rcs h)
