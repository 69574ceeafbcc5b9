-- ===== src/Controls/Types.antt =====
-- src/controls_impl.rs: the types of controls.
use ldap.Common.{Bool, Option, Bytes}

pub data ControlType : Type 0 where
  paged_results post_read_resp pre_read_resp sync_done sync_state manage_dsa_it matched_values :
      ControlType

pub record RawControl : Type 0 where
  pub ctype : Bytes
  pub crit : Bool
  pub val : Option Bytes

-- The recognized type, if any, and the control.
pub record Control : Type 0 where
  pub known_type : Option ControlType
  pub raw : RawControl
