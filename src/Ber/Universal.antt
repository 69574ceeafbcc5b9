-- ===== src/Ber/Universal.antt =====
-- lber/src/universal.rs: the universal types and their numbers.
use ldap.Common.{ℕ}

pub data Types : Type 0 where
  eoc : Types
  boolean : Types
  integer : Types
  bit_string : Types
  octet_string : Types
  null : Types
  object_identifier : Types
  object_descriptor : Types
  external : Types
  real : Types
  enumerated : Types
  embedded_pdv : Types
  utf8_string : Types
  relative_oid : Types
  sequence : Types
  set : Types
  numeric_string : Types
  printable_string : Types
  t61_string : Types
  videotex_string : Types
  ia5_string : Types
  utc_time : Types
  generalized_time : Types
  graphic_string : Types
  visible_string : Types
  general_string : Types
  universal_string : Types
  character_string : Types
  bmp_string : Types

-- `t as u64`.
abbrev pub number : Types → ℕ
number eoc = 0
number boolean = 1
number integer = 2
number bit_string = 3
number octet_string = 4
number null = 5
number object_identifier = 6
number object_descriptor = 7
number external = 8
number real = 9
number enumerated = 10
number embedded_pdv = 11
number utf8_string = 12
number relative_oid = 13
number sequence = 16
number set = 17
number numeric_string = 18
number printable_string = 19
number t61_string = 20
number videotex_string = 21
number ia5_string = 22
number utc_time = 23
number generalized_time = 24
number graphic_string = 25
number visible_string = 26
number general_string = 27
number universal_string = 28
number character_string = 29
number bmp_string = 30
