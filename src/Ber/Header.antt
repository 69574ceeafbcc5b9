-- ===== src/Ber/Header.antt =====
-- The type octet: `parse_type_header` (lber/src/parse.rs) after `write_type` (lber/src/write.rs).
use ldap.Common.{
  ℕ, ◌+◌, ◌*◌, ◌%◌, ◌^◌, ◌<◌, ◌≡◌, refl, ◌∙◌, some, [], ◌∷◌, Bytes, bit_or, Bool, true, lt→ltb,
  le→ltb_false, ◌==◌, ==_iff, arith, reverse,
}
use ldap.Common.Bits.{every_below, every_below-lookup}
use ldap.Nom.{ok, NomStreaming, IsNomStreaming, bit_field}
use ldap.Ber.Structure.{
  TagStructure, TagClass, primitive, constructed, universal, application, context, private_use,
  class_number, structure_number, class_from_u8, structure_from_u8,
}
use ldap.Ber.Write.{write_type, tag_groups, pop_groups}
use ldap.Ber.Parse.{class_bits, pc_bit, tagnr_bits, parse_type_header}

-- The first octet in plain arithmetic: two bits of class, one of structure, five of number.
abbrev pub type_octet : TagClass → TagStructure → ℕ → ℕ
type_octet c s number = class_number c * 64 + structure_number s * 32 + number

abbrev octet_or : TagClass → TagStructure → ℕ → ℕ
octet_or c s number = bit_or (bit_or (class_number c * 2 ^ 6) (structure_number s * 2 ^ 5)) number

abbrev octet_test : TagClass → TagStructure → ℕ → Bool
octet_test c s number = octet_or c s number == type_octet c s number

octet_table : (c : TagClass) (s : TagStructure) → every_below 32 (octet_test c s) ≡ true
unfolding every_below
octet_table universal primitive = refl
octet_table universal constructed = refl
octet_table application primitive = refl
octet_table application constructed = refl
octet_table context primitive = refl
octet_table context constructed = refl
octet_table private_use primitive = refl
octet_table private_use constructed = refl

octet_or_lem :
    (c : TagClass) (s : TagStructure) (number : ℕ)
    → number < 32
    → octet_or c s number ≡ type_octet c s number
octet_or_lem c s number h =
    (==_iff (octet_or c s number) (type_octet c s number)).0
      (every_below-lookup 32 (octet_test c s) number (octet_table c s) h)

-- A number up to 30 stands in the first octet.
pub write_type_low :
    (c : TagClass) (s : TagStructure) (id : ℕ)
    → id < 31
    → write_type c s id ≡ type_octet c s id ∷ []
unfolding write_type
write_type_low c s id h = rw (
  le→ltb_false 30 id (omega arith),
  (let e : id % 256 ≡ id = omega arith in e),
  octet_or_lem c s id (omega arith),
)

-- A larger number leaves 31 there, and follows in groups of seven bits.
pub write_type_high :
    (c : TagClass) (s : TagStructure) (id : ℕ)
    → 30 < id
    → write_type c s id ≡ type_octet c s 31 ∷ pop_groups (reverse (tag_groups 10 id))
unfolding write_type
write_type_high c s id h = rw (lt→ltb 30 id h, octet_or_lem c s 31 (omega arith))

field_class :
    (c : TagClass) (s : TagStructure) (n : ℕ)
    → n < 32
    → bit_field (type_octet c s n) 0 2 ≡ class_number c
field_class universal primitive n h = omega arith
field_class universal constructed n h = omega arith
field_class application primitive n h = omega arith
field_class application constructed n h = omega arith
field_class context primitive n h = omega arith
field_class context constructed n h = omega arith
field_class private_use primitive n h = omega arith
field_class private_use constructed n h = omega arith

field_structure :
    (c : TagClass) (s : TagStructure) (n : ℕ)
    → n < 32
    → bit_field (type_octet c s n) 2 1 ≡ structure_number s
field_structure universal primitive n h = omega arith
field_structure universal constructed n h = omega arith
field_structure application primitive n h = omega arith
field_structure application constructed n h = omega arith
field_structure context primitive n h = omega arith
field_structure context constructed n h = omega arith
field_structure private_use primitive n h = omega arith
field_structure private_use constructed n h = omega arith

field_number :
    (c : TagClass) (s : TagStructure) (n : ℕ) → n < 32 → bit_field (type_octet c s n) 3 5 ≡ n
field_number c s n h = omega arith

pub class_from_u8-number : (c : TagClass) → class_from_u8 (class_number c) ≡ some c
unfolding class_from_u8
class_from_u8-number universal = refl
class_from_u8-number application = refl
class_from_u8-number context = refl
class_from_u8-number private_use = refl

pub structure_from_u8-number : (s : TagStructure) → structure_from_u8 (structure_number s) ≡ some s
unfolding structure_from_u8
structure_from_u8-number primitive = refl
structure_from_u8-number constructed = refl

module _ (nom : NomStreaming) (laws : IsNomStreaming nom) where
  class_bits_lem :
      (c : TagClass) (s : TagStructure) (n : ℕ) (rest : Bytes)
      → n < 32
      → class_bits nom (type_octet c s n ∷ rest, 0) ≡ ok (type_octet c s n ∷ rest, 2) c
  unfolding class_bits
  class_bits_lem c s n rest h =
      laws.map_opt_lem (nom.bits_take 2) class_from_u8 (type_octet c s n ∷ rest, 0)
      ∙ rw (
        laws.bits_take-cons 1 (type_octet c s n) 0 rest (omega arith),
        field_class c s n h,
        class_from_u8-number c,
      )

  pc_bit_lem :
      (c : TagClass) (s : TagStructure) (n : ℕ) (rest : Bytes)
      → n < 32
      → pc_bit nom (type_octet c s n ∷ rest, 2) ≡ ok (type_octet c s n ∷ rest, 3) s
  unfolding pc_bit
  pc_bit_lem c s n rest h =
      laws.map_opt_lem (nom.bits_take 1) structure_from_u8 (type_octet c s n ∷ rest, 2)
      ∙ rw (
        laws.bits_take-cons 0 (type_octet c s n) 2 rest (omega arith),
        field_structure c s n h,
        structure_from_u8-number s,
      )

  tagnr_bits_lem :
      (c : TagClass) (s : TagStructure) (n : ℕ) (rest : Bytes)
      → n < 32
      → tagnr_bits nom (type_octet c s n ∷ rest, 3) ≡ ok (rest, 0) n
  unfolding tagnr_bits
  tagnr_bits_lem c s n rest h =
      laws.bits_take-cons 4 (type_octet c s n) 3 rest (omega arith) ∙ rw (field_number c s n h)

  -- `parse_type_header` splits the first octet into its three fields.
  pub parse_type_header_octet :
      (c : TagClass) (s : TagStructure) (n : ℕ) (rest : Bytes)
      → n < 32
      → parse_type_header nom (type_octet c s n ∷ rest) ≡ ok rest (c, s, n)
  unfolding parse_type_header
  parse_type_header_octet c s n rest h = laws.bits_ok _ _ _ _ (
      laws.tuple3_lem (class_bits nom) (pc_bit nom) (tagnr_bits nom) _
      ∙ rw (class_bits_lem c s n rest h, pc_bit_lem c s n rest h, tagnr_bits_lem c s n rest h))
