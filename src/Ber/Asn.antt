-- ===== src/Ber/Asn.antt =====
-- lber/src/structures: the ASN.1 types and their conversion into the generic tag structure.
use ldap.Common.{
  ℕ, zero, suc, ◌+◌, ◌-◌, ◌*◌, Bool, ◌&&◌, List, [], ◌∷◌, Bytes, drop, ltb, if◌then◌else◌,
}
use ldap.Common.Int.{ℤ, neg64, shr, is_pos, is_nonneg, is_one, pattern64}
use ldap.Ber.Universal.{Types, number}
use ldap.Ber.Structure
use ldap.Ber.Structure.{TagClass, universal, StructureTag, P, C, Tags}
use ldap.Ber.Write.{to_be_bytes}

-- `Tag`, each constructor with the fields `id`, `class` and `inner` of its struct. `TagVec` is a
-- `Vec<Tag>`.
mutual
  pub data Tag : Type 0 where
    integer : ℕ → TagClass → ℤ → Tag
    enumerated : ℕ → TagClass → ℤ → Tag
    sequence : ℕ → TagClass → TagVec → Tag
    set : ℕ → TagClass → TagVec → Tag
    octet_string : ℕ → TagClass → Bytes → Tag
    boolean : ℕ → TagClass → Bool → Tag
    null : ℕ → TagClass → Tag
    explicit_tag : ℕ → TagClass → Tag → Tag
    raw : StructureTag → Tag

  pub data TagVec : Type 0 where
    nil : TagVec
    cons : Tag → TagVec → TagVec

abbrev pub vec : List Tag → TagVec
vec [] = nil
vec (t ∷ ts) = cons t (vec ts)

-- The `Default` of each type, with its `inner` given.
abbrev pub default_integer : ℤ → Tag
default_integer = integer (number Types.integer) universal

abbrev pub default_enumerated : ℤ → Tag
default_enumerated = enumerated (number Types.enumerated) universal

abbrev pub default_sequence : List Tag → Tag
default_sequence ts = sequence (number Types.sequence) universal (vec ts)

abbrev pub default_set : List Tag → Tag
default_set ts = set (number Types.set) universal (vec ts)

abbrev pub default_octet_string : Bytes → Tag
default_octet_string = octet_string (number Types.octet_string) universal

abbrev pub default_boolean : Bool → Tag
default_boolean = boolean (number Types.boolean) universal

abbrev pub default_null : Tag
default_null = null (number Types.null) universal

-- The loop `while { count += 1; rem >>= 8; rem > 0 } {}`, on fuel.
unfoldable pub count_rem : ℕ → ℤ → ℕ
count_rem zero rem = 0
count_rem (suc f) rem =
    let more = suc (count_rem f (shr rem 8)) in if is_pos (shr rem 8) then more else 1

-- The octets of an integer. `inner.to_be_bytes()` has eight bytes.
unfoldable pub integer_octets : ℤ → Bytes
unfolding count_rem to_be_bytes
integer_octets inner =
    let rem = if is_nonneg inner then inner else neg64 inner in
    let count = count_rem 8 rem in
    let count' = if is_pos inner && is_one (shr inner (8 * count - 1)) then count + 1 else count in
    let repr = to_be_bytes 8 (pattern64 inner) in
    if ltb 8 count' then 0 ∷ drop (8 - (count' - 1)) repr else drop (8 - count') repr

unfoldable pub i_e_into_structure : ℕ → TagClass → ℤ → StructureTag
unfolding integer_octets
i_e_into_structure id class inner = Structure.structure_tag class id (P (integer_octets inner))

unfoldable mutual
  pub into_structure : Tag → StructureTag
  into_structure (integer id class inner) = i_e_into_structure id class inner
  into_structure (enumerated id class inner) = i_e_into_structure id class inner
  into_structure (sequence id class inner) = Structure.structure_tag class id (C (into_tags inner))
  into_structure (set id class inner) = Structure.structure_tag class id (C (into_tags inner))
  into_structure (octet_string id class inner) = Structure.structure_tag class id (P inner)
  into_structure (boolean id class inner) =
      Structure.structure_tag class id (P (if inner then 0xff ∷ [] else 0x00 ∷ []))
  into_structure (null id class) = Structure.structure_tag class id (P [])
  into_structure (explicit_tag id class inner) =
      Structure.structure_tag class id (C (Tags.cons (into_structure inner) Tags.nil))
  into_structure (raw s) = s

  pub into_tags : TagVec → Tags
  into_tags nil = Tags.nil
  into_tags (cons t ts) = Tags.cons (into_structure t) (into_tags ts)
