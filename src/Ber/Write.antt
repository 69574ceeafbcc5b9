-- ===== src/Ber/Write.antt =====
-- lber/src/write.rs: the encoder.
use ldap.Common.{
  ℕ, zero, suc, ◌-◌, ◌*◌, ◌/◌, ◌%◌, ◌^◌, bit_and, bit_or, [], ◌∷◌, ◌++◌, Bytes, length, drop,
  reverse, ltb, if◌then◌else◌,
}
use ldap.Ber.Structure.{
  TagStructure, TagClass, primitive, constructed, class_number, structure_number, StructureTag,
  Payload, Tags, structure_tag, P, C, nil, cons,
}

-- `n.to_be_bytes()` for a number of `k` bytes.
unfoldable pub to_be_bytes : ℕ → ℕ → Bytes
to_be_bytes zero n = []
to_be_bytes (suc k) n = (n / 256 ^ k % 256) ∷ to_be_bytes k n

-- The loop `while { count += 1; len >>= 8; len > 0 } {}`, on fuel: how many bytes `len` takes.
unfoldable pub count_octets : ℕ → ℕ → ℕ
count_octets zero len = 0
count_octets (suc f) len =
    let more = suc (count_octets f (len / 2 ^ 8)) in if ltb 0 (len / 2 ^ 8) then more else 1

-- A `usize` has eight bytes.
unfoldable pub write_length : ℕ → Bytes
unfolding count_octets to_be_bytes
write_length len =
    if ltb len 128
    then len ∷ []
    else let count = count_octets 8 len in bit_or count 0x80 ∷ drop (8 - count) (to_be_bytes 8 len)

-- The loop `while tag > 0` on fuel, lowest group of seven bits first.
unfoldable pub tag_groups : ℕ → ℕ → Bytes
tag_groups zero tag = []
tag_groups (suc f) tag =
    let more = bit_and tag 0x7f % 256 ∷ tag_groups f (tag / 2 ^ 7) in if ltb 0 tag then more else []

-- The groups are popped from the end, and each but the last popped gets its top bit set.
unfoldable pub pop_groups : Bytes → Bytes
pop_groups [] = []
pop_groups (g ∷ []) = g ∷ []
pop_groups (g ∷ (h ∷ gs)) = bit_or g 0x80 ∷ pop_groups (h ∷ gs)

-- A `u64` has ten groups of seven bits.
unfoldable pub write_type : TagClass → TagStructure → ℕ → Bytes
unfolding tag_groups pop_groups
write_type class structure id =
    let leading = bit_or (class_number class * 2 ^ 6) (structure_number structure * 2 ^ 5) in
    if ltb 30 id
    then bit_or leading 0x1f ∷ pop_groups (reverse (tag_groups 10 id))
    else bit_or leading (id % 256) ∷ []

abbrev pub structure_of : Payload → TagStructure
structure_of (P v) = primitive
structure_of (C ts) = constructed

unfoldable mutual
  pub encode_inner : StructureTag → Bytes
  encode_inner (structure_tag class id payload) =
      write_type class (structure_of payload) id ++ encode_payload payload

  pub encode_payload : Payload → Bytes
  encode_payload (P v) = write_length (length v) ++ v
  encode_payload (C tags) = let tmp = encode_tags tags in write_length (length tmp) ++ tmp

  pub encode_tags : Tags → Bytes
  encode_tags nil = []
  encode_tags (cons tag tags) = encode_inner tag ++ encode_tags tags

-- The buffer that is extended comes first.
unfoldable pub encode_into : Bytes → StructureTag → Bytes
unfolding encode_inner
encode_into buf tag = buf ++ encode_inner tag
