-- ===== src/Ber/Parse.antt =====
-- lber/src/parse.rs: the parser. The combinators of nom are the parameter `nom`.
use ldap.Common.{
  ℕ, zero, suc, ◌+◌, ◌-◌, ◌*◌, ◌%◌, ◌^◌, bit_or, [], ◌∷◌, Bytes, length, is_empty, ltb,
  if◌then◌else◌,
}
use ldap.Nom.{ok, incomplete, failure, bind, Parser, BitParser, NomStreaming}
use ldap.Ber.Structure.{
  TagStructure, TagClass, primitive, constructed, class_from_u8, structure_from_u8, StructureTag,
  Payload, Tags, structure_tag, P, C, nil, cons,
}

-- The fold of `parse_uint`: `(res << 8) | byte` on a `u64`.
unfoldable pub uint_fold : ℕ → Bytes → ℕ
uint_fold res [] = res
uint_fold res (byte ∷ i) = uint_fold (bit_or (res * 2 ^ 8 % 2 ^ 64) byte) i

-- `parse_uint` always succeeds, with nothing left out of its input.
unfoldable pub parse_uint : Bytes → ℕ
unfolding uint_fold
parse_uint i = uint_fold 0 i

module _ (nom : NomStreaming) where
  unfoldable pub class_bits : BitParser TagClass
  class_bits = nom.map_opt (nom.bits_take 2) class_from_u8

  unfoldable pub pc_bit : BitParser TagStructure
  pc_bit = nom.map_opt (nom.bits_take 1) structure_from_u8

  unfoldable pub tagnr_bits : BitParser ℕ
  tagnr_bits = nom.bits_take 5

  unfoldable pub parse_type_header : Parser (TagClass × TagStructure × ℕ)
  unfolding class_bits pc_bit tagnr_bits
  parse_type_header = nom.bits (nom.tuple3 class_bits pc_bit tagnr_bits)

  -- A `usize` has 64 bits, as a `u64` has, so `usize::try_from` fails on no value of `parse_uint`.
  unfoldable pub parse_length : Parser ℕ
  parse_length i = bind (nom.be_u8 i) λ i len.
      if ltb len 128
      then ok i len
      else bind (nom.take (len - 128) i)
          λ i b. let len = parse_uint b in if ltb len (2 ^ 64) then ok i len else failure

  -- `failure` at no fuel. `parse_tags` is the loop `while content.input_len() > 0`.
  unfoldable mutual
    pub parse_tag : ℕ → Parser StructureTag
    parse_tag zero i = failure
    parse_tag (suc f) i = bind (nom.tuple (parse_type_header) parse_length i) λ i header.
        bind (nom.take header.1 i) λ i content.
          bind (parse_payload f header.0.1 content)
            λ _ payload. ok i (structure_tag header.0.0 header.0.2 payload)

    pub parse_payload : ℕ → TagStructure → Parser Payload
    parse_payload zero structure content = failure
    parse_payload (suc f) primitive content = ok [] (P content)
    parse_payload (suc f) constructed content = bind (parse_tags f content) λ j tv. ok j (C tv)

    pub parse_tags : ℕ → Parser Tags
    parse_tags zero content = failure
    parse_tags (suc f) [] = ok [] nil
    parse_tags (suc f) (b ∷ content) =
        bind (parse_tag f (b ∷ content)) λ j sub. bind (parse_tags f j) λ k tv. ok k (cons sub tv)

  -- `Parser::parse`, with fuel that is always enough.
  unfoldable pub parse : Parser StructureTag
  parse input = if is_empty input then incomplete else parse_tag (3 * length input + 1) input
