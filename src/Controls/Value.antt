-- ===== src/Controls/Value.antt =====
-- The BER value of a control or of an extended operation, read by `parse_tag`.
use ldap.Common.{
  ℕ, Option, none, ◌∷◌, ◌==◌, if◌then◌else◌, ◌+◌, ◌*◌, ◌≡◌, sym, ap, ◌∙◌, List, [], append-nil,
  Bytes, length, ok, panic, arith,
}
use ldap.Nom.{IResult, incomplete, error, failure, NomStreaming, IsNomStreaming}
use ldap.Ber.Structure.{StructureTag, id_of, expect_primitive}
use ldap.Ber.Write.{encode_inner}
use ldap.Ber.Parse.{parse_tag}
use ldap.Ber.RoundTrip.{IsEncodable, parse_tag-encode_inner_fuel}
use ldap.Result.Types.{Run}

abbrev pub parsed : IResult Bytes StructureTag → Run StructureTag
parsed (IResult.ok i tag) = ok tag
parsed incomplete = panic
parsed error = panic
parsed failure = panic

-- The `match parse_tag(val)` of the parsers, with the fuel that `Parser::parse` has.
abbrev pub parse_value : NomStreaming → Bytes → Run StructureTag
parse_value nom val = parsed (parse_tag nom (3 * length val + 1) val)

-- It reads the octets of an encoded tag.
pub parse_value-encode_inner :
    (nom : NomStreaming) (laws : IsNomStreaming nom) (tag : StructureTag)
    → IsEncodable tag
    → parse_value nom (encode_inner tag) ≡ ok tag
parse_value-encode_inner nom laws tag enc = ap parsed (
    ap (parse_tag nom (3 * length (encode_inner tag) + 1)) (sym (append-nil (encode_inner tag)))
    ∙ parse_tag-encode_inner_fuel nom laws tag (3 * length (encode_inner tag) + 1) [] enc
        (omega arith))

-- How a server reads a field: the first element that has its number.
unfoldable pub field : ℕ → List StructureTag → Option Bytes
unfolding expect_primitive
field n [] = none
field n (t ∷ ts) = let rest = field n ts in if id_of t == n then expect_primitive t else rest
