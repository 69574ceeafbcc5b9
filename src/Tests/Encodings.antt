-- ===== src/Tests/Encodings.antt =====
-- The encoding and the messages, at concrete inputs.
use ldap.Common.{
  ◌≡◌, ◌≤◌, ◌⊎◌, ◌^◌, ◌*◌, ◌-◌, refl, true, none, some, false, List, [], ◌∷◌, ◌++◌, length, Outcome,
  arith, map,
}
use ldap.Common.Int.{pos, negsuc}
use ldap.Common.Utf8.{utf8_valid, utf8_run, utf8_step}
use ldap.Nom.{IResult, streaming, streaming-IsNomStreaming}
use ldap.Ber.Structure.{
  StructureTag, structure_tag, P, C, universal, application, context, from_list,
}
use ldap.Ber.Asn.{Tag, raw, integer_octets, count_rem, i_e_into_structure, into_structure}
use ldap.Ber.Write.{encode_inner, write_length, write_type}
use ldap.Ber.Parse.{parse}
use ldap.Ber.HighTag.{high_number, high_tag-lost}
use ldap.Common.{drop}
use ldap.Ber.RoundTrip.{parse-encode_inner}
use ldap.Ber.Total.{Consumes, parse-Consumes}
use ldap.Ber.Integers.{twos_complement, integer_octets_nonneg, integer_octets_wrong}
use ldap.Controls.Types.{RawControl}
use ldap.Controls.Codec.{build_tag}
use ldap.Controls.RoundTrip.{as_response}
use ldap.Tests.Strings.{all_bytes-IsByte}
use ldap.Protocol.Codec.{encode, decode_inner, message_tag}
use ldap.Protocol.RoundTrip.{decode_inner-encode}

-- A sequence of an integer and a context tag.
abbrev pair : StructureTag
pair =
    structure_tag universal 16
      (C (from_list (structure_tag universal 2 (P (7 ∷ [])) ∷ structure_tag context 3 (P []) ∷ [])))

parse-encode_inner_example :
    parse streaming (encode_inner pair ++ 1 ∷ []) ≡ IResult.ok (1 ∷ []) pair
unfolding encode_inner write_type write_length
parse-encode_inner_example =
    parse-encode_inner streaming streaming-IsNomStreaming pair (1 ∷ [])
      (omega arith, (omega arith, ((omega arith, omega arith), ((omega arith, omega arith), tt))))

parse-Consumes_example : Consumes 2 (48 ∷ 0 ∷ 9 ∷ []) (parse streaming (48 ∷ 0 ∷ 9 ∷ []))
parse-Consumes_example =
    parse-Consumes streaming streaming-IsNomStreaming (48 ∷ 0 ∷ 9 ∷ [])
      (all_bytes-IsByte (48 ∷ 0 ∷ 9 ∷ []) refl)

integer_octets_nonneg_example :
    (twos_complement (integer_octets (pos 200)) ≡ pos 200)
    × (length (integer_octets (pos 200)) ≤ 8)
    × ((length (integer_octets (pos 200)) ≡ 1)
        ⊎ (128 * 256 ^ (length (integer_octets (pos 200)) - 2) ≤ 200))
integer_octets_nonneg_example = integer_octets_nonneg 200 (omega arith)

integer_octets_wrong_example : twos_complement (integer_octets (negsuc 199)) ≡ pos 56
integer_octets_wrong_example = integer_octets_wrong 199 (omega arith) (omega arith)

-- A critical control with a value, and one without either.
abbrev two_controls : List RawControl
two_controls =
    record { ctype = 49 ∷ 46 ∷ 50 ∷ []; crit = true; val = some (1 ∷ []) }
    ∷ record { ctype = 50 ∷ 46 ∷ 49 ∷ []; crit = false; val = none }
    ∷ []

-- An unbind request.
abbrev unbind : Tag
unbind = raw (structure_tag application 2 (P []))

decode_inner-encode_example :
    decode_inner streaming (encode (pos 7, unbind, some two_controls) [] ++ 1 ∷ []) ≡ (
      1 ∷ [],
      Outcome.ok (
          some (record {
            msgid = pos 7;
            protoop = into_structure unbind;
            ctrls = map as_response two_controls;
          })),
    )
unfolding utf8_valid utf8_run utf8_step into_structure message_tag encode_inner write_type
    write_length build_tag integer_octets count_rem i_e_into_structure
decode_inner-encode_example =
    decode_inner-encode streaming streaming-IsNomStreaming 7 unbind (some two_controls) (1 ∷ [])
      (omega arith) refl (refl, (refl, tt)) (ground arith)

-- A primitive tag with two octets.
abbrev high_tag : StructureTag
high_tag = structure_tag context 200 (P (5 ∷ 6 ∷ []))

high_tag-lost_example :
    (high_number 0 (drop 1 (encode_inner high_tag ++ 1 ∷ [])) ≡ some (200, 2 ∷ 5 ∷ 6 ∷ 1 ∷ []))
    × (¬ (parse streaming (encode_inner high_tag ++ 1 ∷ []) ≡ IResult.ok (1 ∷ []) high_tag))
unfolding encode_inner write_length
high_tag-lost_example =
    high_tag-lost streaming streaming-IsNomStreaming context 200 (P (5 ∷ 6 ∷ [])) (1 ∷ [])
      (omega arith) (omega arith)
