-- ===== src/Controls/Paged.antt =====
-- src/controls_impl/paged_results.rs: the value of the paged results control.
use ldap.Common.{
  ℕ, ◌<◌, ◌^◌, ◌≡◌, refl, ap, false, Option, some, [], ◌∷◌, Bytes, ok, ◌>>=◌, expect, and_then,
  next, arith,
}
use ldap.Common.Int.{ℤ, pos, to_i32}
use ldap.Nom.{NomStreaming, IsNomStreaming}
use ldap.Ber.Universal.{Types, number}
use ldap.Ber.Structure.{
  StructureTag, universal, match_class, match_id, expect_constructed, expect_primitive,
}
use ldap.Ber.Asn.{
  into_structure, i_e_into_structure, default_sequence, default_integer, default_octet_string,
}
use ldap.Ber.Write.{encode_into}
use ldap.Ber.Parse.{parse_uint}
use ldap.Ber.RoundTrip.{IsEncodable}
use ldap.Ber.Integers.{parse_uint-integer_octets}
use ldap.Controls.Types.{RawControl}
use ldap.Controls.Codec.{paged_results_oid}
use ldap.Controls.Value.{parse_value, parse_value-encode_inner}
use ldap.Result.Types.{Run}

-- The size is an `i32`.
pub record PagedResults : Type 0 where
  pub size : ℤ
  pub cookie : Bytes

unfoldable pub paged_tag : PagedResults → StructureTag
unfolding into_structure
paged_tag pr =
    into_structure
      (default_sequence (default_integer pr.size ∷ default_octet_string pr.cookie ∷ []))

unfoldable pub raw_control : PagedResults → RawControl
unfolding paged_tag encode_into
raw_control pr = record {
  ctype = paged_results_oid;
  crit = false;
  val = some (encode_into [] (paged_tag pr));
}

unfoldable pub paged_size : StructureTag → Option Bytes
paged_size t =
    and_then (match_class universal t)
      λ t. and_then (match_id (number Types.integer) t) expect_primitive

unfoldable pub paged_of : StructureTag → Run PagedResults
unfolding paged_size
paged_of tag = do
  pr_comps ← expect (expect_constructed tag)
  (first, pr_comps) ← expect (next pr_comps)
  size ← expect (paged_size first)
  (second, pr_comps) ← expect (next pr_comps)
  cookie ← expect (expect_primitive second)
  ok (record { size = to_i32 (parse_uint size); cookie = cookie })

paged_of-paged_tag :
    (n : ℕ) (cookie : Bytes)
    → n < 2 ^ 31
    → paged_of (paged_tag (record { size = pos n; cookie = cookie }))
      ≡ ok (record { size = pos n; cookie = cookie })
unfolding paged_of paged_tag expect_constructed expect_primitive match_class match_id
    i_e_into_structure
paged_of-paged_tag n cookie h = rw (parse_uint-integer_octets n (omega arith)) (
    ap (λ s. ok (record { size = s; cookie = cookie }))
      (let e : to_i32 n ≡ pos n = ground arith in e))

module _ (nom : NomStreaming) where
  -- `PagedResults::parse`.
  unfoldable pub parse_paged : Bytes → Run PagedResults
  unfolding paged_of
  parse_paged val = do tag ← parse_value nom val; paged_of tag

  module _ (laws : IsNomStreaming nom) where
    -- For a size below 2^31 and any cookie with which the encoded value has contents shorter
    -- than 2^64 octets, `PagedResults::parse` of the value of the raw control that is made
    -- from them does not panic and gives the size and the cookie back.
    pub parse_paged-raw_control :
        (n : ℕ) (cookie : Bytes)
        → n < 2 ^ 31
        → IsEncodable (paged_tag (record { size = pos n; cookie = cookie }))
        → (expect (raw_control (record { size = pos n; cookie = cookie })).val >>= parse_paged)
          ≡ ok (record { size = pos n; cookie = cookie })
    unfolding raw_control encode_into parse_paged
    parse_paged-raw_control n cookie h enc =
        let tag = paged_tag (record { size = pos n; cookie = cookie }) in
        rw (parse_value-encode_inner nom laws tag enc, paged_of-paged_tag n cookie h) refl
