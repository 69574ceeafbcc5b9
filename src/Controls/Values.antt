-- ===== src/Controls/Values.antt =====
-- What a server reads of the request controls, and what the Pre-Read and Post-Read responses give
-- (src/controls_impl).
use ldap.Common.{◌≡◌, refl, ◌∙◌, true, List, [], ◌∷◌, Bytes, ok, err, panic, ◌>>=◌, expect, All}
use ldap.Common.Utf8.{utf8_valid}
use ldap.Nom.{NomComplete, IsNomComplete, NomStreaming, IsNomStreaming}
use ldap.Ber.Structure.{context}
use ldap.Ber.Asn.{Tag, sequence, vec, into_structure, default_octet_string}
use ldap.Ber.Write.{encode_inner, encode_into}
use ldap.Ber.RoundTrip.{IsEncodable}
use ldap.Controls.Simple.{assertion, assertion_of, parse_read_entry}
use ldap.Controls.Value.{parse_value, parse_value-encode_inner}
use ldap.Filter.Grammar.{parse}
use ldap.Filter.Items.{eq_match}
use ldap.Filter.Equality.{equality_filter, parse-ldap_escape}
use ldap.Ber.Total.{IsByte}
use ldap.Filter.Names.{IsDescr}
use ldap.Result.Types.{Run}
use ldap.Search.Attributes.{
  Attribute, IsString, Distinct, entry_tag, text_attributes, binary_attributes, construct-entry_tag,
}
use ldap.Util.Escape.{ldap_escape}

bind-ok :
    {A B C : Type 0} (m : Run A) (f : A → B) (k : B → Run C)
    → (m >>= λ a. k (f a)) ≡ ((m >>= (λ a. ok (f a))) >>= k)
bind-ok (ok a) f k = refl
bind-ok (err e) f k = refl
bind-ok panic f k = refl

abbrev pub equality_match : Bytes → Bytes → Tag
equality_match attr v =
    sequence eq_match context (vec (default_octet_string attr ∷ default_octet_string v ∷ []))

module _ (filters : NomComplete) (filter_laws : IsNomComplete filters) (nom : NomStreaming)
    (laws : IsNomStreaming nom) where
  -- For an attribute name that is a descriptor and any value that is a UTF-8 string, with
  -- which the equality match can be encoded, the Assertion control for the filter
  -- `(attribute=escaped value)` is built without a panic, and the value of the control, read
  -- as BER, is exactly the equality match of that attribute with that value.
  pub assertion-ldap_escape :
      (attr v : Bytes)
      → IsDescr attr
      → All IsByte v
      → utf8_valid v ≡ true
      → IsEncodable (into_structure (equality_match attr v))
      → (ldap_escape v >>= λ val.
          assertion filters (equality_filter attr val) >>= λ rc. expect rc.val >>= parse_value nom)
        ≡ ok (into_structure (equality_match attr v))
  unfolding assertion encode_into
  assertion-ldap_escape attr v h hv valid enc =
      bind-ok (ldap_escape v) (λ val. parse filters (equality_filter attr val))
        (λ o. (expect o >>= λ t. ok (assertion_of t)) >>= λ rc. expect rc.val >>= parse_value nom)
      ∙ rw
          (
            parse-ldap_escape filters filter_laws attr v h hv valid,
            parse_value-encode_inner nom laws (into_structure (equality_match attr v)) enc,
          )
          refl

-- The response of Pre-Read and Post-Read.
pub parse_read_entry-entry_tag :
    (nom : NomStreaming) (laws : IsNomStreaming nom) (dn : Bytes) (atts : List Attribute)
    → utf8_valid dn ≡ true
    → All IsString atts
    → Distinct atts
    → IsEncodable (entry_tag dn atts)
    → parse_read_entry nom (encode_inner (entry_tag dn atts))
      ≡ ok (record { attrs = text_attributes atts; bin_attrs = binary_attributes atts })
unfolding parse_read_entry
parse_read_entry-entry_tag nom laws dn atts valid strs distinct enc =
    rw
      (
        parse_value-encode_inner nom laws (entry_tag dn atts) enc,
        construct-entry_tag dn atts valid strs distinct,
      )
      refl
