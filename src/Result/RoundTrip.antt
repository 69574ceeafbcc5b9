-- ===== src/Result/RoundTrip.antt =====
-- `LdapResultExt::from` (src/result.rs) on the responses that RFC 4511 describes.
use ldap.Common.{
  ℕ, ◌<◌, ◌^◌, ◌%◌, ◌≡◌, refl, ◌∙◌, true, Option, none, some, List, [], ◌∷◌, ◌++◌, Bytes, ok, err,
  panic, sym, All, map, arith, ◌>>=◌,
}
use ldap.Common.Int.{pos}
use ldap.Common.Utf8.{utf8_valid, from_utf8}
use ldap.Ber.Structure.{
  StructureTag, structure_tag, P, C, TagClass, universal, context, from_list, to_list-from_list,
  match_class, match_id, expect_constructed, expect_primitive,
}
use ldap.Ber.Asn.{raw, integer_octets}
use ldap.Ber.Integers.{parse_uint-integer_octets}
use ldap.Result.Convert.{
  LdapResultExt, Extras, component, components, no_extras, parse_uris, parse_refs, string_of,
  result_code, from_structure, from_tag,
}
use ldap.Result.Types.{Run}

-- `LDAPResult` of RFC 4511, section 4.1.9, with the components that Bind and Extended responses
-- add: the result code is enumerated, and each of the others is there if it has a value.
abbrev string_tag : Bytes → StructureTag
string_tag s = structure_tag universal 4 (P s)

abbrev referral : List Bytes → List StructureTag
referral [] = []
referral (r ∷ rs) = structure_tag context 3 (C (from_list (map string_tag (r ∷ rs)))) ∷ []

abbrev optional : ℕ → Option Bytes → List StructureTag
optional id none = []
optional id (some v) = structure_tag context id (P v) ∷ []

abbrev pub response_tags : LdapResultExt → List StructureTag
response_tags x =
    structure_tag universal 10 (P (integer_octets (pos x.base.rc)))
    ∷ string_tag x.base.matched
    ∷ string_tag x.base.text
    ∷ (referral x.base.refs
        ++ (optional 7 x.sasl_creds ++ (optional 10 x.exop.name ++ optional 11 x.exop.val)))

abbrev pub IsString : Bytes → Type 0
IsString s = utf8_valid s ≡ true

abbrev IsOptionalString : Option Bytes → Type 0
IsOptionalString none = Unit {0}
IsOptionalString (some s) = IsString s

-- A result that a response can carry: its strings are UTF-8, its code is a `u32`, and the controls
-- are not part of it.
abbrev pub IsResponse : LdapResultExt → Type 0
IsResponse x =
    (x.base.rc < 2 ^ 32)
    × IsString x.base.matched
    × IsString x.base.text
    × All IsString x.base.refs
    × IsOptionalString x.exop.name
    × (x.base.ctrls ≡ [])

string_of-string_tag :
    (class : TagClass) (id : ℕ) (s : Bytes)
    → IsString s
    → string_of (structure_tag class id (P s)) ≡ ok s
unfolding string_of expect_primitive from_utf8
string_of-string_tag class id s h = rw h refl

parse_uris-string_tag : (ss : List Bytes) → All IsString ss → parse_uris (map string_tag ss) ≡ ok ss
unfolding parse_uris
parse_uris-string_tag [] h = refl
parse_uris-string_tag (s ∷ ss) h =
    rw (string_of-string_tag universal 4 s h.0, parse_uris-string_tag ss h.1)

components-append :
    (xs ys : List StructureTag) (e : Extras)
    → components (xs ++ ys) e ≡ (components xs e >>= components ys)
unfolding components
components-append [] ys e = refl
components-append (x ∷ xs) ys e = next (component e x) (components-append xs ys)
  where
    next :
        (r : Run Extras)
        → ((e : Extras) → components (xs ++ ys) e ≡ (components xs e >>= components ys))
        → (r >>= λ e. components (xs ++ ys) e) ≡ ((r >>= λ e. components xs e) >>= components ys)
    next (ok e) h = h e
    next (err b) h = refl
    next panic h = refl

parse_refs-string_tag :
    (ss : List Bytes)
    → All IsString ss
    → parse_refs (structure_tag context 3 (C (from_list (map string_tag ss)))) ≡ ok ss
unfolding parse_refs expect_constructed
parse_refs-string_tag ss h = rw (to_list-from_list (map string_tag ss), parse_uris-string_tag ss h)

components-referral :
    (refs : List Bytes)
    → All IsString refs
    → components (referral refs) no_extras
      ≡ ok (record { refs = refs; exop_name = none; exop_val = none; sasl_creds = none })
unfolding components component
components-referral [] h = refl
components-referral (r ∷ rs) h = rw (parse_refs-string_tag (r ∷ rs) h) refl

module _ (refs : List Bytes) where
  components-creds :
      (v : Option Bytes)
      → components
          (optional 7 v)
          (record { refs = refs; exop_name = none; exop_val = none; sasl_creds = none })
        ≡ ok (record { refs = refs; exop_name = none; exop_val = none; sasl_creds = v })
  unfolding components component expect_primitive
  components-creds none = refl
  components-creds (some v) = refl

  components-name :
      (creds v : Option Bytes)
      → IsOptionalString v
      → components
          (optional 10 v)
          (record { refs = refs; exop_name = none; exop_val = none; sasl_creds = creds })
        ≡ ok (record { refs = refs; exop_name = v; exop_val = none; sasl_creds = creds })
  unfolding components component
  components-name creds none h = refl
  components-name creds (some v) h = rw (string_of-string_tag context 10 v h)

  components-val :
      (creds name v : Option Bytes)
      → components
          (optional 11 v)
          (record { refs = refs; exop_name = name; exop_val = none; sasl_creds = creds })
        ≡ ok (record { refs = refs; exop_name = name; exop_val = v; sasl_creds = creds })
  unfolding components component expect_primitive
  components-val creds name none = refl
  components-val creds name (some v) = refl

components-optional :
    (refs : List Bytes) (creds name val : Option Bytes)
    → All IsString refs
    → IsOptionalString name
    → components
        (referral refs ++ (optional 7 creds ++ (optional 10 name ++ optional 11 val)))
        no_extras
      ≡ ok (record { refs = refs; exop_name = name; exop_val = val; sasl_creds = creds })
components-optional refs creds name val hr hn =
    rw
      (
        components-append (referral refs)
            (optional 7 creds ++ (optional 10 name ++ optional 11 val)) no_extras,
        components-referral refs hr,
      )
      (components-append (optional 7 creds) (optional 10 name ++ optional 11 val) _
        ∙ (rw (components-creds refs creds) (
            components-append (optional 10 name) (optional 11 val) _
            ∙ rw (components-name refs creds name hn) (components-val refs creds name val))))

-- For a result code below 2^32, UTF-8 strings for the matched DN, the text, the referrals and
-- the name, and any optional value and credentials, reading the response that RFC 4511 describes
-- for them, under any class and number, does not panic and gives exactly these components, with
-- no controls.
pub from_tag-response_tags :
    (x : LdapResultExt) (class : TagClass) (id : ℕ)
    → IsResponse x
    → from_tag (raw (structure_tag class id (C (from_list (response_tags x))))) ≡ ok x
unfolding from_tag from_structure expect_constructed result_code match_class match_id
    expect_primitive
from_tag-response_tags x class id (small, matched, text, refs, name, no_controls) =
    rw
      (
        to_list-from_list (
            referral x.base.refs
            ++ (optional 7 x.sasl_creds ++ (optional 10 x.exop.name ++ optional 11 x.exop.val))),
        string_of-string_tag universal 4 x.base.matched matched,
        string_of-string_tag universal 4 x.base.text text,
        components-optional x.base.refs x.sasl_creds x.exop.name x.exop.val refs name,
        parse_uint-integer_octets x.base.rc (omega (arith, small)),
      )
      (λ i. ok (record x { base = record x.base { rc = whole i; ctrls = sym no_controls i } }))
  where
    whole : x.base.rc % 2 ^ 32 ≡ x.base.rc
    whole = omega (arith, small)
