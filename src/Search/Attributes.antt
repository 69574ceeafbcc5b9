-- ===== src/Search/Attributes.antt =====
-- `SearchEntry::construct` (src/search.rs) on the entries that RFC 4511 describes.
use ldap.Common.{
  ◌≡◌, refl, ◌∙◌, ap, true, false, Option, none, List, [], ◌∷◌, ◌++◌, Bytes, if◌then◌else◌,
  is_empty, bytes_eq, ok, map, All, arith, append-nil, append_assoc, Bool-cases, inl, inr,
}
use ldap.Common.Utf8.{from_utf8, utf8_valid}
use ldap.Ber.Structure.{
  StructureTag, to_list, match_id, expect_constructed, expect_primitive, application,
}
use ldap.Ber.Asn.{
  Tag, sequence, vec, into_structure, into_tags, default_sequence, default_set,
  default_octet_string,
}
use ldap.Search.Construct.{
  ValueMap, values_of, upsert, behind, SearchEntry, split_values, partial_attribute, attributes,
  construct,
}

-- An attribute with its values.
abbrev pub Attribute : Type 0
Attribute = Bytes × List Bytes

abbrev pub attribute_tag : Attribute → Tag
attribute_tag (a_type, vs) =
    default_sequence (default_octet_string a_type ∷ default_set (map default_octet_string vs) ∷ [])

-- SearchResultEntry.
abbrev pub entry_tag : Bytes → List Attribute → StructureTag
entry_tag dn atts = into_structure (
    sequence 4 application
      (vec (default_octet_string dn ∷ default_sequence (map attribute_tag atts) ∷ [])))

abbrev pub strings : List Bytes → List Bytes
strings [] = []
strings (v ∷ vs) = if utf8_valid v then v ∷ strings vs else strings vs

abbrev pub binaries : List Bytes → List Bytes
binaries [] = []
binaries (v ∷ vs) = if utf8_valid v then binaries vs else v ∷ binaries vs

-- The attributes whose values are all strings.
abbrev pub text_attributes : List Attribute → ValueMap
text_attributes [] = []
text_attributes ((a, vs) ∷ atts) =
    if is_empty (binaries vs) then (a, vs) ∷ text_attributes atts else text_attributes atts

-- The others, with the values that are no strings before those that are.
abbrev pub binary_attributes : List Attribute → ValueMap
binary_attributes [] = []
binary_attributes ((a, vs) ∷ atts) =
    if is_empty (binaries vs)
    then binary_attributes atts
    else (a, binaries vs ++ strings vs) ∷ binary_attributes atts

abbrev pub IsString : Attribute → Type 0
IsString a = utf8_valid a.0 ≡ true

-- The attributes have different types.
abbrev pub Distinct : List Attribute → Type 0
Distinct [] = Unit {0}
Distinct (a ∷ atts) = All (λ b. bytes_eq b.0 a.0 ≡ false) atts × Distinct atts

abbrev Fresh : ValueMap → List Attribute → Type 0
Fresh m atts = All (λ b. values_of b.0 m ≡ none) atts

split_values_lem :
    (vs : List Bytes)
    → split_values (to_list (into_tags (vec (map default_octet_string vs))))
      ≡ ok (strings vs, binaries vs)
unfolding split_values into_structure expect_primitive
split_values_lem [] = refl
split_values_lem (v ∷ vs) = elim (Bool-cases (utf8_valid v)) [
  | inl h ↦ rw (split_values_lem vs, h) refl
  | inr h ↦ rw (split_values_lem vs, h) refl
]

strings_all : (vs : List Bytes) → is_empty (binaries vs) ≡ true → strings vs ≡ vs
strings_all [] h = refl
strings_all (v ∷ vs) h = elim (Bool-cases (utf8_valid v)) [
  | inl e ↦ ground (arith, strings_all vs)
  | inr e ↦ ground arith
]

upsert-fresh :
    (k : Bytes) (f : Option (List Bytes) → List Bytes) (m : ValueMap)
    → values_of k m ≡ none
    → upsert k f m ≡ m ++ ((k, f none) ∷ [])
unfolding upsert values_of
upsert-fresh k f [] h = refl
upsert-fresh k f ((k', vs) ∷ m) h = elim (Bool-cases (bytes_eq k k')) [
  | inl e ↦ ground arith
  | inr e ↦ ground (arith, upsert-fresh k f m)
]

values_of-append :
    (b k : Bytes) (vs : List Bytes) (m : ValueMap)
    → values_of b m ≡ none
    → bytes_eq b k ≡ false
    → values_of b (m ++ ((k, vs) ∷ [])) ≡ none
unfolding values_of
values_of-append b k vs [] h e = rw e refl
values_of-append b k vs ((k', vs') ∷ m) h e = elim (Bool-cases (bytes_eq b k')) [
  | inl g ↦ ground arith
  | inr g ↦ ground (arith, values_of-append b k vs m)
]

All-zip :
    {P Q R : Attribute → Type 0} (atts : List Attribute)
    → ((b : Attribute) → P b → Q b → R b)
    → All P atts
    → All Q atts
    → All R atts
All-zip [] f ps qs = tt
All-zip (b ∷ atts) f (p, ps) (q, qs) = (f b p q, All-zip atts f ps qs)

-- What the loop does to the maps.
abbrev added : List Attribute → SearchEntry → SearchEntry
added atts e = record e {
  attrs = e.attrs ++ text_attributes atts;
  bin_attrs = e.bin_attrs ++ binary_attributes atts;
}

partial_attribute_lem :
    (a : Attribute) (e : SearchEntry)
    → IsString a
    → values_of a.0 e.attrs ≡ none
    → values_of a.0 e.bin_attrs ≡ none
    → partial_attribute (into_structure (attribute_tag a)) e ≡ ok (added (a ∷ []) e)
unfolding partial_attribute into_structure expect_constructed expect_primitive from_utf8
partial_attribute_lem (a_type, vs) e valid fresh fresh_bin =
    elim (Bool-cases (is_empty (binaries vs))) [
      | inl h ↦
          rw
            (
              valid,
              split_values_lem vs,
              h,
              strings_all vs h,
              upsert-fresh a_type (λ old. vs) e.attrs fresh,
              append-nil e.bin_attrs,
            )
            refl
      | inr h ↦
          rw
            (
              valid,
              split_values_lem vs,
              h,
              upsert-fresh a_type (behind (binaries vs ++ strings vs)) e.bin_attrs fresh_bin,
              append-nil e.attrs,
            )
            refl
    ]

Fresh-text_attributes :
    (a : Attribute) (m : ValueMap) (atts : List Attribute)
    → All (λ b. bytes_eq b.0 a.0 ≡ false) atts
    → Fresh m atts
    → Fresh (m ++ text_attributes (a ∷ [])) atts
Fresh-text_attributes (a, vs) m atts distinct fresh = elim (Bool-cases (is_empty (binaries vs))) [
  | inl h ↦ rw h (All-zip atts (λ b p q. values_of-append b.0 a vs m q p) distinct fresh)
  | inr h ↦ rw (h, append-nil m) fresh
]

Fresh-binary_attributes :
    (a : Attribute) (m : ValueMap) (atts : List Attribute)
    → All (λ b. bytes_eq b.0 a.0 ≡ false) atts
    → Fresh m atts
    → Fresh (m ++ binary_attributes (a ∷ [])) atts
Fresh-binary_attributes (a, vs) m atts distinct fresh = elim (Bool-cases (is_empty (binaries vs))) [
  | inl h ↦ rw (h, append-nil m) fresh
  | inr h ↦ rw h (
      All-zip atts (λ b p q. values_of-append b.0 a (binaries vs ++ strings vs) m q p) distinct
        fresh)
]

added-added :
    (a : Attribute) (atts : List Attribute) (e : SearchEntry)
    → added atts (added (a ∷ []) e) ≡ added (a ∷ atts) e
added-added (a, vs) atts e = elim (Bool-cases (is_empty (binaries vs))) [
  | inl h ↦ rw (h, append-nil e.bin_attrs, append_assoc) refl
  | inr h ↦ rw (h, append-nil e.attrs, append_assoc) refl
]

attributes_lem :
    (atts : List Attribute) (e : SearchEntry)
    → All IsString atts
    → Distinct atts
    → Fresh e.attrs atts
    → Fresh e.bin_attrs atts
    → attributes (to_list (into_tags (vec (map attribute_tag atts)))) e ≡ ok (added atts e)
unfolding attributes into_structure
attributes_lem [] e valid distinct fresh fresh_bin =
    rw (append-nil e.attrs, append-nil e.bin_attrs) refl
attributes_lem (a ∷ atts) e (v, valid) (apart, distinct) (f, fresh) (f_bin, fresh_bin) =
    rw (partial_attribute_lem a e v f f_bin) (
      attributes_lem atts (added (a ∷ []) e) valid distinct
        (Fresh-text_attributes a e.attrs atts apart fresh)
        (Fresh-binary_attributes a e.bin_attrs atts apart fresh_bin)
      ∙ ap ok (added-added a atts e))

no_values : (atts : List Attribute) → Fresh [] atts
unfolding values_of
no_values [] = tt
no_values (a ∷ atts) = (refl, no_values atts)

-- For a search result entry as RFC 4511 describes it, whose DN and attribute types are UTF-8
-- strings and whose attribute types differ, `SearchEntry::construct` does not panic and gives
-- the DN, in `attrs` each attribute whose values are all UTF-8 strings, with its values in
-- order, and in `bin_attrs` each other attribute with all its values, those that are no strings
-- before the others.
pub construct-entry_tag :
    (dn : Bytes) (atts : List Attribute)
    → utf8_valid dn ≡ true
    → All IsString atts
    → Distinct atts
    → construct (record { tag = entry_tag dn atts; controls = [] })
      ≡ ok (record { dn = dn; attrs = text_attributes atts; bin_attrs = binary_attributes atts })
unfolding construct match_id into_structure expect_constructed expect_primitive from_utf8
construct-entry_tag dn atts valid strs distinct =
    rw
      (
        valid,
        attributes_lem atts (record { dn = dn; attrs = []; bin_attrs = [] }) strs distinct
            (no_values atts) (no_values atts),
      )
      refl
