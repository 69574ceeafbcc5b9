-- ===== src/Tests/Filters.antt =====
-- Runs of the filter parser: the tests at the end of src/filter.rs.
use ldap.Common.{codes, ◌≡◌, refl, Option, none, some, [], ◌∷◌, Bytes}
use ldap.Nom.{complete, complete-IsNomComplete, fold_run, many_run}
use ldap.Ber.Structure.{context}
use ldap.Ber.Asn.{
  Tag, into_structure, sequence, octet_string, explicit_tag, vec, default_octet_string,
  default_sequence,
}
use ldap.Filter.Shape.{IsFilter}
use ldap.Filter.Sound.{parse-IsFilter}
use ldap.Ber.Write.{encode_inner, write_type, write_length}
use ldap.Filter.Unescaper.{unescaped, is_value_char, feed}
use ldap.Filter.Lexical.{attributedescription}
use ldap.Filter.Items.{item}
use ldap.Filter.Grammar.{parse}

abbrev encoded : Option Tag → Option Bytes
encoded none = none
encoded (some t) = some (encode_inner (into_structure t))

ber_vec : Bytes → Option Bytes
unfolding parse fold_run many_run encode_inner into_structure write_type write_length item
    attributedescription unescaped is_value_char feed
ber_vec filter = encoded (parse complete filter)

filt_bare_item : ber_vec (codes "a=v") ≡ some (163 ∷ 6 ∷ 4 ∷ 1 ∷ 97 ∷ 4 ∷ 1 ∷ 118 ∷ [])
unfolding ber_vec
filt_bare_item = refl

filt_simple_eq : ber_vec (codes "(a=v)") ≡ some (163 ∷ 6 ∷ 4 ∷ 1 ∷ 97 ∷ 4 ∷ 1 ∷ 118 ∷ [])
unfolding ber_vec
filt_simple_eq = refl

filt_extra_garbage : ber_vec (codes "(a=v)garbage") ≡ none
unfolding ber_vec
filt_extra_garbage = refl

filt_simple_noneq : ber_vec (codes "(a<=2)") ≡ some (166 ∷ 6 ∷ 4 ∷ 1 ∷ 97 ∷ 4 ∷ 1 ∷ 50 ∷ [])
unfolding ber_vec
filt_simple_noneq = refl

filt_pres : ber_vec (codes "(a=*)") ≡ some (135 ∷ 1 ∷ 97 ∷ [])
unfolding ber_vec
filt_pres = refl

filt_ast_ini : ber_vec (codes "(a=*v)") ≡ some (164 ∷ 8 ∷ 4 ∷ 1 ∷ 97 ∷ 48 ∷ 3 ∷ 130 ∷ 1 ∷ 118 ∷ [])
unfolding ber_vec
filt_ast_ini = refl

filt_ast_fin : ber_vec (codes "(a=v*)") ≡ some (164 ∷ 8 ∷ 4 ∷ 1 ∷ 97 ∷ 48 ∷ 3 ∷ 128 ∷ 1 ∷ 118 ∷ [])
unfolding ber_vec
filt_ast_fin = refl

filt_ast_multi :
    ber_vec (codes "(a=v*x*y)")
    ≡ some (164 ∷ 14 ∷ 4 ∷ 1 ∷ 97 ∷ 48 ∷ 9 ∷ 128 ∷ 1 ∷ 118 ∷ 129 ∷ 1 ∷ 120 ∷ 130 ∷ 1 ∷ 121 ∷ [])
unfolding ber_vec
filt_ast_multi = refl

filt_ast_double : ber_vec (codes "(a=f**)") ≡ none
unfolding ber_vec
filt_ast_double = refl

filt_esc_ok :
    ber_vec (40 ∷ 97 ∷ 61 ∷ 118 ∷ 92 ∷ 50 ∷ 97 ∷ 120 ∷ 41 ∷ [])
    ≡ some (163 ∷ 8 ∷ 4 ∷ 1 ∷ 97 ∷ 4 ∷ 3 ∷ 118 ∷ 42 ∷ 120 ∷ [])
unfolding ber_vec
filt_esc_ok = refl

filt_esc_runt : ber_vec (40 ∷ 97 ∷ 61 ∷ 118 ∷ 92 ∷ 50 ∷ 41 ∷ []) ≡ none
unfolding ber_vec
filt_esc_runt = refl

filt_esc_invalid : ber_vec (40 ∷ 97 ∷ 61 ∷ 118 ∷ 92 ∷ 48 ∷ 120 ∷ 41 ∷ []) ≡ none
unfolding ber_vec
filt_esc_invalid = refl

filt_oid :
    ber_vec (codes "(2.5.4.3=v)")
    ≡ some (163 ∷ 12 ∷ 4 ∷ 7 ∷ 50 ∷ 46 ∷ 53 ∷ 46 ∷ 52 ∷ 46 ∷ 51 ∷ 4 ∷ 1 ∷ 118 ∷ [])
unfolding ber_vec
filt_oid = refl

filt_oid0 :
    ber_vec (codes "(2.5.4.0=top)")
    ≡ some (163 ∷ 14 ∷ 4 ∷ 7 ∷ 50 ∷ 46 ∷ 53 ∷ 46 ∷ 52 ∷ 46 ∷ 48 ∷ 4 ∷ 3 ∷ 116 ∷ 111 ∷ 112 ∷ [])
unfolding ber_vec
filt_oid0 = refl

filt_oidl0 : ber_vec (codes "(2.5.04.0=top)") ≡ none
unfolding ber_vec
filt_oidl0 = refl

filt_complex :
    ber_vec (codes "(&(a=v)(b=x)(!(c=y)))")
    ≡ some (
        160 ∷ 26 ∷ 163 ∷ 6 ∷ 4 ∷ 1 ∷ 97 ∷ 4 ∷ 1 ∷ 118 ∷ 163 ∷ 6 ∷ 4 ∷ 1 ∷ 98 ∷ 4 ∷ 1 ∷ 120 ∷ 162 ∷ 8
        ∷ 163 ∷ 6 ∷ 4 ∷ 1 ∷ 99 ∷ 4 ∷ 1 ∷ 121 ∷ [])
unfolding ber_vec
filt_complex = refl

filt_abs_true : ber_vec (codes "(&)") ≡ some (160 ∷ 0 ∷ [])
unfolding ber_vec
filt_abs_true = refl

filt_abs_false : ber_vec (codes "(|)") ≡ some (161 ∷ 0 ∷ [])
unfolding ber_vec
filt_abs_false = refl

filt_ext_dn :
    ber_vec (codes "(ou:dn:=People)")
    ≡ some (
        169 ∷ 15 ∷ 130 ∷ 2 ∷ 111 ∷ 117 ∷ 131 ∷ 6 ∷ 80 ∷ 101 ∷ 111 ∷ 112 ∷ 108 ∷ 101 ∷ 132 ∷ 1 ∷ 255
        ∷ [])
unfolding ber_vec
filt_ext_dn = refl

filt_ext_mrule :
    ber_vec (codes "(cn:2.5.13.5:=J D)")
    ≡ some (
        169 ∷ 19 ∷ 129 ∷ 8 ∷ 50 ∷ 46 ∷ 53 ∷ 46 ∷ 49 ∷ 51 ∷ 46 ∷ 53 ∷ 130 ∷ 2 ∷ 99 ∷ 110 ∷ 131 ∷ 3
        ∷ 74 ∷ 32 ∷ 68 ∷ [])
unfolding ber_vec
filt_ext_mrule = refl

-- A filter of a substring match and the negation of a comparison.
abbrev nested_tag : Tag
nested_tag = sequence 1 context (
    vec (
      sequence 4 context (
        vec (
          default_octet_string (codes "a")
          ∷ default_sequence
              (octet_string 0 context (codes "v") ∷ octet_string 2 context (codes "x") ∷ [])
          ∷ []))
      ∷ explicit_tag 2 context (
          sequence 5 context
            (vec (default_octet_string (codes "b") ∷ default_octet_string (codes "2") ∷ [])))
      ∷ []))

parse-IsFilter_example : IsFilter nested_tag
unfolding parse fold_run many_run item attributedescription unescaped is_value_char feed
parse-IsFilter_example =
    parse-IsFilter complete complete-IsNomComplete (codes "(|(a=v*x)(!(b>=2)))") nested_tag refl
