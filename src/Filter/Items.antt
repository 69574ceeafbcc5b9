-- ===== src/Filter/Items.antt =====
-- src/filter.rs: the items of a filter.
use ldap.Common.{
  ℕ, ◌+◌, Bool, true, false, ◌||◌, ◌&&◌, not, Option, none, some, List, [], ◌∷◌, ◌++◌, Bytes,
  length, is_empty, bytes_eq, ◌==◌, if◌then◌else◌,
}
use ldap.Nom.{IResult, ok, bind, Parser, NomComplete}
use ldap.Ber.Structure.{context}
use ldap.Ber.Asn.{Tag, sequence, octet_string, boolean, vec, default_octet_string, default_sequence}
use ldap.Filter.Unescaper.{unescaped}
use ldap.Filter.Lexical.{attributedescription, attributetype}

abbrev pub eq_match : ℕ
eq_match = 3

abbrev pub substr_match : ℕ
substr_match = 4

abbrev pub gte_match : ℕ
gte_match = 5

abbrev pub lte_match : ℕ
lte_match = 6

abbrev pub pres_match : ℕ
pres_match = 7

abbrev pub approx_match : ℕ
approx_match = 8

abbrev pub ext_match : ℕ
ext_match = 9

abbrev pub sub_initial : ℕ
sub_initial = 0

abbrev pub sub_any : ℕ
sub_any = 1

abbrev pub sub_final : ℕ
sub_final = 2

-- `none` is the `unimplemented!()` arm.
unfoldable pub filtertag : Bytes → Option ℕ
filtertag op =
    if bytes_eq op (b'>' ∷ b'=' ∷ [])
    then some gte_match
    else if bytes_eq op (b'<' ∷ b'=' ∷ [])
    then some lte_match
    else if bytes_eq op (b'~' ∷ b'=' ∷ [])
    then some approx_match
    else none

-- The fold over `v.iter().enumerate()`: an empty part that is not the last.
unfoldable pub empty_inside : ℕ → Bool → ℕ → List Bytes → Bool
empty_inside len acc n [] = acc
empty_inside len acc n (ve ∷ v) =
    empty_inside len (acc || (is_empty ve && not (n + 1 == len))) (n + 1) v

-- The loop over the parts after the first asterisk, which ends at an empty one.
unfoldable pub push_parts : ℕ → ℕ → List Bytes → List Tag
push_parts n i [] = []
push_parts n i (sub_elem ∷ more) =
    if is_empty sub_elem
    then []
    else octet_string (if not (i + 1 == n) then sub_any else sub_final) context sub_elem
      ∷ push_parts n (i + 1) more

abbrev pub is_single_empty : List Bytes → Bool
is_single_empty [] = false
is_single_empty (v ∷ []) = is_empty v
is_single_empty (v ∷ (w ∷ vs)) = false

unfoldable pub eq_tag : Bytes → Bytes → List Bytes → Tag
unfolding push_parts
eq_tag attr initial mid_final =
    if is_empty mid_final
    then sequence eq_match context
        (vec (default_octet_string attr ∷ default_octet_string initial ∷ []))
    else if is_empty initial && is_single_empty mid_final
    then octet_string pres_match context attr
    else sequence substr_match context (
        vec (
          default_octet_string attr
          ∷ default_sequence (
              (if is_empty initial then [] else octet_string sub_initial context initial ∷ [])
              ++ push_parts (length mid_final) 0 mid_final)
          ∷ []))

abbrev pub option_tag : ℕ → Option Bytes → List Tag
option_tag id none = []
option_tag id (some b) = octet_string id context b ∷ []

unfoldable pub extensible_tag : Option Bytes → Option Bytes → Bytes → Bool → Tag
extensible_tag mrule attr value dn = sequence ext_match context (
    vec (
      option_tag 1 mrule
      ++ (option_tag 2 attr
          ++ (octet_string 3 context value ∷ (if dn then boolean 4 context dn ∷ [] else [])))))

abbrev pub is_some : Option Bytes → Bool
is_some none = false
is_some (some b) = true

-- `filtertag` is called on one of its three operators only.
abbrev pub non_eq_tag : Bytes → Bytes → Option ℕ → Bytes → IResult Bytes Tag
non_eq_tag attr i none value = IResult.failure
non_eq_tag attr i (some id) value =
    ok i (sequence id context (vec (default_octet_string attr ∷ default_octet_string value ∷ [])))

abbrev pub check_parts : List Bytes → Option (List Bytes)
check_parts v = if empty_inside (length v) false 0 v then none else some v

module _ (nom : NomComplete) where
  unfoldable pub non_eq : Parser Tag
  unfolding filtertag
  non_eq i = bind (attributedescription nom i) λ i attr.
      bind
        (nom.alt
          (nom.tag (b'>' ∷ b'=' ∷ [])
            ∷ nom.tag (b'<' ∷ b'=' ∷ [])
            ∷ nom.tag (b'~' ∷ b'=' ∷ [])
            ∷ [])
          i)
        λ i filterop. bind (unescaped nom i) λ i value. non_eq_tag attr i (filtertag filterop) value

  unfoldable pub eq : Parser Tag
  unfolding empty_inside eq_tag
  eq i = bind (attributedescription nom i) λ i attr. bind (nom.tag (b'=' ∷ []) i) λ i _.
      bind (unescaped nom i) λ i initial.
        bind
          (nom.map_res (nom.many0 (nom.preceded (nom.tag (b'*' ∷ [])) (unescaped nom))) check_parts
            i)
          λ i mid_final. ok i (eq_tag attr initial mid_final)

  unfoldable pub attr_dn_mrule : Parser Tag
  unfolding extensible_tag
  attr_dn_mrule i = bind (attributedescription nom i) λ i attr.
      bind (nom.opt (nom.tag (b':' ∷ b'd' ∷ b'n' ∷ [])) i) λ i dn.
        bind (nom.opt (nom.preceded (nom.tag (b':' ∷ [])) (attributetype nom)) i) λ i mrule.
          bind (nom.tag (b':' ∷ b'=' ∷ []) i) λ i _.
            bind (unescaped nom i)
              λ i value. ok i (extensible_tag mrule (some attr) value (is_some dn))

  unfoldable pub dn_mrule : Parser Tag
  unfolding extensible_tag
  dn_mrule i = bind (nom.opt (nom.tag (b':' ∷ b'd' ∷ b'n' ∷ [])) i) λ i dn.
      bind (nom.preceded (nom.tag (b':' ∷ [])) (attributetype nom) i) λ i mrule.
        bind (nom.tag (b':' ∷ b'=' ∷ []) i) λ i _.
          bind (unescaped nom i)
            λ i value. ok i (extensible_tag (some mrule) none value (is_some dn))

  unfoldable pub extensible : Parser Tag
  unfolding attr_dn_mrule dn_mrule
  extensible = nom.alt (attr_dn_mrule ∷ dn_mrule ∷ [])

  unfoldable pub item : Parser Tag
  unfolding eq non_eq extensible
  item = nom.alt (eq ∷ non_eq ∷ extensible ∷ [])
