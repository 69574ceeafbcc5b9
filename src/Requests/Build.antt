-- ===== src/Requests/Build.antt =====
-- src/ldap.rs: the request that each operation sends, and `construct_exop` of src/exop_impl.rs. A
-- `HashSet` is the list of its elements in the order in which it yields them.
use ldap.Common.{
  ℕ, Bool, true, false, ◌||◌, ◌&&◌, Option, none, some, List, [], ◌∷◌, Bytes, map, is_empty,
  if◌then◌else◌, ok, err, ◌>>=◌, expect, codes,
}
use ldap.Common.Int.{ℤ, pos}
use ldap.Ber.Structure.{application, context}
use ldap.Ber.Asn.{
  Tag, integer, sequence, octet_string, null, vec, default_integer, default_enumerated,
  default_sequence, default_set, default_octet_string, default_boolean,
}
use ldap.Result.Types.{Run, add_no_values}
use ldap.Result.Convert.{Exop}

pub data Mod : Type 0 where
  add : Bytes → List Bytes → Mod
  delete : Bytes → List Bytes → Mod
  replace : Bytes → List Bytes → Mod
  increment : Bytes → Bytes → Mod

unfoldable pub simple_bind : Bytes → Bytes → Tag
simple_bind bind_dn bind_pw = sequence 0 application (
    vec (
      default_integer (pos 3) ∷ default_octet_string bind_dn ∷ octet_string 0 context bind_pw ∷ []))

abbrev pub option_tags : (Bytes → Tag) → Option Bytes → List Tag
option_tags tag none = []
option_tags tag (some v) = tag v ∷ []

unfoldable pub sasl_bind_req : Bytes → Option Bytes → Tag
sasl_bind_req mech creds = sequence 0 application (
    vec (
      default_integer (pos 3)
      ∷ default_octet_string []
      ∷ sequence 3 context
          (vec (default_octet_string mech ∷ option_tags default_octet_string creds))
      ∷ []))

unfoldable pub sasl_external_bind : Tag
unfolding sasl_bind_req
sasl_external_bind = sasl_bind_req (codes "EXTERNAL") (some [])

-- A name and the set of its values.
abbrev pub attribute : Bytes × List Bytes → Tag
attribute (name, vals) =
    default_sequence (default_octet_string name ∷ default_set (map default_octet_string vals) ∷ [])

-- Whether the flag `any_empty` is set.
unfoldable pub any_empty : List (Bytes × List Bytes) → Bool
any_empty [] = false
any_empty ((name, vals) ∷ attrs) = is_empty vals || any_empty attrs

unfoldable pub add_request : Bytes → List (Bytes × List Bytes) → Run Tag
unfolding any_empty
add_request dn attrs =
    let req =
      sequence 8 application
        (vec (default_octet_string dn ∷ default_sequence (map attribute attrs) ∷ [])) in
    if any_empty attrs then err add_no_values else ok req

unfoldable pub compare : Bytes → Bytes → Bytes → Tag
compare dn attr val = sequence 14 application (
    vec (
      default_octet_string dn
      ∷ default_sequence (default_octet_string attr ∷ default_octet_string val ∷ [])
      ∷ []))

unfoldable pub delete_request : Bytes → Tag
delete_request dn = octet_string 10 application dn

-- The number of the operation, the attribute and the set.
abbrev pub mod_parts : Mod → ℕ × Bytes × List Bytes
mod_parts (add attr set) = (0, attr, set)
mod_parts (delete attr set) = (1, attr, set)
mod_parts (replace attr set) = (2, attr, set)
mod_parts (increment attr val) = (3, attr, val ∷ [])

abbrev pub is_add : Mod → Bool
is_add (add attr set) = true
is_add (delete attr set) = false
is_add (replace attr set) = false
is_add (increment attr val) = false

abbrev pub modification : Mod → Tag
modification m =
    let (num, attr, set) = mod_parts m in
    default_sequence (default_enumerated (pos num) ∷ attribute (attr, set) ∷ [])

-- Whether the flag `any_add_empty` is set.
unfoldable pub any_add_empty : List Mod → Bool
any_add_empty [] = false
any_add_empty (m ∷ mods) =
    (let (num, attr, set) = mod_parts m in is_empty set && is_add m) || any_add_empty mods

unfoldable pub modify_request : Bytes → List Mod → Run Tag
unfolding any_add_empty
modify_request dn mods =
    let req =
      sequence 6 application
        (vec (default_octet_string dn ∷ default_sequence (map modification mods) ∷ [])) in
    if any_add_empty mods then err add_no_values else ok req

unfoldable pub modifydn : Bytes → Bytes → Bool → Option Bytes → Tag
modifydn dn rdn delete_old new_sup = sequence 12 application (
    vec (
      default_octet_string dn
      ∷ default_octet_string rdn
      ∷ default_boolean delete_old
      ∷ option_tags (octet_string 0 context) new_sup))

-- `construct_exop`, which asserts that there is a name.
unfoldable pub construct_exop : Exop → Run (List Tag)
construct_exop exop = do
  name ← expect exop.name
  ok (octet_string 0 context name ∷ option_tags (octet_string 1 context) exop.val)

unfoldable pub extended : Exop → Run Tag
unfolding construct_exop
extended exop = do tags ← construct_exop exop; ok (sequence 23 application (vec tags))

unfoldable pub unbind_request : Tag
unbind_request = null 2 application

unfoldable pub abandon_request : ℤ → Tag
abandon_request msgid = integer 16 application msgid

-- The operations, with their arguments, and the request of each.
pub data Operation : Type 0 where
  op_simple_bind : Bytes → Bytes → Operation
  op_sasl_external_bind : Operation
  op_add : Bytes → List (Bytes × List Bytes) → Operation
  op_compare : Bytes → Bytes → Bytes → Operation
  op_delete : Bytes → Operation
  op_modify : Bytes → List Mod → Operation
  op_modifydn : Bytes → Bytes → Bool → Option Bytes → Operation
  op_extended : Exop → Operation
  op_unbind : Operation
  op_abandon : ℤ → Operation

unfoldable pub request : Operation → Run Tag
unfolding simple_bind sasl_external_bind add_request compare delete_request modify_request modifydn
    extended unbind_request abandon_request
request (op_simple_bind dn pw) = ok (simple_bind dn pw)
request op_sasl_external_bind = ok sasl_external_bind
request (op_add dn attrs) = add_request dn attrs
request (op_compare dn attr val) = ok (compare dn attr val)
request (op_delete dn) = ok (delete_request dn)
request (op_modify dn mods) = modify_request dn mods
request (op_modifydn dn rdn delete_old new_sup) = ok (modifydn dn rdn delete_old new_sup)
request (op_extended exop) = extended exop
request op_unbind = ok unbind_request
request (op_abandon msgid) = ok (abandon_request msgid)
