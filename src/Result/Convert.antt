-- ===== src/Result/Convert.antt =====
-- src/result.rs: `LdapResultExt` from a tag, and the tests on a result code; `parse_refs` of
-- src/search.rs. A result code is a `u32`.
use ldap.Common.{
  ◌%◌, ◌^◌, Bool, ◌||◌, Option, none, some, List, [], ◌∷◌, ◌++◌, Bytes, ◌==◌, if◌then◌else◌, ok,
  err, panic, ◌>>=◌, expect, and_then, next,
}
use ldap.Common.Utf8.{from_utf8}
use ldap.Ber.Universal.{Types, number}
use ldap.Ber.Structure.{
  StructureTag, universal, id_of, match_class, match_id, expect_constructed, expect_primitive,
}
use ldap.Ber.Asn.{
  Tag, integer, enumerated, sequence, set, octet_string, boolean, null, explicit_tag, raw,
}
use ldap.Ber.Parse.{parse_uint}
use ldap.Result.Types.{LdapResult, ldap_result, Run}

pub record Exop : Type 0 where
  pub name : Option Bytes
  pub val : Option Bytes

pub record LdapResultExt : Type 0 where
  pub base : LdapResult
  pub exop : Exop
  pub sasl_creds : Option Bytes

-- `expect_primitive` and `from_utf8`, both with `expect`.
unfoldable pub string_of : StructureTag → Run Bytes
string_of t = do b ← expect (expect_primitive t); expect (from_utf8 b)

unfoldable pub parse_uris : List StructureTag → Run (List Bytes)
unfolding string_of
parse_uris [] = ok []
parse_uris (t ∷ ts) = do s ← string_of t; ss ← parse_uris ts; ok (s ∷ ss)

unfoldable pub parse_refs : StructureTag → Run (List Bytes)
unfolding parse_uris
parse_refs t = do tags ← expect (expect_constructed t); parse_uris tags

-- The variables that the loop over the last components fills.
pub record Extras : Type 0 where
  pub refs : List Bytes
  pub exop_name : Option Bytes
  pub exop_val : Option Bytes
  pub sasl_creds : Option Bytes

-- One turn of that loop.
unfoldable pub component : Extras → StructureTag → Run Extras
unfolding parse_refs string_of
component e comp =
    if id_of comp == 3
    then (do more ← parse_refs comp; ok (record e { refs = e.refs ++ more }))
    else if id_of comp == 7
    then (do v ← expect (expect_primitive comp); ok (record e { sasl_creds = some v }))
    else if id_of comp == 10
    then (do s ← string_of comp; ok (record e { exop_name = some s }))
    else if id_of comp == 11
    then (do v ← expect (expect_primitive comp); ok (record e { exop_val = some v }))
    else ok e

unfoldable pub components : List StructureTag → Extras → Run Extras
unfolding component
components [] e = ok e
components (comp ∷ tags) e = do e ← component e comp; components tags e

abbrev pub no_extras : Extras
no_extras = record { refs = []; exop_name = none; exop_val = none; sasl_creds = none }

unfoldable pub result_code : StructureTag → Option Bytes
result_code t =
    and_then (match_class universal t)
      λ t. and_then (match_id (number Types.enumerated) t) expect_primitive

unfoldable pub from_structure : StructureTag → Run LdapResultExt
unfolding components result_code string_of
from_structure t = do
  tags ← expect (expect_constructed t)
  (first, tags) ← expect (next tags)
  code ← expect (result_code first)
  (second, tags) ← expect (next tags)
  matched ← string_of second
  (third, tags) ← expect (next tags)
  text ← string_of third
  e ← components tags no_extras
  ok (record {
    base = record {
      rc = parse_uint code % 2 ^ 32;
      matched = matched;
      text = text;
      refs = e.refs;
      ctrls = [];
    };
    exop = record { name = e.exop_name; val = e.exop_val };
    sasl_creds = e.sasl_creds;
  })

abbrev pub null_result : LdapResultExt
null_result = record {
  base = record { rc = 0; matched = []; text = []; refs = []; ctrls = [] };
  exop = record { name = none; val = none };
  sasl_creds = none;
}

-- `LdapResultExt::from`. The other tags are the `unimplemented!()` arm.
unfoldable pub from_tag : Tag → Run LdapResultExt
unfolding from_structure
from_tag (raw t) = from_structure t
from_tag (null id class) = ok null_result
from_tag (integer id class n) = panic
from_tag (enumerated id class n) = panic
from_tag (sequence id class ts) = panic
from_tag (set id class ts) = panic
from_tag (octet_string id class v) = panic
from_tag (boolean id class b) = panic
from_tag (explicit_tag id class t) = panic

-- `LdapResult::success` and `LdapResult::non_error`.
unfoldable pub success : LdapResult → Run LdapResult
success r = if r.rc == 0 then ok r else err (ldap_result r)

unfoldable pub non_error : LdapResult → Run LdapResult
non_error r = if (r.rc == 0) || (r.rc == 10) then ok r else err (ldap_result r)

-- `CompareResult::equal`.
unfoldable pub equal : LdapResult → Run Bool
equal r =
    if r.rc == 5 then ok Bool.false else if r.rc == 6 then ok Bool.true else err (ldap_result r)
