-- ===== src/Requests/Exops/RoundTrip.antt =====
-- The Password Modify operation of RFC 3062 (src/exop_impl/passmod.rs).
use ldap.Common.{
  ◌≡◌, refl, true, Option, none, some, List, [], ◌∷◌, Bytes, if◌then◌else◌, is_empty, ok, ◌>>=◌,
  expect,
}
use ldap.Common.Utf8.{utf8_valid, from_utf8}
use ldap.Nom.{NomStreaming, IsNomStreaming}
use ldap.Ber.Structure.{
  StructureTag, context, match_class, match_id, expect_constructed, expect_primitive,
}
use ldap.Ber.Asn.{Tag, octet_string, into_structure}
use ldap.Ber.Write.{encode_inner, encode_into}
use ldap.Ber.RoundTrip.{IsEncodable}
use ldap.Controls.Value.{field, parse_value, parse_value-encode_inner}
use ldap.Requests.Exops.{
  PasswordModify, pm_vec, sequence_tag, password_modify, parse_gen_pass, gen_pass_of,
}
use ldap.Result.Types.{Run}

abbrev pub read_fields : StructureTag → Run PasswordModify
read_fields tag = do
  tags ← expect (expect_constructed tag)
  ok (record { user_id = field 0 tags; old_pass = field 1 tags; new_pass = field 2 tags })

-- An absent value is a request without fields.
abbrev pub read_password_modify : NomStreaming → Option Bytes → Run PasswordModify
read_password_modify nom none = ok (record { user_id = none; old_pass = none; new_pass = none })
read_password_modify nom (some val) = do tag ← parse_value nom val; read_fields tag

read_fields-pm_vec :
    (u o n : Option Bytes)
    → read_fields (sequence_tag (pm_vec (record { user_id = u; old_pass = o; new_pass = n })))
      ≡ ok (record { user_id = u; old_pass = o; new_pass = n })
unfolding sequence_tag into_structure expect_constructed expect_primitive field
read_fields-pm_vec none none none = refl
read_fields-pm_vec none none (some n) = refl
read_fields-pm_vec none (some o) none = refl
read_fields-pm_vec none (some o) (some n) = refl
read_fields-pm_vec (some u) none none = refl
read_fields-pm_vec (some u) none (some n) = refl
read_fields-pm_vec (some u) (some o) none = refl
read_fields-pm_vec (some u) (some o) (some n) = refl

-- PasswdModifyResponseValue with a generated password.
abbrev pub gen_pass_tag : Bytes → StructureTag
gen_pass_tag v = sequence_tag (octet_string 0 context v ∷ [])

module _ (nom : NomStreaming) (laws : IsNomStreaming nom) where
  value_read :
      (ts : List Tag) (pm : PasswordModify)
      → IsEncodable (sequence_tag ts)
      → read_fields (sequence_tag ts) ≡ ok pm
      → read_password_modify nom
          (if is_empty ts then none else some (encode_into [] (sequence_tag ts)))
        ≡ ok pm
  unfolding sequence_tag into_structure expect_constructed field encode_into
  value_read [] pm enc h = h
  value_read (t ∷ ts) pm enc h =
      rw (parse_value-encode_inner nom laws (sequence_tag (t ∷ ts)) enc) h

  -- When a Password Modify operation can be encoded, a server that reads its value by RFC
  -- 3062, where an absent value has no field, gets exactly the fields that are there.
  pub read-password_modify :
      (pm : PasswordModify)
      → IsEncodable (sequence_tag (pm_vec pm))
      → read_password_modify nom (password_modify pm).val ≡ ok pm
  unfolding password_modify
  read-password_modify pm enc =
      value_read (pm_vec pm) pm enc (read_fields-pm_vec pm.user_id pm.old_pass pm.new_pass)

  -- It reads a generated password.
  pub parse_gen_pass-gen_pass_tag :
      (v : Bytes)
      → utf8_valid v ≡ true
      → IsEncodable (gen_pass_tag v)
      → parse_gen_pass nom (encode_inner (gen_pass_tag v)) ≡ ok v
  unfolding parse_gen_pass gen_pass_of sequence_tag into_structure expect_constructed
      expect_primitive match_class match_id from_utf8
  parse_gen_pass-gen_pass_tag v valid enc =
      rw (parse_value-encode_inner nom laws (gen_pass_tag v) enc, valid) refl
