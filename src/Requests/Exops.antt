-- ===== src/Requests/Exops.antt =====
-- src/exop_impl: the values of the extended operations and of their responses.
use ldap.Common.{
  ℕ, Bool, true, false, not, ◌&&◌, Option, none, some, List, [], ◌∷◌, ◌++◌, Bytes, ◌==◌,
  if◌then◌else◌, is_empty, reverse, ok, panic, ◌>>=◌, expect, next, codes,
}
use ldap.Common.Int.{ℤ, to_i32}
use ldap.Common.Utf8.{from_utf8}
use ldap.Nom.{NomStreaming}
use ldap.Ber.Universal.{Types, number}
use ldap.Ber.Structure.{
  StructureTag, universal, context, class_eq, class_of, id_of, expect_constructed, expect_primitive,
}
use ldap.Ber.Asn.{
  Tag, octet_string, into_structure, default_sequence, default_octet_string, default_boolean,
}
use ldap.Ber.Write.{encode_into}
use ldap.Ber.Parse.{parse_uint}
use ldap.Controls.Types.{Control}
use ldap.Controls.Codec.{parse_controls}
use ldap.Controls.Sync.{primitive_of, is_universal}
use ldap.Controls.Value.{parse_value}
use ldap.Requests.Build.{option_tags}
use ldap.Result.Types.{Run}
use ldap.Result.Convert.{Exop}
pub mod RoundTrip
pub mod Transactions

abbrev pub whoami_oid : Bytes
whoami_oid = codes "1.3.6.1.4.1.4203.1.11.3"

abbrev pub starttls_oid : Bytes
starttls_oid = codes "1.3.6.1.4.1.1466.20037"

abbrev pub passmod_oid : Bytes
passmod_oid = codes "1.3.6.1.4.1.4203.1.11.1"

abbrev pub txn_start_oid : Bytes
txn_start_oid = codes "1.3.6.1.1.21.1"

abbrev pub txn_end_oid : Bytes
txn_end_oid = codes "1.3.6.1.1.21.3"

unfoldable pub who_am_i : Exop
who_am_i = record { name = some whoami_oid; val = none }

unfoldable pub start_tls : Exop
start_tls = record { name = some starttls_oid; val = none }

unfoldable pub start_txn : Exop
start_txn = record { name = some txn_start_oid; val = none }

-- `WhoAmIResp::parse` and `StartTxnResp::parse`: a string.
unfoldable pub parse_string : Bytes → Run Bytes
parse_string val = expect (from_utf8 val)

pub record PasswordModify : Type 0 where
  pub user_id : Option Bytes
  pub old_pass : Option Bytes
  pub new_pass : Option Bytes

abbrev pub pm_vec : PasswordModify → List Tag
pm_vec pm =
    option_tags (octet_string 0 context) pm.user_id
    ++ option_tags (octet_string 1 context) pm.old_pass
    ++ option_tags (octet_string 2 context) pm.new_pass

unfoldable pub sequence_tag : List Tag → StructureTag
unfolding into_structure
sequence_tag ts = into_structure (default_sequence ts)

unfoldable pub password_modify : PasswordModify → Exop
unfolding sequence_tag encode_into
password_modify pm =
    let val = encode_into [] (sequence_tag (pm_vec pm)) in
    record { name = some passmod_oid; val = if is_empty (pm_vec pm) then none else some val }

unfoldable pub gen_pass_of : StructureTag → Run Bytes
gen_pass_of tag = do
  tags ← expect (expect_constructed tag)
  (first, tags) ← expect (next tags)
  gen_pass ← expect (primitive_of context 0 first)
  expect (from_utf8 gen_pass)

pub record EndTxn : Type 0 where
  pub txn_id : Bytes
  pub commit : Bool

abbrev pub et_vec : EndTxn → List Tag
et_vec et =
    (if not et.commit then default_boolean false ∷ [] else [])
    ++ (default_octet_string et.txn_id ∷ [])

unfoldable pub end_txn : EndTxn → Exop
unfolding sequence_tag encode_into
end_txn et = record {
  name = some txn_end_oid;
  val = some (encode_into [] (sequence_tag (et_vec et)));
}

-- The message id is an `i32`.
pub record EndTxnResp : Type 0 where
  pub msg_id : Option ℤ
  pub upds_ctrls : Option (List (ℤ × List Control))

-- The loop that pops the controls and the message id of an update off the end of the elements,
-- which are here in reverse.
unfoldable pub popped_updates : List StructureTag → Run (List (ℤ × List Control))
unfolding parse_controls
popped_updates [] = ok []
popped_updates (c ∷ []) = do controls ← parse_controls c; panic
popped_updates (c ∷ i ∷ tags) = do
  controls ← parse_controls c
  id ← expect (primitive_of universal (number Types.integer) i)
  ctrls ← popped_updates tags
  ok ((to_i32 (parse_uint id), controls) ∷ ctrls)

-- The loop over the elements, and the test that none is left after the updates.
unfoldable pub end_txn_loop : Option ℤ → List StructureTag → Run EndTxnResp
unfolding popped_updates
end_txn_loop msg_id [] = ok (record { msg_id = msg_id; upds_ctrls = none })
end_txn_loop msg_id (tag ∷ tags) =
    if is_universal (number Types.integer) tag
    then (do v ← expect (expect_primitive tag); end_txn_loop (some (to_i32 (parse_uint v))) tags)
    else if is_universal (number Types.sequence) tag
    then (do
      updates ← expect (expect_constructed tag)
      ctrls ← popped_updates (reverse updates)
      if is_empty tags then ok (record { msg_id = msg_id; upds_ctrls = some ctrls }) else panic)
    else panic

module _ (nom : NomStreaming) where
  -- `PasswordModifyResp::parse` and `EndTxnResp::parse`.
  unfoldable pub parse_gen_pass : Bytes → Run Bytes
  unfolding gen_pass_of
  parse_gen_pass val = do tag ← parse_value nom val; gen_pass_of tag

  unfoldable pub parse_end_txn : Bytes → Run EndTxnResp
  unfolding end_txn_loop
  parse_end_txn val = do
    tag ← parse_value nom val
    tags ← expect (expect_constructed tag)
    end_txn_loop none tags
