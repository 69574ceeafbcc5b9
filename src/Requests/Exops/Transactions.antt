-- ===== src/Requests/Exops/Transactions.antt =====
-- The End Transaction operation of RFC 5805 (src/exop_impl/txn.rs).
use ldap.Common.{
  ℕ, ◌<◌, ◌^◌, ◌≡◌, refl, ap, Bool, true, false, Option, none, some, List, [], ◌∷◌, ◌++◌, Bytes, ok,
  panic, ◌>>=◌, expect, map, ◌==◌, if◌then◌else◌, next, reverse, reverse-append, arith,
}
use ldap.Common.Int.{pos, to_i32}
use ldap.Nom.{NomStreaming, IsNomStreaming}
use ldap.Ber.Structure.{StructureTag, id_of, to_list, expect_constructed, expect_primitive}
use ldap.Ber.Asn.{
  Tag, into_structure, into_tags, vec, default_integer, default_sequence, i_e_into_structure,
}
use ldap.Ber.Integers.{parse_uint-integer_octets}
use ldap.Ber.Write.{encode_inner, encode_into}
use ldap.Ber.RoundTrip.{IsEncodable}
use ldap.Controls.Value.{parse_value, parse_value-encode_inner}
use ldap.Controls.Codec.{first_nonzero, parse_controls, parse_control}
use ldap.Result.Types.{Run}
use ldap.Requests.Exops.{
  EndTxn, et_vec, end_txn, sequence_tag, popped_updates, end_txn_loop, parse_end_txn,
}

-- An element of updatesControls, a message id with controls.
abbrev pub update_tag : ℕ × List Tag → Tag
update_tag (id, controls) =
    default_sequence (default_integer (pos id) ∷ default_sequence controls ∷ [])

-- txnEndRes with the controls of updates, and no message id.
abbrev pub updates_tag : List (ℕ × List Tag) → StructureTag
updates_tag us = sequence_tag (default_sequence (map update_tag us) ∷ [])

-- txnEndRes with a message id and no controls.
abbrev pub failed_tag : ℕ → StructureTag
failed_tag id = sequence_tag (default_integer (pos id) ∷ [])

parse_controls-update_tag :
    (u : ℕ × List Tag) → parse_controls (into_structure (update_tag u)) ≡ panic
unfolding parse_controls parse_control into_structure i_e_into_structure expect_constructed
parse_controls-update_tag u = refl

map-snoc :
    (us : List (ℕ × List Tag)) (u : ℕ × List Tag)
    → to_list (into_tags (vec (map update_tag (us ++ (u ∷ [])))))
      ≡ to_list (into_tags (vec (map update_tag us))) ++ (into_structure (update_tag u) ∷ [])
unfolding into_structure
map-snoc [] u = refl
map-snoc (v ∷ us) u = rw (map-snoc us u) refl

popped_updates-update_tag :
    (u : ℕ × List Tag) (ts : List StructureTag)
    → popped_updates (into_structure (update_tag u) ∷ ts) ≡ panic
unfolding popped_updates
popped_updates-update_tag u [] = rw (parse_controls-update_tag u) refl
popped_updates-update_tag u (t ∷ ts) = rw (parse_controls-update_tag u) refl

end_txn_loop-updates_tag :
    (us : List (ℕ × List Tag)) (u : ℕ × List Tag)
    → (expect (expect_constructed (updates_tag (us ++ (u ∷ [])))) >>= end_txn_loop none) ≡ panic
unfolding end_txn_loop sequence_tag into_structure expect_constructed
end_txn_loop-updates_tag us u =
    let ts = to_list (into_tags (vec (map update_tag us))) in
    rw
      (
        map-snoc us u,
        reverse-append ts (into_structure (update_tag u) ∷ []),
        popped_updates-update_tag u (reverse ts),
      )
      refl

-- How a server reads txnEndReq: `commit` is true by default.
abbrev pub identifier : List StructureTag → Run Bytes
identifier tags = do (t, rest) ← expect (next tags); expect (expect_primitive t)

abbrev pub read_commit : List StructureTag → Run EndTxn
read_commit [] = panic
read_commit (t ∷ tags) =
    if id_of t == 1
    then (do
      v ← expect (expect_primitive t)
      commit ← first_nonzero v
      txn_id ← identifier tags
      ok (record { txn_id = txn_id; commit = commit }))
    else (do txn_id ← identifier (t ∷ tags); ok (record { txn_id = txn_id; commit = true }))

abbrev pub read_end_txn : NomStreaming → Option Bytes → Run EndTxn
read_end_txn nom val = do
  val ← expect val
  tag ← parse_value nom val
  tags ← expect (expect_constructed tag)
  read_commit tags

read_commit-et_vec :
    (txn_id : Bytes) (commit : Bool)
    → (expect
          (expect_constructed (sequence_tag (et_vec (record { txn_id = txn_id; commit = commit }))))
        >>= read_commit)
      ≡ ok (record { txn_id = txn_id; commit = commit })
unfolding sequence_tag into_structure expect_constructed expect_primitive
read_commit-et_vec txn_id true = refl
read_commit-et_vec txn_id false = refl

module _ (nom : NomStreaming) (laws : IsNomStreaming nom) where
  -- When an End Transaction response holds, without a message id, one or more updates as RFC
  -- 5805 describes them, each a sequence of a message id and controls, and can be encoded,
  -- `EndTxnResp::parse` panics.
  pub parse_end_txn-updates_tag :
      (us : List (ℕ × List Tag)) (u : ℕ × List Tag)
      → IsEncodable (updates_tag (us ++ (u ∷ [])))
      → parse_end_txn nom (encode_inner (updates_tag (us ++ (u ∷ [])))) ≡ panic
  unfolding parse_end_txn
  parse_end_txn-updates_tag us u enc =
      rw (parse_value-encode_inner nom laws (updates_tag (us ++ (u ∷ []))) enc)
        (end_txn_loop-updates_tag us u)

  -- It reads a message id that stands alone.
  pub parse_end_txn-failed_tag :
      (id : ℕ)
      → id < 2 ^ 31
      → IsEncodable (failed_tag id)
      → parse_end_txn nom (encode_inner (failed_tag id))
        ≡ ok (record { msg_id = some (pos id); upds_ctrls = none })
  unfolding parse_end_txn end_txn_loop sequence_tag into_structure i_e_into_structure
      expect_constructed expect_primitive
  parse_end_txn-failed_tag id h enc =
      rw
        (
          parse_value-encode_inner nom laws (failed_tag id) enc,
          parse_uint-integer_octets id (omega arith),
        )
        (ap (λ n. ok (record { msg_id = some n; upds_ctrls = none }))
          (let e : to_i32 id ≡ pos id = ground arith in e))

  -- When an End Transaction operation can be encoded, a server that reads its value by RFC
  -- 5805, with a commit by default, gets the identifier and the commit flag back.
  pub read-end_txn :
      (et : EndTxn)
      → IsEncodable (sequence_tag (et_vec et))
      → read_end_txn nom (end_txn et).val ≡ ok et
  unfolding end_txn encode_into
  read-end_txn et enc =
      rw (parse_value-encode_inner nom laws (sequence_tag (et_vec et)) enc)
        (read_commit-et_vec et.txn_id et.commit)
