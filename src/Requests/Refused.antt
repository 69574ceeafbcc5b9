-- ===== src/Requests/Refused.antt =====
-- The operations that send no request (src/ldap.rs).
use ldap.Common.{
  ℕ, ◌≡◌, ◌⊎◌, inl, inr, refl, Bool-cases, true, none, some, List, [], ◌∷◌, Bytes, ok, err, map,
  arith,
}
use ldap.Ber.Asn.{Tag, sequence, vec, default_octet_string, default_sequence}
use ldap.Ber.Structure.{application}
use ldap.Conn.MsgId.{MsgMap, next_msgid}
use ldap.Conn.Turn.{LdapOp}
use ldap.Result.Types.{add_no_values}
use ldap.Requests.Build
use ldap.Requests.Build.{Mod, op_modify}
use ldap.Requests.Call.{Ldap, Answer, nothing, perform}
use ldap.Requests.Call.Completes.{perform-nothing, request_of}

abbrev pub modification_of : Bytes → List Mod → Tag
modification_of dn mods =
    sequence 6 application
      (vec (default_octet_string dn ∷ default_sequence (map Build.modification mods) ∷ []))

-- Some modification adds an attribute without a value.
pub data AddsNothing : List Mod → Type 0 where
  here : {attr : Bytes} {mods : List Mod} → AddsNothing (Build.add attr [] ∷ mods)
  there : {m : Mod} {mods : List Mod} → AddsNothing mods → AddsNothing (m ∷ mods)

any_add_empty-AddsNothing : (mods : List Mod) → Build.any_add_empty mods ≡ true → AddsNothing mods
unfolding Build.any_add_empty
any_add_empty-AddsNothing [] h = cc
any_add_empty-AddsNothing (Build.add attr [] ∷ mods) h = here
any_add_empty-AddsNothing (Build.add attr (v ∷ vs) ∷ mods) h =
    there (any_add_empty-AddsNothing mods h)
any_add_empty-AddsNothing (Build.delete attr [] ∷ mods) h = there (any_add_empty-AddsNothing mods h)
any_add_empty-AddsNothing (Build.delete attr (v ∷ vs) ∷ mods) h =
    there (any_add_empty-AddsNothing mods h)
any_add_empty-AddsNothing (Build.replace attr [] ∷ mods) h =
    there (any_add_empty-AddsNothing mods h)
any_add_empty-AddsNothing (Build.replace attr (v ∷ vs) ∷ mods) h =
    there (any_add_empty-AddsNothing mods h)
any_add_empty-AddsNothing (Build.increment attr v ∷ mods) h =
    there (any_add_empty-AddsNothing mods h)

AddsNothing-any_add_empty : {mods : List Mod} → AddsNothing mods → Build.any_add_empty mods ≡ true
unfolding Build.any_add_empty
AddsNothing-any_add_empty here = refl
AddsNothing-any_add_empty (there {m} h) = ground (arith, AddsNothing-any_add_empty h)

-- Modify either returns the error `AddNoValues`, for every answer of the connection, and then
-- some modification adds an attribute without a value, no request is sent, and the handle and
-- the ids in use are as before; or no modification does so (an empty set in a deletion or a
-- replacement does not count), and with an id from `next_msgid` and no answer yet it has sent
-- one request, the Modify request for the name and the modifications with the controls of the
-- handle, and waits.
pub modify-AddsNothing :
    (dn : Bytes) (mods : List Mod) (tx id : ℕ) (answer : Answer) (l : Ldap) (m m' : MsgMap)
    → next_msgid m ≡ some (ok (id, m'))
    → (AddsNothing mods
        × (perform (op_modify dn mods) tx answer m l ≡ record {
          ldap = l;
          msgmap = m;
          sent = [];
          scrubbed = [];
          outcome = some (err add_no_values);
        }))
      ⊎ ((¬ AddsNothing mods)
          × (perform (op_modify dn mods) tx nothing m l ≡ record {
            ldap = record l { last_id = id; controls = none; timeout = none };
            msgmap = m';
            sent = request_of l id LdapOp.single (modification_of dn mods) tx ∷ [];
            scrubbed = [];
            outcome = none;
          }))
unfolding perform Build.request Build.modify_request
modify-AddsNothing dn mods tx id answer l m m' given =
    elim (Bool-cases (Build.any_add_empty mods)) [
      | inl adds ↦ inl (any_add_empty-AddsNothing mods adds, rw adds refl)
      | inr none_ ↦ inr (
        (λ h. let adds = AddsNothing-any_add_empty h in cc),
        perform-nothing (op_modify dn mods) (modification_of dn mods) l tx id m m' (rw none_ refl)
            given,
      )
    ]
