-- ===== src/Requests/Binds.antt =====
-- src/ldap.rs: the binds that send several requests, with the `gssapi` and `ntlm` features.
use ldap.Common.{Option, none, some, List, [], ◌∷◌, ok, err, panic}
use ldap.Ber.Asn.{Tag}
use ldap.Result.Types.{Run}
use ldap.Result.Convert.{LdapResultExt}
pub mod Gssapi
pub mod Ntlm
pub mod Layer
pub mod Offer
pub mod Channel
pub mod Protected

-- What a method does until it returns: `calls` is `self.op_call(LdapOp::Single, req).await?` and what
-- follows it.
pub data Exchange (A : Type 0) : Type 0 where
  returns : Run A → Exchange A
  calls : Tag → (LdapResultExt → Exchange A) → Exchange A

abbrev pub sent_first : {A : Type 0} → Tag → List Tag × Option (Run A) → List Tag × Option (Run A)
sent_first req (reqs, outcome) = (req ∷ reqs, outcome)

-- The requests that are sent, and the outcome, `none` while a call waits, where the calls have these
-- outcomes in turn.
unfoldable pub run :
    {A : Type 0} → Exchange A → List (Run LdapResultExt) → List Tag × Option (Run A)
run (returns r) answers = ([], some r)
run (calls req next) [] = (req ∷ [], none)
run (calls req next) (ok ans ∷ answers) = sent_first req (run (next ans) answers)
run (calls req next) (err e ∷ answers) = (req ∷ [], some (err e))
run (calls req next) (panic ∷ answers) = (req ∷ [], some panic)
