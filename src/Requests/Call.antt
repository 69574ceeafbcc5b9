-- ===== src/Requests/Call.antt =====
-- src/ldap.rs: `op_call`, the settings of the next operation, and the operations that call it.
use ldap.Common.{
  ℕ, ◌==◌, if◌then◌else◌, Bool, true, false, Option, none, some, List, [], ◌∷◌, ok, err, panic,
  ◌>>=◌,
}
use ldap.Common.Int.{ℤ, pos, negsuc}
use ldap.Ber.Asn.{Tag}
use ldap.Controls.Types.{RawControl, Control}
use ldap.Conn.MsgId.{MsgMap, next_msgid}
use ldap.Conn.Turn.{
  LdapOp, Request, Action, transmit, shutdown, close, reply, send_item, send_certificate,
}
use ldap.Requests.Build.{
  Operation, op_simple_bind, op_sasl_external_bind, op_add, op_compare, op_delete, op_modify,
  op_modifydn, op_extended, op_unbind, op_abandon, request,
}
use ldap.Result.Types.{Run, op_send, result_recv, id_scrub_send, timeout as timeout_error}
use ldap.Result.Convert.{LdapResultExt, from_tag}
use ldap.Search.Request.{SearchOptions}
pub mod Completes

-- The handle, without what it shares with the connection.
pub record Ldap : Type 0 where
  pub last_id : ℕ
  pub timeout : Option ℕ
  pub controls : Option (List RawControl)
  pub search_opts : Option SearchOptions

abbrev pub clone_handle : Ldap → Ldap
clone_handle l = record { last_id = 0; timeout = none; controls = none; search_opts = none }

abbrev pub with_search_options : SearchOptions → Ldap → Ldap
with_search_options opts l = record l { search_opts = some opts }

abbrev pub with_controls : List RawControl → Ldap → Ldap
with_controls ctrls l = record l { controls = some ctrls }

abbrev pub with_timeout : ℕ → Ldap → Ldap
with_timeout duration l = record l { timeout = some duration }

-- What comes of the request: nothing yet, the connection is gone, a reply, the connection dropped the
-- channel of the reply, or the time is over, with whether the scrub request can be sent.
pub data Answer : Type 0 where
  nothing : Answer
  refused : Answer
  answered : Tag → List Control → Answer
  dropped : Answer
  timed_out : Bool → Answer

-- After a call: the handle, the shared map, the requests and scrub requests that were sent, and the
-- outcome, `none` while the call waits.
pub record Called : Type 0 where
  pub ldap : Ldap
  pub msgmap : MsgMap
  pub sent : List Request
  pub scrubbed : List ℕ
  pub outcome : Option (Run LdapResultExt)

-- `result.ctrls = controls`.
abbrev pub with_result_controls : List Control → LdapResultExt → Run LdapResultExt
with_result_controls ctrls ext = ok (record ext { base = record ext.base { ctrls = ctrls } })

-- The wait. Without a timeout the time is never over.
abbrev pub waited : Option ℕ → ℕ → Answer → List ℕ × Option (Run LdapResultExt)
waited t id nothing = ([], none)
waited t id refused = ([], none)
waited t id (answered tag ctrls) = ([], some (from_tag tag >>= with_result_controls ctrls))
waited t id dropped = ([], some (err result_recv))
waited none id (timed_out sent_) = ([], none)
waited (some t) id (timed_out true) = (id ∷ [], some (err timeout_error))
waited (some t) id (timed_out false) = ([], some (err id_scrub_send))

abbrev pub after_wait : Request → MsgMap → Ldap → List ℕ × Option (Run LdapResultExt) → Called
after_wait r m l (scrubbed, outcome) = record {
  ldap = record l { last_id = r.id; controls = none; timeout = none };
  msgmap = m;
  sent = r ∷ [];
  scrubbed = scrubbed;
  outcome = outcome;
}

-- The request takes the controls with it, and the wait the timeout.
abbrev pub called : Request → Answer → MsgMap → Ldap → Called
called r refused m l = record {
  ldap = record l { last_id = r.id; controls = none };
  msgmap = m;
  sent = [];
  scrubbed = [];
  outcome = some (err op_send);
}
called r nothing m l = after_wait r m l (waited l.timeout r.id nothing)
called r (answered tag ctrls) m l = after_wait r m l (waited l.timeout r.id (answered tag ctrls))
called r dropped m l = after_wait r m l (waited l.timeout r.id dropped)
called r (timed_out sent_) m l = after_wait r m l (waited l.timeout r.id (timed_out sent_))

abbrev pub with_id : LdapOp → Tag → ℕ → Answer → MsgMap → Ldap → Option (Run (ℕ × MsgMap)) → Called
with_id op req tx answer m l (some (ok (id, m'))) =
    called (record { id = id; op = op; tag = req; controls = l.controls; tx = tx }) answer m' l
with_id op req tx answer m l (some (err e)) = record {
  ldap = l;
  msgmap = m;
  sent = [];
  scrubbed = [];
  outcome = some (err e);
}
with_id op req tx answer m l (some panic) = record {
  ldap = l;
  msgmap = m;
  sent = [];
  scrubbed = [];
  outcome = some panic;
}
with_id op req tx answer m l none = record {
  ldap = l;
  msgmap = m;
  sent = [];
  scrubbed = [];
  outcome = none;
}

-- `op_call`, where `tx` is the channel that it creates for the reply.
unfoldable pub op_call : LdapOp → Tag → ℕ → Answer → MsgMap → Ldap → Called
unfolding next_msgid
op_call op req tx answer m l = with_id op req tx answer m l (next_msgid m)

-- No operation has a negative id, and none has the id 0.
abbrev pub abandoned : ℤ → ℕ
abandoned (pos n) = n
abandoned (negsuc n) = 0

abbrev pub op_of : Operation → LdapOp
op_of (op_simple_bind dn pw) = LdapOp.single
op_of op_sasl_external_bind = LdapOp.single
op_of (op_add dn attrs) = LdapOp.single
op_of (op_compare dn attr val) = LdapOp.single
op_of (op_delete dn) = LdapOp.single
op_of (op_modify dn mods) = LdapOp.single
op_of (op_modifydn dn rdn delete_old new_sup) = LdapOp.single
op_of (op_extended exop) = LdapOp.single
op_of op_unbind = LdapOp.unbind
op_of (op_abandon msgid) = LdapOp.abandon (abandoned msgid)

abbrev pub performed : Operation → Run Tag → ℕ → Answer → MsgMap → Ldap → Called
performed op (ok req) tx answer m l = op_call (op_of op) req tx answer m l
performed op (err e) tx answer m l = record {
  ldap = l;
  msgmap = m;
  sent = [];
  scrubbed = [];
  outcome = some (err e);
}
performed op panic tx answer m l = record {
  ldap = l;
  msgmap = m;
  sent = [];
  scrubbed = [];
  outcome = some panic;
}

-- An operation. Each method gives a part of what `op_call` returns.
unfoldable pub perform : Operation → ℕ → Answer → MsgMap → Ldap → Called
unfolding op_call request
perform op tx answer m l = performed op (request op) tx answer m l

-- What the actions of the connection are for the call that waits on a channel.
unfoldable pub answer_of : ℕ → List Action → Answer
answer_of tx [] = nothing
answer_of tx (reply to tag ctrls ∷ actions) =
    let rest = answer_of tx actions in if to == tx then answered tag ctrls else rest
answer_of tx (transmit id tag ctrls ∷ actions) = answer_of tx actions
answer_of tx (shutdown ∷ actions) = answer_of tx actions
answer_of tx (close ∷ actions) = answer_of tx actions
answer_of tx (send_item to item ctrls ∷ actions) = answer_of tx actions
answer_of tx (send_certificate to ∷ actions) = answer_of tx actions
