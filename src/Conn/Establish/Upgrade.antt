-- ===== src/Conn/Establish/Upgrade.antt =====
-- The StartTLS operation when a connection is opened (src/conn.rs).
use ldap.Common.{
  ℕ, ◌≡◌, refl, ◌∙◌, ap, Bool, true, false, none, some, List, [], ◌∷◌, Bytes, ok, err, panic, ◌>>=◌,
}
use ldap.Ber.Asn.{Tag}
use ldap.Ber.Structure.{TagClass}
use ldap.Controls.Types.{Control}
use ldap.Conn.MsgId.{MsgMap, next_msgid, free_id}
use ldap.Conn.Maps.{remove, insert, discard}
use ldap.Conn.Turn.{Conn, Request, Event, LdapOp, op_tuple, response, message, turn, single_op}
use ldap.Conn.Loop.{turn-single_op}
use ldap.Conn.Establish.{
  Opened, Outside, Address, LdapConnSettings, start, ConnType, tls, tcp, tcp_scheme, new_tcp,
  start_tls_exchange, conn_pair, then_secured, secured, with_stream, after_turn, first_events,
  joined,
}
use ldap.Requests.Build.{op_extended, request}
use ldap.Requests.Call.{Ldap, answer_of}
use ldap.Requests.Call.Completes.{request_of, response_of, perform-nothing, performed_with}
use ldap.Requests.Exops.{start_tls}
use ldap.Result.Types.{Run, LdapResult}
use ldap.Result.Convert.{LdapResultExt, success}
use ldap.Result.RoundTrip.{IsResponse}

abbrev no_ids : MsgMap
no_ids = record { last = 0; used = [] }

abbrev one_id : MsgMap
one_id = record { last = 1; used = 1 ∷ [] }

given : next_msgid no_ids ≡ some (ok (1, one_id))
unfolding next_msgid free_id
given = refl

abbrev fresh_handle : Ldap
fresh_handle = record { last_id = 0; timeout = none; controls = none; search_opts = none }

-- The request of the operation.
abbrev pub start_tls_request : Tag → Request
start_tls_request tag = request_of fresh_handle 1 LdapOp.single tag 0

-- The connection and the handle after the operation.
abbrev pub upgraded : ConnType → Bool → Opened
upgraded ctype has_tls = record {
  conn = record { msgmap = record { last = 1; used = [] }; resultmap = []; searchmap = [] };
  ctype = ctype;
  ldap = record { last_id = 1; timeout = none; controls = none; search_opts = none };
  has_tls = has_tls;
}

module _ (out : Outside) (tag : Tag) (built : request (op_extended start_tls) ≡ ok tag)
    (x : LdapResultExt) (class : TagClass) (number : ℕ) (ctrls : List Control) (open_ : Bool)
    (es : List Event)
    (arrives : out.events (start_tls_request tag)
      ≡ op_tuple (some (start_tls_request tag)) true
        ∷ response (message (response_of 1 class number x ctrls)) open_
        ∷ es) where
  abbrev result : LdapResult
  result = record x.base { ctrls = ctrls }

  abbrev opened : Opened
  opened = conn_pair tcp

  abbrev sent_to : Conn
  sent_to = record { msgmap = one_id; resultmap = []; searchmap = [] }

  exchanged :
      IsResponse x
      → start_tls_exchange out opened ≡ some (success result >>= λ res. ok (upgraded tcp false))
  unfolding start_tls_exchange conn_pair answer_of insert remove discard
  exchanged is =
      let r = start_tls_request tag in
      ap
        (λ a.
          after_turn opened
            (turn single_op (record opened.conn { msgmap = a.msgmap }) (first_events out a.sent)))
        (perform-nothing (op_extended start_tls) tag fresh_handle 0 1 no_ids one_id built given)
      ∙ ap (λ events. after_turn opened (turn single_op sent_to events)) arrives
      ∙ ap (after_turn opened)
          (turn-single_op sent_to r (response_of 1 class number x ctrls) open_ es refl refl refl)
      ∙ ap (λ a. joined (upgraded tcp false).conn a.ldap a.outcome)
          (performed_with (op_extended start_tls) tag fresh_handle 0 1 no_ids one_id x class number
            ctrls built given is)

  -- When a URL and its settings lead to StartTLS and the TCP stream is opened, the connection
  -- sends the StartTLS request, and a well-formed response with its id comes next, `new_tcp`
  -- returns: the error with the result of the server if the result code is not 0, without a
  -- TLS handshake, and else the outcome of the handshake with the host, which if it succeeds
  -- is a connection over TLS with no id in use and no operation that waits.
  pub new_tcp-start_tls :
      (url : Address) (settings : LdapConnSettings) (host : Bytes)
      → IsResponse x
      → tcp_scheme url settings out ≡ ok (start, host)
      → new_tcp url settings out
        ≡ some (
            success result >>= λ res.
            out.create_tls_stream host >>= λ stream. ok (upgraded tls true))
  unfolding new_tcp
  new_tcp-start_tls url settings host is opens =
      ap (with_stream out) opens
      ∙ ap (then_secured out host) (exchanged is)
      ∙ ap some (secured_after (success result))
    where
      secured_after :
          (r : Run LdapResult)
          → (r >>= (λ res. ok (upgraded tcp false)) >>= secured out host)
            ≡ (r >>= λ res. out.create_tls_stream host >>= λ stream. ok (upgraded tls true))
      secured_after (ok res) = refl
      secured_after (err e) = refl
      secured_after panic = refl
