-- ===== src/Requests/Call/Completes.antt =====
-- Calls of operations together with the connection (src/ldap.rs, src/conn.rs).
use ldap.Common.{
  ℕ, ◌≡◌, refl, ◌∙◌, Bool, true, false, none, some, List, [], ◌∷◌, ok, err, All, ==_refl,
}
use ldap.Common.Int.{pos}
use ldap.Ber.Asn.{Tag, raw}
use ldap.Ber.Structure.{TagClass, structure_tag, C, from_list}
use ldap.Controls.Types.{Control}
use ldap.Conn.MsgId.{MsgMap, contains, next_msgid}
use ldap.Conn.Maps.{get, remove, contains-discard, has-remove, get-none}
use ldap.Conn.Turn.{
  Conn, Request, Event, After, LdapOp, id_scrub, op_tuple, response, message, arm, scrub, reply,
}
use ldap.Conn.Routing.{Runs, concerns, response-delivered}
use ldap.Conn.World.{World, Reachable, allocate}
use ldap.Protocol.Codec.{Message}
use ldap.Requests.Build.{Operation, request}
use ldap.Requests.Call.{Ldap, nothing, timed_out, perform, op_call, op_of, answer_of}
use ldap.Result.Types.{timeout as timeout_error}
use ldap.Result.Convert.{LdapResultExt}
use ldap.Result.RoundTrip.{IsResponse, response_tags, from_tag-response_tags}

-- The request of an operation that took an id.
abbrev pub request_of : Ldap → ℕ → LdapOp → Tag → ℕ → Request
request_of l id op tag tx = record { id = id; op = op; tag = tag; controls = l.controls; tx = tx }

abbrev pub taken : World → ℕ → MsgMap → World
taken w id m = record {
  conn = record w.conn { msgmap = m };
  pending = id ∷ w.pending;
  overtaken = w.overtaken;
}

-- The response of a server to an operation.
abbrev pub response_of : ℕ → TagClass → ℕ → LdapResultExt → List Control → Message
response_of id class number x ctrls = record {
  msgid = pos id;
  protoop = structure_tag class number (C (from_list (response_tags x)));
  ctrls = ctrls;
}

-- A call that waits has sent its request.
pub perform-nothing :
    (op : Operation) (tag : Tag) (l : Ldap) (tx id : ℕ) (m m' : MsgMap)
    → request op ≡ ok tag
    → next_msgid m ≡ some (ok (id, m'))
    → perform op tx nothing m l ≡ record {
      ldap = record l { last_id = id; controls = none; timeout = none };
      msgmap = m';
      sent = request_of l id (op_of op) tag tx ∷ [];
      scrubbed = [];
      outcome = none;
    }
unfolding perform op_call
perform-nothing op tag l tx id m m' built given = rw (built, given) refl

-- What a reply makes of it.
pub performed_with :
    (op : Operation) (tag : Tag) (l : Ldap) (tx id : ℕ) (m m' : MsgMap) (x : LdapResultExt)
    (class : TagClass) (number : ℕ) (ctrls : List Control)
    → request op ≡ ok tag
    → next_msgid m ≡ some (ok (id, m'))
    → IsResponse x
    → perform op tx
        (answer_of tx (reply tx (raw (response_of id class number x ctrls).protoop) ctrls ∷ []))
        m
        l
      ≡ record {
        ldap = record l { last_id = id; controls = none; timeout = none };
        msgmap = m';
        sent = request_of l id (op_of op) tag tx ∷ [];
        scrubbed = [];
        outcome = some (ok (record x { base = record x.base { ctrls = ctrls } }));
      }
unfolding perform op_call answer_of
performed_with op tag l tx id m m' x class number ctrls built given is =
    rw (==_refl tx, built, given, from_tag-response_tags x class number is) refl

-- In every state that a connection and its handles reach, when an operation has a request and
-- one response, its handle takes an id by `next_msgid`, no scrub of that id was handled before a
-- request that was pending under it, the connection sends the request, any events follow that
-- are handled without an error and without an end of the loop and do not concern the id, and
-- then a well-formed response with the id arrives, the connection handles it and takes the id
-- out of use, and what it replies makes the call of the operation return exactly the result that
-- the server sent, with the controls of its message; the call sent one request, with the
-- controls of the handle, which has them and its timeout no more.
pub perform-response :
    {w : World} (op : Operation) (tag : Tag) (l : Ldap) (tx id : ℕ) (m : MsgMap) (es : List Event)
    (c : Conn) (x : LdapResultExt) (class : TagClass) (number : ℕ) (ctrls : List Control)
    (open_ : Bool)
    → Reachable w
    → contains id w.overtaken ≡ false
    → request op ≡ ok tag
    → op_of op ≡ LdapOp.single
    → next_msgid w.conn.msgmap ≡ some (ok (id, m))
    → Runs (taken w id m).conn (op_tuple (some (request_of l id (op_of op) tag tx)) true ∷ es) c
    → All (λ e. concerns id e ≡ false) es
    → IsResponse x
    → (a : After) × (arm (response (message (response_of id class number x ctrls)) open_) c ≡ ok a)
      × (contains id a.conn.msgmap.used ≡ false)
      × (perform op tx (answer_of tx a.actions) w.conn.msgmap l ≡ record {
        ldap = record l { last_id = id; controls = none; timeout = none };
        msgmap = m;
        sent = request_of l id (op_of op) tag tx ∷ [];
        scrubbed = [];
        outcome = some (ok (record x { base = record x.base { ctrls = ctrls } }));
      })
perform-response {w} op tag l tx id m es c x class number ctrls open_ reach early built one given
      run quiet is =
    (
      _,
      response-delivered (request_of l id (op_of op) tag tx) es c
          (response_of id class number x ctrls) open_ (allocate reach given) early
          (rw (==_refl id) refl) one run quiet refl,
      contains-discard id id c.msgmap.used ∙ rw (==_refl id) refl,
      performed_with op tag l tx id w.conn.msgmap m x class number ctrls built given is,
    )

-- When the handle has a timeout and takes an id, and the time is over before a reply comes and
-- the scrub request can be sent, `op_call` returns the error Timeout after one request and one
-- scrub request with the id; the arm of the connection for that scrub request, in any state,
-- takes the id out of use and leaves it with no channel for a result or for items.
pub op_call-timed_out :
    (op : LdapOp) (req : Tag) (tx t id : ℕ) (l : Ldap) (m m' : MsgMap) (c : Conn)
    → l.timeout ≡ some t
    → next_msgid m ≡ some (ok (id, m'))
    → (op_call op req tx (timed_out true) m l ≡ record {
      ldap = record l { last_id = id; controls = none; timeout = none };
      msgmap = m';
      sent = request_of l id op req tx ∷ [];
      scrubbed = id ∷ [];
      outcome = some (err timeout_error);
    })
      × ((a : After) × (arm (id_scrub (some id)) c ≡ ok a)
          × (contains id a.conn.msgmap.used ≡ false)
          × (get id a.conn.resultmap ≡ none)
          × (get id a.conn.searchmap ≡ none))
unfolding op_call arm scrub
op_call-timed_out op req tx t id l m m' c limit given = (
  rw (given, limit) refl,
  (
    _,
    refl,
    contains-discard id id c.msgmap.used ∙ rw (==_refl id) refl,
    get-none id (remove id c.resultmap) (has-remove id id c.resultmap ∙ rw (==_refl id) refl),
    get-none id (remove id c.searchmap) (has-remove id id c.searchmap ∙ rw (==_refl id) refl),
  ),
)
