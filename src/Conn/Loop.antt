-- ===== src/Conn/Loop.antt =====
-- The loop of the connection handler over the events it takes (src/conn.rs).
use ldap.Common.{◌≡◌, refl, Bool, true, false, some, List, [], ◌∷◌, ok}
use ldap.Common.Int.{pos}
use ldap.Ber.Asn.{raw}
use ldap.Conn.Maps.{has, insert, remove, get-none}
use ldap.Conn.Turn.{
  Conn, Request, Event, single, op_tuple, response, message, arm, submit, sent, received,
  result_response, turn, single_op, transmit, reply, free,
}
use ldap.Conn.Routing.{get-insert_same}
use ldap.Protocol.Codec.{Message}

-- In the mode for one operation, when the operation of the request has one response, no search
-- waits under its id, and a message with its id comes next, `turn` sends the request, replies
-- with that message on the channel of the request, takes the id out of use, and leaves all later
-- events: sending the request alone does not end the loop.
pub turn-single_op :
    (c : Conn) (r : Request) (msg : Message) (open_ : Bool) (es : List Event)
    → r.op ≡ single
    → has r.id c.searchmap ≡ false
    → msg.msgid ≡ pos r.id
    → turn single_op c (op_tuple (some r) true ∷ response (message msg) open_ ∷ es)
      ≡ ok (
        record c {
          msgmap = free r.id c.msgmap;
          resultmap = remove r.id (insert r.id r.tx c.resultmap);
        },
        transmit r.id r.tag r.controls ∷ reply r.tx (raw msg.protoop) msg.ctrls ∷ [],
        es,
      )
unfolding turn arm submit sent received result_response
turn-single_op c r msg open_ es op idle id =
    rw (op, id, get-none r.id c.searchmap idle, get-insert_same r.id r.tx c.resultmap) refl
