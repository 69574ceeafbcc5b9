-- ===== src/Conn/Turn.antt =====
-- src/conn.rs: `turn`, one arm of the `select!` for each event. A channel is a number. What the
-- socket and the receivers of channels answer is part of the event.
use ldap.Common.{
  ℕ, Bool, true, false, not, ◌||◌, Option, none, some, List, [], ◌∷◌, ◌++◌, ◌==◌, if◌then◌else◌, ok,
  err, panic, ◌>>=◌,
}
use ldap.Common.Int.{ℤ, pos, negsuc}
use ldap.Ber.Structure.{StructureTag, id_of}
use ldap.Ber.Asn.{Tag, raw, default_null}
use ldap.Controls.Types.{RawControl, Control}
use ldap.Conn.MsgId.{MsgMap}
use ldap.Conn.Maps.{get, remove, insert, discard}
use ldap.Protocol.Codec.{Message}
use ldap.Result.Types.{LdapResult, Run, io}
use ldap.Result.Convert.{from_structure}

pub data LdapOp : Type 0 where
  single : LdapOp
  search : ℕ → LdapOp
  abandon : ℕ → LdapOp
  unbind : LdapOp

pub data SearchItem : Type 0 where
  entry : StructureTag → SearchItem
  referral : StructureTag → SearchItem
  done : LdapResult → SearchItem

-- The tuple on the channel of operations.
pub record Request : Type 0 where
  pub id : ℕ
  pub op : LdapOp
  pub tag : Tag
  pub controls : Option (List RawControl)
  pub tx : ℕ

-- The shared `msgmap`, and the maps from an id to the channel of its result or its items.
pub record Conn : Type 0 where
  pub msgmap : MsgMap
  pub resultmap : List (ℕ × ℕ)
  pub searchmap : List (ℕ × ℕ)

-- What the stream of messages yields: its end, an error, or a message. Every message's tag is a
-- structure tag, so that the panic on another tag has no event.
pub data Response : Type 0 where
  ended : Response
  broken : Response
  message : Message → Response

-- `none` is a channel with no sender left. The Boolean of an operation says whether the socket
-- takes the request, the one of `misc` whether the certificate can be got, the one of a response
-- whether the receiver of its channel is still there.
pub data Event : Type 0 where
  id_scrub : Option ℕ → Event
  op_tuple : Option Request → Bool → Event
  misc : Option ℕ → Bool → Event
  response : Response → Bool → Event

pub data Action : Type 0 where
  transmit : ℕ → Tag → Option (List RawControl) → Action
  shutdown : Action
  close : Action
  reply : ℕ → Tag → List Control → Action
  send_item : ℕ → SearchItem → List Control → Action
  send_certificate : ℕ → Action

-- How an arm ends: at the test of the mode, by `continue`, or by `break`.
pub data Flow : Type 0 where
  to_mode continue break : Flow

pub record After : Type 0 where
  pub conn : Conn
  pub actions : List Action
  pub flow : Flow

abbrev pub free : ℕ → MsgMap → MsgMap
free id m = record m { used = discard id m.used }

unfoldable pub scrub : ℕ → Conn → Conn
scrub id c = record {
  msgmap = free id c.msgmap;
  resultmap = remove id c.resultmap;
  searchmap = remove id c.searchmap;
}

-- `searchmap.insert` before the request is sent.
abbrev pub register_search : Request → LdapOp → Conn → Conn
register_search r single c = c
register_search r (search tx) c = record c { searchmap = insert r.id tx c.searchmap }
register_search r (abandon msgid) c = c
register_search r unbind c = c

abbrev pub null_reply : Request → Action
null_reply r = reply r.tx default_null []

-- The `match op` after the request was sent.
unfoldable pub sent : Request → LdapOp → Conn → After
sent r single c = record {
  conn = record c { resultmap = insert r.id r.tx c.resultmap };
  actions = [];
  flow = continue;
}
sent r (search tx) c = record { conn = c; actions = null_reply r ∷ []; flow = to_mode }
sent r (abandon msgid) c = record {
  conn = record {
    msgmap = free r.id c.msgmap;
    resultmap = remove msgid c.resultmap;
    searchmap = remove msgid c.searchmap;
  };
  actions = null_reply r ∷ [];
  flow = to_mode;
}
sent r unbind c = record {
  conn = c;
  actions = shutdown ∷ close ∷ null_reply r ∷ [];
  flow = to_mode;
}

-- `true` is a request that the socket took.
unfoldable pub submit : Request → Bool → Conn → Run After
unfolding sent
submit r false c = err io
submit r true c =
    let a = sent r r.op (register_search r r.op c) in
    ok (record a { actions = transmit r.id r.tag r.controls ∷ a.actions })

-- The item that a response of a search stands for, and whether it is the last.
unfoldable pub item_of : StructureTag → Run (SearchItem × Bool)
item_of protoop =
    if (id_of protoop == 4) || (id_of protoop == 25)
    then ok (entry protoop, false)
    else if id_of protoop == 5
    then (do ext ← from_structure protoop; ok (done ext.base, true))
    else if id_of protoop == 19
    then ok (referral protoop, false)
    else panic

-- A response of a search, whose channel is `tx`; `open` says whether its receiver is there.
unfoldable pub search_response : ℕ → ℕ → Message → Bool → Conn → Run After
unfolding item_of
search_response id tx msg open_ c = do
  (item, remove_) ← item_of msg.protoop
  ok (record {
    conn = if remove_ || not open_ then record c { searchmap = remove id c.searchmap } else c;
    actions = send_item tx item msg.ctrls ∷ [];
    flow = to_mode;
  })

unfoldable pub result_response : ℕ → Option ℕ → Message → Conn → After
result_response id none msg c = record { conn = c; actions = []; flow = to_mode }
result_response id (some tx) msg c = record {
  conn = record c { msgmap = free id c.msgmap; resultmap = remove id c.resultmap };
  actions = reply tx (raw msg.protoop) msg.ctrls ∷ [];
  flow = to_mode;
}

abbrev pub unmatched : Conn → After
unmatched c = record { conn = c; actions = []; flow = to_mode }

abbrev pub dispatch : ℕ → Option ℕ → Message → Bool → Conn → Run After
dispatch id (some tx) msg open_ c = search_response id tx msg open_ c
dispatch id none msg open_ c = ok (result_response id (get id c.resultmap) msg c)

-- No id in use is negative, so that a response with a negative one is unmatched.
unfoldable pub received : ℤ → Message → Bool → Conn → Run After
unfolding search_response result_response
received (negsuc n) msg open_ c = ok (unmatched c)
received (pos id) msg open_ c = dispatch id (get id c.searchmap) msg open_ c

-- An arm of the `select!`.
unfoldable pub arm : Event → Conn → Run After
unfolding scrub submit received
arm (id_scrub none) c = ok (unmatched c)
arm (id_scrub (some id)) c = ok (record { conn = scrub id c; actions = []; flow = to_mode })
arm (op_tuple none sent_) c = ok (record { conn = c; actions = []; flow = break })
arm (op_tuple (some r) sent_) c = submit r sent_ c
arm (misc none got) c = ok (record { conn = c; actions = []; flow = break })
arm (misc (some tx) true) c =
    ok (record { conn = c; actions = send_certificate tx ∷ []; flow = to_mode })
arm (misc (some tx) false) c = ok (unmatched c)
arm (response ended open_) c = ok (record { conn = c; actions = []; flow = break })
arm (response broken open_) c = err io
arm (response (message msg) open_) c = received msg.msgid msg open_ c

pub data LoopMode : Type 0 where
  single_op continuous : LoopMode

-- Whether the loop goes on.
abbrev pub goes_on : LoopMode → Flow → Bool
goes_on mode continue = true
goes_on mode break = false
goes_on single_op to_mode = false
goes_on continuous to_mode = true

-- The loop, over the events in the order in which the `select!` takes them: the connection, the
-- actions in order, and the events that are left.
unfoldable pub turn : LoopMode → Conn → List Event → Run (Conn × List Action × List Event)
unfolding arm
turn mode c [] = ok (c, [], [])
turn mode c (e ∷ es) = arm e c >>= λ a.
    (let rest = turn mode a.conn es in
      if goes_on mode a.flow
      then (rest >>= λ t. ok (t.0, a.actions ++ t.1, t.2))
      else ok (a.conn, a.actions, es))
