-- ===== src/Conn/Routing.antt =====
-- Which channel a response goes to (src/conn.rs).
use ldap.Common.{
  ℕ, ◌≡◌, refl, ◌∙◌, subst, Bool, true, false, not, ◌||◌, Option, none, some, List, [], ◌∷◌, ok,
  err, panic, ◌==◌, ==_refl, if◌then◌else◌, arith, All, ◌>>=◌,
}
use ldap.Common.Int.{ℤ, pos, negsuc}
use ldap.Ber.Asn.{raw}
use ldap.Conn.MsgId.{contains}
use ldap.Conn.Maps.{has, get, remove, insert, get-none}
use ldap.Conn.Turn
use ldap.Conn.Turn.{
  Conn, Request, Event, After, LdapOp, id_scrub, op_tuple, misc, response, single, search, abandon,
  unbind, arm, scrub, submit, sent, ended, broken, message, free, reply, to_mode, continuous,
  goes_on,
}
use ldap.Conn.World.{World, Reachable, consistent}
use ldap.Conn.Ids.{Reachable-IsConsistent}
use ldap.Protocol.Codec.{Message}
use ldap.Result.Types.{Run}

module _ {A : Type 0} (k id : ℕ) (other : (k == id) ≡ false) where
  get-remove : (m : List (ℕ × A)) → get k (remove id m) ≡ get k m
  unfolding get remove
  get-remove [] = refl
  get-remove ((j, v) ∷ m) = ground (arith, get-remove m)

  get-insert : (v : A) (m : List (ℕ × A)) → get k (insert id v m) ≡ get k m
  unfolding get insert
  get-insert v m = rw other (get-remove m)

-- Whether an event is about an id.
abbrev pub is_abandon_of : ℕ → LdapOp → Bool
is_abandon_of k single = false
is_abandon_of k (search tx) = false
is_abandon_of k (abandon msgid) = k == msgid
is_abandon_of k unbind = false

abbrev pub is_id : ℕ → ℤ → Bool
is_id k (pos id) = k == id
is_id k (negsuc n) = false

abbrev pub concerns : ℕ → Event → Bool
concerns k (id_scrub none) = false
concerns k (id_scrub (some id)) = k == id
concerns k (op_tuple none sent_) = false
concerns k (op_tuple (some r) sent_) = (k == r.id) || is_abandon_of k r.op
concerns k (misc m got) = false
concerns k (response ended open_) = false
concerns k (response broken open_) = false
concerns k (response (message msg) open_) = is_id k msg.msgid

-- The events that lead from one state of the connection to another, each handled without an error
-- and without an end of the loop.
pub data Runs : Conn → List Event → Conn → Type 0 where
  nil : {c : Conn} → Runs c [] c
  cons :
      {c c' : Conn} (a : After) {e : Event} {es : List Event}
      → arm e c ≡ ok a
      → goes_on continuous a.flow ≡ true
      → Runs a.conn es c'
      → Runs c (e ∷ es) c'

-- An id waits for the same as before.
Stays : ℕ → Conn → Run After → Type 0
Stays k c (ok a) =
    (get k a.conn.resultmap ≡ get k c.resultmap) × (get k a.conn.searchmap ≡ get k c.searchmap)
Stays k c (err e) = Unit {0}
Stays k c panic = Unit {0}

Stays-bind :
    {A : Type 0} (k : ℕ) (c : Conn) (m : Run A) (f : A → Run After)
    → ((a : A) → Stays k c (f a))
    → Stays k c (m >>= f)
unfolding Stays
Stays-bind k c (ok a) f h = h a
Stays-bind k c (err e) f h = tt
Stays-bind k c panic f h = tt

module _ (k : ℕ) (c : Conn) where
  submit-Stays :
      (r : Request) (op : LdapOp)
      → (k == r.id) ≡ false
      → is_abandon_of k op ≡ false
      → Stays k c (ok (sent r op (Turn.register_search r op c)))
  unfolding Stays sent
  submit-Stays r single h ab = (get-insert k r.id h r.tx c.resultmap, refl)
  submit-Stays r (search tx) h ab = (refl, get-insert k r.id h tx c.searchmap)
  submit-Stays r (abandon msgid) h ab =
      (get-remove k msgid ab c.resultmap, get-remove k msgid ab c.searchmap)
  submit-Stays r unbind h ab = (refl, refl)

  dispatch-Stays :
      (id : ℕ) (found : Option ℕ) (msg : Message) (open_ : Bool)
      → (k == id) ≡ false
      → Stays k c (Turn.dispatch id found msg open_ c)
  unfolding Stays Turn.search_response Turn.result_response
  dispatch-Stays id none msg open_ h = result (get id c.resultmap)
    where
      result : (found : Option ℕ) → Stays k c (ok (Turn.result_response id found msg c))
      result none = (refl, refl)
      result (some tx) = (get-remove k id h c.resultmap, refl)
  dispatch-Stays id (some tx) msg open_ h =
      Stays-bind k c (Turn.item_of msg.protoop) _ λ (item, last). closed (last || not open_)
    where
      closed :
          (b : Bool)
          → (get k (if b then record c { searchmap = remove id c.searchmap } else c).resultmap
              ≡ get k c.resultmap)
            × (get k (if b then record c { searchmap = remove id c.searchmap } else c).searchmap
                ≡ get k c.searchmap)
      closed true = (refl, get-remove k id h c.searchmap)
      closed false = (refl, refl)

  arm-Stays : (e : Event) → concerns k e ≡ false → Stays k c (arm e c)
  unfolding Stays arm submit scrub Turn.received
  arm-Stays (id_scrub none) h = (refl, refl)
  arm-Stays (id_scrub (some id)) h = (get-remove k id h c.resultmap, get-remove k id h c.searchmap)
  arm-Stays (op_tuple none sent_) h = (refl, refl)
  arm-Stays (op_tuple (some r) false) h = tt
  arm-Stays (op_tuple (some r) true) h = submit-Stays r r.op (ground arith) (ground arith)
  arm-Stays (misc none got) h = (refl, refl)
  arm-Stays (misc (some tx) true) h = (refl, refl)
  arm-Stays (misc (some tx) false) h = (refl, refl)
  arm-Stays (response ended open_) h = (refl, refl)
  arm-Stays (response broken open_) h = tt
  arm-Stays (response (message msg) open_) h = ids msg.msgid h
    where
      ids : (id : ℤ) → is_id k id ≡ false → Stays k c (Turn.received id msg open_ c)
      ids (pos id) h = dispatch-Stays id (get id c.searchmap) msg open_ h
      ids (negsuc n) h = (refl, refl)

Runs-stays :
    (k : ℕ) {c c' : Conn} {es : List Event}
    → Runs c es c'
    → All (λ e. concerns k e ≡ false) es
    → (get k c'.resultmap ≡ get k c.resultmap) × (get k c'.searchmap ≡ get k c.searchmap)
unfolding Stays
Runs-stays k nil h = (refl, refl)
Runs-stays k {c} (cons a {e} done on run) h =
    let (r, s) = Runs-stays k run h.1 in
    let (r', s') = subst (Stays k c) done (arm-Stays k c e h.0) in (r ∙ r', s ∙ s')

pub get-insert_same : (k tx : ℕ) (m : List (ℕ × ℕ)) → get k (insert k tx m) ≡ some tx
unfolding get insert
get-insert_same k tx m = rw (==_refl k) refl

-- An id waits for its result on a channel, and for no items.
Awaits : ℕ → ℕ → Run After → Type 0
Awaits k tx (ok a) = (get k a.conn.resultmap ≡ some tx) × (get k a.conn.searchmap ≡ none)
Awaits k tx (err e) = Unit {0}
Awaits k tx panic = Unit {0}

submit-Awaits :
    (r : Request) (c : Conn)
    → r.op ≡ single
    → has r.id c.searchmap ≡ false
    → Awaits r.id r.tx (arm (op_tuple (some r) true) c)
unfolding Awaits arm submit sent
submit-Awaits r c op h = rw op (get-insert_same r.id r.tx c.resultmap, get-none r.id c.searchmap h)

bits_pending : (p u r s : Bool) → consistent p u r s ≡ true → p ≡ true → s ≡ false
bits_pending p u r s h k = ground arith

-- In every state that a connection and its handles reach, when the request of a pending id is
-- taken and sent, no scrub of that id was handled before a request that was pending under it,
-- the operation has one response, any events follow that are handled without an error and
-- without an end of the loop and do not concern the id (no scrub, request, abandonment or
-- response of it), and then a message with the id arrives, the connection replies with exactly
-- that message's operation and controls on the channel of the request, drops the entry of the
-- id, and takes the id out of use.
pub response-delivered :
    {w : World} (r : Request) (es : List Event) (c : Conn) (msg : Message) (open_ : Bool)
    → Reachable w
    → contains r.id w.overtaken ≡ false
    → contains r.id w.pending ≡ true
    → r.op ≡ single
    → Runs w.conn (op_tuple (some r) true ∷ es) c
    → All (λ e. concerns r.id e ≡ false) es
    → msg.msgid ≡ pos r.id
    → arm (response (message msg) open_) c
      ≡ ok (record {
        conn = record c { msgmap = free r.id c.msgmap; resultmap = remove r.id c.resultmap };
        actions = reply r.tx (raw msg.protoop) msg.ctrls ∷ [];
        flow = to_mode;
      })
unfolding Awaits arm Turn.received Turn.result_response
response-delivered {w} r es c msg open_ reach early own op (cons a done on run) quiet id =
    let idle = bits_pending _ _ _ _ (Reachable-IsConsistent r.id reach early) own in
    let (waits, quiet_) = subst (Awaits r.id r.tx) done (submit-Awaits r w.conn op idle) in
    let (results, items) = Runs-stays r.id run quiet in
    rw (id, items ∙ quiet_, results ∙ waits) refl
