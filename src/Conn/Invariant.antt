-- ===== src/Conn/Invariant.antt =====
-- The ids of a connection and of its handles (src/conn.rs, src/ldap.rs).
use ldap.Common.{
  ℕ, ◌≡◌, refl, Bool, true, false, not, ◌||◌, ◌&&◌, Option, none, some, List, ◌∷◌, subst, sym, ok,
  err, panic, ◌==◌, ==_iff, if◌then◌else◌, Bool-cases, inl, inr, arith, ◌>>=◌,
}
use ldap.Common.Int.{ℤ, pos, negsuc}
use ldap.Conn.MsgId.{contains}
use ldap.Conn.Maps.{has, get, get-none, remove, discard, has-remove, has-insert, contains-discard}
use ldap.Conn.Turn
use ldap.Conn.Turn.{
  Conn, Request, Event, After, id_scrub, op_tuple, misc, response, single, search, abandon, unbind,
  arm, scrub, submit, sent, ended, broken, message,
}
use ldap.Conn.World.{IsAdmissible, handled, overtaken_by, consistent, consistent_at}
use ldap.Protocol.Codec.{Message}
use ldap.Result.Types.{Run}

-- What a run of an arm keeps at an id.
abbrev pub Keeps : ℕ → List ℕ → Run After → Type 0
Keeps k pending (ok a) = consistent_at k a.conn pending ≡ true
Keeps k pending (err e) = Unit {0}
Keeps k pending panic = Unit {0}

-- Whether an event is a scrub of an id before its request.
abbrev pub overtakes : ℕ → Event → List ℕ → Bool
overtakes k (id_scrub none) pending = false
overtakes k (id_scrub (some id)) pending = (k == id) && contains id pending
overtakes k (op_tuple r sent_) pending = false
overtakes k (misc m got) pending = false
overtakes k (response r open_) pending = false

bits_overtaken :
    (b p o : Bool) → (if p then b || o else o) ≡ false → (o ≡ false) × ((b && p) ≡ false)
bits_overtaken b p o h = (ground arith, ground arith)

-- An id that is not overtaken was not before, and the event does not overtake it.
pub not_overtaken :
    (k : ℕ) (e : Event) (pending overtaken : List ℕ)
    → contains k (overtaken_by e pending overtaken) ≡ false
    → (contains k overtaken ≡ false) × (overtakes k e pending ≡ false)
not_overtaken k (id_scrub none) pending overtaken h = (h, refl)
not_overtaken k (id_scrub (some id)) pending overtaken h =
    bits_overtaken (k == id) (contains id pending) (contains k overtaken)
      (split (contains id pending) h)
  where
    split :
        (p : Bool)
        → contains k (if p then id ∷ overtaken else overtaken) ≡ false
        → (if p then (k == id) || contains k overtaken else contains k overtaken) ≡ false
    split true h = h
    split false h = h
not_overtaken k (op_tuple r sent_) pending overtaken h = (h, refl)
not_overtaken k (misc m got) pending overtaken h = (h, refl)
not_overtaken k (response r open_) pending overtaken h = (h, refl)

module _ (p u r s b c : Bool) (h : consistent p u r s ≡ true) where
  bits_scrub :
      (b && p) ≡ false
      → consistent p (if b then false else u) (if b then false else r) (if b then false else s)
        ≡ true
  bits_scrub k = ground arith

  bits_single : (b && not p) ≡ false → consistent (if b then false else p) u (b || r) s ≡ true
  bits_single k = ground arith

  bits_search : (b && not p) ≡ false → consistent (if b then false else p) u r (b || s) ≡ true
  bits_search k = ground arith

  bits_abandon :
      (b && not p) ≡ false
      → consistent
          (if b then false else p)
          (if b then false else u)
          (if c then false else r)
          (if c then false else s)
        ≡ true
  bits_abandon k = ground arith

  bits_handled : consistent (if b then false else p) u r s ≡ true
  bits_handled = ground arith

  bits_item : consistent p u r (if b then false else s) ≡ true
  bits_item = ground arith

  bits_result :
      (b && not r) ≡ false → consistent p (if b then false else u) (if b then false else r) s ≡ true
  bits_result k = ground arith

  pub bits_allocate : (b && u) ≡ false → consistent (b || p) (b || u) r s ≡ true
  bits_allocate k = ground arith

-- What fails at an id fails at every id that equals it.
at_same : (k id : ℕ) (f : ℕ → Bool) → ((k == id) && f id) ≡ false → ((k == id) && f k) ≡ false
at_same k id f h = elim (Bool-cases (k == id)) [
  | inl e ↦
      let same : k ≡ id = (==_iff k id).0 e in subst (λ x. ((k == id) && f x) ≡ false) (sym same) h
  | inr e ↦ rw e refl
]

pub only_at : (k id : ℕ) (f : ℕ → Bool) → f id ≡ false → ((k == id) && f k) ≡ false
only_at k id f h = at_same k id f (rw h (ground arith))

has-get : (id tx : ℕ) (m : List (ℕ × ℕ)) → get id m ≡ some tx → has id m ≡ true
has-get id tx m h = elim (Bool-cases (has id m)) [
  | inl e ↦ e
  | inr e ↦ let none_ = get-none id m e in cc
]

Keeps-bind :
    {A : Type 0} (k : ℕ) (pending : List ℕ) (m : Run A) (f : A → Run After)
    → ((a : A) → Keeps k pending (f a))
    → Keeps k pending (m >>= f)
Keeps-bind k pending (ok a) f h = h a
Keeps-bind k pending (err e) f h = tt
Keeps-bind k pending panic f h = tt

module _ (k : ℕ) (c : Conn) (pending : List ℕ) (h : consistent_at k c pending ≡ true) where
  scrub-IsConsistent :
      (id : ℕ)
      → ((k == id) && contains id pending) ≡ false
      → consistent_at k (scrub id c) pending ≡ true
  unfolding scrub
  scrub-IsConsistent id free =
      rw
        (
          contains-discard k id c.msgmap.used,
          has-remove k id c.resultmap,
          has-remove k id c.searchmap,
        )
        (bits_scrub _ _ _ _ (k == id) false h (at_same k id (λ x. contains x pending) free))

  sent-IsConsistent :
      (r : Request) (op : Turn.LdapOp)
      → contains r.id pending ≡ true
      → consistent_at k (sent r op (Turn.register_search r op c)).conn (discard r.id pending) ≡ true
  unfolding sent
  sent-IsConsistent r single own =
      rw (contains-discard k r.id pending, has-insert k r.id r.tx c.resultmap)
        (bits_single _ _ _ _ (k == r.id) false h
          (only_at k r.id (λ x. not (contains x pending)) (rw own refl)))
  sent-IsConsistent r (search tx) own =
      rw (contains-discard k r.id pending, has-insert k r.id tx c.searchmap)
        (bits_search _ _ _ _ (k == r.id) false h
          (only_at k r.id (λ x. not (contains x pending)) (rw own refl)))
  sent-IsConsistent r (abandon msgid) own =
      rw
        (
          contains-discard k r.id pending,
          contains-discard k r.id c.msgmap.used,
          has-remove k msgid c.resultmap,
          has-remove k msgid c.searchmap,
        )
        (bits_abandon _ _ _ _ (k == r.id) (k == msgid) h
          (only_at k r.id (λ x. not (contains x pending)) (rw own refl)))
  sent-IsConsistent r unbind own =
      rw (contains-discard k r.id pending) (bits_handled _ _ _ _ (k == r.id) false h)

  submit-Keeps :
      (r : Request) (sent_ : Bool)
      → contains r.id pending ≡ true
      → Keeps k (discard r.id pending) (submit r sent_ c)
  unfolding submit
  submit-Keeps r false own = tt
  submit-Keeps r true own = sent-IsConsistent r r.op own

  search_response-Keeps :
      (id tx : ℕ) (msg : Message) (open_ : Bool)
      → Keeps k pending (Turn.search_response id tx msg open_ c)
  unfolding Turn.search_response
  search_response-Keeps id tx msg open_ =
      Keeps-bind k pending (Turn.item_of msg.protoop) _ λ (item, last). settled (last || not open_)
    where
      settled :
          (b : Bool)
          → consistent_at k
              (if b then record c { searchmap = remove id c.searchmap } else c)
              pending
            ≡ true
      settled true = rw (has-remove k id c.searchmap) (bits_item _ _ _ _ (k == id) false h)
      settled false = h

  result_response-IsConsistent :
      (id : ℕ) (found : Option ℕ) (msg : Message)
      → get id c.resultmap ≡ found
      → consistent_at k (Turn.result_response id found msg c).conn pending ≡ true
  unfolding Turn.result_response
  result_response-IsConsistent id none msg e = h
  result_response-IsConsistent id (some tx) msg e =
      rw (contains-discard k id c.msgmap.used, has-remove k id c.resultmap)
        (bits_result _ _ _ _ (k == id) false h
          (only_at k id (λ x. not (has x c.resultmap)) (rw (has-get id tx c.resultmap e) refl)))

  dispatch-Keeps :
      (id : ℕ) (found : Option ℕ) (msg : Message) (open_ : Bool)
      → Keeps k pending (Turn.dispatch id found msg open_ c)
  dispatch-Keeps id none msg open_ = result_response-IsConsistent id (get id c.resultmap) msg refl
  dispatch-Keeps id (some tx) msg open_ = search_response-Keeps id tx msg open_

  received-Keeps :
      (id : ℤ) (msg : Message) (open_ : Bool) → Keeps k pending (Turn.received id msg open_ c)
  unfolding Turn.received
  received-Keeps (pos id) msg open_ = dispatch-Keeps id (get id c.searchmap) msg open_
  received-Keeps (negsuc n) msg open_ = h

  pub arm-Keeps :
      (e : Event)
      → IsAdmissible pending e
      → overtakes k e pending ≡ false
      → Keeps k (handled e pending) (arm e c)
  unfolding arm
  arm-Keeps (id_scrub none) adm early = h
  arm-Keeps (id_scrub (some id)) adm early = scrub-IsConsistent id early
  arm-Keeps (op_tuple none sent_) adm early = h
  arm-Keeps (op_tuple (some r) sent_) adm early = submit-Keeps r sent_ adm
  arm-Keeps (misc none got) adm early = h
  arm-Keeps (misc (some tx) true) adm early = h
  arm-Keeps (misc (some tx) false) adm early = h
  arm-Keeps (response ended open_) adm early = h
  arm-Keeps (response broken open_) adm early = tt
  arm-Keeps (response (message msg) open_) adm early = received-Keeps msg.msgid msg open_
