-- ===== src/Conn/Overtaken.antt =====
-- A scrub request that is handled before the request it is for (src/conn.rs, src/ldap.rs).
use ldap.Common.{
  ℕ, zero, suc, ◌≤◌, ◌≡◌, refl, subst, ap, Bool, true, false, ◌||◌, none, some, [], ◌∷◌, ok, panic,
  ◌==◌, ==_refl, arith,
}
use ldap.Common.Int.{pos}
use ldap.Ber.Asn.{default_null}
use ldap.Ber.Structure.{StructureTag, id_of}
use ldap.Conn.MsgId.{max_id, following, free_id, next_msgid}
use ldap.Conn.Maps.{get, remove, insert, discard}
use ldap.Conn.Turn.{
  Request, LdapOp, single, search, abandon, id_scrub, op_tuple, transmit, reply, to_mode, response,
  message, arm, scrub, submit, sent, received, search_response, item_of,
}
use ldap.Conn.World.{World, Reachable, start, allocate, handle}
use ldap.Protocol.Codec.{Message}

-- The responses of a search: an entry, its end, a referral, an intermediate message.
abbrev pub answers_search : ℕ → Bool
answers_search number = ((number == 4) || (number == 25)) || ((number == 5) || (number == 19))

-- With no id in use, the id after the last one is given out.
next_free :
    (last : ℕ)
    → next_msgid (record { last = last; used = [] })
      ≡ some (ok (following last, record { last = following last; used = following last ∷ [] }))
unfolding next_msgid free_id
next_free last = refl

abbrev request_with : ℕ → LdapOp → ℕ → Request
request_with id op tx = record { id = id; op = op; tag = default_null; controls = none; tx = tx }

module _ (items : ℕ) where
  -- The id 1 is not in use, and a search waits for items under it.
  abbrev stale : ℕ → World
  stale last = record {
    conn = record {
      msgmap = record { last = last; used = [] };
      resultmap = [];
      searchmap = (1, items) ∷ [];
    };
    pending = [];
    overtaken = 1 ∷ [];
  }

  stale-first : Reachable (stale 1)
  unfolding arm scrub submit sent discard remove insert
  stale-first =
      handle (op_tuple (some (request_with 1 (search items) 0)) true)
        (handle (id_scrub (some 1)) (allocate start (next_free 0)) tt refl) refl refl

  following_below : (last : ℕ) → suc last ≤ max_id → following last ≡ suc last
  following_below last h = ground arith

  discard-alone : (id : ℕ) → discard id (id ∷ []) ≡ []
  unfolding discard
  discard-alone id = rw (==_refl id) refl

  -- An operation that frees its own id: the last id moves on.
  stale-following : (last : ℕ) → Reachable (stale last) → Reachable (stale (following last))
  unfolding arm submit sent remove
  stale-following last r =
      subst
        (λ pending.
          Reachable (record {
            conn = (stale (following last)).conn;
            pending = pending;
            overtaken = 1 ∷ [];
          }))
        (discard-alone (following last))
        (handle (op_tuple (some (request_with (following last) (abandon 0) 0)) true)
          {a = record {
            conn = (stale (following last)).conn;
            actions = transmit (following last) default_null none ∷ reply 0 default_null [] ∷ [];
            flow = to_mode;
          }}
          (allocate r (next_free last)) (rw (==_refl (following last)) refl)
          (ap
            (λ used. ok (record {
              conn = record (stale (following last)).conn {
                msgmap = record { last = following last; used = used };
              };
              actions = transmit (following last) default_null none ∷ reply 0 default_null [] ∷ [];
              flow = to_mode;
            }))
            (discard-alone (following last))))

  stale-Reachable : (n : ℕ) → suc n ≤ max_id → Reachable (stale (suc n))
  stale-Reachable zero h = stale-first
  stale-Reachable (suc n) h =
      subst (λ id. Reachable (stale id)) (following_below (suc n) h)
        (stale-following (suc n) (stale-Reachable n (omega arith)))

  -- The id 1 was given out again, to an operation that has one response.
  abbrev reused : ℕ → World
  reused tx = record {
    conn = record {
      msgmap = record { last = 1; used = 1 ∷ [] };
      resultmap = (1, tx) ∷ [];
      searchmap = (1, items) ∷ [];
    };
    pending = [];
    overtaken = 1 ∷ [];
  }

  reused-Reachable : (tx : ℕ) → Reachable (reused tx)
  unfolding arm submit sent discard remove insert
  reused-Reachable tx =
      handle (op_tuple (some (request_with 1 single tx)) true)
        (allocate (stale-Reachable 2147483646 (omega arith)) (next_free max_id)) refl refl

  item_of-panic :
      (protoop : StructureTag) → answers_search (id_of protoop) ≡ false → item_of protoop ≡ panic
  unfolding item_of
  item_of-panic protoop h = ground arith

  -- A scrub that is handled before its request can bring the connection down: for any
  -- channels, there is a state that a connection and its handles reach in which the id 1 waits
  -- for its result on the one and a search is left under it on the other, and in which a
  -- response with the id 1 whose operation is none of an entry, a referral, an intermediate
  -- message and the end of a search makes the handler panic.
  pub response-panics :
      (tx : ℕ) (msg : Message) (open_ : Bool)
      → msg.msgid ≡ pos 1
      → answers_search (id_of msg.protoop) ≡ false
      → (w : World) × Reachable w
        × (get 1 w.conn.resultmap ≡ some tx)
        × (get 1 w.conn.searchmap ≡ some items)
        × (arm (response (message msg) open_) w.conn ≡ panic)
  unfolding arm received search_response get
  response-panics tx msg open_ id other =
      (reused tx, reused-Reachable tx, refl, refl, rw (id, item_of-panic msg.protoop other) refl)
