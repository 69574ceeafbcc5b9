-- ===== src/Conn/World.antt =====
-- A connection and the handles that share its `msgmap` (src/conn.rs, src/ldap.rs).
use ldap.Common.{ℕ, ◌≡◌, Bool, true, ◌&&◌, ◌||◌, not, none, some, List, [], ◌∷◌, ok, if◌then◌else◌}
use ldap.Conn.MsgId.{MsgMap, contains, next_msgid}
use ldap.Conn.Maps.{has, discard}
use ldap.Conn.Turn.{Conn, Event, id_scrub, op_tuple, misc, response, After, arm}

-- `pending` are the ids that a handle took and whose request the connection has not handled. The
-- requests and the scrub requests come over two channels, so that the scrub request of a call that
-- timed out may be handled before its request: `overtaken` are the ids to which that happened.
pub record World : Type 0 where
  pub conn : Conn
  pub pending : List ℕ
  pub overtaken : List ℕ

abbrev pub initial : World
initial = record {
  conn = record { msgmap = record { last = 0; used = [] }; resultmap = []; searchmap = [] };
  pending = [];
  overtaken = [];
}

-- A request carries an id that its handle took for it. Any id may be scrubbed at any time.
abbrev pub IsAdmissible : List ℕ → Event → Type 0
IsAdmissible pending (id_scrub id) = Unit {0}
IsAdmissible pending (op_tuple none sent_) = Unit {0}
IsAdmissible pending (op_tuple (some r) sent_) = contains r.id pending ≡ true
IsAdmissible pending (misc m got) = Unit {0}
IsAdmissible pending (response r open_) = Unit {0}

-- The ids that were overtaken when an event was handled.
abbrev pub overtaken_by : Event → List ℕ → List ℕ → List ℕ
overtaken_by (id_scrub none) pending overtaken = overtaken
overtaken_by (id_scrub (some id)) pending overtaken =
    if contains id pending then id ∷ overtaken else overtaken
overtaken_by (op_tuple r sent_) pending overtaken = overtaken
overtaken_by (misc m got) pending overtaken = overtaken
overtaken_by (response r open_) pending overtaken = overtaken

abbrev pub handled : Event → List ℕ → List ℕ
handled (id_scrub id) pending = pending
handled (op_tuple none sent_) pending = pending
handled (op_tuple (some r) sent_) pending = discard r.id pending
handled (misc m got) pending = pending
handled (response r open_) pending = pending

-- A handle takes an id, or the connection handles an event.
pub data Reachable : World → Type 0 where
  start : Reachable initial
  allocate :
      {w : World} {id : ℕ} {m : MsgMap}
      → Reachable w
      → next_msgid w.conn.msgmap ≡ some (ok (id, m))
      → Reachable (record {
        conn = record w.conn { msgmap = m };
        pending = id ∷ w.pending;
        overtaken = w.overtaken;
      })
  handle :
      {w : World} (e : Event) {a : After}
      → Reachable w
      → IsAdmissible w.pending e
      → arm e w.conn ≡ ok a
      → Reachable (record {
        conn = a.conn;
        pending = handled e w.pending;
        overtaken = overtaken_by e w.pending w.overtaken;
      })

-- What may hold of one id, by whether it is pending, is in use, waits for a result, or waits for
-- items: whatever is pending or waits is in use, and an id is in one of the three places at most.
abbrev pub consistent : Bool → Bool → Bool → Bool → Bool
consistent p u r s =
    (u || (not p && (not r && not s))) && (not (p && r) && (not (p && s) && not (r && s)))

abbrev pub consistent_at : ℕ → Conn → List ℕ → Bool
consistent_at k c pending =
    consistent (contains k pending) (contains k c.msgmap.used) (has k c.resultmap)
      (has k c.searchmap)
