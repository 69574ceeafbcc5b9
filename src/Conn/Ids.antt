-- ===== src/Conn/Ids.antt =====
-- Every state that a connection and its handles reach (src/conn.rs, src/ldap.rs).
use ldap.Common.{
  ℕ, zero, suc, ◌≡◌, refl, subst, Bool, true, false, Option, none, some, List, ◌∷◌, ok, err, panic,
  ◌==◌, if◌then◌else◌, arith,
}
use ldap.Conn.MsgId.{MsgMap, contains, following, free_id, next_msgid, given_out, max_id}
use ldap.Conn.Maps.{get, get-none}
use ldap.Conn.World.{consistent_at, World, Reachable, start, allocate, handle, handled, consistent}
use ldap.Conn.Invariant.{Keeps, arm-Keeps, bits_allocate, only_at, not_overtaken}
use ldap.Result.Types.{Run}

-- An id that comes out of the loop is not in use.
IsUnused : List ℕ → Option (Run ℕ) → Type 0
IsUnused used none = Unit {0}
IsUnused used (some (ok id)) = contains id used ≡ false
IsUnused used (some (err e)) = Unit {0}
IsUnused used (some panic) = Unit {0}

free_id-IsUnused : (f last : ℕ) (used : List ℕ) (id : ℕ) → IsUnused used (free_id f last used id)
unfolding free_id IsUnused
free_id-IsUnused zero last used id = tt
free_id-IsUnused (suc f) last used id =
    step (contains (following id) used) (following id == last) _ refl
      (free_id-IsUnused f last used (following id))
  where
    step :
        (c b : Bool) (rest : Option (Run ℕ))
        → contains (following id) used ≡ c
        → IsUnused used rest
        → IsUnused used (if c then (if b then some panic else rest) else some (ok (following id)))
    step true true rest e h = tt
    step true false rest e h = h
    step false b rest e h = e

-- What `next_msgid` does to the map, and that the id was not in use.
IsFresh : MsgMap → Option (Run (ℕ × MsgMap)) → Type 0
IsFresh m none = Unit {0}
IsFresh m (some (ok (id, m'))) = (contains id m.used ≡ false) × (m'.used ≡ id ∷ m.used)
IsFresh m (some (err e)) = Unit {0}
IsFresh m (some panic) = Unit {0}

next_msgid-IsFresh : (m : MsgMap) → IsFresh m (next_msgid m)
unfolding next_msgid IsFresh IsUnused
next_msgid-IsFresh m =
    given (free_id max_id m.last m.used m.last) (free_id-IsUnused max_id m.last m.used m.last)
  where
    given : (r : Option (Run ℕ)) → IsUnused m.used r → IsFresh m (given_out m r)
    given none h = tt
    given (some (ok id)) h = (h, refl)
    given (some (err e)) h = tt
    given (some panic) h = tt

fresh_parts :
    (m m' : MsgMap) (id : ℕ)
    → next_msgid m ≡ some (ok (id, m'))
    → (contains id m.used ≡ false) × (m'.used ≡ id ∷ m.used)
unfolding IsFresh
fresh_parts m m' id h = subst (IsFresh m) h (next_msgid-IsFresh m)

bits_unused :
    (p u r s : Bool)
    → consistent p u r s ≡ true
    → u ≡ false
    → (p ≡ false) × (r ≡ false) × (s ≡ false)
bits_unused p u r s h k = (ground arith, ground arith, ground arith)

-- In every state that a connection and its handles reach, by handles that take ids and by any
-- order of events in which every request carries a pending id, each id that is pending, waits
-- for a result or waits for items is in use, and is in one of these three places only, unless a
-- scrub of that id was handled before a request that was pending under it.
pub Reachable-IsConsistent :
    {w : World} (k : ℕ)
    → Reachable w
    → contains k w.overtaken ≡ false
    → consistent_at k w.conn w.pending ≡ true
Reachable-IsConsistent k start early = refl
Reachable-IsConsistent k (allocate {w} {id} {m} r given) early =
    let (unused, used) = fresh_parts w.conn.msgmap m id given in
    rw used (
      bits_allocate _ _ _ _ (k == id) false (Reachable-IsConsistent k r early)
        (only_at k id (λ x. contains x w.conn.msgmap.used) unused))
Reachable-IsConsistent k (handle {w} e {a} r adm done) early =
    let (before, not_now) = not_overtaken k e w.pending w.overtaken early in
    subst (Keeps k (handled e w.pending)) done
      (arm-Keeps k w.conn w.pending (Reachable-IsConsistent k r before) e adm not_now)

-- In every state that a connection and its handles reach, the id that `next_msgid` gives out is
-- the id of no pending request, of no operation that waits for a result and of no search that
-- waits for items, unless a scrub of that id was handled before a request that was pending under
-- it.
pub next_msgid-unused :
    {w : World} (id : ℕ) (m : MsgMap)
    → Reachable w
    → contains id w.overtaken ≡ false
    → next_msgid w.conn.msgmap ≡ some (ok (id, m))
    → (contains id w.pending ≡ false)
      × (get id w.conn.resultmap ≡ none)
      × (get id w.conn.searchmap ≡ none)
next_msgid-unused {w} id m r early given =
    let (unused, used) = fresh_parts w.conn.msgmap m id given in
    let c = Reachable-IsConsistent id r early in
    let (p, q, s) = bits_unused _ _ _ _ c unused in (p, get-none id _ q, get-none id _ s)
