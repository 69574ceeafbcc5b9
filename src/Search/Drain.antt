-- ===== src/Search/Drain.antt =====
-- Reading a search stream to its end (src/search.rs, `search` of src/ldap.rs).
use ldap.Common.{
  ℕ, ◌≡◌, refl, Bool, true, false, Option, none, some, List, [], ◌∷◌, ◌++◌, ok, err, panic, map,
}
use ldap.Controls.Types.{Control}
use ldap.Conn.Turn.{entry, referral, done}
use ldap.Result.Types.{LdapResult, Run}
use ldap.Search.Stream

-- The loop `while let Some(entry) = stream.next().await?`, over what is received. `ok none` is a
-- loop that still waits.
abbrev pub Drained : Type 0
Drained = Stream.SearchStream × Run (Option (List Stream.ResultEntry))

abbrev after_entry : Stream.ResultEntry → Drained → Drained
after_entry e (s, ok none) = (s, ok none)
after_entry e (s, ok (some es)) = (s, ok (some (e ∷ es)))
after_entry e (s, err b) = (s, err b)
after_entry e (s, panic) = (s, panic)

abbrev after_next :
    Stream.Turned (Option Stream.ResultEntry) → Run (Option Stream.ResultEntry) → Drained → Drained
after_next t (ok none) rest = (t.stream, ok (some []))
after_next t (ok (some e)) rest = after_entry e rest
after_next t (err b) rest = (t.stream, err b)
after_next t panic rest = (t.stream, panic)

unfoldable pub drain : List Stream.Received → Stream.SearchStream → Drained
drain [] s = (s, ok none)
drain (r ∷ rs) s =
    let t = Stream.next r s in let rest = drain rs t.stream in after_next t t.outcome rest

-- The items that the connection sends for entries, and for the others.
abbrev pub sent_entry : Stream.ResultEntry × Bool → Stream.Received
sent_entry (e, true) = Stream.item (referral e.tag) e.controls
sent_entry (e, false) = Stream.item (entry e.tag) e.controls

abbrev pub streaming_search : ℕ → Stream.SearchStream
streaming_search id = record { state = Stream.active; receiving = true; last_id = id; res = none }

abbrev pub read_to_end : ℕ → LdapResult → List Control → Stream.SearchStream
read_to_end id r ctrls = record {
  state = Stream.active;
  receiving = false;
  last_id = id;
  res = some (record r { ctrls = ctrls });
}

-- When any list of entries and referrals is sent to an active stream without adapters, and then
-- the result, reading the stream until it ends gives the entries and referrals in order with
-- their controls, without an error or a panic and whatever is sent later; `finish` then asks
-- once for the id to be scrubbed and returns the result with the controls of its message.
pub drain-finish :
    (id : ℕ) (es : List (Stream.ResultEntry × Bool)) (r : LdapResult) (ctrls : List Control)
    (later : List Stream.Received)
    → (drain (map sent_entry es ++ (Stream.item (done r) ctrls ∷ later)) (streaming_search id)
        ≡ (read_to_end id r ctrls, ok (some (map (λ e. e.0) es))))
      × ((Stream.finish (read_to_end id r ctrls)).1 ≡ id ∷ [])
      × ((Stream.finish (read_to_end id r ctrls)).2 ≡ record r { ctrls = ctrls })
unfolding drain Stream.next Stream.finish
drain-finish id [] r ctrls later = (refl, refl, refl)
drain-finish id ((e, true) ∷ es) r ctrls later =
    let (all, scrub, result) = drain-finish id es r ctrls later in (rw all refl, scrub, result)
drain-finish id ((e, false) ∷ es) r ctrls later =
    let (all, scrub, result) = drain-finish id es r ctrls later in (rw all refl, scrub, result)

-- In an active stream without adapters, the `next` that takes the result leaves the stream
-- active without its receiver, and a further `next` panics, whatever would be received.
pub next-panics :
    (id : ℕ) (r : LdapResult) (ctrls : List Control) (later : Stream.Received)
    → ((Stream.next (Stream.item (done r) ctrls) (streaming_search id)).stream
        ≡ read_to_end id r ctrls)
      × ((Stream.next later (read_to_end id r ctrls)).outcome ≡ panic)
unfolding Stream.next
next-panics id r ctrls later = (refl, refl)
