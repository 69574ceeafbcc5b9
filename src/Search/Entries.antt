-- ===== src/Search/Entries.antt =====
-- `EntriesOnly` and `Ldap::search` (src/adapters.rs, src/ldap.rs).
use ldap.Common.{
  ℕ, zero, suc, ◌<◌, ◌≡◌, refl, ◌∙◌, ap, Bool, true, false, Option, none, some, List, [], ◌∷◌, ◌++◌,
  Bytes, ok, map, length, arith, append_assoc, append-nil,
}
use ldap.Nom.{NomComplete, NomStreaming}
use ldap.Controls.Types.{Control}
use ldap.Conn.Turn.{done}
use ldap.Result.Types.{LdapResult}
use ldap.Result.Convert.{parse_refs}
use ldap.Search.Adapters.{Called, entries_only, entries_next, adapter_next, is_intermediate, is_ref}
use ldap.Search.Chain.{next, collect, collect_case, mark_next}
use ldap.Search.Drain.{sent_entry}
use ldap.Search.State.{Search, next_direct}
use ldap.Search.Stream
use ldap.Search.Stream.{ResultEntry, Received, StreamState}

-- What a list of messages of a search holds: its entries, in order, and the URIs of its referrals.
pub data Holds : List (ResultEntry × Bool) → List ResultEntry → List Bytes → Type 0 where
  nothing : Holds [] [] []
  an_entry :
      {ms : List (ResultEntry × Bool)} {es : List ResultEntry} {uris : List Bytes} (e : ResultEntry)
      (b : Bool)
      → is_intermediate e ≡ false
      → is_ref e ≡ false
      → Holds ms es uris
      → Holds ((e, b) ∷ ms) (e ∷ es) uris
  an_intermediate :
      {ms : List (ResultEntry × Bool)} {es : List ResultEntry} {uris : List Bytes} (e : ResultEntry)
      (b : Bool)
      → is_intermediate e ≡ true
      → Holds ms es uris
      → Holds ((e, b) ∷ ms) es uris
  a_referral :
      {ms : List (ResultEntry × Bool)} {es : List ResultEntry} {uris : List Bytes}
      (more : List Bytes) (e : ResultEntry) (b : Bool)
      → is_intermediate e ≡ false
      → is_ref e ≡ true
      → parse_refs e.tag ≡ ok more
      → Holds ms es uris
      → Holds ((e, b) ∷ ms) es (more ++ uris)

-- The script of a search that ends with a result.
abbrev pub script_of : List (ResultEntry × Bool) → LdapResult → List Control → List Received
script_of ms res ctrls = map sent_entry ms ++ (Stream.item (done res) ctrls ∷ [])

-- A search that was started and waits for these messages.
abbrev pub awaiting : Search → List Received → Search
awaiting s script = record s {
  stream = record s.stream { state = StreamState.active; receiving = true };
  script = script;
}

-- The search after all of them.
abbrev pub at_result : Search → LdapResult → List Control → Search
at_result s res ctrls = record s {
  stream = record s.stream {
    state = StreamState.ended;
    receiving = false;
    res = some (record res { ctrls = ctrls });
  };
  script = [];
}

module _ (filters : NomComplete) (nom : NomStreaming) (s : Search) (res : LdapResult)
    (ctrls : List Control) where
  pub direct_entry :
      (e : ResultEntry) (b : Bool) (rest : List Received)
      → next_direct (awaiting s (sent_entry (e, b) ∷ rest)) ≡ (awaiting s rest, some (ok (some e)))
  unfolding next_direct Stream.next_inner
  direct_entry e true rest = rw (append-nil s.scrubbed) refl
  direct_entry e false rest = rw (append-nil s.scrubbed) refl

  -- The search when the result was read and no adapter has seen it.
  abbrev pub result_read : Search
  result_read = record s {
    stream = record s.stream {
      state = StreamState.active;
      receiving = false;
      res = some (record res { ctrls = ctrls });
    };
    script = [];
  }

  pub direct_result :
      next_direct (awaiting s (script_of [] res ctrls)) ≡ (result_read, some (ok none))
  unfolding next_direct Stream.next_inner
  direct_result = rw (append-nil s.scrubbed) refl

  -- The loop of `EntriesOnly` over the messages.
  abbrev skip : ℕ → ℕ → List Bytes → List (ResultEntry × Bool) → Called (Option ResultEntry)
  skip f n refs ms =
      entries_next f (λ chain s. next filters nom n zero false chain s) refs []
        (awaiting s (script_of ms res ctrls))

  -- It does not depend on the fuel, if there is enough.
  skip_fuel :
      {ms : List (ResultEntry × Bool)} {es : List ResultEntry} {uris : List Bytes} (f f' n : ℕ)
      (refs : List Bytes)
      → Holds ms es uris
      → length ms < f
      → length ms < f'
      → skip f n refs ms ≡ skip f' n refs ms
  unfolding entries_next next
  skip_fuel zero f' n refs h lt lt' = absurd (omega arith)
  skip_fuel (suc f) zero n refs h lt lt' = absurd (omega arith)
  skip_fuel (suc f) (suc f') n refs nothing lt lt' = rw direct_result refl
  skip_fuel (suc f) (suc f') n refs (an_entry {ms} e b no_msg no_ref h) lt lt' =
      rw (direct_entry e b (script_of ms res ctrls), no_msg, no_ref) refl
  skip_fuel (suc f) (suc f') n refs (an_intermediate {ms} e b msg h) lt lt' =
      rw (direct_entry e b (script_of ms res ctrls), msg)
        (skip_fuel f f' n refs h (omega arith) (omega arith))
  skip_fuel (suc f) (suc f') n refs (a_referral {ms} more e b no_msg ref read h) lt lt' =
      rw (direct_entry e b (script_of ms res ctrls), no_msg, ref, read)
        (skip_fuel f f' n (refs ++ more) h (omega arith) (omega arith))

  abbrev gather : ℕ → ℕ → List Bytes → List (ResultEntry × Bool) → Called (List ResultEntry)
  gather f g refs ms =
      collect filters nom f g (entries_only refs ∷ []) (awaiting s (script_of ms res ctrls))

  -- Reading to the end gives the entries, and the adapter keeps the URIs.
  pub gather-Holds :
      {ms : List (ResultEntry × Bool)} {es : List ResultEntry} {uris : List Bytes} (f g : ℕ)
      (refs : List Bytes)
      → Holds ms es uris
      → length ms < f
      → length es < g
      → gather f g refs ms ≡ (entries_only (refs ++ uris) ∷ [], at_result s res ctrls, some (ok es))
  unfolding collect next adapter_next entries_next
  gather-Holds zero g refs h lt lt' = absurd (omega arith)
  gather-Holds (suc f) zero refs h lt lt' = absurd (omega arith)
  gather-Holds (suc f) (suc g) refs nothing lt lt' = rw (direct_result, append-nil refs) refl
  gather-Holds (suc f) (suc g) refs (an_entry {ms} e b no_msg no_ref h) lt lt' =
      rw (direct_entry e b (script_of ms res ctrls), no_msg, no_ref)
        (rw (gather-Holds (suc f) g refs h (omega arith) (omega arith)) refl)
  gather-Holds (suc f) (suc g) refs (an_intermediate {ms} e b msg h) lt lt' =
      rw (direct_entry e b (script_of ms res ctrls), msg)
        (ap
            (λ t.
              collect_case (mark_next true t) (λ chain t. collect filters nom (suc f) g chain t))
            (skip_fuel f (suc f) (suc f) refs h (omega arith) (omega arith))
          ∙ gather-Holds (suc f) (suc g) refs h (omega arith) lt')
  gather-Holds (suc f) (suc g) refs (a_referral {ms} {es} {uris} more e b no_msg ref read h) lt
        lt' =
      rw (direct_entry e b (script_of ms res ctrls), no_msg, ref, read)
        (ap
            (λ t.
              collect_case (mark_next true t) (λ chain t. collect filters nom (suc f) g chain t))
            (skip_fuel f (suc f) (suc f) (refs ++ more) h (omega arith) (omega arith))
          ∙ gather-Holds (suc f) (suc g) (refs ++ more) h (omega arith) lt'
          ∙ rw append_assoc refl)
