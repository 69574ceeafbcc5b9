-- ===== src/Sync/Reading.antt =====
-- Searching over a synchronous connection (src/sync.rs).
use ldap.Common.{
  ℕ, zero, suc, ◌≡◌, refl, ap, ◌∙◌, true, Option, none, some, List, [], ◌∷◌, ok, err, panic, length,
  ◌++◌, ◌<◌, Bytes, Bool, subst,
}
use ldap.Ber.Asn.{Tag}
use ldap.Controls.Types.{Control}
use ldap.Nom.{NomComplete, NomStreaming}
use ldap.Result.Types.{LdapResult, Run}
use ldap.Search.Adapters.{Adapter, entries_only, new_stream}
use ldap.Search.Chain
use ldap.Search.Entries.{Holds, script_of}
use ldap.Search.Request.{Params, search_request}
use ldap.Search.Results.{search-Holds}
use ldap.Search.State.{Search, Call, Opened, opened, options_of}
use ldap.Search.Stream.{ResultEntry}
use ldap.Sync
use ldap.Sync.{LdapConn, EntryStream, handle_of}

-- What a search comes to: the entries and the result.
abbrev pub Searched : Type 0
Searched = Search × Call (List ResultEntry × LdapResult)

abbrev pub ended : Search × LdapResult → Searched
ended (s, res) = (s, some (ok ([], res)))

abbrev pub with_entry : ResultEntry → Searched → Searched
with_entry e (s, some (ok (es, res))) = (s, some (ok (e ∷ es, res)))
with_entry e (s, some (err b)) = (s, some (err b))
with_entry e (s, some panic) = (s, some panic)
with_entry e (s, none) = (s, none)

abbrev pub read_case : EntryStream × Call (Option ResultEntry) → (EntryStream → Searched) → Searched
read_case (es, some (ok none)) again = ended (Sync.result es)
read_case (es, some (ok (some e))) again = with_entry e (again es)
read_case (es, some (err b)) again = (es.stream, some (err b))
read_case (es, some panic) again = (es.stream, some panic)
read_case (es, none) again = (es.stream, none)

module _ (filters : NomComplete) (nom : NomStreaming) where
  -- A loop that takes entries with `next` until there is none, and then calls `result`.
  unfoldable pub read_all : ℕ → ℕ → EntryStream → Searched
  read_all f zero es = (es.stream, none)
  read_all f (suc g) es = read_case (Sync.next filters nom f es) (λ es. read_all f g es)

  collected_entry :
      (e : ResultEntry) (r : List Adapter × Search × Call (List ResultEntry))
      → Chain.finish_case (Chain.collected e r) ≡ with_entry e (Chain.finish_case r)
  collected_entry e (chain, s, some (ok es)) = refl
  collected_entry e (chain, s, some (err b)) = refl
  collected_entry e (chain, s, some panic) = refl
  collected_entry e (chain, s, none) = refl

  case_read :
      (r : List Adapter × Search × Call (Option ResultEntry))
      (collect : List Adapter → Search → List Adapter × Search × Call (List ResultEntry))
      (read : EntryStream → Searched)
      → ((chain : List Adapter) (s : Search)
          → Chain.finish_case (collect chain s) ≡ read (record { chain = chain; stream = s }))
      → Chain.finish_case (Chain.collect_case r collect) ≡ read_case (Sync.next_stream r) read
  case_read (chain, s, some (ok none)) collect read same = refl
  case_read (chain, s, some (ok (some e))) collect read same =
      collected_entry e (collect chain s) ∙ ap (with_entry e) (same chain s)
  case_read (chain, s, some (err b)) collect read same = refl
  case_read (chain, s, some panic) collect read same = refl
  case_read (chain, s, none) collect read same = refl

  collect-read_all :
      (f g : ℕ) (chain : List Adapter) (s : Search)
      → Chain.finish_case (Chain.collect filters nom f g chain s)
        ≡ read_all f g (record { chain = chain; stream = s })
  unfolding read_all Chain.collect
  collect-read_all f zero chain s = refl
  collect-read_all f (suc g) chain s =
      case_read (Chain.next filters nom f (length chain) true chain s)
        (Chain.collect filters nom f g) (λ es. read_all f g es)
        (λ chain s. collect-read_all f g chain s)

  -- What a program makes of a stream that was opened.
  abbrev pub then_read : ℕ → ℕ → Search × Option (Run EntryStream) → Searched
  then_read f g (s, some (ok es)) = read_all f g es
  then_read f g (s, some (err b)) = (s, some (err b))
  then_read f g (s, some panic) = (s, some panic)
  then_read f g (s, none) = (s, none)

  started_read :
      (f g : ℕ) (r : List Adapter × Search × Call (Unit {0}))
      → Chain.collect_started filters nom f g r ≡ then_read f g (Sync.opened_stream r)
  started_read f g (chain, s, some (ok u)) = collect-read_all f g chain s
  started_read f g (chain, s, some (err b)) = refl
  started_read f g (chain, s, some panic) = refl
  started_read f g (chain, s, none) = refl

  -- The blocking search is such a loop over the adapter EntriesOnly.
  search-read_all :
      (f g : ℕ) (p : Params) (conn : LdapConn) (s : Search)
      → (Sync.search filters nom f g p conn s
          ≡ then_read f g (Sync.streaming_search_with filters nom (entries_only [] ∷ []) p conn s))
  unfolding Chain.search Chain.search_with
  search-read_all f g p conn s =
      started_read f g
        (Chain.start filters (entries_only [] ∷ []) p (new_stream (handle_of conn) s))

  module _ (p : Params) (conn : LdapConn) (req : Tag)
      (built : search_request filters p (options_of (handle_of conn).search_opts) ≡ ok req) (id : ℕ)
      (later : List Opened) (s : Search) (res : LdapResult) (ctrls : List Control) where
    -- On a synchronous connection, when the filter and the options of the handle give a
    -- request, and the server answers with any messages (entries, intermediate messages and
    -- referrals whose URIs can be read) and then a result, a program that opens a stream
    -- with the adapter EntriesOnly by `streaming_search_with`, takes entries with `next`
    -- until there is none and calls `result` gets the entries in order without the others,
    -- and the result with the controls of its message and with the URIs of all referrals, in
    -- order, behind its own; one request was sent, with the controls of the handle, and the
    -- id of the search is never asked to be scrubbed. It holds with any fuel above the
    -- number of messages and of entries.
    pub read_all-Holds :
        {ms : List (ResultEntry × Bool)} {es : List ResultEntry} {uris : List Bytes} (f g : ℕ)
        → Holds ms es uris
        → length ms < f
        → length es < g
        → let before : Search = record s { coming = opened id (script_of ms res ctrls) ∷ later } in
          let r =
            then_read f g
              (Sync.streaming_search_with filters nom (entries_only [] ∷ []) p conn before) in
          (r.1 ≡ some (ok (es, record res { ctrls = ctrls; refs = res.refs ++ uris })))
          × (r.0.requests ≡ s.requests ++ ((req, conn.ldap.controls) ∷ []))
          × (r.0.scrubbed ≡ s.scrubbed)
    read_all-Holds {ms} {es} {uris} f g h lt lt' =
        subst
          (λ r.
            (r.1 ≡ some (ok (es, record res { ctrls = ctrls; refs = res.refs ++ uris })))
            × (r.0.requests ≡ s.requests ++ ((req, conn.ldap.controls) ∷ []))
            × (r.0.scrubbed ≡ s.scrubbed))
          (search-read_all f g p conn
            (record s { coming = opened id (script_of ms res ctrls) ∷ later }))
          (search-Holds filters nom p (handle_of conn) req built id later s res ctrls f g h lt lt')
