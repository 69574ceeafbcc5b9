-- ===== src/Search/Results.antt =====
-- `Ldap::search` as a whole (src/ldap.rs, src/search.rs, src/adapters.rs).
use ldap.Common.{
  ℕ, ◌<◌, ◌≡◌, refl, ◌∙◌, ap, Bool, true, false, none, some, List, [], ◌∷◌, ◌++◌, Bytes, ok, length,
  append-nil,
}
use ldap.Nom.{NomComplete, NomStreaming}
use ldap.Ber.Asn.{Tag}
use ldap.Controls.Types.{Control}
use ldap.Result.Types.{LdapResult}
use ldap.Search.Adapters.{entries_only, new_stream}
use ldap.Search.Chain.{start, collect_started, finish, finish_case, search, search_with}
use ldap.Search.Entries.{Holds, script_of, awaiting, at_result, gather-Holds}
use ldap.Search.Request.{Params, search_request}
use ldap.Search.State.{
  Search, Handle, Opened, opened, options_of, start_inner, op_call, finish_direct,
}
use ldap.Search.Stream.{ResultEntry, StreamState}

module _ (filters : NomComplete) (nom : NomStreaming) (p : Params) (ldap : Handle) (req : Tag)
    (built : search_request filters p (options_of ldap.search_opts) ≡ ok req) (id : ℕ)
    (later : List Opened) (s : Search) (res : LdapResult) (ctrls : List Control) where
  -- The search when it was sent.
  abbrev sent : Search
  sent = record s {
    stream = record { state = StreamState.active; receiving = true; last_id = id; res = none };
    ldap = record { controls = none; search_opts = none; timeout = none };
    coming = later;
    requests = s.requests ++ ((req, ldap.controls) ∷ []);
  }

  abbrev before : List (ResultEntry × Bool) → Search
  before ms = record s { coming = opened id (script_of ms res ctrls) ∷ later }

  start-entries_only :
      (ms : List (ResultEntry × Bool))
      → start filters (entries_only [] ∷ []) p (new_stream ldap (before ms))
        ≡ (entries_only [] ∷ [], awaiting sent (script_of ms res ctrls), some (ok tt))
  unfolding start start_inner op_call
  start-entries_only ms = rw built refl

  abbrev with_uris : List Bytes → LdapResult
  with_uris uris = record res { ctrls = ctrls; refs = res.refs ++ uris }

  finish-entries_only :
      (uris : List Bytes)
      → finish (entries_only uris ∷ []) (at_result sent res ctrls) ≡ (
        entries_only [] ∷ [],
        record (at_result sent res ctrls) {
          stream = record {
            state = StreamState.closed;
            receiving = false;
            last_id = id;
            res = none;
          };
        },
        with_uris uris,
      )
  unfolding finish finish_direct
  finish-entries_only uris = rw (append-nil s.scrubbed) refl

  -- When the filter and the options of the handle give a request, and the server answers a
  -- search with any messages (entries, intermediate messages and referrals whose URIs can be
  -- read) and then a result, `search` returns: it gives the entries in order without the
  -- others, and the result with the controls of its message and with the URIs of all
  -- referrals, in order, behind its own; one request was sent, with the controls of the
  -- handle, and the id of the search is never asked to be scrubbed. It holds with any fuel
  -- above the number of messages and of entries.
  pub search-Holds :
      {ms : List (ResultEntry × Bool)} {es : List ResultEntry} {uris : List Bytes} (f g : ℕ)
      → Holds ms es uris
      → length ms < f
      → length es < g
      → let r = search filters nom f g p ldap (before ms) in
        (r.1 ≡ some (ok (es, with_uris uris)))
        × (r.0.requests ≡ s.requests ++ ((req, ldap.controls) ∷ []))
        × (r.0.scrubbed ≡ s.scrubbed)
  unfolding search search_with
  search-Holds {ms} {es} {uris} f g h lt lt' =
      rw
        (ap (collect_started filters nom f g) (start-entries_only ms)
          ∙ ap finish_case (gather-Holds filters nom sent res ctrls f g [] h lt lt')
          ∙ ap (λ u. (u.1, some (ok (es, u.2)))) (finish-entries_only uris))
        (refl, refl, refl)
