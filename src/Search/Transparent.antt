-- ===== src/Search/Transparent.antt =====
-- A paged search against the same search without adapters (src/adapters.rs, src/search.rs).
use ldap.Common.{
  ℕ, zero, suc, ◌<◌, ◌≡◌, refl, sym, ◌∙◌, ap, subst, Bool, true, false, Option, none, some, List,
  [], ◌∷◌, ◌++◌, ok, map, map-append, length, arith,
}
use ldap.Common.Int.{ℤ}
use ldap.Nom.{NomComplete, NomStreaming}
use ldap.Ber.Asn.{Tag}
use ldap.Controls.Types.{Control, RawControl}
use ldap.Result.Types.{LdapResult}
use ldap.Search.Adapters.{paged, new_stream}
use ldap.Search.Chain.{
  any_paged, controls_of, start, collect, collected, next, finish, finish_case, collect_started,
  search_with,
}
use ldap.Search.Entries.{script_of, awaiting, direct_entry, direct_result, result_read}
use ldap.Search.Pages.{Page, opening, ArePages, entries_of}
use ldap.Search.Paging.{last_page, last_result, search_with-pages}
use ldap.Search.Request.{Params, SearchOptions, search_request}
use ldap.Search.State.{
  Search, Handle, Opened, opened, options_of, start_inner, op_call, finish_direct,
}
use ldap.Search.Stream.{ResultEntry, StreamState}

-- The messages of all pages.
abbrev pub messages_of : List (ResultEntry × Bool) → List Page → List (ResultEntry × Bool)
messages_of ms [] = ms
messages_of ms (g ∷ more) = ms ++ messages_of g.messages more

-- One response that holds them, with the result of the last page.
abbrev pub in_one : ℕ → Page → List Page → Opened
in_one id g more =
    let l = last_page g more in
    opened id (script_of (messages_of g.messages more) l.res (l.before ++ l.after))

map-messages_of :
    (ms : List (ResultEntry × Bool)) (more : List Page)
    → map (λ m. m.0) (messages_of ms more) ≡ entries_of ms more
map-messages_of ms [] = refl
map-messages_of ms (g ∷ more) =
    map-append (λ m. m.0) ms (messages_of g.messages more)
    ∙ ap (λ es. map (λ m. m.0) ms ++ es) (map-messages_of g.messages more)

module _ (filters : NomComplete) (nom : NomStreaming) (res : LdapResult)
    (ctrls : List Control) where
  -- Reading a stream without adapters.
  collect-direct :
      (f c : ℕ) (s : Search) (ms : List (ResultEntry × Bool))
      → length (map (λ m. m.0) ms) < c
      → collect filters nom f c [] (awaiting s (script_of ms res ctrls))
        ≡ ([], result_read filters nom s res ctrls, some (ok (map (λ m. m.0) ms)))
  unfolding collect next
  collect-direct f zero s ms lt = absurd (omega arith)
  collect-direct f (suc c) s [] lt = rw (direct_result filters nom s res ctrls) refl
  collect-direct f (suc c) s ((e, b) ∷ ms) lt =
      rw (direct_entry filters nom s res ctrls e b (script_of ms res ctrls))
        (ap (collected e) (collect-direct f c s ms (omega arith)))

  module _ (p : Params) (ldap : Handle) (req : Tag)
      (built : search_request filters p (options_of ldap.search_opts) ≡ ok req) (id : ℕ)
      (later : List Opened) (s : Search) where
    abbrev sent : Search
    sent = record s {
      stream = record { state = StreamState.active; receiving = true; last_id = id; res = none };
      ldap = record { controls = none; search_opts = none; timeout = none };
      coming = later;
      requests = s.requests ++ ((req, ldap.controls) ∷ []);
    }

    start-direct :
        (ms : List (ResultEntry × Bool))
        → start filters [] p
            (new_stream ldap (record s { coming = opened id (script_of ms res ctrls) ∷ later }))
          ≡ ([], awaiting sent (script_of ms res ctrls), some (ok tt))
    unfolding start start_inner op_call
    start-direct ms = rw built refl

    search_with-direct :
        (f c : ℕ) (ms : List (ResultEntry × Bool))
        → length (map (λ m. m.0) ms) < c
        → (search_with filters nom [] f c p ldap
            (record s { coming = opened id (script_of ms res ctrls) ∷ later })).1
          ≡ some (ok (map (λ m. m.0) ms, record res { ctrls = ctrls }))
    unfolding search_with finish finish_direct
    search_with-direct f c ms lt =
        ap (λ r. r.1)
          (ap (collect_started filters nom f c) (start-direct ms)
            ∙ ap finish_case (collect-direct f c sent ms lt))

-- When the filter and the options of the handle give a request and no control of the handle is a
-- paged results control, a search with `PagedResults` over any number of pages, each with any
-- messages and a result whose first paged results control can be read and has a cookie in all
-- pages but the last, returns the same messages and the same result as the search without
-- adapters that gets the messages of all pages in one response, with the result of the last page
-- and its other controls. It holds with any fuel above the number of further pages and of
-- messages.
pub search_with-paged :
    (filters : NomComplete) (nom : NomStreaming) (size : ℤ) (controls : Option (List RawControl))
    (opts : Option SearchOptions) (timeout : Option ℕ) (p : Params) (req : Tag) (f c id : ℕ)
    (s : Search) (g : Page) (more : List Page) (later : List Opened)
    → search_request filters p (options_of opts) ≡ ok req
    → any_paged (controls_of controls) ≡ false
    → ArePages nom g more
    → length more < f
    → length (entries_of g.messages more) < c
    → let ldap : Handle = record { controls = controls; search_opts = opts; timeout = timeout } in
      (search_with filters nom
        (paged size none ∷ [])
        f
        c
        p
        ldap
        (record s { coming = opening g ∷ (map opening more ++ later) })).1
      ≡ (search_with filters nom [] f c p ldap (record s { coming = in_one id g more ∷ later })).1
search_with-paged filters nom size controls opts timeout p req f c id s g more later built none_yet
      pages lt lt' =
    let l = last_page g more in
    let entries = map-messages_of g.messages more in
    let direct =
      search_with-direct filters nom l.res (l.before ++ l.after) p
        (record { controls = controls; search_opts = opts; timeout = timeout }) req built id later s
        f c (messages_of g.messages more) (subst (λ es. length es < c) (sym entries) lt') in
    (search_with-pages filters nom size controls opts timeout p req built later f c s g more
      none_yet pages lt lt').0
    ∙ sym (direct ∙ ap (λ es. some (ok (es, last_result g more))) entries)
