-- ===== src/Search/Paging.antt =====
-- A paged search as a whole (src/adapters.rs, src/search.rs).
use ldap.Common.{
  ℕ, suc, ◌<◌, ◌≡◌, refl, ◌∙◌, ap, Bool, true, false, Option, none, some, List, [], ◌∷◌, ◌++◌,
  Bytes, ok, map, length, append-nil, append_assoc, is_empty,
}
use ldap.Common.Int.{ℤ}
use ldap.Nom.{NomComplete, NomStreaming}
use ldap.Ber.Asn.{Tag}
use ldap.Controls.Types.{RawControl}
use ldap.Controls.Paged.{raw_control}
use ldap.Result.Types.{LdapResult}
use ldap.Search.Adapters.{Adapter, paged, new_stream}
use ldap.Search.Chain.{
  any_paged, controls_of, start, next, mark_next, collect_started, finish, finish_case, search_with,
}
use ldap.Search.Pages.{
  Page, opening, controls_of_page, ArePages, IsPage, entries_of, asked, all_read, reading,
  collect-pages, page_next_more, page_next_entry,
}
use ldap.Search.Request.{Params, SearchOptions, search_request}
use ldap.Search.State.{Search, Handle, Opened, options_of, start_inner, op_call, finish_direct}
use ldap.Search.Stream.{ResultEntry, StreamState}

abbrev pub last_page : Page → List Page → Page
last_page g [] = g
last_page g (h ∷ more) = last_page h more

-- The result of the last page, without its paged results control.
abbrev pub last_result : Page → List Page → LdapResult
last_result g more = let l = last_page g more in record l.res { ctrls = l.before ++ l.after }

-- The cookies that the further requests carry.
abbrev pub cookies : Page → List Page → List Bytes
cookies g [] = []
cookies g (h ∷ more) = g.cookie ∷ cookies h more

abbrev pub page_request : ℤ → List RawControl → Tag → Bytes → Tag × Option (List RawControl)
page_request size saved req cookie =
    (req, some (saved ++ (raw_control (record { size = size; cookie = cookie }) ∷ [])))

abbrev last_id : ℕ → List Page → ℕ
last_id id [] = id
last_id id (h ∷ more) = last_id h.id more

abbrev handle_after : Handle → List Page → Handle
handle_after ldap [] = ldap
handle_after ldap (h ∷ more) = record { controls = none; search_opts = none; timeout = none }

handle_after-none :
    (more : List Page)
    → handle_after (record { controls = none; search_opts = none; timeout = none }) more
      ≡ record { controls = none; search_opts = none; timeout = none }
handle_after-none [] = refl
handle_after-none (h ∷ more) = refl

module _ (size : ℤ) (saved : List RawControl) (req : Tag) (later : List Opened) where
  -- The search at the end.
  abbrev over : Search → Page → List Page → Search
  over s g more = record s {
    stream = record {
      state = StreamState.ended;
      receiving = false;
      last_id = last_id s.stream.last_id more;
      res = some (last_result g more);
    };
    script = [];
    ldap = handle_after s.ldap more;
    coming = later;
    requests = s.requests ++ map (page_request size saved req) (cookies g more);
  }

  all_read-over :
      (s : Search) (g : Page) (more : List Page)
      → all_read size saved req later s g more ≡ over s g more
  all_read-over s g [] = rw (append-nil s.requests) refl
  all_read-over s g (h ∷ more) =
      all_read-over (asked size saved req later s g h) h more
      ∙ rw (handle_after-none more, append_assoc) refl

module _ (filters : NomComplete) (nom : NomStreaming) (size : ℤ)
    (controls : Option (List RawControl)) (opts : Option SearchOptions) (timeout : Option ℕ)
    (p : Params) (req : Tag) (built : search_request filters p (options_of opts) ≡ ok req)
    (later : List Opened) where
  abbrev saved : List RawControl
  saved = controls_of controls

  abbrev adapter : Adapter
  adapter =
      paged size (some (record { controls = some saved; search_opts = opts; timeout = timeout }, p))

  abbrev handle : Handle
  handle = record { controls = controls; search_opts = opts; timeout = timeout }

  -- The search when the first page was asked for.
  abbrev asked_first : Search → Page → Search
  asked_first s g = record s {
    stream = record { state = StreamState.active; receiving = true; last_id = g.id; res = none };
    ldap = record { controls = none; search_opts = none; timeout = none };
    requests = s.requests ++ (page_request size saved req [] ∷ []);
  }

  start-paged :
      (s : Search) (g : Page) (more : List Page)
      → any_paged saved ≡ false
      → start filters
          (paged size none ∷ [])
          p
          (new_stream handle (record s { coming = opening g ∷ (map opening more ++ later) }))
        ≡ (
          adapter ∷ [],
          reading size saved req later (asked_first s g) g.messages g more,
          some (ok tt),
        )
  unfolding start start_inner op_call
  start-paged s g more h = rw (h, built) refl

  finish-over :
      (s : Search) (g : Page) (more : List Page)
      → finish (adapter ∷ []) (over size saved req later s g more) ≡ (
        adapter ∷ [],
        record (over size saved req later s g more) {
          stream = record {
            state = StreamState.closed;
            receiving = false;
            last_id = last_id s.stream.last_id more;
            res = none;
          };
        },
        last_result g more,
      )
  unfolding finish finish_direct
  finish-over s g more = rw (append-nil s.scrubbed) refl

  search_with-over :
      (f c : ℕ) (s : Search) (g : Page) (more : List Page)
      → any_paged saved ≡ false
      → ArePages nom g more
      → length more < f
      → length (entries_of g.messages more) < c
      → search_with filters nom
          (paged size none ∷ [])
          f
          c
          p
          handle
          (record s { coming = opening g ∷ (map opening more ++ later) })
        ≡ (
          record (over size saved req later (asked_first s g) g more) {
            stream = record {
              state = StreamState.closed;
              receiving = false;
              last_id = last_id g.id more;
              res = none;
            };
          },
          some (ok (entries_of g.messages more, last_result g more)),
        )
  unfolding search_with
  search_with-over f c s g more h pages lt lt' =
      let t = asked_first s g in
      let es = entries_of g.messages more in
      ap (collect_started filters nom f c) (start-paged s g more h)
      ∙ ap finish_case (
          collect-pages filters nom size saved opts timeout p req built later f c t g.messages g
            more pages lt lt'
          ∙ ap (λ u. (adapter ∷ [], u, some (ok es))) (all_read-over size saved req later t g more))
      ∙ ap (λ u. (u.1, some (ok (es, u.2)))) (finish-over t g more)

  -- When the filter and the options of the handle give a request, no control of the handle is
  -- a paged results control, and the server sends any number of pages, each with any messages
  -- and a result whose first paged results control can be read and has a cookie in all pages
  -- but the last, then a search with `PagedResults` returns: it gives the messages of all
  -- pages in order and the result of the last page without its paged results control; one
  -- request was sent for each page, each with the controls of the handle and a paged results
  -- control of the given size that holds no cookie in the first and else the cookie of the
  -- page before; no id is asked to be scrubbed. It holds with any fuel above the number of
  -- further pages and of messages.
  pub search_with-pages :
      (f c : ℕ) (s : Search) (g : Page) (more : List Page)
      → any_paged saved ≡ false
      → ArePages nom g more
      → length more < f
      → length (entries_of g.messages more) < c
      → let r =
          search_with filters nom
            (paged size none ∷ [])
            f
            c
            p
            handle
            (record s { coming = opening g ∷ (map opening more ++ later) }) in
        (r.1 ≡ some (ok (entries_of g.messages more, last_result g more)))
        × (r.0.requests ≡ s.requests ++ map (page_request size saved req) ([] ∷ cookies g more))
        × (r.0.scrubbed ≡ s.scrubbed)
  search_with-pages f c s g more h pages lt lt' =
      rw (search_with-over f c s g more h pages lt lt') (refl, rw append_assoc refl, refl)

  next-next_page :
      (f : ℕ) (s : Search) (g h : Page) (more : List Page) (e : ResultEntry) (b : Bool)
      (ms : List (ResultEntry × Bool))
      → IsPage nom g
      → is_empty g.cookie ≡ false
      → h.messages ≡ (e, b) ∷ ms
      → next filters nom
          (suc (suc f))
          1
          true
          (adapter ∷ [])
          (reading size saved req later s [] g (h ∷ more))
        ≡ (
          adapter ∷ [],
          reading size saved req later (asked size saved req later s g h) ms h more,
          some (ok (some e)),
        )
  unfolding next
  next-next_page f s g h more e b ms page cookie first =
      ap (mark_next true) (
        page_next_more filters nom size saved opts timeout p req built later (suc f) (suc (suc f)) s
          g h more page cookie)
      ∙ rw first (
          ap (mark_next true) (
            page_next_entry filters nom size saved opts timeout p req built later f (suc (suc f))
              (asked size saved req later s g h) e b ms h more))

  -- When the filter and the saved options give a request, a page has ended with a result whose
  -- first paged results control can be read and has a cookie, and the next page begins with a
  -- message, `next` of a search with `PagedResults` gives that message, and `finish` right
  -- after it returns the result of the page before, with its paged results control, although
  -- the search was not read to its end.
  pub finish-next_page :
      (f : ℕ) (s : Search) (g h : Page) (more : List Page) (e : ResultEntry) (b : Bool)
      (ms : List (ResultEntry × Bool))
      → IsPage nom g
      → is_empty g.cookie ≡ false
      → h.messages ≡ (e, b) ∷ ms
      → let r =
          next filters nom
            (suc (suc f))
            1
            true
            (adapter ∷ [])
            (reading size saved req later s [] g (h ∷ more)) in
        (r.2 ≡ some (ok (some e)))
        × ((finish r.0 r.1).2 ≡ record g.res { ctrls = controls_of_page g })
  unfolding finish finish_direct
  finish-next_page f s g h more e b ms page cookie first =
      rw (next-next_page f s g h more e b ms page cookie first) (refl, refl)
