-- ===== src/Search/Pages.antt =====
-- `PagedResults` (src/adapters.rs) over the pages of a search.
use ldap.Common.{
  ℕ, zero, suc, ◌<◌, ◌≡◌, refl, sym, ◌∙◌, ap, Bool, true, false, Option, none, some, List, [], ◌∷◌,
  ◌++◌, Bytes, ok, map, length, arith, append-nil, ◌>>=◌, expect, is_empty,
}
use ldap.Common.Int.{ℤ}
use ldap.Nom.{NomComplete, NomStreaming}
use ldap.Ber.Asn.{Tag}
use ldap.Controls.Types.{Control, RawControl, paged_results}
use ldap.Controls.Paged.{raw_control, parse_paged}
use ldap.Result.Types.{LdapResult}
use ldap.Search.Adapters.{Called, paged, paged_next, adapter_next, find_paged, is_paged}
use ldap.Search.Chain.{next, collect, collect_case, collected, mark_next}
use ldap.Search.Entries.{script_of, awaiting, at_result}
use ldap.Search.Request.{Params, SearchOptions, search_request}
use ldap.Search.State.{
  Search, Handle, Opened, opened, options_of, next_direct, start_inner, op_call,
}
use ldap.Search.Stream.{ResultEntry, StreamState}

-- What the server sends for one page: messages, and a result with a paged results control among the
-- controls.
pub record Page : Type 0 where
  pub id : ℕ
  pub messages : List (ResultEntry × Bool)
  pub res : LdapResult
  pub before : List Control
  pub raw : RawControl
  pub after : List Control
  pub size : ℤ
  pub cookie : Bytes

abbrev pub controls_of_page : Page → List Control
controls_of_page g = g.before ++ (record { known_type = some paged_results; raw = g.raw } ∷ g.after)

abbrev pub opening : Page → Opened
opening g = opened g.id (script_of g.messages g.res (controls_of_page g))

abbrev pub NoPaged : List Control → Type 0
NoPaged [] = Unit {0}
NoPaged (c ∷ cs) = (is_paged c.known_type ≡ false) × NoPaged cs

find_paged-NoPaged :
    (before after : List Control) (raw : RawControl)
    → NoPaged before
    → find_paged (before ++ (record { known_type = some paged_results; raw = raw } ∷ after))
      ≡ some (before, raw, after)
unfolding find_paged
find_paged-NoPaged [] after raw h = refl
find_paged-NoPaged (c ∷ cs) after raw h = rw (h.0, find_paged-NoPaged cs after raw h.1) refl

module _ (nom : NomStreaming) where
  -- A page's control is its only one so far, and holds the cookie.
  abbrev pub IsPage : Page → Type 0
  IsPage g =
      NoPaged g.before
      × ((expect g.raw.val >>= parse_paged nom) ≡ ok (record { size = g.size; cookie = g.cookie }))

  -- Each page but the last has a cookie.
  abbrev pub ArePages : Page → List Page → Type 0
  ArePages g [] = IsPage g × (g.cookie ≡ [])
  ArePages g (h ∷ more) = IsPage g × (is_empty g.cookie ≡ false) × ArePages h more

abbrev pub entries_of : List (ResultEntry × Bool) → List Page → List ResultEntry
entries_of ms [] = map (λ m. m.0) ms
entries_of ms (g ∷ more) = map (λ m. m.0) ms ++ entries_of g.messages more

module _ (size : ℤ) (saved : List RawControl) (req : Tag) (later : List Opened) where
  -- The search when the next page was asked for.
  abbrev pub asked : Search → Page → Page → Search
  asked s g h = record s {
    stream = record s.stream {
      last_id = h.id;
      res = some (record g.res { ctrls = controls_of_page g });
    };
    ldap = record { controls = none; search_opts = none; timeout = none };
    requests =
        s.requests
        ++ ((req, some (saved ++ (raw_control (record { size = size; cookie = g.cookie }) ∷ [])))
            ∷ []);
  }

  -- The search when all pages were read.
  abbrev pub all_read : Search → Page → List Page → Search
  all_read s g [] = record (at_result s g.res (g.before ++ g.after)) { coming = later }
  all_read s g (h ∷ more) = all_read (asked s g h) h more

  abbrev pub reading : Search → List (ResultEntry × Bool) → Page → List Page → Search
  reading s ms g more =
      awaiting (record s { coming = map opening more ++ later })
        (script_of ms g.res (controls_of_page g))

module _ (filters : NomComplete) (nom : NomStreaming) (size : ℤ) (saved : List RawControl)
    (opts : Option SearchOptions) (timeout : Option ℕ) (p : Params) (req : Tag)
    (built : search_request filters p (options_of opts) ≡ ok req) (later : List Opened) where
  abbrev kept : Option (Handle × Params)
  kept = some (record { controls = some saved; search_opts = opts; timeout = timeout }, p)

  abbrev page_next : ℕ → ℕ → Search → Called (Option ResultEntry)
  page_next f n s =
      paged_next filters nom f (λ chain s. next filters nom n zero false chain s) size kept [] s

  abbrev from_page : Search → Page → Page → Search
  from_page s g h = asked size saved req later s g h

  abbrev page_state : Search → List (ResultEntry × Bool) → Page → List Page → Search
  page_state s ms g more = reading size saved req later s ms g more

  -- At the end of a page with a cookie the next page is asked for.
  pub page_next_more :
      (f n : ℕ) (s : Search) (g h : Page) (more : List Page)
      → IsPage nom g
      → is_empty g.cookie ≡ false
      → page_next (suc f) n (page_state s [] g (h ∷ more))
        ≡ page_next f n (page_state (from_page s g h) h.messages h more)
  unfolding paged_next next next_direct start_inner op_call
  page_next_more f n s g h more page e =
      rw (append-nil s.scrubbed, find_paged-NoPaged g.before g.after g.raw page.0, page.1, e, built)
        refl

  -- The last page leaves the result without its paged results control.
  abbrev done_reading : Search → Page → Search
  done_reading s g = record s {
    stream = record s.stream {
      state = StreamState.active;
      receiving = false;
      res = some (record g.res { ctrls = g.before ++ g.after });
    };
    script = [];
    coming = later;
  }

  page_next_last :
      (f n : ℕ) (s : Search) (g : Page)
      → IsPage nom g
      → g.cookie ≡ []
      → page_next (suc f) n (page_state s [] g [])
        ≡ (paged size kept ∷ [], done_reading s g, some (ok none))
  unfolding paged_next next next_direct
  page_next_last f n s g page e =
      rw (append-nil s.scrubbed, find_paged-NoPaged g.before g.after g.raw page.0, page.1, e) refl

  pub page_next_entry :
      (f n : ℕ) (s : Search) (e : ResultEntry) (b : Bool) (ms : List (ResultEntry × Bool))
      (g : Page) (more : List Page)
      → page_next (suc f) n (page_state s ((e, b) ∷ ms) g more)
        ≡ (paged size kept ∷ [], page_state s ms g more, some (ok (some e)))
  unfolding paged_next next next_direct
  page_next_entry f n s e true ms g more = rw (append-nil s.scrubbed) refl
  page_next_entry f n s e false ms g more = rw (append-nil s.scrubbed) refl

  -- One call reads over the pages without messages, and its fuel does not matter if there is enough.
  page_next_fuel :
      (f f' n : ℕ) (s : Search) (ms : List (ResultEntry × Bool)) (g : Page) (more : List Page)
      → ArePages nom g more
      → length more < f
      → length more < f'
      → page_next f n (page_state s ms g more) ≡ page_next f' n (page_state s ms g more)
  page_next_fuel zero f' n s ms g more h lt lt' = absurd (omega arith)
  page_next_fuel (suc f) zero n s ms g more h lt lt' = absurd (omega arith)
  page_next_fuel (suc f) (suc f') n s ((e, b) ∷ ms) g more h lt lt' =
      page_next_entry f n s e b ms g more ∙ sym (page_next_entry f' n s e b ms g more)
  page_next_fuel (suc f) (suc f') n s [] g [] h lt lt' =
      page_next_last f n s g h.0 h.1 ∙ sym (page_next_last f' n s g h.0 h.1)
  page_next_fuel (suc f) (suc f') n s [] g (g2 ∷ more) (page, more_cookie, rest) lt lt' =
      page_next_more f n s g g2 more page more_cookie
      ∙ page_next_fuel f f' n (from_page s g g2) g2.messages g2 more rest (omega arith)
          (omega arith)
      ∙ sym (page_next_more f' n s g g2 more page more_cookie)

  -- What `collect` does with the outcome of `next`.
  step : ℕ → ℕ → Called (Option ResultEntry) → Called (List ResultEntry)
  step f c t = collect_case (mark_next true t) (λ chain s. collect filters nom f c chain s)

  -- Reading all pages to the end.
  pub collect-pages :
      (f c : ℕ) (s : Search) (ms : List (ResultEntry × Bool)) (g : Page) (more : List Page)
      → ArePages nom g more
      → length more < f
      → length (entries_of ms more) < c
      → collect filters nom f c (paged size kept ∷ []) (page_state s ms g more) ≡ (
        paged size kept ∷ [],
        all_read size saved req later s g more,
        some (ok (entries_of ms more)),
      )
  unfolding collect next adapter_next step
  collect-pages zero c s ms g more h lt lt' = absurd (omega arith)
  collect-pages (suc f) zero s ms g more h lt lt' = absurd (omega arith)
  collect-pages (suc f) (suc c) s ((e, b) ∷ ms) g [] h lt lt' =
      ap (step (suc f) c) (page_next_entry f (suc f) s e b ms g [])
      ∙ ap (collected e) (collect-pages (suc f) c s ms g [] h lt (omega arith))
  collect-pages (suc f) (suc c) s ((e, b) ∷ ms) g (g2 ∷ more) h lt lt' =
      ap (step (suc f) c) (page_next_entry f (suc f) s e b ms g (g2 ∷ more))
      ∙ ap (collected e) (collect-pages (suc f) c s ms g (g2 ∷ more) h lt (omega arith))
  collect-pages (suc f) (suc c) s [] g [] h lt lt' =
      ap (step (suc f) c) (page_next_last f (suc f) s g h.0 h.1)
  collect-pages (suc f) (suc c) s [] g (g2 ∷ more) (page, more_cookie, rest) lt lt' =
      ap (step (suc f) c) (
        page_next_more f (suc f) s g g2 more page more_cookie
        ∙ page_next_fuel f (suc f) (suc f) (from_page s g g2) g2.messages g2 more rest (omega arith)
            (omega arith))
      ∙ collect-pages (suc f) (suc c) (from_page s g g2) g2.messages g2 more rest (omega arith) lt'
