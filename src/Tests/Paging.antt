-- ===== src/Tests/Paging.antt =====
-- Searches with adapters, at concrete inputs.
use ldap.Common.{
  ◌≡◌, refl, Bool, true, false, none, some, List, [], ◌∷◌, Bytes, Outcome, codes, arith,
}
use ldap.Common.Int.{pos}
use ldap.Common.Utf8.{utf8_valid, utf8_run, utf8_step, from_utf8}
use ldap.Nom.{complete, streaming, streaming-IsNomStreaming, fold_run, many_run}
use ldap.Ber.Structure.{
  StructureTag, structure_tag, application, universal, context, P, C, from_list, expect_constructed,
  expect_primitive,
}
use ldap.Ber.Asn.{
  Tag, sequence, vec, default_octet_string, into_structure, i_e_into_structure, integer_octets,
  count_rem,
}
use ldap.Ber.Write.{encode_inner, write_type, write_length}
use ldap.Controls.Paged.{paged_tag, raw_control, parse_paged-raw_control}
use ldap.Filter.Unescaper.{unescaped, is_value_char, feed}
use ldap.Filter.Lexical.{attributedescription}
use ldap.Filter.Items.{item}
use ldap.Filter.Grammar.{parse}
use ldap.Result.Convert.{parse_refs}
use ldap.Result.Types.{LdapResult}
use ldap.Search.Adapters.{paged, entries_only}
use ldap.Sync
use ldap.Sync.{LdapConn}
use ldap.Sync.Reading.{then_read, read_all-Holds}
use ldap.Search.Chain.{any_paged, search, search_with, next, finish}
use ldap.Search.Entries.{Holds, script_of}
use ldap.Search.Transparent.{in_one, search_with-paged}
use ldap.Search.Pages.{ArePages, Page, opening, controls_of_page, reading}
use ldap.Search.Paging.{search_with-pages, finish-next_page, page_request}
use ldap.Search.Request.{Params, subtree, default_options, search_request}
use ldap.Search.Results.{search-Holds}
use ldap.Search.State.{Search, Handle, opened}
use ldap.Search.Stream.{ResultEntry, StreamState}

abbrev params : Params
params = record {
  base_dn = codes "dc=example";
  scope = subtree;
  filter = codes "(a=v)";
  attrs = [];
}

abbrev filter_tag : Tag
filter_tag =
    sequence 3 context
      (vec (default_octet_string (codes "a") ∷ default_octet_string (codes "v") ∷ []))

abbrev request : Tag
request = sequence 3 application (
    vec (
      default_octet_string (codes "dc=example")
      ∷ Tag.enumerated 10 universal (pos 2)
      ∷ Tag.enumerated 10 universal (pos 0)
      ∷ Tag.integer 2 universal (pos 0)
      ∷ Tag.integer 2 universal (pos 0)
      ∷ Tag.boolean 1 universal false
      ∷ filter_tag
      ∷ sequence 16 universal (vec [])
      ∷ []))

built : search_request complete params default_options ≡ Outcome.ok request
unfolding search_request parse fold_run many_run item attributedescription unescaped is_value_char
    feed
built = refl

abbrev result : LdapResult
result = record { rc = 0; matched = []; text = []; refs = []; ctrls = [] }

abbrev bare : StructureTag → ResultEntry
bare tag = record { tag = tag; controls = [] }

abbrev entry : ResultEntry
entry = bare (structure_tag application 4 (P []))

abbrev intermediate : ResultEntry
intermediate = bare (structure_tag application 25 (P []))

abbrev referral : ResultEntry
referral =
    bare (
      structure_tag application 19 (C (from_list (structure_tag universal 4 (P (codes "u")) ∷ []))))

referral_uris : parse_refs referral.tag ≡ Outcome.ok (codes "u" ∷ [])
unfolding parse_refs expect_constructed expect_primitive from_utf8 utf8_valid utf8_run utf8_step
referral_uris = refl

abbrev handle : Handle
handle = record { controls = some []; search_opts = none; timeout = none }

-- Before a search.
abbrev idle : Search
idle = record {
  stream = record { state = StreamState.fresh; receiving = false; last_id = 0; res = none };
  script = [];
  ldap = handle;
  coming = [];
  requests = [];
  scrubbed = [];
}

abbrev messages : List (ResultEntry × Bool)
messages = (entry, false) ∷ (intermediate, false) ∷ (referral, true) ∷ (entry, false) ∷ []

messages-Holds : Holds messages (entry ∷ entry ∷ []) (codes "u" ∷ [])
messages-Holds = Holds.an_entry entry false refl refl (
    Holds.an_intermediate intermediate false refl (
      Holds.a_referral (codes "u" ∷ []) referral true refl refl referral_uris
        (Holds.an_entry entry false refl refl Holds.nothing)))

search-Holds_example :
    let r =
      search complete streaming 5 5 params handle
        (record idle { coming = opened 7 (script_of messages result []) ∷ [] }) in
    (r.1 ≡ some (Outcome.ok (entry ∷ entry ∷ [], record result { refs = codes "u" ∷ [] })))
    × (r.0.requests ≡ (request, some []) ∷ [])
    × (r.0.scrubbed ≡ [])
search-Holds_example =
    search-Holds complete streaming params handle request built 7 [] idle result [] 5 5
      messages-Holds (omega arith) (omega arith)

abbrev conn : LdapConn
conn = record {
  ldap = record { last_id = 0; timeout = none; controls = some []; search_opts = none };
}

read_all-Holds_example :
    let r = then_read complete streaming 5 5 (
      Sync.streaming_search_with complete streaming
        (entries_only [] ∷ [])
        params
        conn
        (record idle { coming = opened 7 (script_of messages result []) ∷ [] })) in
    (r.1 ≡ some (Outcome.ok (entry ∷ entry ∷ [], record result { refs = codes "u" ∷ [] })))
    × (r.0.requests ≡ (request, some []) ∷ [])
    × (r.0.scrubbed ≡ [])
read_all-Holds_example =
    read_all-Holds complete streaming params conn request built 7 [] idle result [] 5 5
      messages-Holds (omega arith) (omega arith)

abbrev page_of : ResultEntry → Bytes → Page
page_of e cookie = record {
  id = 7;
  messages = (e, false) ∷ [];
  res = result;
  before = [];
  raw = raw_control (record { size = pos 1; cookie = cookie });
  after = [];
  size = pos 1;
  cookie = cookie;
}

-- A first page with a cookie, and a last one.
abbrev first_page : Page
first_page = page_of entry (9 ∷ [])

abbrev second_page : Page
second_page = page_of referral []

two_pages : ArePages streaming first_page (second_page ∷ [])
unfolding paged_tag into_structure i_e_into_structure integer_octets count_rem encode_inner
    write_type write_length
two_pages = (
  (
    tt,
    parse_paged-raw_control streaming streaming-IsNomStreaming 1 (9 ∷ []) (omega arith)
        (ground arith),
  ),
  refl,
  (
    (
      tt,
      parse_paged-raw_control streaming streaming-IsNomStreaming 1 [] (omega arith) (ground arith),
    ),
    refl,
  ),
)

search_with-pages_example :
    let r =
      search_with complete streaming
        (paged (pos 1) none ∷ [])
        5
        5
        params
        handle
        (record idle { coming = opening first_page ∷ opening second_page ∷ [] }) in
    (r.1 ≡ some (Outcome.ok (entry ∷ referral ∷ [], result)))
    × (r.0.requests
        ≡ page_request (pos 1) [] request [] ∷ page_request (pos 1) [] request (9 ∷ []) ∷ [])
    × (r.0.scrubbed ≡ [])
unfolding any_paged paged_tag into_structure i_e_into_structure integer_octets count_rem
    encode_inner write_type write_length
search_with-pages_example =
    search_with-pages complete streaming (pos 1) (some []) none none params request built [] 5 5
      idle first_page (second_page ∷ []) refl two_pages (omega arith) (omega arith)

abbrev kept : Handle
kept = record { controls = some []; search_opts = none; timeout = none }

finish-next_page_example :
    let r =
      next complete streaming 2 1 true
        (paged (pos 1) (some (kept, params)) ∷ [])
        (reading (pos 1) [] request [] idle [] first_page (second_page ∷ [])) in
    (r.2 ≡ some (Outcome.ok (some referral)))
    × ((finish r.0 r.1).2 ≡ record result { ctrls = controls_of_page first_page })
unfolding paged_tag into_structure i_e_into_structure integer_octets count_rem encode_inner
    write_type write_length
finish-next_page_example =
    finish-next_page complete streaming (pos 1) (some []) none none params request built [] 0 idle
      first_page second_page [] referral false []
      (
        tt,
        parse_paged-raw_control streaming streaming-IsNomStreaming 1 (9 ∷ []) (omega arith)
            (ground arith),
      )
      refl refl

search_with-paged_example :
    (search_with complete streaming
      (paged (pos 1) none ∷ [])
      5
      5
      params
      handle
      (record idle { coming = opening first_page ∷ opening second_page ∷ [] })).1
    ≡ (search_with complete streaming [] 5 5 params handle
        (record idle { coming = in_one 9 first_page (second_page ∷ []) ∷ [] })).1
unfolding any_paged
search_with-paged_example =
    search_with-paged complete streaming (pos 1) (some []) none none params request 5 5 9 idle
      first_page (second_page ∷ []) [] built refl two_pages (omega arith) (omega arith)
