-- ===== src/Util/Url/Params.antt =====
-- The parts of an LDAP URL, written out, and `get_url_params` (src/util.rs).
use ldap.Common.{
  ◌≡◌, refl, ◌∙◌, ap, false, Option, none, some, List, [], ◌∷◌, ◌++◌, Bytes, ok, All, map, is_empty,
  codes, arith,
}
use ldap.Search.Request.{Scope, base, one_level, subtree}
use ldap.Util.Url.{
  Url, split, splitn, query_attrs, query_scope, query_filter, get_url_params, query_of,
}
use ldap.Util.Url.Parts.{Lacks, join, split-join, splitn_part, Lacks-join}
use ldap.Util.Url.Extensions.{Item, exts_text, Apart, IsItem, is_empty-join, query_exts-exts_text}

-- A part that is missing is written as an empty text.
abbrev pub attrs_text : List Bytes → Bytes
attrs_text [] = []
attrs_text (p ∷ ps) = join b',' p ps

abbrev pub scope_text : Option Scope → Bytes
scope_text none = []
scope_text (some base) = codes "base"
scope_text (some one_level) = codes "one"
scope_text (some subtree) = codes "sub"

-- The parts of a URL, those that are percent-encoded before decoding.
pub record UrlParts : Type 0 where
  pub base_raw : Bytes
  pub attrs : List Bytes
  pub scope : Option Scope
  pub filter_raw : Bytes
  pub items : List Item

abbrev pub url_of : UrlParts → Url
url_of u = record {
  path = b'/' ∷ u.base_raw;
  query = some (
      attrs_text u.attrs
      ++ (b'?' ∷ (scope_text u.scope ++ (b'?' ∷ (u.filter_raw ++ (b'?' ∷ exts_text u.items))))));
}

abbrev pub attrs_or_all : List Bytes → List Bytes
attrs_or_all [] = codes "*" ∷ []
attrs_or_all (p ∷ ps) = p ∷ ps

abbrev pub scope_or_subtree : Option Scope → Scope
scope_or_subtree none = subtree
scope_or_subtree (some s) = s

abbrev pub filter_or_any : Bytes → Bytes
filter_or_any [] = codes "(objectClass=*)"
filter_or_any (c ∷ s) = c ∷ s

-- Attributes have no separator in them, and the first is not empty.
abbrev pub AreAttrs : List Bytes → Type 0
AreAttrs [] = Unit {0}
AreAttrs (p ∷ ps) = (is_empty p ≡ false) × All (Lacks b',') (p ∷ ps) × All (Lacks b'?') (p ∷ ps)

query_attrs_nonempty : (s : Bytes) → is_empty s ≡ false → query_attrs s ≡ split b',' s
query_attrs_nonempty [] h = absurd (ground arith)
query_attrs_nonempty (c ∷ s) h = refl

query_attrs-attrs_text :
    (ps : List Bytes) → AreAttrs ps → query_attrs (attrs_text ps) ≡ attrs_or_all ps
query_attrs-attrs_text [] h = refl
query_attrs-attrs_text (p ∷ ps) (nonempty, no_comma, _) =
    query_attrs_nonempty (join b',' p ps) (is_empty-join b',' p ps nonempty)
    ∙ split-join b',' p ps no_comma.0 no_comma.1

Lacks-attrs_text : (ps : List Bytes) → AreAttrs ps → Lacks b'?' (attrs_text ps)
Lacks-attrs_text [] h = tt
Lacks-attrs_text (p ∷ ps) (_, _, h) = Lacks-join b'?' b',' p ps refl h.0 h.1

query_scope-scope_text : (s : Option Scope) → query_scope (scope_text s) ≡ ok (scope_or_subtree s)
query_scope-scope_text none = refl
query_scope-scope_text (some base) = refl
query_scope-scope_text (some one_level) = refl
query_scope-scope_text (some subtree) = refl

query_filter_lem : (s : Bytes) → query_filter s ≡ filter_or_any s
query_filter_lem [] = refl
query_filter_lem (c ∷ s) = refl

Lacks-scope_text : (s : Option Scope) → Lacks b'?' (scope_text s)
Lacks-scope_text none = ground arith
Lacks-scope_text (some base) = ground arith
Lacks-scope_text (some one_level) = ground arith
Lacks-scope_text (some subtree) = ground arith

module _ (decode : Bytes → Option Bytes) (debug : Bytes → Bytes) where
  splitn-url_of :
      (u : UrlParts)
      → AreAttrs u.attrs
      → Lacks b'?' u.filter_raw
      → splitn 4 b'?' (query_of (url_of u).query)
        ≡ attrs_text u.attrs ∷ scope_text u.scope ∷ u.filter_raw ∷ exts_text u.items ∷ []
  unfolding splitn
  splitn-url_of u attrs filter =
      splitn_part 2 b'?' (attrs_text u.attrs) _ (Lacks-attrs_text u.attrs attrs)
      ∙ ap (λ r. attrs_text u.attrs ∷ r)
          (splitn_part 1 b'?' (scope_text u.scope) _ (Lacks-scope_text u.scope)
            ∙ ap (λ r. scope_text u.scope ∷ r) (splitn_part 0 b'?' u.filter_raw _ filter))

  -- For a URL written of its parts (attributes without a comma or a question mark, the first
  -- not empty, or none; a scope or none; a filter without a question mark, or none; extensions
  -- of different known kinds, each critical or not, whose values have no comma), whose base,
  -- filter and extension values decode, `get_url_params` does not fail or panic and gives the
  -- decoded base and filter, the attributes, the scope and the extensions, in order, and for a
  -- part that is missing all attributes, the whole subtree, and the filter `(objectClass=*)`.
  pub get_url_params-url_of :
      (u : UrlParts) (base_dn filter : Bytes)
      → decode u.base_raw ≡ some base_dn
      → AreAttrs u.attrs
      → Lacks b'?' u.filter_raw
      → decode (filter_or_any u.filter_raw) ≡ some filter
      → All (IsItem decode debug) u.items
      → Apart u.items
      → get_url_params decode debug (url_of u)
        ≡ ok (record {
          base_dn = base_dn;
          attrs = attrs_or_all u.attrs;
          scope = scope_or_subtree u.scope;
          filter = filter;
          extensions = map (λ i. i.ext) u.items;
        })
  unfolding get_url_params
  get_url_params-url_of u base_dn filter d attrs lacks e items apart =
      rw
        (
          d,
          splitn-url_of u attrs lacks,
          query_scope-scope_text u.scope,
          query_exts-exts_text decode debug u.items items apart,
          query_attrs-attrs_text u.attrs attrs,
          query_filter_lem u.filter_raw,
          e,
        )
        refl
