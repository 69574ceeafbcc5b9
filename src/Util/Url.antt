-- ===== src/Util/Url.antt =====
-- src/util.rs: `get_url_params`. The url crate splits a URL, and the percent_encoding crate decodes
-- its parts: what it gives is a parameter.
use ldap.Common.{
  ℕ, zero, suc, ◌+◌, ◌<◌, Bool, true, false, ◌&&◌, ◌||◌, Option, none, some, List, [], ◌∷◌, ◌++◌,
  Bytes, ◌==◌, leb, if◌then◌else◌, is_empty, bytes_eq, ok, err, panic, ◌>>=◌, expect, codes,
}
use ldap.Result.Types.{Run, decoding_utf8, invalid_scope_string, unrecognized_critical_extension}
use ldap.Search.Request.{Scope, base, one_level, subtree}
pub mod Parts
pub mod Extensions
pub mod Params

-- What `Url::path` and `Url::query` return.
pub record Url : Type 0 where
  pub path : Bytes
  pub query : Option Bytes

pub data LdapUrlExt : Type 0 where
  bindname : Bytes → LdapUrlExt
  x_bindpw : Bytes → LdapUrlExt
  credentials : Bytes → LdapUrlExt
  sasl_mech : Bytes → LdapUrlExt
  start_tls : LdapUrlExt
  unknown : Bytes → LdapUrlExt

-- Two extensions are equal if they are of one kind.
abbrev pub kind : LdapUrlExt → ℕ
kind (bindname v) = 0
kind (x_bindpw v) = 1
kind (credentials v) = 2
kind (sasl_mech v) = 3
kind start_tls = 4
kind (unknown v) = 5

abbrev pub ext_eq : LdapUrlExt → LdapUrlExt → Bool
ext_eq a b = kind a == kind b

-- The extensions are a `HashSet`: the list has them once each, in the order of the URL.
pub record LdapUrlParams : Type 0 where
  pub base_dn : Bytes
  pub attrs : List Bytes
  pub scope : Scope
  pub filter : Bytes
  pub extensions : List LdapUrlExt

abbrev pub cons_head : ℕ → List Bytes → List Bytes
cons_head c [] = (c ∷ []) ∷ []
cons_head c (p ∷ ps) = (c ∷ p) ∷ ps

-- `str::split` and `str::splitn` at an ASCII character.
unfoldable pub split : ℕ → Bytes → List Bytes
split sep [] = [] ∷ []
split sep (c ∷ s) = let rest = split sep s in if c == sep then [] ∷ rest else cons_head c rest

unfoldable pub splitn : ℕ → ℕ → Bytes → List Bytes
splitn zero sep s = []
splitn (suc zero) sep s = s ∷ []
splitn (suc (suc n)) sep [] = [] ∷ []
splitn (suc (suc n)) sep (c ∷ s) =
    let fewer = splitn (suc n) sep s in
    let rest = splitn (suc (suc n)) sep s in if c == sep then [] ∷ fewer else cons_head c rest

abbrev pub to_ascii_lowercase : ℕ → ℕ
to_ascii_lowercase c = if leb b'A' c && leb c b'Z' then c + 32 else c

unfoldable pub ascii_lc_equal : Bytes → Bytes → Bool
ascii_lc_equal [] [] = true
ascii_lc_equal [] (d ∷ t) = false
ascii_lc_equal (c ∷ s) [] = false
ascii_lc_equal (c ∷ s) (d ∷ t) = (c == to_ascii_lowercase d) && ascii_lc_equal s t

-- The slice from the first octet on, which panics inside a character.
abbrev pub crit_of : Bytes → Run (Bool × Bytes)
crit_of [] = ok (false, [])
crit_of (c ∷ id) =
    if leb 0x80 c then panic else if c == b'!' then ok (true, id) else ok (false, c ∷ id)

abbrev pub or_empty : List Bytes → Bytes
or_empty [] = []
or_empty (p ∷ ps) = p

abbrev pub rest_of : List Bytes → List Bytes
rest_of [] = []
rest_of (p ∷ ps) = ps

abbrev pub query_attrs : Bytes → List Bytes
query_attrs [] = codes "*" ∷ []
query_attrs (c ∷ s) = split b',' (c ∷ s)

abbrev pub query_scope : Bytes → Run Scope
query_scope s =
    if is_empty s
    then ok subtree
    else if bytes_eq s (codes "base")
    then ok base
    else if bytes_eq s (codes "one")
    then ok one_level
    else if bytes_eq s (codes "sub")
    then ok subtree
    else err (invalid_scope_string s)

abbrev pub query_filter : Bytes → Bytes
query_filter [] = codes "(objectClass=*)"
query_filter (c ∷ s) = c ∷ s

abbrev pub without_slash : Bytes → Bytes
without_slash [] = []
without_slash (c ∷ s) = if c == b'/' then s else c ∷ s

unfoldable pub has_ext : LdapUrlExt → List LdapUrlExt → Bool
has_ext e [] = false
has_ext e (x ∷ xs) = ext_eq e x || has_ext e xs

-- `HashSet::insert` leaves an equal element in place.
abbrev pub insert_ext : LdapUrlExt → List LdapUrlExt → List LdapUrlExt
insert_ext e xs = if has_ext e xs then xs else xs ++ (e ∷ [])

abbrev pub insert_known : LdapUrlExt → List LdapUrlExt → List LdapUrlExt
insert_known e xs = if ext_eq e (unknown []) then xs else insert_ext e xs

-- `url.query().unwrap_or("")`.
abbrev pub query_of : Option Bytes → Bytes
query_of none = []
query_of (some q) = q

abbrev pub or_decoding : Option Bytes → Run Bytes
or_decoding none = err decoding_utf8
or_decoding (some v) = ok v

-- `percent_decode_str(s).decode_utf8()`, and the text of `Debug` for a string.
module _ (decode : Bytes → Option Bytes) (debug : Bytes → Bytes) where
  abbrev pub decode_utf8 : Bytes → Run Bytes
  decode_utf8 s = or_decoding (decode s)

  -- The `match id`.
  unfoldable pub ext_of : Bool → Bytes → Bytes → Run LdapUrlExt
  unfolding ascii_lc_equal
  ext_of crit id val =
      if bytes_eq id (codes "1.3.6.1.4.1.10094.1.5.1")
      then ok (credentials val)
      else if bytes_eq id (codes "1.3.6.1.4.1.10094.1.5.2")
      then ok (sasl_mech val)
      else if bytes_eq id (codes "1.3.6.1.4.1.1466.20037")
      then ok start_tls
      else if ascii_lc_equal (codes "bindname") id
      then ok (bindname val)
      else if ascii_lc_equal (codes "x-bindpw") id
      then ok (x_bindpw val)
      else if crit
      then err (unrecognized_critical_extension (codes "Unknown(" ++ debug id ++ codes ")"))
      else ok (unknown [])

  unfoldable pub parse_ext : Bytes → Run LdapUrlExt
  unfolding splitn ext_of
  parse_ext ext = do
    let idv = splitn 2 b'=' ext
    (crit, id) ← crit_of (or_empty idv)
    val ← decode_utf8 (or_empty (rest_of idv))
    ext_of crit id val

  unfoldable pub parse_exts : List Bytes → List LdapUrlExt → Run (List LdapUrlExt)
  unfolding parse_ext has_ext
  parse_exts [] ext_set = ok ext_set
  parse_exts (ext ∷ exts) ext_set = do e ← parse_ext ext; parse_exts exts (insert_known e ext_set)

  abbrev pub query_exts : Bytes → Run (List LdapUrlExt)
  query_exts [] = ok []
  query_exts (c ∷ s) = parse_exts (split b',' (c ∷ s)) []

  unfoldable pub get_url_params : Url → Run LdapUrlParams
  unfolding split splitn parse_exts
  get_url_params url = do
    base_dn ← decode_utf8 (without_slash url.path)
    let query = splitn 4 b'?' (query_of url.query)
    scope ← query_scope (or_empty (rest_of query))
    filter ← decode_utf8 (query_filter (or_empty (rest_of (rest_of query))))
    extensions ← query_exts (or_empty (rest_of (rest_of (rest_of query))))
    ok (record {
      base_dn = base_dn;
      attrs = query_attrs (or_empty query);
      scope = scope;
      filter = filter;
      extensions = extensions;
    })
