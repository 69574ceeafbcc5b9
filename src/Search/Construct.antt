-- ===== src/Search/Construct.antt =====
-- src/search.rs: `SearchEntry::construct`.
use ldap.Common.{
  Option, none, some, List, [], ◌∷◌, ◌++◌, Bytes, if◌then◌else◌, is_empty, bytes_eq, ok, ◌>>=◌,
  expect, and_then, next,
}
use ldap.Common.Utf8.{from_utf8, utf8_valid}
use ldap.Ber.Structure.{StructureTag, match_id, expect_constructed, expect_primitive}
use ldap.Result.Types.{Run}
use ldap.Search.Stream.{ResultEntry}

-- A `HashMap` from strings to lists of values, as an association list.
abbrev pub ValueMap : Type 0
ValueMap = List (Bytes × List Bytes)

unfoldable pub values_of : Bytes → ValueMap → Option (List Bytes)
values_of k [] = none
values_of k ((k', vs) ∷ m) = let rest = values_of k m in if bytes_eq k k' then some vs else rest

-- The map with the value at a key made of the one that is there.
unfoldable pub upsert : Bytes → (Option (List Bytes) → List Bytes) → ValueMap → ValueMap
upsert k f [] = (k, f none) ∷ []
upsert k f ((k', vs) ∷ m) =
    let rest = upsert k f m in if bytes_eq k k' then (k', f (some vs)) ∷ m else (k', vs) ∷ rest

-- `insert`, and `entry(k).or_insert_with(Vec::new)` with the values pushed.
abbrev pub insert : Bytes → List Bytes → ValueMap → ValueMap
insert k vs m = upsert k (λ old. vs) m

abbrev pub behind : List Bytes → Option (List Bytes) → List Bytes
behind vs none = vs
behind vs (some old) = old ++ vs

abbrev pub push_all : Bytes → List Bytes → ValueMap → ValueMap
push_all k vs m = upsert k (behind vs) m

pub record SearchEntry : Type 0 where
  pub dn : Bytes
  pub attrs : ValueMap
  pub bin_attrs : ValueMap

-- The values that are strings, and those that are not.
unfoldable pub split_values : List StructureTag → Run (List Bytes × List Bytes)
split_values [] = ok ([], [])
split_values (t ∷ ts) = do
  s ← expect (expect_primitive t)
  (strings, binary) ← split_values ts
  ok (if utf8_valid s then (s ∷ strings, binary) else (strings, s ∷ binary))

abbrev pub with_values : Bytes → List Bytes × List Bytes → SearchEntry → SearchEntry
with_values a_type (strings, binary) e =
    if is_empty binary
    then record e { attrs = insert a_type strings e.attrs }
    else record e { bin_attrs = push_all a_type (binary ++ strings) e.bin_attrs }

-- One turn of the loop over the attributes.
unfoldable pub partial_attribute : StructureTag → SearchEntry → Run SearchEntry
unfolding split_values
partial_attribute a_v e = do
  part_attr ← expect (expect_constructed a_v)
  (first, part_attr) ← expect (next part_attr)
  octets ← expect (expect_primitive first)
  a_type ← expect (from_utf8 octets)
  (second, part_attr) ← expect (next part_attr)
  tags ← expect (expect_constructed second)
  values ← split_values tags
  ok (with_values a_type values e)

unfoldable pub attributes : List StructureTag → SearchEntry → Run SearchEntry
unfolding partial_attribute
attributes [] e = ok e
attributes (a_v ∷ attrs) e = do e ← partial_attribute a_v e; attributes attrs e

unfoldable pub construct : ResultEntry → Run SearchEntry
unfolding attributes
construct re = do
  tags ← expect (and_then (match_id 4 re.tag) expect_constructed)
  (first, tags) ← expect (next tags)
  octets ← expect (expect_primitive first)
  dn ← expect (from_utf8 octets)
  (second, tags) ← expect (next tags)
  attrs ← expect (expect_constructed second)
  attributes attrs (record { dn = dn; attrs = []; bin_attrs = [] })
