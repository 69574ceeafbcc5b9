-- ===== src/Util/Url/Extensions.antt =====
-- The extensions of an LDAP URL, written out, and how they are read (src/util.rs).
use ldap.Common.{
  ℕ, ◌≡◌, refl, ◌∙◌, Bool, true, false, Option, some, List, [], ◌∷◌, ◌++◌, Bytes, ok, ◌>>=◌, ◌==◌,
  All, map, is_empty, if◌then◌else◌, codes, append_assoc, append-nil, arith,
}
use ldap.Util.Url.{
  LdapUrlExt, bindname, x_bindpw, credentials, sasl_mech, start_tls, unknown, kind, ext_eq, split,
  splitn, ascii_lc_equal, ext_of, parse_ext, parse_exts, has_ext, insert_known, query_exts,
  decode_utf8,
}
use ldap.Util.Url.Parts.{Lacks, join, split-join, Lacks-append, is_empty-append}

-- An extension, whether it is critical, and its value before decoding.
pub record Item : Type 0 where
  pub crit : Bool
  pub ext : LdapUrlExt
  pub raw : Bytes

abbrev pub name_of : LdapUrlExt → Bytes
name_of (bindname v) = codes "bindname"
name_of (x_bindpw v) = codes "x-bindpw"
name_of (credentials v) = codes "1.3.6.1.4.1.10094.1.5.1"
name_of (sasl_mech v) = codes "1.3.6.1.4.1.10094.1.5.2"
name_of start_tls = codes "1.3.6.1.4.1.1466.20037"
name_of (unknown v) = []

abbrev pub value_of : LdapUrlExt → Bytes
value_of (bindname v) = v
value_of (x_bindpw v) = v
value_of (credentials v) = v
value_of (sasl_mech v) = v
value_of start_tls = []
value_of (unknown v) = v

abbrev pub item_text : Item → Bytes
item_text i = (if i.crit then b'!' ∷ name_of i.ext else name_of i.ext) ++ (b'=' ∷ i.raw)

abbrev pub exts_text : List Item → Bytes
exts_text [] = []
exts_text (i ∷ is) = join b',' (item_text i) (map item_text is)

abbrev pub Apart : List Item → Type 0
Apart [] = Unit {0}
Apart (i ∷ is) = All (λ j. ext_eq j.ext i.ext ≡ false) is × Apart is

pub is_empty-join :
    (by : ℕ) (p : Bytes) (ps : List Bytes) → is_empty p ≡ false → is_empty (join by p ps) ≡ false
is_empty-join by p [] h = h
is_empty-join by p (q ∷ qs) h = is_empty-append p (join by q qs) by

has_ext-append :
    (e a : LdapUrlExt) (xs : List LdapUrlExt)
    → has_ext e xs ≡ false
    → ext_eq e a ≡ false
    → has_ext e (xs ++ (a ∷ [])) ≡ false
unfolding has_ext
has_ext-append e a [] h k = rw k refl
has_ext-append e a (x ∷ xs) h k = ground (arith, has_ext-append e a xs)

module _ (decode : Bytes → Option Bytes) (debug : Bytes → Bytes) where
  -- An extension of a known kind, whose value decodes and has no comma.
  abbrev pub IsItem : Item → Type 0
  IsItem i = ((kind i.ext == 5) ≡ false) × Lacks b',' i.raw × (decode i.raw ≡ some (value_of i.ext))

  decoded :
      (crit : Bool) (id r v : Bytes)
      → decode r ≡ some v
      → (decode_utf8 decode debug r >>= λ val. ext_of decode debug crit id val)
        ≡ ext_of decode debug crit id v
  decoded crit id r v e = rw e refl

  parse_ext_lem :
      (crit : Bool) (e : LdapUrlExt) (r : Bytes)
      → (kind e == 5) ≡ false
      → decode r ≡ some (value_of e)
      → parse_ext decode debug (item_text (record { crit = crit; ext = e; raw = r })) ≡ ok e
  unfolding parse_ext splitn ext_of ascii_lc_equal
  parse_ext_lem true (bindname v) r h e = decoded true (name_of (bindname v)) r v e
  parse_ext_lem false (bindname v) r h e = decoded false (name_of (bindname v)) r v e
  parse_ext_lem true (x_bindpw v) r h e = decoded true (name_of (x_bindpw v)) r v e
  parse_ext_lem false (x_bindpw v) r h e = decoded false (name_of (x_bindpw v)) r v e
  parse_ext_lem true (credentials v) r h e = decoded true (name_of (credentials v)) r v e
  parse_ext_lem false (credentials v) r h e = decoded false (name_of (credentials v)) r v e
  parse_ext_lem true (sasl_mech v) r h e = decoded true (name_of (sasl_mech v)) r v e
  parse_ext_lem false (sasl_mech v) r h e = decoded false (name_of (sasl_mech v)) r v e
  parse_ext_lem true start_tls r h e = decoded true (name_of start_tls) r [] e
  parse_ext_lem false start_tls r h e = decoded false (name_of start_tls) r [] e
  parse_ext_lem true (unknown v) r h e = absurd (ground arith)
  parse_ext_lem false (unknown v) r h e = absurd (ground arith)

  insert_known-new :
      (e : LdapUrlExt) (xs : List LdapUrlExt)
      → (kind e == 5) ≡ false
      → has_ext e xs ≡ false
      → insert_known e xs ≡ xs ++ (e ∷ [])
  insert_known-new e xs h k = rw (h, k) refl

  fresh_step :
      (a : LdapUrlExt) (xs : List LdapUrlExt) (is : List Item)
      → All (λ j. ext_eq j.ext a ≡ false) is
      → All (λ j. has_ext j.ext xs ≡ false) is
      → All (λ j. has_ext j.ext (xs ++ (a ∷ [])) ≡ false) is
  fresh_step a xs [] h k = tt
  fresh_step a xs (j ∷ is) h k = (has_ext-append j.ext a xs k.0 h.0, fresh_step a xs is h.1 k.1)

  parse_exts-item_text :
      (is : List Item) (xs : List LdapUrlExt)
      → All IsItem is
      → Apart is
      → All (λ j. has_ext j.ext xs ≡ false) is
      → parse_exts decode debug (map item_text is) xs ≡ ok (xs ++ map (λ i. i.ext) is)
  unfolding parse_exts
  parse_exts-item_text [] xs h apart fresh = rw (append-nil xs) refl
  parse_exts-item_text (i ∷ is) xs (h, hs) (a, apart) (f, fresh) =
      rw (parse_ext_lem i.crit i.ext i.raw h.0 h.2, insert_known-new i.ext xs h.0 f)
        (parse_exts-item_text is (xs ++ (i.ext ∷ [])) hs apart (fresh_step i.ext xs is a fresh)
          ∙ rw append_assoc refl)

  nothing_yet : (is : List Item) → All (λ j. has_ext j.ext [] ≡ false) is
  unfolding has_ext
  nothing_yet [] = tt
  nothing_yet (i ∷ is) = (refl, nothing_yet is)

  Lacks-name_of :
      (crit : Bool) (e : LdapUrlExt) → Lacks b',' (if crit then b'!' ∷ name_of e else name_of e)
  Lacks-name_of true (bindname v) = ground arith
  Lacks-name_of false (bindname v) = ground arith
  Lacks-name_of true (x_bindpw v) = ground arith
  Lacks-name_of false (x_bindpw v) = ground arith
  Lacks-name_of true (credentials v) = ground arith
  Lacks-name_of false (credentials v) = ground arith
  Lacks-name_of true (sasl_mech v) = ground arith
  Lacks-name_of false (sasl_mech v) = ground arith
  Lacks-name_of true start_tls = ground arith
  Lacks-name_of false start_tls = ground arith
  Lacks-name_of true (unknown v) = ground arith
  Lacks-name_of false (unknown v) = ground arith

  Lacks-item_text : (i : Item) → IsItem i → Lacks b',' (item_text i)
  Lacks-item_text i h =
      Lacks-append b',' (if i.crit then b'!' ∷ name_of i.ext else name_of i.ext) (b'=' ∷ i.raw)
        (Lacks-name_of i.crit i.ext) (refl, h.1)

  Lacks-item_texts : (is : List Item) → All IsItem is → All (Lacks b',') (map item_text is)
  Lacks-item_texts [] h = tt
  Lacks-item_texts (i ∷ is) (h, hs) = (Lacks-item_text i h, Lacks-item_texts is hs)

  query_exts_nonempty :
      (s : Bytes)
      → is_empty s ≡ false
      → query_exts decode debug s ≡ parse_exts decode debug (split b',' s) []
  query_exts_nonempty [] h = absurd (ground arith)
  query_exts_nonempty (c ∷ s) h = refl

  pub query_exts-exts_text :
      (is : List Item)
      → All IsItem is
      → Apart is
      → query_exts decode debug (exts_text is) ≡ ok (map (λ i. i.ext) is)
  query_exts-exts_text [] h apart = refl
  query_exts-exts_text (i ∷ is) h apart =
      query_exts_nonempty (exts_text (i ∷ is)) (
        is_empty-join b',' (item_text i) (map item_text is)
          (is_empty-append (if i.crit then b'!' ∷ name_of i.ext else name_of i.ext) i.raw b'='))
      ∙ rw
          (split-join b',' (item_text i) (map item_text is) (Lacks-item_text i h.0)
            (Lacks-item_texts is h.1))
          (parse_exts-item_text (i ∷ is) [] h apart (nothing_yet (i ∷ is)))
