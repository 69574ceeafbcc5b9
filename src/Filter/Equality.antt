-- ===== src/Filter/Equality.antt =====
-- Equality filters whose value was escaped (src/filter.rs, src/util.rs).
use ldap.Common.{
  ℕ, suc, ◌+◌, ◌*◌, ◌<◌, ◌≡◌, ◌∙◌, true, false, some, [], ◌∷◌, ◌++◌, Bytes, length, arith, All,
}
use ldap.Nom.{NomComplete, IsNomComplete, ok, error, starts_with}
use ldap.Nom.Ascii.{is_alpha}
use ldap.Ber.Total.{IsByte}
use ldap.Ber.Structure.{context}
use ldap.Ber.Asn.{Tag, sequence, vec, default_octet_string}
use ldap.Filter.Items.{item, eq_match}
use ldap.Common.{Outcome, ◌>>=◌}
use ldap.Common.Utf8.{utf8_valid}
use ldap.Filter.Grammar.{filter, filterlist, filtercomp, and, or, not as not_filter, parse}
use ldap.Util.Escape.{ldap_escape}
use ldap.Util.RoundTrip.{ldap_escape_lem}
use ldap.Filter.Names.{IsDescr, no_option, item_lem}

module _ (nom : NomComplete) (laws : IsNomComplete nom) where
  no_operator :
      (op c : ℕ) (i : Bytes) → is_alpha c ≡ true → op < b'A' → starts_with (op ∷ []) (c ∷ i) ≡ false
  no_operator op c i h k = ground arith

  no_bar : (c : ℕ) (i : Bytes) → is_alpha c ≡ true → starts_with (b'|' ∷ []) (c ∷ i) ≡ false
  no_bar c i h = ground arith

  and_alpha : (f c : ℕ) (i : Bytes) → is_alpha c ≡ true → and nom (suc f) (c ∷ i) ≡ error
  unfolding and
  and_alpha f c i h =
      laws.map_lem _ _ (c ∷ i)
      ∙ rw (
          no_option nom laws (b'&' ∷ []) (filterlist nom f) (c ∷ i)
            (no_operator b'&' c i h (omega arith)))

  or_alpha : (f c : ℕ) (i : Bytes) → is_alpha c ≡ true → or nom (suc f) (c ∷ i) ≡ error
  unfolding or
  or_alpha f c i h =
      laws.map_lem _ _ (c ∷ i)
      ∙ rw (no_option nom laws (b'|' ∷ []) (filterlist nom f) (c ∷ i) (no_bar c i h))

  not_alpha : (f c : ℕ) (i : Bytes) → is_alpha c ≡ true → not_filter nom (suc f) (c ∷ i) ≡ error
  unfolding not_filter
  not_alpha f c i h =
      laws.map_lem _ _ (c ∷ i)
      ∙ rw (
          no_option nom laws (b'!' ∷ []) (filter nom f) (c ∷ i)
            (no_operator b'!' c i h (omega arith)))

  filtercomp-item :
      (f c : ℕ) (i : Bytes)
      → is_alpha c ≡ true
      → filtercomp nom (suc (suc f)) (c ∷ i) ≡ item nom (c ∷ i)
  unfolding filtercomp
  filtercomp-item f c i h =
      laws.alt_more (and nom (suc f)) _ _ (c ∷ i)
      ∙ rw (
        and_alpha f c i h,
        laws.alt_more (or nom (suc f)) (not_filter nom (suc f)) (item nom ∷ []) (c ∷ i),
        or_alpha f c i h,
        laws.alt_more (not_filter nom (suc f)) (item nom) [] (c ∷ i),
        not_alpha f c i h,
        laws.alt_one (item nom) (c ∷ i),
      )

  -- An item between brackets is a filter.
  filter-item :
      (f c : ℕ) (i rest : Bytes) (t : Tag)
      → is_alpha c ≡ true
      → item nom (c ∷ i) ≡ ok (b')' ∷ rest) t
      → filter nom (suc (suc (suc f))) (b'(' ∷ c ∷ i) ≡ ok rest t
  unfolding filter
  filter-item f c i rest t h e =
      laws.delimited_lem (nom.tag (b'(' ∷ [])) (filtercomp nom (suc (suc f))) _ (b'(' ∷ c ∷ i)
      ∙ rw (
        laws.tag_lem (b'(' ∷ []) (b'(' ∷ c ∷ i),
        filtercomp-item f c i h,
        e,
        laws.tag_lem (b')' ∷ []) (b')' ∷ rest),
      )

  parse-item :
      (c : ℕ) (i : Bytes) (t : Tag)
      → is_alpha c ≡ true
      → item nom (c ∷ i) ≡ ok (b')' ∷ []) t
      → parse nom (b'(' ∷ c ∷ i) ≡ some t
  unfolding parse
  parse-item c i t h e =
      let fuel : 4 * length (b'(' ∷ c ∷ i) + 4 ≡ suc (suc (suc (4 * length i + 9))) = omega arith in
      rw (
        fuel,
        laws.alt_more (filter nom (suc (suc (suc (4 * length i + 9))))) (item nom) []
            (b'(' ∷ c ∷ i),
        filter-item (4 * length i + 9) c i [] t h e,
      )

-- `(attr=value)`.
abbrev pub equality_filter : Bytes → Bytes → Bytes
equality_filter attr val = b'(' ∷ (attr ++ (b'=' ∷ (val ++ (b')' ∷ []))))

module _ (nom : NomComplete) (laws : IsNomComplete nom) where
  -- For an attribute name that is a descriptor (a letter, then letters, digits and hyphens)
  -- and any value that is a valid UTF-8 string, escaping the value with `ldap_escape` does not
  -- panic, and parsing the filter `(attribute=escaped value)` reads all of it and gives
  -- exactly the equality match of that attribute with that value, whatever metacharacters the
  -- value holds.
  pub parse-ldap_escape {ℓ} :
      {E : Type ℓ} (attr v : Bytes)
      → IsDescr attr
      → All IsByte v
      → utf8_valid v ≡ true
      → (ldap_escape {E = E} v >>= λ val. Outcome.ok (parse nom (equality_filter attr val)))
        ≡ Outcome.ok (
            some (
              sequence eq_match context
                (vec (default_octet_string attr ∷ default_octet_string v ∷ []))))
  parse-ldap_escape [] v h hv valid = absurd h
  parse-ldap_escape {E} (c ∷ cs) v h hv valid = rw (
    ldap_escape_lem {E = E} v valid,
    parse-item nom laws c _ _ h.0 (item_lem nom laws c cs v [] h hv),
  )
