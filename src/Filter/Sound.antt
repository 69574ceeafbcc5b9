-- ===== src/Filter/Sound.antt =====
-- What the parser of filters returns (src/filter.rs).
use ldap.Common.{
  ℕ, zero, suc, ◌+◌, ◌*◌, ◌≡◌, refl, subst, inl, inr, none, some, List, [], ◌∷◌, Bytes, All, length,
}
use ldap.Nom.{IResult, ok, incomplete, error, failure, NomComplete, IsNomComplete}
use ldap.Nom.Yields.{
  Yields, Gives, bind-Yields, then-Yields, map_res-Gives, alt-Gives, map-Gives, preceded-Gives,
  delimited-Gives, many0-Gives, many1-Gives,
}
use ldap.Ber.Asn.{Tag, vec, default_sequence}
use ldap.Filter.Lexical.{attributedescription, attributetype}
use ldap.Filter.Unescaper.{unescaped}
use ldap.Filter.Items
use ldap.Filter.Grammar
use ldap.Filter.Shape.{
  IsFilter, AreFilters, no_more, one_more, and, or, not_, extensible-IsFilter, filtertag-IsFilter,
  check_parts-IsFilter,
}

All-AreFilters : (ts : List Tag) → All IsFilter ts → AreFilters (vec ts)
All-AreFilters [] all = no_more
All-AreFilters (t ∷ ts) (h, all) = one_more h (All-AreFilters ts all)

-- The parts of an equality or a substring filter, when the test on them is passed.
abbrev IsChecked : List Bytes → Type 0
IsChecked parts = (v : List Bytes) × (Items.check_parts v ≡ some parts)

module _ (nom : NomComplete) (laws : IsNomComplete nom) where
  non_eq-Gives : Gives IsFilter (Items.non_eq nom)
  unfolding Items.non_eq
  non_eq-Gives i = then-Yields IsFilter (attributedescription nom i) _ λ i attr.
      then-Yields IsFilter (nom.alt _ i) _ λ i op.
        then-Yields IsFilter (unescaped nom i) _ λ i value. filtertag-IsFilter attr i op value

  attr_dn_mrule-Gives : Gives IsFilter (Items.attr_dn_mrule nom)
  unfolding Items.attr_dn_mrule
  attr_dn_mrule-Gives i = then-Yields IsFilter (attributedescription nom i) _ λ i attr.
      then-Yields IsFilter (nom.opt _ i) _ λ i dn. then-Yields IsFilter (nom.opt _ i) _ λ i mrule.
        then-Yields IsFilter (nom.tag _ i) _ λ i _.
          then-Yields IsFilter (unescaped nom i) _ λ i value.
            extensible-IsFilter mrule (some attr) value (Items.is_some dn) (inr (λ e. absurd (cc)))

  dn_mrule-Gives : Gives IsFilter (Items.dn_mrule nom)
  unfolding Items.dn_mrule
  dn_mrule-Gives i = then-Yields IsFilter (nom.opt _ i) _ λ i dn.
      then-Yields IsFilter (nom.preceded _ (attributetype nom) i) _ λ i mrule.
        then-Yields IsFilter (nom.tag _ i) _ λ i _.
          then-Yields IsFilter (unescaped nom i) _ λ i value.
            extensible-IsFilter (some mrule) none value (Items.is_some dn) (inl (λ e. absurd (cc)))

  eq-Gives : Gives IsFilter (Items.eq nom)
  unfolding Items.eq
  eq-Gives i = then-Yields IsFilter (attributedescription nom i) _ λ i attr.
      then-Yields IsFilter (nom.tag _ i) _ λ i _.
        then-Yields IsFilter (unescaped nom i) _ λ i initial_.
          bind-Yields IsChecked IsFilter (nom.map_res _ Items.check_parts i) _
            (map_res-Gives nom laws IsChecked _ Items.check_parts (λ v parts e. (v, e)) i)
            (λ j parts (v, e). check_parts-IsFilter attr initial_ v parts e)

  item-Gives : Gives IsFilter (Items.item nom)
  unfolding Items.item Items.extensible
  item-Gives = alt-Gives nom laws IsFilter (Items.eq nom) _ eq-Gives (
    non_eq-Gives,
    (
      alt-Gives nom laws IsFilter (Items.attr_dn_mrule nom) _ attr_dn_mrule-Gives
          (dn_mrule-Gives, tt),
      tt,
    ),
  )

  AllGive : ℕ → Type 0
  AllGive f =
      Gives IsFilter (Grammar.filter nom f)
      × Gives IsFilter (Grammar.filtercomp nom f)
      × Gives (All IsFilter) (Grammar.filterlist nom f)
      × Gives IsFilter (Grammar.and nom f)
      × Gives IsFilter (Grammar.or nom f)
      × Gives IsFilter (Grammar.not nom f)

  all_give : (f : ℕ) → AllGive f
  unfolding AllGive Grammar.filter
  all_give zero = (λ i. tt, λ i. tt, λ i. tt, λ i. tt, λ i. tt, λ i. tt)
  all_give (suc f) =
      let (filter, filtercomp, filterlist, and_, or_, not__) = all_give f in
      (
        delimited-Gives nom laws IsFilter _ (Grammar.filtercomp nom f) _ filtercomp,
        alt-Gives nom laws IsFilter (Grammar.and nom f) _ and_ (or_, (not__, (item-Gives, tt))),
        many0-Gives nom laws IsFilter (Grammar.filter nom f) filter,
        map-Gives nom laws (All IsFilter) IsFilter _ _
            (preceded-Gives nom laws (All IsFilter) _ (Grammar.filterlist nom f) filterlist)
            (λ ts all. and (All-AreFilters ts all)),
        map-Gives nom laws (All IsFilter) IsFilter _ _
            (preceded-Gives nom laws (All IsFilter) _ (Grammar.filterlist nom f) filterlist)
            (λ ts all. or (All-AreFilters ts all)),
        map-Gives nom laws IsFilter IsFilter _ _
            (preceded-Gives nom laws IsFilter _ (Grammar.filter nom f) filter) (λ t h. not_ h),
      )

  filtexpr-Gives : (f : ℕ) → Gives IsFilter (Grammar.filtexpr nom f)
  unfolding Grammar.filtexpr AllGive
  filtexpr-Gives f =
      alt-Gives nom laws IsFilter (Grammar.filter nom f) _ (all_give f).0 (item-Gives, tt)

all_read-Yields :
    (P : Tag → Type 0) (r : IResult Bytes Tag) (t : Tag)
    → Yields P r
    → Grammar.all_read r ≡ some t
    → P t
all_read-Yields P (ok [] t') t h read = subst P (let e : t' ≡ t = cc in e) h
all_read-Yields P (ok (b ∷ r) t') t h read = cc
all_read-Yields P incomplete t h read = cc
all_read-Yields P error t h read = cc
all_read-Yields P failure t h read = cc

-- Whatever the input, a tag that the filter parser returns has the type Filter of RFC 4511: an
-- and or an or of any number of filters, a not of a filter, a comparison of an attribute and a
-- value, a substring match with at least one part, no empty part, an initial part only as the
-- first and a final part only as the last, a presence test, or an extensible match with a rule
-- or an attribute; each with its number and with the class of a context tag.
pub parse-IsFilter :
    (nom : NomComplete) (laws : IsNomComplete nom) (input : Bytes) (t : Tag)
    → Grammar.parse nom input ≡ some t
    → IsFilter t
unfolding Grammar.parse
parse-IsFilter nom laws input t read =
    all_read-Yields IsFilter (Grammar.filtexpr nom (4 * length input + 4) input) t
      (filtexpr-Gives nom laws (4 * length input + 4) input) read

-- A list of filters.
abbrev pub IsFilterList : Tag → Type 0
IsFilterList t = (ts : List Tag) × (t ≡ default_sequence ts) × All IsFilter ts

-- `parse_matched_values` returns a sequence of filters.
pub parse_matched_values-IsFilterList :
    (nom : NomComplete) (laws : IsNomComplete nom) (input : Bytes) (t : Tag)
    → Grammar.parse_matched_values nom input ≡ some t
    → IsFilterList t
unfolding Grammar.parse_matched_values
parse_matched_values-IsFilterList nom laws input t read =
    all_read-Yields IsFilterList (Grammar.mv_filtexpr nom input) t
      (delimited-Gives nom laws IsFilterList _ (Grammar.mv_filterlist nom) _
        (map-Gives nom laws (All IsFilter) IsFilterList (Grammar.mv_filteritems nom) _
          (many1-Gives nom laws IsFilter _
            (delimited-Gives nom laws IsFilter _ (Items.item nom) _ (item-Gives nom laws)))
          (λ ts all. (ts, refl, all)))
        input)
      read
