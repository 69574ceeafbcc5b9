-- ===== src/Filter/Grammar.antt =====
-- src/filter.rs: filters built of filters, and the two entry points.
use ldap.Common.{
  ℕ, zero, suc, ◌+◌, ◌*◌, Option, none, some, List, [], ◌∷◌, Bytes, length, is_empty, if◌then◌else◌,
}
use ldap.Nom.{IResult, ok, incomplete, error, failure, Parser, NomComplete}
use ldap.Ber.Structure.{context}
use ldap.Ber.Asn.{Tag, sequence, explicit_tag, vec, default_sequence}
use ldap.Filter.Items.{item}

abbrev pub and_filt : ℕ
and_filt = 0

abbrev pub or_filt : ℕ
or_filt = 1

abbrev pub not_filt : ℕ
not_filt = 2

-- The whole input has to be read.
abbrev pub all_read : IResult Bytes Tag → Option Tag
all_read (ok r t) = if is_empty r then some t else none
all_read incomplete = none
all_read error = none
all_read failure = none

module _ (nom : NomComplete) where
  -- Each call takes a unit of fuel; `failure` where there is none.
  unfoldable mutual
    pub filter : ℕ → Parser Tag
    filter zero i = failure
    filter (suc f) i = nom.delimited (nom.tag (b'(' ∷ [])) (filtercomp f) (nom.tag (b')' ∷ [])) i

    pub filtercomp : ℕ → Parser Tag
    filtercomp zero i = failure
    filtercomp (suc f) i = nom.alt (and f ∷ or f ∷ not f ∷ item nom ∷ []) i

    pub filterlist : ℕ → Parser (List Tag)
    filterlist zero i = failure
    filterlist (suc f) i = nom.many0 (filter f) i

    pub and : ℕ → Parser Tag
    and zero i = failure
    and (suc f) i =
        nom.map (nom.preceded (nom.tag (b'&' ∷ [])) (filterlist f))
          (λ tagv. sequence and_filt context (vec tagv)) i

    pub or : ℕ → Parser Tag
    or zero i = failure
    or (suc f) i =
        nom.map (nom.preceded (nom.tag (b'|' ∷ [])) (filterlist f))
          (λ tagv. sequence or_filt context (vec tagv)) i

    pub not : ℕ → Parser Tag
    not zero i = failure
    not (suc f) i =
        nom.map (nom.preceded (nom.tag (b'!' ∷ [])) (filter f))
          (λ tag. explicit_tag not_filt context tag) i

  unfoldable pub filtexpr : ℕ → Parser Tag
  unfolding filter
  filtexpr f = nom.alt (filter f ∷ item nom ∷ [])

  -- A filter nests at most once for each byte, and each level takes four calls.
  unfoldable pub parse : Bytes → Option Tag
  unfolding filtexpr
  parse input = all_read (filtexpr (4 * length input + 4) input)

  unfoldable pub mv_filteritems : Parser (List Tag)
  mv_filteritems = nom.many1 (nom.delimited (nom.tag (b'(' ∷ [])) (item nom) (nom.tag (b')' ∷ [])))

  unfoldable pub mv_filterlist : Parser Tag
  unfolding mv_filteritems
  mv_filterlist = nom.map mv_filteritems default_sequence

  unfoldable pub mv_filtexpr : Parser Tag
  unfolding mv_filterlist
  mv_filtexpr = nom.delimited (nom.tag (b'(' ∷ [])) mv_filterlist (nom.tag (b')' ∷ []))

  unfoldable pub parse_matched_values : Bytes → Option Tag
  unfolding mv_filtexpr
  parse_matched_values input = all_read (mv_filtexpr input)
