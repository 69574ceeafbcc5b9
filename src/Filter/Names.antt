-- ===== src/Filter/Names.antt =====
-- Attribute names and equality items (src/filter.rs, src/util.rs).
use ldap.Common.{
  ℕ, ◌-◌, ◌≡◌, refl, ap, ◌∙◌, Bool, true, false, [], ◌∷◌, ◌++◌, Bytes, length, take, arith,
  length-append, take-append, fun_ext, ◌==◌, All, ◌||◌,
}
use ldap.Nom.{NomComplete, IsNomComplete, ok, error, Parser, prefix_while, rest_while, starts_with}
use ldap.Nom.Ascii.{is_alpha, is_alnum, is_digit}
use ldap.Ber.Total.{IsByte}
use ldap.Ber.Structure.{context}
use ldap.Ber.Asn.{sequence, vec, default_octet_string}
use ldap.Filter.Unescaper.{is_value_char, unescaped}
use ldap.Filter.Lexical.{
  is_alnum_hyphen, number, descr, numericoid, attributetype, attributedescription,
}
use ldap.Filter.Items.{eq, item, eq_match, check_parts}
use ldap.Util.Flat.{escaped}
use ldap.Filter.Literal.{needs, unescaped-escaped}

-- A short name: a letter, and letters, digits and hyphens (src/filter.rs, `descr`).
abbrev pub name_char : ℕ → Bool
name_char c = is_alnum c || (c == b'-')

abbrev pub IsDescr : Bytes → Type 0
IsDescr [] = ⊥
IsDescr (c ∷ cs) = (is_alpha c ≡ true) × All (λ d. name_char d ≡ true) cs

prefix-append :
    (p : ℕ → Bool) (cs rest : Bytes)
    → All (λ d. p d ≡ true) cs
    → prefix_while p rest ≡ []
    → rest_while p rest ≡ rest
    → (prefix_while p (cs ++ rest) ≡ cs) × (rest_while p (cs ++ rest) ≡ rest)
prefix-append p [] rest h e f = (e, f)
prefix-append p (c ∷ cs) rest h e f =
    let (e', f') = prefix-append p cs rest h.1 e f in (rw (h.0, e'), rw (h.0, f'))

recognized : (xs rest : Bytes) → take (length (xs ++ rest) - length rest) (xs ++ rest) ≡ xs
recognized xs rest =
    let e : length (xs ++ rest) - length rest ≡ length xs = omega (arith, length-append xs rest) in
    rw e (take-append xs rest)

-- What is no digit, no separator and no opening bracket.
alpha_no_digit : (c : ℕ) → is_alpha c ≡ true → is_digit c ≡ false
alpha_no_digit c h = ground arith

module _ (nom : NomComplete) (laws : IsNomComplete nom) where
  number_alpha : (c : ℕ) (i : Bytes) → is_alpha c ≡ true → number nom (c ∷ i) ≡ error
  unfolding number
  number_alpha c i h =
      laws.verify_lem nom.digit1 _ (c ∷ i) ∙ rw (laws.digit1_lem (c ∷ i), alpha_no_digit c h)

  numericoid_alpha : (c : ℕ) (i : Bytes) → is_alpha c ≡ true → numericoid nom (c ∷ i) ≡ error
  unfolding numericoid
  numericoid_alpha c i h = laws.recognize_lem _ (c ∷ i) ∙ rw (number_alpha c i h)

  alnum_hyphen_lem : (c : ℕ) → is_alnum_hyphen nom c ≡ name_char c
  unfolding is_alnum_hyphen
  alnum_hyphen_lem c = rw (laws.is_alphanumeric_lem c)

  descr_lem :
      (c : ℕ) (cs rest : Bytes)
      → IsDescr (c ∷ cs)
      → descr nom (c ∷ (cs ++ (b'=' ∷ rest))) ≡ ok (b'=' ∷ rest) (c ∷ cs)
  unfolding descr
  descr_lem c cs rest h =
      laws.recognize_lem _ (c ∷ (cs ++ (b'=' ∷ rest)))
      ∙ rw
          (
            laws.verify_lem nom.be_u8 nom.is_alphabetic,
            laws.be_u8-cons c (cs ++ (b'=' ∷ rest)),
            laws.is_alphabetic_lem c,
            h.0,
            fun_ext alnum_hyphen_lem,
            laws.take_while_lem name_char (cs ++ (b'=' ∷ rest)),
            (prefix-append name_char cs (b'=' ∷ rest) h.1 refl refl).1,
          )
          (ap (ok (b'=' ∷ rest)) (recognized (c ∷ cs) (b'=' ∷ rest)))

  attributetype_lem :
      (c : ℕ) (cs rest : Bytes)
      → IsDescr (c ∷ cs)
      → attributetype nom (c ∷ (cs ++ (b'=' ∷ rest))) ≡ ok (b'=' ∷ rest) (c ∷ cs)
  unfolding attributetype
  attributetype_lem c cs rest h =
      laws.alt_more (numericoid nom) (descr nom) [] (c ∷ (cs ++ (b'=' ∷ rest)))
      ∙ rw (
        numericoid_alpha c (cs ++ (b'=' ∷ rest)) h.0,
        laws.alt_one (descr nom) (c ∷ (cs ++ (b'=' ∷ rest))),
        descr_lem c cs rest h,
      )

  -- A parser behind a `tag` that does not stand in front.
  pub no_option :
      {A : Type 0} (t : Bytes) (p : Parser A) (i : Bytes)
      → starts_with t i ≡ false
      → nom.preceded (nom.tag t) p i ≡ error
  no_option t p i h = laws.preceded_lem (nom.tag t) p i ∙ rw (laws.tag_lem t i, h)

  attributedescription_lem :
      (c : ℕ) (cs rest : Bytes)
      → IsDescr (c ∷ cs)
      → attributedescription nom (c ∷ (cs ++ (b'=' ∷ rest))) ≡ ok (b'=' ∷ rest) (c ∷ cs)
  unfolding attributedescription
  attributedescription_lem c cs rest h =
      laws.recognize_lem _ (c ∷ (cs ++ (b'=' ∷ rest)))
      ∙ rw
          (
            attributetype_lem c cs rest h,
            laws.many0_lem _ (b'=' ∷ rest),
            no_option (b';' ∷ []) (nom.take_while1 (is_alnum_hyphen nom)) (b'=' ∷ rest) refl,
          )
          (ap (ok (b'=' ∷ rest)) (recognized (c ∷ cs) (b'=' ∷ rest)))

  -- What ends a filter stops the value, and starts no further part.
  eq_lem :
      (c : ℕ) (cs v rest : Bytes)
      → IsDescr (c ∷ cs)
      → All IsByte v
      → eq nom (c ∷ (cs ++ (b'=' ∷ (escaped needs 0 v ++ (b')' ∷ rest)))))
        ≡ ok (b')' ∷ rest) (
            sequence eq_match context
              (vec (default_octet_string (c ∷ cs) ∷ default_octet_string v ∷ [])))
  unfolding eq
  eq_lem c cs v rest h hv =
      let i = escaped needs 0 v ++ (b')' ∷ rest) in
      rw (
        attributedescription_lem c cs i h,
        laws.tag_lem (b'=' ∷ []) (b'=' ∷ i),
        unescaped-escaped nom laws v (b')' ∷ rest) hv (unfold is_value_char in refl),
        laws.map_res_lem (nom.many0 (nom.preceded (nom.tag (b'*' ∷ [])) (unescaped nom)))
            check_parts,
        laws.many0_lem (nom.preceded (nom.tag (b'*' ∷ [])) (unescaped nom)) (b')' ∷ rest),
        no_option (b'*' ∷ []) (unescaped nom) (b')' ∷ rest) refl,
      )

  pub item_lem :
      (c : ℕ) (cs v rest : Bytes)
      → IsDescr (c ∷ cs)
      → All IsByte v
      → item nom (c ∷ (cs ++ (b'=' ∷ (escaped needs 0 v ++ (b')' ∷ rest)))))
        ≡ ok (b')' ∷ rest) (
            sequence eq_match context
              (vec (default_octet_string (c ∷ cs) ∷ default_octet_string v ∷ [])))
  unfolding item
  item_lem c cs v rest h hv =
      laws.alt_more (eq nom) _ _ (c ∷ (cs ++ (b'=' ∷ (escaped needs 0 v ++ (b')' ∷ rest)))))
      ∙ rw (eq_lem c cs v rest h hv)
