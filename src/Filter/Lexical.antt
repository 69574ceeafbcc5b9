-- ===== src/Filter/Lexical.antt =====
-- src/filter.rs: attribute descriptions, object identifiers and names.
use ldap.Common.{ℕ, Bool, ◌||◌, not, [], ◌∷◌, Bytes, length, ◌==◌}
use ldap.Nom.{ok, bind, Parser, NomComplete}

-- `d[0] != b'0'`.
abbrev pub head_ne : ℕ → Bytes → Bool
head_ne b [] = Bool.true
head_ne b (d ∷ ds) = not (d == b)

module _ (nom : NomComplete) where
  unfoldable pub is_alnum_hyphen : ℕ → Bool
  is_alnum_hyphen c = nom.is_alphanumeric c || (c == b'-')

  -- A number may be zero, but must not have superfluous leading zeroes.
  unfoldable pub number : Parser Bytes
  number = nom.verify nom.digit1 (λ d. (length d == 1) || head_ne b'0' d)

  unfoldable pub descr : Parser Bytes
  unfolding is_alnum_hyphen
  descr = nom.recognize λ i.
      bind (nom.verify nom.be_u8 nom.is_alphabetic i)
        λ i _. bind (nom.take_while is_alnum_hyphen i) λ i _. ok i (tt {0})

  unfoldable pub numericoid : Parser Bytes
  unfolding number
  numericoid = nom.recognize λ i.
      bind (number i)
        λ i _. bind (nom.many0 (nom.preceded (nom.tag (b'.' ∷ [])) number) i) λ i _. ok i (tt {0})

  unfoldable pub attributetype : Parser Bytes
  unfolding numericoid descr
  attributetype = nom.alt (numericoid ∷ descr ∷ [])

  unfoldable pub attributedescription : Parser Bytes
  unfolding attributetype is_alnum_hyphen
  attributedescription = nom.recognize λ i. bind (attributetype i) λ i _.
      bind (nom.many0 (nom.preceded (nom.tag (b';' ∷ [])) (nom.take_while1 is_alnum_hyphen)) i)
        λ i _. ok i (tt {0})
