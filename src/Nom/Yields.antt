-- ===== src/Nom/Yields.antt =====
-- What holds of the values of a parser, by the combinators that it is made of.
use ldap.Common.{
  ℕ, zero, suc, ◌<◌, ◌≡◌, refl, Bool-cases, inl, inr, Option, none, some, List, [], ◌∷◌, Bytes, All,
  length, arith, ltb, ltb→lt,
}
use ldap.Nom.{
  IResult, ok, incomplete, error, failure, bind, from_option, or_else, round, Parser, NomComplete,
  IsNomComplete,
}

-- The result is a value of which `P` holds, or none.
abbrev pub Yields : {I A : Type 0} → (A → Type 0) → IResult I A → Type 0
Yields P (ok i a) = P a
Yields P incomplete = Unit {0}
Yields P error = Unit {0}
Yields P failure = Unit {0}

pub bind-Yields :
    {I J A B : Type 0} (P : A → Type 0) (Q : B → Type 0) (r : IResult I A) (f : I → A → IResult J B)
    → Yields P r
    → ((i : I) (a : A) → P a → Yields Q (f i a))
    → Yields Q (bind r f)
bind-Yields P Q (ok i a) f h k = k i a h
bind-Yields P Q incomplete f h k = tt
bind-Yields P Q error f h k = tt
bind-Yields P Q failure f h k = tt

any-Yields : {I A : Type 0} (r : IResult I A) → Yields (λ a. Unit {0}) r
any-Yields (ok i a) = tt
any-Yields incomplete = tt
any-Yields error = tt
any-Yields failure = tt

-- A step of which nothing is used.
pub then-Yields :
    {I J A B : Type 0} (Q : B → Type 0) (r : IResult I A) (f : I → A → IResult J B)
    → ((i : I) (a : A) → Yields Q (f i a))
    → Yields Q (bind r f)
then-Yields Q r f k = bind-Yields (λ a. Unit {0}) Q r f (any-Yields r) (λ i a _. k i a)

or_else-Yields :
    {I A : Type 0} (P : A → Type 0) (r s : IResult I A)
    → Yields P r
    → Yields P s
    → Yields P (or_else r s)
or_else-Yields P (ok i a) s hr hs = hr
or_else-Yields P incomplete s hr hs = tt
or_else-Yields P error s hr hs = hs
or_else-Yields P failure s hr hs = tt

from_option-Yields :
    {I A : Type 0} (P : A → Type 0) (i : I) (o : Option A)
    → ((a : A) → o ≡ some a → P a)
    → Yields P (from_option i o)
from_option-Yields P i none h = tt
from_option-Yields P i (some a) h = h a refl

-- Whatever the input is.
abbrev pub Gives : {A : Type 0} → (A → Type 0) → Parser A → Type 0
Gives P p = (i : Bytes) → Yields P (p i)

module _ (nom : NomComplete) (laws : IsNomComplete nom) where
  pub alt-Gives :
      {A : Type 0} (P : A → Type 0) (p : Parser A) (ps : List (Parser A))
      → Gives P p
      → All (Gives P) ps
      → Gives P (nom.alt (p ∷ ps))
  alt-Gives P p [] h hs i = rw (laws.alt_one p i) (h i)
  alt-Gives P p (q ∷ ps) h (hq, hs) i =
      rw (laws.alt_more p q ps i)
        (or_else-Yields P (p i) (nom.alt (q ∷ ps) i) (h i) (alt-Gives P q ps hq hs i))

  pub map-Gives :
      {A B : Type 0} (P : A → Type 0) (Q : B → Type 0) (p : Parser A) (f : A → B)
      → Gives P p
      → ((a : A) → P a → Q (f a))
      → Gives Q (nom.map p f)
  map-Gives P Q p f h k i =
      rw (laws.map_lem p f i) (bind-Yields P Q (p i) (λ j a. ok j (f a)) (h i) (λ j a pa. k a pa))

  -- What passed the test.
  pub map_res-Gives :
      {A B : Type 0} (P : B → Type 0) (p : Parser A) (f : A → Option B)
      → ((a : A) (b : B) → f a ≡ some b → P b)
      → Gives P (nom.map_res p f)
  map_res-Gives P p f k i =
      rw (laws.map_res_lem p f i) (
        then-Yields P (p i) (λ j a. from_option j (f a))
          (λ j a. from_option-Yields P j (f a) (k a)))

  pub preceded-Gives :
      {A B : Type 0} (Q : B → Type 0) (p : Parser A) (q : Parser B)
      → Gives Q q
      → Gives Q (nom.preceded p q)
  preceded-Gives Q p q h i =
      rw (laws.preceded_lem p q i) (then-Yields Q (p i) (λ j a. q j) (λ j a. h j))

  pub delimited-Gives :
      {A B C : Type 0} (Q : B → Type 0) (p : Parser A) (q : Parser B) (r : Parser C)
      → Gives Q q
      → Gives Q (nom.delimited p q r)
  delimited-Gives Q p q r h i = rw (laws.delimited_lem p q r i) (
      then-Yields Q (p i) _ λ j a.
        bind-Yields Q Q (q j) _ (h j) λ k b qb. then-Yields Q (r k) (λ l c. ok l b) (λ l c. qb))

  round-Yields :
      {A B : Type 0} (P : A → Type 0) (Q : B → Type 0) (i : Bytes) (r : IResult Bytes A)
      (stop : IResult Bytes B) (next : Bytes → A → IResult Bytes B)
      → Yields P r
      → Yields Q stop
      → ((j : Bytes) (a : A) → P a → length j < length i → Yields Q (next j a))
      → Yields Q (round i r stop next)
  round-Yields P Q i (ok j a) stop next hr hs k = elim (Bool-cases (ltb (length j) (length i))) [
    | inl less ↦ rw less (k j a hr (ltb→lt (length j) (length i) less))
    | inr same ↦ rw same tt
  ]
  round-Yields P Q i incomplete stop next hr hs k = tt
  round-Yields P Q i error stop next hr hs k = hs
  round-Yields P Q i failure stop next hr hs k = tt

  many0-Yields :
      {A : Type 0} (P : A → Type 0) (p : Parser A) (n : ℕ) (i : Bytes)
      → Gives P p
      → length i < n
      → Yields (All P) (nom.many0 p i)
  many0-Yields P p zero i h short = absurd (omega arith)
  many0-Yields P p (suc n) i h short = rw (laws.many0_lem p i) (
      round-Yields P (All P) i (p i) (ok i []) _ (h i) tt λ j a pa shorter.
        bind-Yields (All P) (All P) (nom.many0 p j) _ (many0-Yields P p n j h (omega arith))
          (λ k more all. (pa, all)))

  pub many0-Gives :
      {A : Type 0} (P : A → Type 0) (p : Parser A) → Gives P p → Gives (All P) (nom.many0 p)
  many0-Gives P p h i = many0-Yields P p (suc (length i)) i h (omega arith)

  pub many1-Gives :
      {A : Type 0} (P : A → Type 0) (p : Parser A) → Gives P p → Gives (All P) (nom.many1 p)
  many1-Gives P p h i = rw (laws.many1_lem p i) (
      round-Yields P (All P) i (p i) error _ (h i) tt λ j a pa shorter.
        bind-Yields (All P) (All P) (nom.many0 p j) _ (many0-Gives P p h j)
          (λ k more all. (pa, all)))
