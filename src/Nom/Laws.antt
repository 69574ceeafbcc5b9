-- ===== src/Nom/Laws.antt =====
-- The interface to nom, and the documented behaviour that the parsers rely on.
use ldap.Common.{
  ℕ, suc, ◌+◌, ◌-◌, ◌/◌, ◌%◌, ◌^◌, ◌≤◌, ◌≡◌, Bool, Option, none, some, List, [], ◌∷◌, Bytes, length,
  take, drop, is_empty, ltb, leb, ◌==◌, if◌then◌else◌, bytes_eq,
}
use ldap.Nom.Ascii.{is_alpha, is_alnum, is_hex, is_digit}

-- `nom::IResult`: the input that is left and a value, or one of the cases of `nom::Err`.
pub data IResult (I A : Type 0) : Type 0 where
  ok : I → A → IResult I A
  incomplete error failure : IResult I A

-- The `?` operator.
abbrev pub bind : {I J A B : Type 0} → IResult I A → (I → A → IResult J B) → IResult J B
bind (ok i a) f = f i a
bind incomplete f = incomplete
bind error f = error
bind failure f = failure

-- A value, or the error of a test that it failed.
abbrev pub from_option : {I A : Type 0} → I → Option A → IResult I A
from_option i none = error
from_option i (some a) = ok i a

-- What follows an error is tried in its place.
abbrev pub or_else : {I A : Type 0} → IResult I A → IResult I A → IResult I A
or_else (ok i a) r = ok i a
or_else error r = r
or_else incomplete r = incomplete
or_else failure r = failure

-- A parser over bytes, and one over bits: the bytes and how many bits of the first are used up.
abbrev pub Parser : Type 0 → Type 0
Parser A = Bytes → IResult Bytes A

abbrev pub BitParser : Type 0 → Type 0
BitParser A = Bytes × ℕ → IResult (Bytes × ℕ) A

-- What lber/src/parse.rs calls.
pub record NomStreaming : Type 1 where
  pub take : ℕ → Parser Bytes
  pub be_u8 : Parser ℕ
  pub bits_take : ℕ → BitParser ℕ
  pub bits : {A : Type 0} → BitParser A → Parser A
  pub map_opt : {I A B : Type 0} → (I → IResult I A) → (A → Option B) → I → IResult I B
  pub tuple : {I A B : Type 0} → (I → IResult I A) → (I → IResult I B) → I → IResult I (A × B)
  pub tuple3 :
      {I A B C : Type 0}
      → (I → IResult I A)
      → (I → IResult I B)
      → (I → IResult I C)
      → I
      → IResult I (A × B × C)

-- The value of `count` bits of the byte `b` from bit `offset` on, highest bit first.
abbrev pub bit_field : ℕ → ℕ → ℕ → ℕ
bit_field b offset count = b / 2 ^ (8 - offset - count) % 2 ^ count

pub record IsNomStreaming (nom : NomStreaming) : Type 1 where
  -- `take` and `be_u8` ask for more input where there is too little.
  pub take_lem :
      (n : ℕ) (i : Bytes)
      → nom.take n i ≡ (if leb n (length i) then ok (drop n i) (take n i) else incomplete)
  pub be_u8-nil : nom.be_u8 [] ≡ incomplete
  pub be_u8-cons : (b : ℕ) (i : Bytes) → nom.be_u8 (b ∷ i) ≡ ok i b
  -- `bits::take` within a byte.
  pub bits_take-nil : (n : ℕ) → nom.bits_take (suc n) ([], 0) ≡ incomplete
  pub bits_take-cons :
      (n b offset : ℕ) (i : Bytes)
      → offset + suc n ≤ 8
      → nom.bits_take (suc n) (b ∷ i, offset) ≡ (
          if offset + suc n == 8
          then ok (i, 0) (bit_field b offset (suc n))
          else ok (b ∷ i, offset + suc n) (bit_field b offset (suc n)))
  -- `bits` starts at a byte's first bit; here it is left at one too.
  pub bits_ok :
      {A : Type 0} (p : BitParser A) (i j : Bytes) (a : A)
      → p (i, 0) ≡ ok (j, 0) a
      → nom.bits p i ≡ ok j a
  pub bits_incomplete :
      {A : Type 0} (p : BitParser A) (i : Bytes) → p (i, 0) ≡ incomplete → nom.bits p i ≡ incomplete
  pub map_opt_lem :
      {I A B : Type 0} (p : I → IResult I A) (f : A → Option B) (i : I)
      → nom.map_opt p f i ≡ bind (p i) (λ j a. from_option j (f a))
  pub tuple_lem :
      {I A B : Type 0} (p : I → IResult I A) (q : I → IResult I B) (i : I)
      → nom.tuple p q i ≡ bind (p i) (λ j a. bind (q j) (λ k b. ok k (a, b)))
  pub tuple3_lem :
      {I A B C : Type 0} (p : I → IResult I A) (q : I → IResult I B) (r : I → IResult I C) (i : I)
      → nom.tuple3 p q r i
        ≡ bind (p i) (λ j a. bind (q j) (λ k b. bind (r k) (λ l c. ok l (a, b, c))))

-- What src/filter.rs calls.
pub record NomComplete : Type 1 where
  pub tag : Bytes → Parser Bytes
  pub take_while : (ℕ → Bool) → Parser Bytes
  pub take_while1 : (ℕ → Bool) → Parser Bytes
  pub digit1 : Parser Bytes
  pub be_u8 : Parser ℕ
  pub alt : {A : Type 0} → List (Parser A) → Parser A
  pub map : {A B : Type 0} → Parser A → (A → B) → Parser B
  pub map_res : {A B : Type 0} → Parser A → (A → Option B) → Parser B
  pub opt : {A : Type 0} → Parser A → Parser (Option A)
  pub recognize : {A : Type 0} → Parser A → Parser Bytes
  pub verify : {A : Type 0} → Parser A → (A → Bool) → Parser A
  pub fold_many0 : {A R : Type 0} → Parser A → R → (R → A → R) → Parser R
  pub many0 : {A : Type 0} → Parser A → Parser (List A)
  pub many1 : {A : Type 0} → Parser A → Parser (List A)
  pub delimited : {A B C : Type 0} → Parser A → Parser B → Parser C → Parser B
  pub preceded : {A B : Type 0} → Parser A → Parser B → Parser B
  pub is_alphabetic : ℕ → Bool
  pub is_alphanumeric : ℕ → Bool
  pub is_hex_digit : ℕ → Bool

-- The longest prefix whose bytes pass a test, and what follows it.
abbrev pub prefix_while : (ℕ → Bool) → Bytes → Bytes
prefix_while p [] = []
prefix_while p (b ∷ i) = if p b then b ∷ prefix_while p i else []

abbrev pub rest_while : (ℕ → Bool) → Bytes → Bytes
rest_while p [] = []
rest_while p (b ∷ i) = if p b then rest_while p i else b ∷ i

-- `tag` at the front of the input.
abbrev pub starts_with : Bytes → Bytes → Bool
starts_with t i = bytes_eq (take (length t) i) t

-- A round of `many0` and `fold_many0`: an error of the parser ends the loop with `stop`, and a
-- parser that takes nothing is an error. (A parser never leaves more than it was given.)
abbrev pub round :
    {A B : Type 0}
    → Bytes
    → IResult Bytes A
    → IResult Bytes B
    → (Bytes → A → IResult Bytes B)
    → IResult Bytes B
round i (ok j a) stop next = if ltb (length j) (length i) then next j a else error
round i error stop next = stop
round i incomplete stop next = incomplete
round i failure stop next = failure

pub record IsNomComplete (nom : NomComplete) : Type 1 where
  pub tag_lem :
      (t i : Bytes) → nom.tag t i ≡ (if starts_with t i then ok (drop (length t) i) t else error)
  pub take_while_lem :
      (p : ℕ → Bool) (i : Bytes) → nom.take_while p i ≡ ok (rest_while p i) (prefix_while p i)
  pub take_while1_lem :
      (p : ℕ → Bool) (i : Bytes)
      → nom.take_while1 p i
        ≡ (if is_empty (prefix_while p i) then error else ok (rest_while p i) (prefix_while p i))
  pub digit1_lem :
      (i : Bytes)
      → nom.digit1 i ≡ (
          if is_empty (prefix_while is_digit i)
          then error
          else ok (rest_while is_digit i) (prefix_while is_digit i))
  pub be_u8-nil : nom.be_u8 [] ≡ error
  pub be_u8-cons : (b : ℕ) (i : Bytes) → nom.be_u8 (b ∷ i) ≡ ok i b
  pub alt_one : {A : Type 0} (p : Parser A) (i : Bytes) → nom.alt (p ∷ []) i ≡ p i
  pub alt_more :
      {A : Type 0} (p q : Parser A) (ps : List (Parser A)) (i : Bytes)
      → nom.alt (p ∷ q ∷ ps) i ≡ or_else (p i) (nom.alt (q ∷ ps) i)
  pub map_lem :
      {A B : Type 0} (p : Parser A) (f : A → B) (i : Bytes)
      → nom.map p f i ≡ bind (p i) (λ j a. ok j (f a))
  pub map_res_lem :
      {A B : Type 0} (p : Parser A) (f : A → Option B) (i : Bytes)
      → nom.map_res p f i ≡ bind (p i) (λ j a. from_option j (f a))
  pub opt_lem :
      {A : Type 0} (p : Parser A) (i : Bytes)
      → nom.opt p i ≡ or_else (bind (p i) (λ j a. ok j (some a))) (ok i none)
  pub recognize_lem :
      {A : Type 0} (p : Parser A) (i : Bytes)
      → nom.recognize p i ≡ bind (p i) (λ j a. ok j (take (length i - length j) i))
  pub verify_lem :
      {A : Type 0} (p : Parser A) (f : A → Bool) (i : Bytes)
      → nom.verify p f i ≡ bind (p i) (λ j a. if f a then ok j a else error)
  pub fold_many0_lem :
      {A R : Type 0} (p : Parser A) (r : R) (f : R → A → R) (i : Bytes)
      → nom.fold_many0 p r f i ≡ round i (p i) (ok i r) (λ j a. nom.fold_many0 p (f r a) f j)
  pub many0_lem :
      {A : Type 0} (p : Parser A) (i : Bytes)
      → nom.many0 p i
        ≡ round i (p i) (ok i []) (λ j a. bind (nom.many0 p j) (λ k more. ok k (a ∷ more)))
  pub many1_lem :
      {A : Type 0} (p : Parser A) (i : Bytes)
      → nom.many1 p i
        ≡ round i (p i) error (λ j a. bind (nom.many0 p j) (λ k more. ok k (a ∷ more)))
  pub delimited_lem :
      {A B C : Type 0} (p : Parser A) (q : Parser B) (r : Parser C) (i : Bytes)
      → nom.delimited p q r i ≡ bind (p i) (λ j a. bind (q j) (λ k b. bind (r k) (λ l c. ok l b)))
  pub preceded_lem :
      {A B : Type 0} (p : Parser A) (q : Parser B) (i : Bytes)
      → nom.preceded p q i ≡ bind (p i) (λ j a. q j)
  pub is_alphabetic_lem : (c : ℕ) → nom.is_alphabetic c ≡ is_alpha c
  pub is_alphanumeric_lem : (c : ℕ) → nom.is_alphanumeric c ≡ is_alnum c
  pub is_hex_digit_lem : (c : ℕ) → nom.is_hex_digit c ≡ is_hex c
