-- ===== src/Nom/Concrete.antt =====
-- Values of the two interfaces, which show that the stated behaviour can be had; the tests run on
-- them.
use ldap.Common.{
  ℕ, zero, suc, ◌+◌, ◌-◌, ◌<◌, ◌≡◌, refl, ap, none, some, List, [], ◌∷◌, Bytes, length, take, drop,
  is_empty, ltb, leb, ◌==◌, if◌then◌else◌, arith, Bool-cases, inl, inr, ltb→lt,
}
use ldap.Nom.Ascii.{is_alpha, is_alnum, is_hex, is_digit}
use ldap.Nom.Laws.{
  IResult, ok, incomplete, error, failure, bind, from_option, or_else, Parser, BitParser,
  NomStreaming, IsNomStreaming, bit_field, NomComplete, IsNomComplete, prefix_while, rest_while,
  starts_with, round,
}

abbrev bits_field : ℕ → BitParser ℕ
bits_field n ([], offset) = incomplete
bits_field n (b ∷ i, offset) =
    if offset + n == 8
    then ok (i, 0) (bit_field b offset n)
    else ok (b ∷ i, offset + n) (bit_field b offset n)

abbrev from_bits : {A : Type 0} → BitParser A → Parser A
from_bits p i = elim (p (i, 0)) [
  | ok (j, offset) a ↦ ok (if offset == 0 then j else drop 1 j) a
  | incomplete ↦ incomplete
  | error ↦ error
  | failure ↦ failure
]

abbrev head_byte : IResult Bytes ℕ → Parser ℕ
head_byte r [] = r
head_byte r (b ∷ i) = ok i b

abbrev pub streaming : NomStreaming
streaming = record {
  take = λ n i. if leb n (length i) then ok (drop n i) (take n i) else incomplete;
  be_u8 = head_byte incomplete;
  bits_take = bits_field;
  bits = from_bits;
  map_opt = λ p f i. bind (p i) (λ j a. from_option j (f a));
  tuple = λ p q i. bind (p i) (λ j a. bind (q j) (λ k b. ok k (a, b)));
  tuple3 = λ p q r i. bind (p i) (λ j a. bind (q j) (λ k b. bind (r k) (λ l c. ok l (a, b, c))));
}

pub streaming-IsNomStreaming : IsNomStreaming streaming
streaming-IsNomStreaming = record {
  take_lem = λ n i. refl;
  be_u8-nil = refl;
  be_u8-cons = λ b i. refl;
  bits_take-nil = λ n. refl;
  bits_take-cons = λ n b offset i h. refl;
  bits_ok = λ p i j a e. rw (e, from_bits);
  bits_incomplete = λ p i e. rw (e, from_bits);
  map_opt_lem = λ p f i. refl;
  tuple_lem = λ p q i. refl;
  tuple3_lem = λ p q r i. refl;
}

round_congr :
    {A B : Type 0} (i : Bytes) (x : IResult Bytes A) (stop : IResult Bytes B)
    (f g : Bytes → A → IResult Bytes B)
    → ((j : Bytes) (a : A) → length j < length i → f j a ≡ g j a)
    → round i x stop f ≡ round i x stop g
round_congr i (ok j a) stop f g h = elim (Bool-cases (ltb (length j) (length i))) [
  | inl e ↦ rw (e, h j a (ltb→lt _ _ e))
  | inr e ↦ rw e
]
round_congr i error stop f g h = refl
round_congr i incomplete stop f g h = refl
round_congr i failure stop f g h = refl

-- `many0` and `fold_many0`, on fuel above the length of the input.
module _ {A R : Type 0} (p : Parser A) (f : R → A → R) where
  unfoldable pub fold_run : ℕ → R → Parser R
  fold_run zero r i = error
  fold_run (suc n) r i = round i (p i) (ok i r) (λ j a. fold_run n (f r a) j)

  fold_run_fuel :
      (n m : ℕ) (r : R) (i : Bytes) → length i < n → length i < m → fold_run n r i ≡ fold_run m r i
  unfolding fold_run
  fold_run_fuel zero m r i h k = absurd (omega arith)
  fold_run_fuel (suc n) zero r i h k = absurd (omega arith)
  fold_run_fuel (suc n) (suc m) r i h k =
      round_congr i (p i) _ _ _ λ j a l. fold_run_fuel n m (f r a) j (omega arith) (omega arith)

module _ {A : Type 0} (p : Parser A) where
  abbrev consed : A → Bytes → List A → IResult Bytes (List A)
  consed a k more = ok k (a ∷ more)

  unfoldable pub many_run : ℕ → Parser (List A)
  many_run zero i = error
  many_run (suc n) i = round i (p i) (ok i []) (λ j a. bind (many_run n j) (consed a))

  many_run_fuel : (n m : ℕ) (i : Bytes) → length i < n → length i < m → many_run n i ≡ many_run m i
  unfolding many_run
  many_run_fuel zero m i h k = absurd (omega arith)
  many_run_fuel (suc n) zero i h k = absurd (omega arith)
  many_run_fuel (suc n) (suc m) i h k =
      round_congr i (p i) _ _ _
        λ j a l. ap (λ r. bind r (consed a)) (many_run_fuel n m j (omega arith) (omega arith))

abbrev choice : {A : Type 0} → List (Parser A) → Parser A
choice [] i = error
choice (p ∷ []) i = p i
choice (p ∷ (q ∷ ps)) i = or_else (p i) (choice (q ∷ ps) i)

abbrev pub complete : NomComplete
complete = record {
  tag = λ t i. if starts_with t i then ok (drop (length t) i) t else error;
  take_while = λ p i. ok (rest_while p i) (prefix_while p i);
  take_while1 =
      λ p i. if is_empty (prefix_while p i) then error else ok (rest_while p i) (prefix_while p i);
  digit1 = λ i.
      if is_empty (prefix_while is_digit i)
      then error
      else ok (rest_while is_digit i) (prefix_while is_digit i);
  be_u8 = head_byte error;
  alt = choice;
  map = λ p f i. bind (p i) (λ j a. ok j (f a));
  map_res = λ p f i. bind (p i) (λ j a. from_option j (f a));
  opt = λ p i. or_else (bind (p i) (λ j a. ok j (some a))) (ok i none);
  recognize = λ p i. bind (p i) (λ j a. ok j (take (length i - length j) i));
  verify = λ p f i. bind (p i) (λ j a. if f a then ok j a else error);
  fold_many0 = λ p r f i. fold_run p f (suc (length i)) r i;
  many0 = λ p i. many_run p (suc (length i)) i;
  many1 = λ p i. round i (p i) error (λ j a. bind (many_run p (suc (length j)) j) (consed p a));
  delimited = λ p q r i. bind (p i) (λ j a. bind (q j) (λ k b. bind (r k) (λ l c. ok l b)));
  preceded = λ p q i. bind (p i) (λ j a. q j);
  is_alphabetic = is_alpha;
  is_alphanumeric = is_alnum;
  is_hex_digit = is_hex;
}

pub complete-IsNomComplete : IsNomComplete complete
unfolding fold_run many_run
complete-IsNomComplete = record {
  tag_lem = λ t i. refl;
  take_while_lem = λ p i. refl;
  take_while1_lem = λ p i. refl;
  digit1_lem = λ i. refl;
  be_u8-nil = refl;
  be_u8-cons = λ b i. refl;
  alt_one = λ p i. refl;
  alt_more = λ p q ps i. refl;
  map_lem = λ p f i. refl;
  map_res_lem = λ p f i. refl;
  opt_lem = λ p i. refl;
  recognize_lem = λ p i. refl;
  verify_lem = λ p f i. refl;
  fold_many0_lem = λ p r f i.
      round_congr i (p i) _ _ _ λ j a l.
        fold_run_fuel p f (length i) (suc (length j)) (f r a) j (omega arith) (omega arith);
  many0_lem = λ p i. round_congr i (p i) _ _ _ λ j a l.
      ap (λ r. bind r (consed p a))
        (many_run_fuel p (length i) (suc (length j)) j (omega arith) (omega arith));
  many1_lem = λ p i. refl;
  delimited_lem = λ p q r i. refl;
  preceded_lem = λ p q i. refl;
  is_alphabetic_lem = λ c. refl;
  is_alphanumeric_lem = λ c. refl;
  is_hex_digit_lem = λ c. refl;
}
