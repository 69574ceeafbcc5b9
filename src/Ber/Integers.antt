-- ===== src/Ber/Integers.antt =====
-- The integer octets that lber/src/structures/integer.rs writes, against two's complement.
use ldap.Common.{
  ℕ, zero, suc, ◌+◌, ◌-◌, ◌*◌, ◌/◌, ◌%◌, ◌^◌, ◌≤◌, ◌<◌, ◌≡◌, refl, ◌∙◌, ap, [], ◌∷◌, Bytes, length,
  drop, arith, ltb, Bool-cases, inl, inr, if◌then◌else◌, ◌==◌, le→ltb_false, Bool, true, false,
  ◌&&◌, ◌⊎◌,
}
use ldap.Common.Int.{ℤ, pos, negsuc}
use ldap.Common.{bytes_eq, bytes_eq→eq}
use ldap.Common.Bits.{every_below, every_below-lookup}
use ldap.Ber.Write.{to_be_bytes, count_octets}
use ldap.Ber.Octets.{
  length-to_be_bytes, drop-to_be_bytes, shift_octet, pow_pos, parse_uint-to_be_bytes,
  count_octets_bounds,
}
use ldap.Ber.Parse.{parse_uint}
use native.Mathlib.Nat.{pow-suc, mod-eq_of_lt, div-lt_iff_lt-mul}
use ldap.Ber.Asn.{count_rem, integer_octets}

-- X.690, 8.3: the contents octets of an integer are its two's complement.
abbrev pub base256 : ℕ → Bytes → ℕ
base256 acc [] = acc
base256 acc (b ∷ bs) = base256 (acc * 256 + b) bs

abbrev pub is_negative : Bytes → Bool
is_negative [] = false
is_negative (b ∷ bs) = ltb 127 b

unfoldable pub twos_complement : Bytes → ℤ
twos_complement bs =
    if is_negative bs then negsuc (256 ^ length bs - 1 - base256 0 bs) else pos (base256 0 bs)

count_rem-pos : (f n : ℕ) → count_rem f (pos n) ≡ count_octets f n
unfolding count_rem count_octets
count_rem-pos zero n = refl
count_rem-pos (suc f) n = ap (λ x. if ltb 0 (n / 256) then suc x else 1) (count_rem-pos f (n / 256))

pub base256-to_be_bytes :
    (k n acc : ℕ) → base256 acc (to_be_bytes k n) ≡ acc * 256 ^ k + n % 256 ^ k
unfolding to_be_bytes
base256-to_be_bytes zero n acc = omega arith
base256-to_be_bytes (suc k) n acc =
    base256-to_be_bytes k n (acc * 256 + n / 256 ^ k % 256) ∙ shift_octet k n acc

half_room : (p n : ℕ) → n < 128 * p → n < p * 256
half_room p n h = omega arith

-- Big-endian octets whose top bit is clear stand for the number itself.
twos_complement-to_be_bytes :
    (k n : ℕ) → n < 128 * 256 ^ k → twos_complement (to_be_bytes (suc k) n) ≡ pos n
unfolding twos_complement
twos_complement-to_be_bytes k n h = rw (clear, value) refl
  where
    top : n / 256 ^ k < 128
    top = (div-lt_iff_lt-mul (pow_pos k)).1 h

    clear : is_negative (to_be_bytes (suc k) n) ≡ false
    clear = unfold to_be_bytes in le→ltb_false 127 (n / 256 ^ k % 256) (omega (arith, top))

    fits : n < 256 ^ suc k
    fits = rw (pow-suc 256 k) (half_room (256 ^ k) n h)

    value : base256 0 (to_be_bytes (suc k) n) ≡ n
    value = base256-to_be_bytes (suc k) n 0 ∙ omega (arith, mod-eq_of_lt fits)

-- The test of `i_e_into_structure` for a number that is not negative: its highest octet would
-- have the top bit set.
abbrev top_bit_set : ℕ → ℕ → Bool
top_bit_set c n = ltb 0 n && (n / 2 ^ (8 * c - 1) == 1)

-- One less than the number of octets that it settles on.
abbrev last_octet : ℕ → ℕ → ℕ
last_octet c n = if top_bit_set c n then c else c - 1

-- At most eight octets, the top bit clear, and no shorter form.
record Fits (n c : ℕ) : Type 0 where
  small : c ≤ 7
  clear : n < 128 * 256 ^ c
  tight : (c ≡ 0) ⊎ (128 * 256 ^ (c - 1) ≤ n)

last_octet-Fits :
    (c n : ℕ)
    → n < 2 ^ 63
    → 1 ≤ c
    → c ≤ 8
    → n < 256 ^ c
    → (c ≡ 1) ⊎ (256 ^ (c - 1) ≤ n)
    → Fits n (last_octet c n)
last_octet-Fits zero n h lo hi fits low = absurd (omega arith)
last_octet-Fits (suc zero) n h lo hi fits low = ground arith
last_octet-Fits (suc (suc zero)) n h lo hi fits low = ground arith
last_octet-Fits (suc (suc (suc zero))) n h lo hi fits low = ground arith
last_octet-Fits (suc (suc (suc (suc zero)))) n h lo hi fits low = ground arith
last_octet-Fits (suc (suc (suc (suc (suc zero))))) n h lo hi fits low = ground arith
last_octet-Fits (suc (suc (suc (suc (suc (suc zero)))))) n h lo hi fits low = ground arith
last_octet-Fits (suc (suc (suc (suc (suc (suc (suc zero))))))) n h lo hi fits low = ground arith
last_octet-Fits (suc (suc (suc (suc (suc (suc (suc (suc zero)))))))) n h lo hi fits low =
    ground arith
last_octet-Fits (suc (suc (suc (suc (suc (suc (suc (suc (suc c))))))))) n h lo hi fits low =
    absurd (omega arith)

deeper : (c m : ℕ) → 0 < m / 256 → (c ≤ 1) ⊎ (256 ^ (c - 1) ≤ m / 256) → 256 ^ (suc c - 1) ≤ m
deeper zero m h low = omega arith
deeper (suc zero) m h low = omega arith
deeper (suc (suc c)) m h (inl e) = absurd (omega arith)
deeper (suc (suc c)) m h (inr e) =
    let up : suc (suc (suc c)) - 1 ≡ suc (suc c) = omega arith in
    let down : suc (suc c) - 1 ≡ suc c = omega arith in
    let low : 256 ^ suc c ≤ m / 256 = rw down at e in
    rw (up, pow-suc 256 (suc c)) (omega (arith, low))

count_octets_low : (f n : ℕ) → (count_octets f n ≤ 1) ⊎ (256 ^ (count_octets f n - 1) ≤ n)
unfolding count_octets
count_octets_low zero n = inl (omega arith)
count_octets_low (suc f) n = elim (Bool-cases (ltb 0 (n / 256))) [
  | inl e ↦
      rw e (inr (deeper (count_octets f (n / 256)) n (ground arith) (count_octets_low f (n / 256))))
  | inr e ↦ rw e (inl (omega arith))
]

octets-Fits : (n : ℕ) → n < 2 ^ 63 → Fits n (last_octet (count_octets 8 n) n)
octets-Fits n h =
    let (lo, hi, fits) = count_octets_bounds 7 n (omega arith) in
    last_octet-Fits (count_octets 8 n) n h lo hi fits (at_least lo (count_octets_low 8 n))
  where
    at_least : {c : ℕ} → 1 ≤ c → (c ≤ 1) ⊎ (256 ^ (c - 1) ≤ n) → (c ≡ 1) ⊎ (256 ^ (c - 1) ≤ n)
    at_least lo (inl e) = inl (omega arith)
    at_least lo (inr e) = inr e

settle :
    (b : Bool) (c n : ℕ)
    → 1 ≤ c
    → (if b then c else c - 1) ≤ 7
    → (let count' = if b then c + 1 else c in
        if ltb 8 count'
        then 0 ∷ drop (8 - (count' - 1)) (to_be_bytes 8 n)
        else drop (8 - count') (to_be_bytes 8 n))
      ≡ to_be_bytes (suc (if b then c else c - 1)) n
settle true c n lo h =
    rw (le→ltb_false 8 (c + 1) (omega arith))
      (drop-to_be_bytes (8 - (c + 1)) (suc c) 8 n (omega arith))
settle false c n lo h =
    rw (le→ltb_false 8 c (omega arith)) (drop-to_be_bytes (8 - c) (suc (c - 1)) 8 n (omega arith))

integer_octets-pos :
    (n : ℕ)
    → n < 2 ^ 63
    → integer_octets (pos n) ≡ to_be_bytes (suc (last_octet (count_octets 8 n) n)) n
unfolding integer_octets
integer_octets-pos n h =
    let (lo, hi, fits) = count_octets_bounds 7 n (omega arith) in
    let whole : n % 2 ^ 64 ≡ n = omega arith in
    rw (count_rem-pos 8 n, whole)
      (settle (top_bit_set (count_octets 8 n) n) (count_octets 8 n) n lo (octets-Fits n h).small)

-- For a number below 2^63, the content octets of an `Integer` stand for the number in two's
-- complement, there are at most eight of them, and there is one octet or the number does not fit
-- in one octet less.
pub integer_octets_nonneg :
    (n : ℕ)
    → n < 2 ^ 63
    → (twos_complement (integer_octets (pos n)) ≡ pos n)
      × (length (integer_octets (pos n)) ≤ 8)
      × ((length (integer_octets (pos n)) ≡ 1)
          ⊎ (128 * 256 ^ (length (integer_octets (pos n)) - 2) ≤ n))
integer_octets_nonneg n h =
    let v = octets-Fits n h in
    rw (integer_octets-pos n h, length-to_be_bytes)
      (twos_complement-to_be_bytes _ n v.clear, omega (arith, v.small), again v.tight)
  where
    again :
        {c : ℕ} → (c ≡ 0) ⊎ (128 * 256 ^ (c - 1) ≤ n) → (suc c ≡ 1) ⊎ (128 * 256 ^ (suc c - 2) ≤ n)
    again {c} (inl e) = inl (omega arith)
    again {c} (inr e) = let d : suc c - 2 ≡ c - 1 = omega arith in inr (rw d e)

-- `parse_uint` reads the same octets back.
pub parse_uint-integer_octets : (n : ℕ) → n < 2 ^ 63 → parse_uint (integer_octets (pos n)) ≡ n
parse_uint-integer_octets n h =
    let v = octets-Fits n h in
    rw (integer_octets-pos n h) (
      parse_uint-to_be_bytes (suc (last_octet (count_octets 8 n) n)) n
        (rw (pow-suc 256 (last_octet (count_octets 8 n) n)) (half_room _ n v.clear)) (omega arith))

negative_test : ℕ → Bool
unfolding integer_octets
negative_test m = bytes_eq (integer_octets (negsuc m)) ((255 - m) ∷ [])

negative_table : every_below 255 negative_test ≡ true
unfolding every_below negative_test
negative_table = refl

integer_octets-negsuc : (m : ℕ) → m < 255 → integer_octets (negsuc m) ≡ (255 - m) ∷ []
unfolding negative_test
integer_octets-negsuc m h =
    bytes_eq→eq _ _ (every_below-lookup 255 negative_test m negative_table h)

-- For a number -(m + 1) with m < 128 the content octets of an `Integer` stand for it in two's
-- complement.
pub integer_octets_small_negative :
    (m : ℕ) → m < 128 → twos_complement (integer_octets (negsuc m)) ≡ negsuc m
unfolding twos_complement
integer_octets_small_negative m h = rw (integer_octets-negsuc m (omega arith)) (ground arith)

-- For a number -(m + 1) with 128 ≤ m < 255 the content octets of an `Integer` do not stand for
-- it in two's complement: they stand for the number 255 - m, which is not negative.
pub integer_octets_wrong :
    (m : ℕ) → 128 ≤ m → m < 255 → twos_complement (integer_octets (negsuc m)) ≡ pos (255 - m)
unfolding twos_complement
integer_octets_wrong m h k = rw (integer_octets-negsuc m k) (ground arith)
