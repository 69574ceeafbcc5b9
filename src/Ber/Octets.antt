-- ===== src/Ber/Octets.antt =====
-- Big-endian bytes of a number, and the fold that reads them back (lber/src/parse.rs, write.rs).
use ldap.Common.{
  ℕ, zero, suc, ◌+◌, ◌*◌, ◌/◌, ◌%◌, ◌^◌, ◌≤◌, ◌<◌, ◌≡◌, refl, sym, ap, ap₂, ◌∙◌, length, drop,
  bit_or, false, ltb, arith, Bool-cases, inl, inr,
}
use ldap.Common.Bits.{bit_or_byte}
use ldap.Ber.Write.{to_be_bytes, count_octets}
use ldap.Ber.Parse.{uint_fold, parse_uint}
use native.Mathlib.Nat.{pow-suc, div-add-mod, mod-eq_of_lt, mod-lt, add-mul-mod_self_left}

pub length-to_be_bytes : (k n : ℕ) → length (to_be_bytes k n) ≡ k
unfolding to_be_bytes
length-to_be_bytes zero n = refl
length-to_be_bytes (suc k) n = ap suc (length-to_be_bytes k n)

-- The last `k` of `m` bytes are those of the shorter form.
pub drop-to_be_bytes : (j k m n : ℕ) → m ≡ j + k → drop j (to_be_bytes m n) ≡ to_be_bytes k n
unfolding to_be_bytes
drop-to_be_bytes zero k m n e = let e' : m ≡ k = omega arith in ap (λ x. to_be_bytes x n) e'
drop-to_be_bytes (suc j) k zero n e = absurd (omega arith)
drop-to_be_bytes (suc j) k (suc m) n e = drop-to_be_bytes j k m n (omega arith)

pub pow_pos : (k : ℕ) → 0 < 256 ^ k
pow_pos zero = omega arith
pow_pos (suc k) = omega (arith, pow-suc 256 k, pow_pos k)

octet_fits : (p b r : ℕ) → b < 256 → r < p → b * p + r < p * 256
octet_fits p b r hb hr = grind arith

octet_split : (p b q r n d : ℕ) → p * d + r ≡ n → 256 * q + b ≡ d → n ≡ b * p + r + p * 256 * q
octet_split p b q r n d e f = rw (← e, ← f) (omega arith)

octet_shift : (p b res r : ℕ) → (res * 256 + b) * p + r ≡ res * (p * 256) + (b * p + r)
octet_shift p b res r = omega arith

octet_room : (p s res m : ℕ) → 0 < p → res * (p * 256) + s < m → res * 256 < m
octet_room p s res m hp h = grind arith

-- The lowest `k + 1` bytes of `n` are the byte above the lowest `k`, and those.
split_octet : (k n : ℕ) → n % 256 ^ suc k ≡ n / 256 ^ k % 256 * 256 ^ k + n % 256 ^ k
split_octet k n = rw (pow-suc 256 k) (
    ap (λ x. x % (256 ^ k * 256))
      (octet_split (256 ^ k) (n / 256 ^ k % 256) (n / 256 ^ k / 256) (n % 256 ^ k) n (n / 256 ^ k)
        (div-add-mod n (256 ^ k)) (div-add-mod (n / 256 ^ k) 256))
    ∙ add-mul-mod_self_left _ (256 ^ k * 256) (n / 256 ^ k / 256)
    ∙ mod-eq_of_lt (
        octet_fits (256 ^ k) (n / 256 ^ k % 256) (n % 256 ^ k) (omega arith)
          (mod-lt n (pow_pos k))))

pub shift_octet :
    (k n res : ℕ)
    → (res * 256 + n / 256 ^ k % 256) * 256 ^ k + n % 256 ^ k ≡ res * 256 ^ suc k + n % 256 ^ suc k
shift_octet k n res =
    octet_shift (256 ^ k) _ res (n % 256 ^ k)
    ∙ ap₂ (λ x y. res * x + y) (sym (pow-suc 256 k)) (sym (split_octet k n))

room_octet : (k n res m : ℕ) → res * 256 ^ suc k + n % 256 ^ suc k < m → res * 256 < m
room_octet k n res m h =
    octet_room (256 ^ k) (n % (256 ^ k * 256)) res m (pow_pos k) (rw (pow-suc 256 k) at h)

fold_octet :
    (res byte : ℕ)
    → res * 256 < 2 ^ 64
    → byte < 256
    → bit_or (res * 256 % 2 ^ 64) byte ≡ res * 256 + byte
fold_octet res byte h hb = ap (λ x. bit_or x byte) (mod-eq_of_lt h) ∙ bit_or_byte res byte hb

pub uint_fold-to_be_bytes :
    (k n res : ℕ)
    → res * 256 ^ k + n % 256 ^ k < 2 ^ 64
    → uint_fold res (to_be_bytes k n) ≡ res * 256 ^ k + n % 256 ^ k
unfolding uint_fold to_be_bytes
uint_fold-to_be_bytes zero n res h = omega arith
uint_fold-to_be_bytes (suc k) n res h =
    ap (λ x. uint_fold x (to_be_bytes k n))
      (fold_octet res (n / 256 ^ k % 256) (room_octet k n res (2 ^ 64) h) (omega arith))
    ∙ uint_fold-to_be_bytes k n (res * 256 + n / 256 ^ k % 256) (omega (arith, shift_octet k n res))
    ∙ shift_octet k n res

-- A number that fits in `k` bytes, at most eight, is read back.
pub parse_uint-to_be_bytes : (k n : ℕ) → n < 256 ^ k → n < 2 ^ 64 → parse_uint (to_be_bytes k n) ≡ n
unfolding parse_uint
parse_uint-to_be_bytes k n h h64 =
    uint_fold-to_be_bytes k n 0 (omega (arith, mod-eq_of_lt h)) ∙ omega (arith, mod-eq_of_lt h)

-- The count is between 1 and the fuel, and the number fits in that many bytes.
pub count_octets_bounds :
    (f n : ℕ)
    → n < 256 ^ suc f
    → (1 ≤ count_octets (suc f) n)
      × (count_octets (suc f) n ≤ suc f)
      × (n < 256 ^ count_octets (suc f) n)
unfolding count_octets
count_octets_bounds zero n h = let e : ltb 0 (n / 256) ≡ false = ground arith in rw e (omega arith)
count_octets_bounds (suc f) n h = elim (Bool-cases (ltb 0 (n / 256))) [
  | inl e ↦
      let (lo, hi, fits) = count_octets_bounds f (n / 256) (omega (arith, pow-suc 256 (suc f))) in
      rw e (omega arith, omega arith, omega (arith, pow-suc 256 (count_octets (suc f) (n / 256))))
  | inr e ↦ rw e (omega arith, omega arith, ground arith)
]
