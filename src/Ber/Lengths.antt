-- ===== src/Ber/Lengths.antt =====
-- The length octets: `parse_length` (lber/src/parse.rs) after `write_length` (lber/src/write.rs).
use ldap.Common.{
  ℕ, ◌+◌, ◌-◌, ◌^◌, ◌≤◌, ◌<◌, ◌≡◌, ◌∙◌, ◌∷◌, ◌++◌, Bytes, length, leb, ltb, lt→ltb, le→ltb_false,
  arith, Bool-cases, inl, inr, true, length-append, take-append, drop-append,
}
use ldap.Common.Bits.{set_top_bit}
use ldap.Nom.{ok, NomStreaming, IsNomStreaming}
use ldap.Ber.Write.{to_be_bytes, count_octets, write_length}
use ldap.Ber.Parse.{parse_length}
use ldap.Ber.Octets.{
  length-to_be_bytes, drop-to_be_bytes, parse_uint-to_be_bytes, count_octets_bounds,
}

-- What `write_length` writes: one byte below 128, and from there a count with the top bit set and
-- that many bytes.
pub write_length_long :
    (n : ℕ)
    → 128 ≤ n
    → n < 2 ^ 64
    → write_length n ≡ (count_octets 8 n + 128) ∷ to_be_bytes (count_octets 8 n) n
unfolding write_length
write_length_long n h h64 =
    let (lo, hi, fits) = count_octets_bounds 7 n (omega arith) in
    rw (
      le→ltb_false n 128 h,
      set_top_bit (count_octets 8 n) (omega arith),
      drop-to_be_bytes (8 - count_octets 8 n) (count_octets 8 n) 8 n (omega arith),
    )

module _ (nom : NomStreaming) (laws : IsNomStreaming nom) where
  -- `take` of exactly what stands in front.
  pub take_front : (xs ys : Bytes) → nom.take (length xs) (xs ++ ys) ≡ ok ys xs
  take_front xs ys =
      laws.take_lem (length xs) (xs ++ ys)
      ∙ rw (
        (let e : leb (length xs) (length (xs ++ ys)) ≡ true = ground (arith, length-append xs ys) in
            e),
        drop-append xs ys,
        take-append xs ys,
      )

  -- For a length below 2^64, reading the length octets that `write_length` writes, followed by
  -- any octets, gives the length and leaves exactly those octets.
  pub parse_length-write_length :
      (n : ℕ) (rest : Bytes) → n < 2 ^ 64 → parse_length nom (write_length n ++ rest) ≡ ok rest n
  unfolding parse_length
  parse_length-write_length n rest h64 = elim (Bool-cases (ltb n 128)) [
    | inl short ↦ unfold write_length in rw (short, laws.be_u8-cons n rest, short)
    | inr long ↦
        let (lo, hi, fits) = count_octets_bounds 7 n (omega arith) in
        let c = count_octets 8 n in
        rw (
          write_length_long n (ground arith) h64,
          laws.be_u8-cons (c + 128) (to_be_bytes c n ++ rest),
          le→ltb_false (c + 128) 128 (omega arith),
          (let e : c + 128 - 128 ≡ length (to_be_bytes c n) =
                omega (arith, length-to_be_bytes c n) in
              e),
          take_front (to_be_bytes c n) rest,
          parse_uint-to_be_bytes c n fits h64,
          lt→ltb n (2 ^ 64) h64,
        )
  ]
