-- ===== src/Filter/Literal.antt =====
-- An escaped literal inside a filter (src/filter.rs, src/util.rs).
use ldap.Common.{
  ℕ, ◌+◌, ◌/◌, ◌^◌, ◌<◌, ◌≡◌, ◌≢◌, refl, ◌∙◌, Bool, true, false, [], ◌∷◌, ◌++◌, Bytes, length,
  Bool-cases, inl, inr, arith, append_assoc, append-nil, All, bit_and, lt→ltb,
}
use ldap.Nom.{NomComplete, IsNomComplete, ok, Parser}
use ldap.Ber.Total.{IsByte}
use ldap.Filter.Unescaper.{
  Unescaper, want_first, want_second, value, is_value_char, unescape_step, unescape_end, unescaped,
}
use ldap.Util.Escape.{needs_escape, xdigit}
use ldap.Util.Flat.{escape_one, escaped, low_nibble}
use ldap.Util.RoundTrip.{feed_plain, feed_backslash, feed_high, feed_escape, escaped_cons, last_or}

-- What may follow an assertion value: nothing, or a byte that is no part of one.
abbrev pub Stops : Bytes → Type 0
Stops [] = Unit {0}
Stops (c ∷ rest) = is_value_char c ≡ false

abbrev pub needs : ℕ → ℕ → Bool
needs _ c = needs_escape c

char_plain : (c : ℕ) → needs_escape c ≡ false → (is_value_char c ≡ true) × (c ≢ b'\\')
unfolding is_value_char
char_plain c h = ground arith

xdigit_char : (d : ℕ) → d < 16 → is_value_char (xdigit d) ≡ true
unfolding is_value_char
xdigit_char d h = ground arith

module _ (nom : NomComplete) (laws : IsNomComplete nom) where
  abbrev value_byte : Parser ℕ
  value_byte = nom.verify nom.be_u8 is_value_char

  abbrev folded : Unescaper × Bytes → Parser (Unescaper × Bytes)
  folded s = nom.fold_many0 value_byte s (unescape_step nom)

  folded_char :
      (c : ℕ) (i : Bytes) (s : Unescaper × Bytes)
      → is_value_char c ≡ true
      → folded s (c ∷ i) ≡ folded (unescape_step nom s c) i
  folded_char c i s h =
      laws.fold_many0_lem value_byte s (unescape_step nom) (c ∷ i)
      ∙ rw (
        laws.verify_lem nom.be_u8 is_value_char (c ∷ i),
        laws.be_u8-cons c i,
        h,
        lt→ltb (length i) (length (c ∷ i)) (omega arith),
      )

  folded_stop : (rest : Bytes) (s : Unescaper × Bytes) → Stops rest → folded s rest ≡ ok rest s
  folded_stop [] s h =
      laws.fold_many0_lem value_byte s (unescape_step nom) []
      ∙ rw (laws.verify_lem nom.be_u8 is_value_char [], laws.be_u8-nil)
  folded_stop (c ∷ rest) s h =
      laws.fold_many0_lem value_byte s (unescape_step nom) (c ∷ rest)
      ∙ rw (laws.verify_lem nom.be_u8 is_value_char (c ∷ rest), laws.be_u8-cons c rest, h)

  step_plain :
      (v c : ℕ) (out : Bytes)
      → c ≢ b'\\'
      → unescape_step nom (value v, out) c ≡ (value c, out ++ c ∷ [])
  unfolding unescape_step
  step_plain v c out h = rw (feed_plain nom laws v c h)

  step_backslash :
      (v : ℕ) (out : Bytes) → unescape_step nom (value v, out) b'\\' ≡ (want_first, out)
  unfolding unescape_step
  step_backslash v out = rw (feed_backslash nom laws v)

  step_high :
      (d : ℕ) (out : Bytes)
      → d < 16
      → unescape_step nom (want_first, out) (xdigit d) ≡ (want_second d, out)
  unfolding unescape_step
  step_high d out h = rw (feed_high nom laws d h)

  step_low :
      (c : ℕ) (out : Bytes)
      → c < 256
      → unescape_step nom (want_second (c / 2 ^ 4), out) (xdigit (bit_and c 0xf))
        ≡ (value c, out ++ c ∷ [])
  unfolding unescape_step
  step_low c out h = rw (feed_escape nom laws c h)

  folded_escape :
      (c v : ℕ) (out i : Bytes)
      → c < 256
      → folded (value v, out) (escape_one true c ++ i) ≡ folded (value c, out ++ c ∷ []) i
  folded_escape c v out i h =
      let low : bit_and c 0xf < 16 = omega (arith, low_nibble c h) in
      folded_char b'\\' _ (value v, out) (unfold is_value_char in refl)
      ∙ rw (step_backslash v out) (
          folded_char (xdigit (c / 2 ^ 4)) _ (want_first, out)
            (xdigit_char (c / 2 ^ 4) (omega arith))
          ∙ rw (step_high (c / 2 ^ 4) out (omega arith)) (
              folded_char (xdigit (bit_and c 0xf)) i (want_second (c / 2 ^ 4), out)
                (xdigit_char (bit_and c 0xf) low)
              ∙ rw (step_low c out h)))

  folded-escaped :
      (cs out rest : Bytes) (i v : ℕ)
      → All IsByte cs
      → Stops rest
      → folded (value v, out) (escaped needs i cs ++ rest)
        ≡ ok rest (value (last_or v cs), out ++ cs)
  folded-escaped [] out rest i v h stop =
      unfold escaped in rw append-nil (folded_stop rest (value v, out) stop)
  folded-escaped (c ∷ cs) out rest i v h stop = elim (Bool-cases (needs_escape c)) [
    | inl e ↦
        rw
          (
            escaped_cons needs i c cs,
            e,
            folded_escape c v out (escaped needs (i + 1) cs ++ rest) h.0,
          )
          (folded-escaped cs (out ++ c ∷ []) rest (i + 1) c h.1 stop ∙ rw append_assoc)
    | inr e ↦
        let (char, plain) = char_plain c e in
        rw
          (
            escaped_cons needs i c cs,
            e,
            folded_char c (escaped needs (i + 1) cs ++ rest) (value v, out) char,
            step_plain v c out plain,
          )
          (folded-escaped cs (out ++ c ∷ []) rest (i + 1) c h.1 stop ∙ rw append_assoc)
  ]

  -- `unescaped` reads exactly the literal back from its escaped form.
  pub unescaped-escaped :
      (s rest : Bytes)
      → All IsByte s
      → Stops rest
      → unescaped nom (escaped needs 0 s ++ rest) ≡ ok rest s
  unfolding unescaped
  unescaped-escaped s rest h stop =
      laws.map_res_lem (folded (value 0, [])) unescape_end (escaped needs 0 s ++ rest)
      ∙ rw (folded-escaped s [] rest 0 0 h stop)
