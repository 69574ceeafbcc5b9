-- ===== src/Util/RoundTrip.antt =====
-- `ldap_unescape` after `ldap_escape` and `dn_escape` (src/util.rs).
use ldap.Common.{
  ℕ, ◌+◌, ◌/◌, ◌%◌, ◌*◌, ◌^◌, ◌<◌, bit_and, ◌≡◌, ◌≢◌, refl, ap, ◌∙◌, Bool, true, false, none, some,
  [], ◌∷◌, ◌++◌, Bytes, ok, length, take, Bool-cases, inl, inr, arith, append_assoc, append-nil,
  length-append, take-append, ==_iff, ==_false, ◌==◌, All, ◌>>=◌, ◌&&◌,
}
use ldap.Common.Bits.{every_below, every_below-lookup}
use ldap.Common.Utf8.{utf8_valid, from_utf8}
use ldap.Nom.{NomComplete, IsNomComplete}
use ldap.Nom.Ascii.{is_hex}
use ldap.Ber.Total.{IsByte}
use ldap.Filter.Unescaper.{want_first, want_second, value, feed, digit_value}
use ldap.Result.Types.{LdapError}
use ldap.Util.Escape.{xdigit, ldap_escape, dn_escape, needs_escape, dn_needs_escape}
use ldap.Util.Unescape.{finish_unescape, unescape_loop, ldap_unescape}
use ldap.Util.Flat.{escape_one, escaped, EscapesAscii, finish_escape-escaped, low_nibble}

hex_table : every_below 16 (λ d. is_hex (xdigit d) && (digit_value (xdigit d) == d)) ≡ true
unfolding every_below
hex_table = refl

pub hex_digit : (d : ℕ) → d < 16 → (is_hex (xdigit d) ≡ true) × (digit_value (xdigit d) ≡ d)
hex_digit d h = halves _ d (digit_value (xdigit d)) (every_below-lookup 16 _ d hex_table h)
  where
    halves : (b : Bool) (n m : ℕ) → (b && (m == n)) ≡ true → (b ≡ true) × (m ≡ n)
    halves true n m e = (refl, (==_iff m n).0 e)
    halves false n m e = cc

-- The backslash is escaped wherever it stands.
abbrev EscapesBackslash : (ℕ → ℕ → Bool) → Type 0
EscapesBackslash esc = (i c : ℕ) → esc i c ≡ false → c ≢ b'\\'

abbrev pub last_or : ℕ → Bytes → ℕ
last_or v [] = v
last_or v (c ∷ cs) = last_or c cs

pub escaped_cons :
    (esc : ℕ → ℕ → Bool) (i c : ℕ) (cs : Bytes)
    → escaped esc i (c ∷ cs) ≡ escape_one (esc i c) c ++ escaped esc (i + 1) cs
unfolding escaped
escaped_cons esc i c cs = refl

module _ (nom : NomComplete) (laws : IsNomComplete nom) where
  pub feed_plain : (v c : ℕ) → c ≢ b'\\' → feed nom (value v) c ≡ value c
  unfolding feed
  feed_plain v c h = rw (==_false c b'\\' h)

  pub feed_backslash : (v : ℕ) → feed nom (value v) b'\\' ≡ want_first
  unfolding feed
  feed_backslash v = refl

  pub feed_high : (d : ℕ) → d < 16 → feed nom want_first (xdigit d) ≡ want_second d
  unfolding feed
  feed_high d h =
      let (hex, digit) = hex_digit d h in rw (laws.is_hex_digit_lem (xdigit d), hex, digit)

  feed_low : (p d : ℕ) → p < 16 → d < 16 → feed nom (want_second p) (xdigit d) ≡ value (p * 16 + d)
  unfolding feed
  feed_low p d hp h =
      let (hex, digit) = hex_digit d h in
      rw (laws.is_hex_digit_lem (xdigit d), hex, digit) (ap value (omega arith))

  -- The three bytes of an escape give back the byte.
  pub feed_escape :
      (c : ℕ) → c < 256 → feed nom (want_second (c / 2 ^ 4)) (xdigit (bit_and c 0xf)) ≡ value c
  feed_escape c h =
      rw (low_nibble c h)
        (feed_low (c / 16) (c % 16) (omega arith) (omega arith) ∙ ap value (omega arith))

  escape_run :
      (val cs out : Bytes) (c k v : ℕ)
      → c < 256
      → unescape_loop nom val (escape_one true c ++ cs) k (value v) (some out)
        ≡ unescape_loop nom val cs (k + 1 + 1 + 1) (value c) (some (out ++ c ∷ []))
  unfolding unescape_loop
  escape_run val cs out c k v h =
      rw (feed_backslash v, feed_high (c / 2 ^ 4) (omega arith), feed_escape c h)

  plain_some :
      (val cs out : Bytes) (c k v : ℕ)
      → c ≢ b'\\'
      → unescape_loop nom val (c ∷ cs) k (value v) (some out)
        ≡ unescape_loop nom val cs (k + 1) (value c) (some (out ++ c ∷ []))
  unfolding unescape_loop
  plain_some val cs out c k v h = rw (feed_plain v c h)

  -- With an output under way, the rest of the escaped form is undone.
  unescape_some :
      (esc : ℕ → ℕ → Bool) (val cs out : Bytes) (i k v : ℕ)
      → EscapesBackslash esc
      → All IsByte cs
      → unescape_loop nom val (escaped esc i cs) k (value v) (some out)
        ≡ (value (last_or v cs), some (out ++ cs))
  unfolding escaped
  unescape_some esc val [] out i k v bs h = rw append-nil (unfold unescape_loop in refl)
  unescape_some esc val (c ∷ cs) out i k v bs h = elim (Bool-cases (esc i c)) [
    | inl e ↦
        rw (e, escape_run val (escaped esc (i + 1) cs) out c k v h.0)
          (unescape_some esc val cs (out ++ c ∷ []) (i + 1) _ c bs h.1 ∙ rw append_assoc)
    | inr e ↦
        rw (e, plain_some val (escaped esc (i + 1) cs) out c k v (bs i c e))
          (unescape_some esc val cs (out ++ c ∷ []) (i + 1) (k + 1) c bs h.1 ∙ rw append_assoc)
  ]

  plain_none :
      (val cs : Bytes) (c k v : ℕ)
      → c ≢ b'\\'
      → unescape_loop nom val (c ∷ cs) k (value v) none
        ≡ unescape_loop nom val cs (k + 1) (value c) none
  unfolding unescape_loop
  plain_none val cs c k v h = rw (feed_plain v c h)

  escape_none :
      (val cs : Bytes) (c k v : ℕ)
      → c < 256
      → unescape_loop nom val (escape_one true c ++ cs) k (value v) none
        ≡ unescape_loop nom val cs (k + 1 + 1 + 1) (value c) (some (take k val ++ c ∷ []))
  unfolding unescape_loop
  escape_none val cs c k v h =
      rw (feed_backslash v, feed_high (c / 2 ^ 4) (omega arith), feed_escape c h)

  -- The whole of an escaped form, of which `done` had no escape.
  unescape_escaped :
      (esc : ℕ → ℕ → Bool) (val done cs : Bytes) (v : ℕ)
      → EscapesBackslash esc
      → All IsByte cs
      → val ≡ done ++ escaped esc (length done) cs
      → from_utf8 (done ++ cs) ≡ some (done ++ cs)
      → finish_unescape val
          (unescape_loop nom val (escaped esc (length done) cs) (length done) (value v) none)
        ≡ ok (done ++ cs)
  unescape_escaped esc val done [] v bs h whole valid = unfold escaped unescape_loop in ap ok whole
  unescape_escaped esc val done (c ∷ cs) v bs h whole valid =
      elim (Bool-cases (esc (length done) c)) [
        | inl e ↦
            let front : take (length done) val ≡ done =
              rw whole (take-append done (escaped esc (length done) (c ∷ cs))) in
            rw (
              escaped_cons esc (length done) c cs,
              e,
              escape_none val (escaped esc (length done + 1) cs) c (length done) v h.0,
              front,
              unescape_some esc val cs (done ++ c ∷ []) (length done + 1) (length done + 1 + 1 + 1)
                  c bs h.1,
              append_assoc done (c ∷ []) cs,
              valid,
            )
        | inr e ↦
            let size : length (done ++ c ∷ []) ≡ length done + 1 = length-append done (c ∷ []) in
            let rest = escaped esc (length done + 1) cs in
            let assoc = append_assoc done (c ∷ []) cs in
            let ih =
              unescape_escaped esc val (done ++ c ∷ []) cs c bs h.1
                (rw (size, append_assoc done (c ∷ []) rest)
                  (rw (escaped_cons esc (length done) c cs, e) at whole))
                (rw assoc valid) in
            rw
              (
                escaped_cons esc (length done) c cs,
                e,
                plain_none val rest c (length done) v (bs (length done) c e),
              )
              (rw (size, assoc) at ih)
      ]

  -- Undoing any escaping of a string that escapes the backslash, and ASCII characters only.
  pub unescape-finish_escape :
      (esc : ℕ → ℕ → Bool) (s : Bytes)
      → EscapesBackslash esc
      → All IsByte s
      → utf8_valid s ≡ true
      → ldap_unescape nom (escaped esc 0 s) ≡ ok s
  unfolding ldap_unescape
  unescape-finish_escape esc s bs h valid =
      unescape_escaped esc (escaped esc 0 s) [] s 0 bs h refl (unfold from_utf8 in rw valid)

ldap_ascii : EscapesAscii (λ _ c. needs_escape c)
ldap_ascii i c h = ground arith

ldap_backslash : EscapesBackslash (λ _ c. needs_escape c)
ldap_backslash i c h = ground arith

dn_ascii : (len : ℕ) → EscapesAscii (dn_needs_escape len)
dn_ascii len i c h = ground arith

dn_backslash : (len : ℕ) → EscapesBackslash (dn_needs_escape len)
dn_backslash len i c h = ground arith

-- The result of `ldap_escape` on a string.
pub ldap_escape_lem {ℓ} :
    {E : Type ℓ} (s : Bytes)
    → utf8_valid s ≡ true
    → ldap_escape {E = E} s ≡ ok (escaped (λ _ c. needs_escape c) 0 s)
unfolding ldap_escape
ldap_escape_lem s valid = finish_escape-escaped (λ _ c. needs_escape c) s ldap_ascii valid

pub dn_escape_lem {ℓ} :
    {E : Type ℓ} (s : Bytes)
    → utf8_valid s ≡ true
    → dn_escape {E = E} s ≡ ok (escaped (dn_needs_escape (length s)) 0 s)
unfolding dn_escape
dn_escape_lem s valid =
    finish_escape-escaped (dn_needs_escape (length s)) s (dn_ascii (length s)) valid

module _ (nom : NomComplete) (laws : IsNomComplete nom) where
  -- On every valid UTF-8 string `ldap_escape` does not panic and `ldap_unescape` of its result
  -- is the string.
  pub ldap_unescape-ldap_escape :
      (s : Bytes)
      → All IsByte s
      → utf8_valid s ≡ true
      → (ldap_escape s >>= ldap_unescape nom) ≡ ok s
  ldap_unescape-ldap_escape s h valid =
      rw (ldap_escape_lem {E = LdapError} s valid)
        (unescape-finish_escape nom laws (λ _ c. needs_escape c) s ldap_backslash h valid)

  -- On every valid UTF-8 string `dn_escape` does not panic and `ldap_unescape` of its result
  -- is the string.
  pub ldap_unescape-dn_escape :
      (s : Bytes) → All IsByte s → utf8_valid s ≡ true → (dn_escape s >>= ldap_unescape nom) ≡ ok s
  ldap_unescape-dn_escape s h valid = rw (dn_escape_lem {E = LdapError} s valid) (
      unescape-finish_escape nom laws (dn_needs_escape (length s)) s (dn_backslash (length s)) h
        valid)
