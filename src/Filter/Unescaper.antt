-- ===== src/Filter/Unescaper.antt =====
-- src/filter.rs: the escapes of assertion values.
use ldap.Common.{
  ℕ, ◌+◌, ◌-◌, ◌*◌, ◌%◌, bit_and, Bool, ◌&&◌, not, Option, none, some, [], ◌∷◌, ◌++◌, Bytes, leb,
  ◌==◌, if◌then◌else◌,
}
use ldap.Nom.{Parser, NomComplete}

pub data Unescaper : Type 0 where
  want_first : Unescaper
  want_second : ℕ → Unescaper
  value : ℕ → Unescaper
  error : Unescaper

-- `c - if c <= b'9' { b'0' } else { (c & 0x20) + b'A' - 10 }`, for a hexadecimal digit.
abbrev pub digit_value : ℕ → ℕ
digit_value c = c - (if leb c b'9' then b'0' else bit_and c 0x20 + b'A' - 10)

abbrev pub is_value : Unescaper → Bool
is_value (value c) = Bool.true
is_value want_first = Bool.false
is_value (want_second p) = Bool.false
is_value error = Bool.false

-- What the callers do with a byte that is complete.
abbrev pub push_value : Unescaper → Bytes → Bytes
push_value (value c) vec = vec ++ (c ∷ [])
push_value want_first vec = vec
push_value (want_second p) vec = vec
push_value error vec = vec

unfoldable pub is_value_char : ℕ → Bool
is_value_char c = not (c == 0) && (not (c == b'(') && (not (c == b')') && not (c == b'*')))

abbrev pub unescape_end : Unescaper × Bytes → Option Bytes
unescape_end (u, vec) = if is_value u then some vec else none

module _ (nom : NomComplete) where
  unfoldable pub feed : Unescaper → ℕ → Unescaper
  feed error c = error
  feed want_first c = if nom.is_hex_digit c then want_second (digit_value c) else error
  feed (want_second partial) c =
      if nom.is_hex_digit c then value ((partial * 16 % 256 + digit_value c) % 256) else error
  feed (value v) c = if not (c == b'\\') then value c else want_first

  unfoldable pub unescape_step : Unescaper × Bytes → ℕ → Unescaper × Bytes
  unescape_step (u, vec) c = let u = feed u c in (u, push_value u vec)

  unfoldable pub unescaped : Parser Bytes
  unfolding unescape_step
  unescaped =
      nom.map_res (nom.fold_many0 (nom.verify nom.be_u8 is_value_char) (value 0, []) unescape_step)
        unescape_end
