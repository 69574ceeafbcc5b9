-- ===== src/Util/Escape.antt =====
-- src/util.rs: `ldap_escape` and `dn_escape`. Strings are their UTF-8 bytes; `panic` is the `expect`
-- on the bytes that were built.
use ldap.Common.{
  ℕ, ◌+◌, ◌-◌, ◌/◌, ◌^◌, bit_and, Bool, ◌||◌, ◌&&◌, Option, none, some, [], ◌∷◌, ◌++◌, Bytes,
  length, take, ltb, ◌==◌, if◌then◌else◌, Outcome, ok, expect,
}
use ldap.Common.Utf8.{from_utf8}

abbrev pub needs_escape : ℕ → Bool
needs_escape c = (c == b'\\') || ((c == b'*') || ((c == b'(') || ((c == b')') || (c == 0))))

abbrev pub xdigit : ℕ → ℕ
xdigit c = c + (if ltb c 10 then b'0' else b'a' - 10)

-- The output so far; where there was none yet, the bytes before position `i`.
abbrev pub output_from : Bytes → ℕ → Option Bytes → Bytes
output_from lit i none = take i lit
output_from lit i (some output) = output

abbrev pub push_if : Option Bytes → ℕ → Option Bytes
push_if none c = none
push_if (some output) c = some (output ++ (c ∷ []))

-- The loop over `lit.as_bytes().iter().enumerate()`. `esc` is the condition of its first branch.
unfoldable pub escape_loop : (ℕ → ℕ → Bool) → Bytes → Bytes → ℕ → Option Bytes → Option Bytes
escape_loop esc lit [] i output = output
escape_loop esc lit (c ∷ cs) i output = escape_loop esc lit cs (i + 1) (
    if esc i c
    then some
        (output_from lit i output ++ (b'\\' ∷ xdigit (c / 2 ^ 4) ∷ xdigit (bit_and c 0xf) ∷ []))
    else push_if output c)

-- `E` is the type of errors, which neither function has.
abbrev pub finish_escape {ℓ} : {E : Type ℓ} → Bytes → Option Bytes → Outcome E Bytes
finish_escape lit none = ok lit
finish_escape lit (some output) = expect (from_utf8 output)

unfoldable pub ldap_escape {ℓ} : {E : Type ℓ} → Bytes → Outcome E Bytes
unfolding escape_loop
ldap_escape lit = finish_escape lit (escape_loop (λ _ c. needs_escape c) lit lit 0 none)

abbrev pub always_escape : ℕ → Bool
always_escape c =
    (c == b'"')
    || ((c == b'+')
        || ((c == b',')
            || ((c == b';')
                || ((c == b'<') || ((c == b'=') || ((c == b'>') || ((c == b'\\') || (c == 0))))))))

abbrev pub escape_leading : ℕ → Bool
escape_leading c = (c == b' ') || (c == b'#')

abbrev pub escape_trailing : ℕ → Bool
escape_trailing c = c == b' '

abbrev pub dn_needs_escape : ℕ → ℕ → ℕ → Bool
dn_needs_escape len i c =
    always_escape c || (((i == 0) && escape_leading c) || ((i + 1 == len) && escape_trailing c))

unfoldable pub dn_escape {ℓ} : {E : Type ℓ} → Bytes → Outcome E Bytes
unfolding escape_loop
dn_escape val = finish_escape val (escape_loop (dn_needs_escape (length val)) val val 0 none)
