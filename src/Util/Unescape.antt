-- ===== src/Util/Unescape.antt =====
-- src/util.rs: `ldap_unescape`.
use ldap.Common.{ℕ, ◌+◌, Option, none, some, [], ◌∷◌, Bytes, if◌then◌else◌, Outcome, ok, err}
use ldap.Common.Utf8.{from_utf8}
use ldap.Nom.{NomComplete}
use ldap.Filter.Unescaper.{Unescaper, want_first, want_second, value, error, feed, is_value}
use ldap.Result.Types.{LdapError, decoding_utf8}
use ldap.Util.Escape.{output_from, push_if}

-- The `match` on the state after a byte.
abbrev pub unescape_output : Bytes → ℕ → Unescaper → Option Bytes → Option Bytes
unescape_output val i want_first output = some (output_from val i output)
unescape_output val i (want_second p) output = output
unescape_output val i (value c) output = push_if output c
unescape_output val i error output = output

-- `from_utf8(…).map_err(|_| DecodingUTF8)?`.
abbrev pub decoded : Option Bytes → Outcome LdapError Bytes
decoded none = err decoding_utf8
decoded (some s) = ok s

abbrev pub finish_unescape : Bytes → Unescaper × Option Bytes → Outcome LdapError Bytes
finish_unescape val (esc, none) = ok val
finish_unescape val (esc, some output) =
    if is_value esc then decoded (from_utf8 output) else err decoding_utf8

module _ (nom : NomComplete) where
  unfoldable pub unescape_loop :
      Bytes → Bytes → ℕ → Unescaper → Option Bytes → Unescaper × Option Bytes
  unescape_loop val [] i esc output = (esc, output)
  unescape_loop val (c ∷ cs) i esc output =
      let esc' = feed nom esc c in
      unescape_loop val cs (i + 1) esc' (unescape_output val i esc' output)

  unfoldable pub ldap_unescape : Bytes → Outcome LdapError Bytes
  unfolding unescape_loop
  ldap_unescape val = finish_unescape val (unescape_loop val val 0 (value 0) none)
