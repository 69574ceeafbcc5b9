-- ===== src/Tests/Values.antt =====
-- The escaping of values and the filters, at concrete inputs.
use ldap.Common.{codes, ◌≡◌, ◌>>=◌, Outcome, some, refl, ◌∷◌, []}
use ldap.Common.Utf8.{utf8_valid, utf8_run, utf8_step}
use ldap.Nom.{complete, complete-IsNomComplete}
use ldap.Filter.Equality.{equality_filter, parse-ldap_escape}
use ldap.Filter.Grammar.{parse}
use ldap.Filter.Items.{eq_match}
use ldap.Ber.Structure.{context}
use ldap.Ber.Asn.{sequence, vec, default_octet_string}
use ldap.Result.Types.{LdapError}
use ldap.Util.Escape.{ldap_escape}
use ldap.Util.Unescape.{ldap_unescape}
use ldap.Util.RoundTrip.{ldap_unescape-ldap_escape}
use ldap.Tests.Strings.{all_bytes-IsByte}

ldap_unescape-ldap_escape_example :
    (ldap_escape (codes "a*(b") >>= ldap_unescape complete) ≡ Outcome.ok (codes "a*(b")
unfolding utf8_valid utf8_run utf8_step
ldap_unescape-ldap_escape_example =
    ldap_unescape-ldap_escape complete complete-IsNomComplete (codes "a*(b")
      (all_bytes-IsByte (codes "a*(b") refl) refl

-- The value holds an asterisk and a closing parenthesis.
parse-ldap_escape_example :
    (ldap_escape {E = LdapError} (codes "a*)") >>= λ val.
    Outcome.ok (parse complete (equality_filter (codes "cn") val)))
    ≡ Outcome.ok (
        some (
          sequence eq_match context
            (vec (default_octet_string (codes "cn") ∷ default_octet_string (codes "a*)") ∷ []))))
unfolding utf8_valid utf8_run utf8_step
parse-ldap_escape_example =
    parse-ldap_escape complete complete-IsNomComplete (codes "cn") (codes "a*)") (refl, (refl, tt))
      (all_bytes-IsByte (codes "a*)") refl) refl
