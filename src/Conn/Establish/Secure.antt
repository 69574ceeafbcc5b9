-- ===== src/Conn/Establish/Secure.antt =====
-- Connections that are to be secure (src/conn.rs).
use ldap.Common.{
  ℕ, ◌≡◌, refl, ◌∙◌, Bool, true, false, ◌||◌, Option, none, some, [], ◌∷◌, ◌++◌, Bytes, bytes_eq,
  bytes_eq→eq, ok, err, panic, ◌>>=◌, codes, Bool-cases, inl, inr, arith, sym,
}
use ldap.Conn.Establish.{
  Opened, Outside, Address, LdapConnSettings, Scheme, plain, over_tls, start, tls, ConnType,
  then_secured, with_stream, tcp_scheme, new_tcp, from_url_with_settings, within,
  start_tls_exchange, hostname_of, scheme_of, tcp_stream, conn_pair, decimal, port_or,
}
use ldap.Result.Types.{Run}

-- If there is a connection, it stands on a TLS handshake with the host of the URL that succeeded.
abbrev pub IsSecured : Outside → Option Bytes → Option (Run Opened) → Type 0
IsSecured out host_str none = Unit {0}
IsSecured out host_str (some (ok o)) =
    (o.has_tls ≡ true)
    × (o.ctype ≡ tls)
    × ((host : Bytes) × (hostname_of host_str ≡ ok host) × (out.create_tls_stream host ≡ ok tt))
IsSecured out host_str (some (err e)) = Unit {0}
IsSecured out host_str (some panic) = Unit {0}

handshake-IsSecured :
    (out : Outside) (host_str : Option Bytes) (host : Bytes) (o : Opened) (r : Run (Unit {0}))
    → hostname_of host_str ≡ ok host
    → out.create_tls_stream host ≡ r
    → IsSecured out host_str (some (r >>= λ stream. ok (record o { ctype = tls; has_tls = true })))
handshake-IsSecured out host_str host o (ok tt) n h = (refl, refl, (host, n, h))
handshake-IsSecured out host_str host o (err e) n h = tt
handshake-IsSecured out host_str host o panic n h = tt

then_secured-IsSecured :
    (out : Outside) (host_str : Option Bytes) (host : Bytes) (r : Option (Run Opened))
    → hostname_of host_str ≡ ok host
    → IsSecured out host_str (then_secured out host r)
then_secured-IsSecured out host_str host none n = tt
then_secured-IsSecured out host_str host (some (ok o)) n =
    handshake-IsSecured out host_str host o (out.create_tls_stream host) n refl
then_secured-IsSecured out host_str host (some (err e)) n = tt
then_secured-IsSecured out host_str host (some panic) n = tt

-- The host is that of the URL.
abbrev IsNamed : Option Bytes → Run (Scheme × Bytes) → Type 0
IsNamed host_str (ok (scheme, host)) = hostname_of host_str ≡ ok host
IsNamed host_str (err e) = Unit {0}
IsNamed host_str panic = Unit {0}

stream-IsNamed :
    (host_str : Option Bytes) (scheme : Scheme) (host : Bytes) (r : Run (Unit {0}))
    → hostname_of host_str ≡ ok host
    → IsNamed host_str (r >>= λ _. ok (scheme, host))
stream-IsNamed host_str scheme host (ok u) n = n
stream-IsNamed host_str scheme host (err e) n = tt
stream-IsNamed host_str scheme host panic n = tt

host-IsNamed :
    (host_str : Option Bytes) (scheme : Scheme) (r : Run Bytes) (stream : Bytes → Run (Unit {0}))
    → hostname_of host_str ≡ r
    → IsNamed host_str (r >>= λ h. stream h >>= λ _. ok (scheme, h))
host-IsNamed host_str scheme (ok h) stream e = stream-IsNamed host_str scheme h (stream h) e
host-IsNamed host_str scheme (err b) stream e = tt
host-IsNamed host_str scheme panic stream e = tt

scheme-IsNamed :
    (host_str : Option Bytes) (r : Run (Scheme × ℕ)) (stream : ℕ → Bytes → Run (Unit {0}))
    → IsNamed host_str (
        r >>= λ (scheme, port). hostname_of host_str >>= λ h. stream port h >>= λ _. ok (scheme, h))
scheme-IsNamed host_str (ok (scheme, port)) stream =
    host-IsNamed host_str scheme (hostname_of host_str) (stream port) refl
scheme-IsNamed host_str (err e) stream = tt
scheme-IsNamed host_str panic stream = tt

tcp_scheme-IsNamed :
    (url : Address) (settings : LdapConnSettings) (out : Outside)
    → IsNamed url.host_str (tcp_scheme url settings out)
tcp_scheme-IsNamed url settings out =
    scheme-IsNamed url.host_str (scheme_of url settings) (λ port h.
      tcp_stream out (h ++ (b':' ∷ decimal 5 (port_or port url.port))) settings.std_stream)

abbrev is_plain : Run (Scheme × Bytes) → Bool
is_plain (ok (plain, host)) = true
is_plain (ok (over_tls, host)) = false
is_plain (ok (start, host)) = false
is_plain (err e) = false
is_plain panic = false

with_stream-IsSecured :
    (out : Outside) (host_str : Option Bytes) (r : Run (Scheme × Bytes))
    → IsNamed host_str r
    → is_plain r ≡ false
    → IsSecured out host_str (with_stream out r)
with_stream-IsSecured out host_str (ok (plain, host)) n h = absurd (ground arith)
with_stream-IsSecured out host_str (ok (over_tls, host)) n h =
    handshake-IsSecured out host_str host (conn_pair ConnType.tcp) (out.create_tls_stream host) n
      refl
with_stream-IsSecured out host_str (ok (start, host)) n h =
    then_secured-IsSecured out host_str host (start_tls_exchange out (conn_pair ConnType.tcp)) n
with_stream-IsSecured out host_str (err e) n h = tt
with_stream-IsSecured out host_str panic n h = tt

is_plain-host :
    (scheme : Scheme) (host : Run Bytes) (stream : Bytes → Run (Unit {0}))
    → is_plain (ok (scheme, [])) ≡ false
    → is_plain (host >>= λ h. stream h >>= λ _. ok (scheme, h)) ≡ false
is_plain-host scheme (err e) stream k = refl
is_plain-host scheme panic stream k = refl
is_plain-host scheme (ok h) stream k = go (stream h) scheme k
  where
    go :
        (r : Run (Unit {0})) (scheme : Scheme)
        → is_plain (ok (scheme, [])) ≡ false
        → is_plain (r >>= λ _. ok (scheme, h)) ≡ false
    go (ok u) plain k = k
    go (ok u) over_tls k = refl
    go (ok u) start k = refl
    go (err e) scheme k = refl
    go panic scheme k = refl

-- What the URL and the settings ask for.
abbrev pub wants_tls : Address → LdapConnSettings → Bool
wants_tls url settings = bytes_eq url.scheme (codes "ldaps") || settings.starttls

apart : (s : Bytes) → bytes_eq s (codes "ldap") ≡ true → bytes_eq s (codes "ldaps") ≡ false
apart s h = rw (bytes_eq→eq s (codes "ldap") h) refl

tcp_scheme-plain :
    (url : Address) (settings : LdapConnSettings) (out : Outside)
    → wants_tls url settings ≡ true
    → is_plain (tcp_scheme url settings out) ≡ false
tcp_scheme-plain url settings out h = elim (Bool-cases (bytes_eq url.scheme (codes "ldap"))) [
  | inl e ↦
      let starts : settings.starttls ≡ true = sym (rw (apart url.scheme e) refl) ∙ h in
      rw (e, starts)
        (is_plain-host start (hostname_of url.host_str)
          (λ h. tcp_stream out (h ++ (b':' ∷ decimal 5 (port_or 389 url.port))) settings.std_stream)
          refl)
  | inr e ↦ elim (Bool-cases (bytes_eq url.scheme (codes "ldaps"))) [
    | inl k ↦
        rw (e, k)
          (is_plain-host over_tls (hostname_of url.host_str)
            (λ h.
              tcp_stream out (h ++ (b':' ∷ decimal 5 (port_or 636 url.port))) settings.std_stream)
            refl)
    | inr k ↦ rw (e, k) refl
  ]
]

within-IsSecured :
    (out : Outside) (host_str : Option Bytes) (t : Option ℕ) (r : Option (Run Opened))
    → IsSecured out host_str r
    → IsSecured out host_str (within t out r)
within-IsSecured out host_str none r h = h
within-IsSecured out host_str (some t) r h = elim (Bool-cases out.late) [
  | inl e ↦ rw e tt
  | inr e ↦ rw e h
]

-- When a URL has another scheme than ldapi, and its scheme is ldaps or the settings ask for
-- StartTLS, `from_url_with_settings` never returns a plain connection, whatever the server and
-- the network do: if it returns one, its stream is a TLS stream, its handle says so, and the TLS
-- handshake with the host of the URL, or localhost where that is empty, succeeded.
pub from_url_with_settings-IsSecured :
    (url : Address) (settings : LdapConnSettings) (out : Outside)
    → bytes_eq url.scheme (codes "ldapi") ≡ false
    → wants_tls url settings ≡ true
    → IsSecured out url.host_str (from_url_with_settings url settings out)
unfolding from_url_with_settings new_tcp
from_url_with_settings-IsSecured url settings out no_unix wants =
    let tcp_settings : LdapConnSettings = record settings { conn_timeout = none } in
    rw no_unix (
      within-IsSecured out url.host_str settings.conn_timeout (new_tcp url tcp_settings out) (
        with_stream-IsSecured out url.host_str (tcp_scheme url tcp_settings out)
          (tcp_scheme-IsNamed url tcp_settings out) (tcp_scheme-plain url tcp_settings out wants)))
