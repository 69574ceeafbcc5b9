-- ===== src/Conn/Establish.antt =====
-- src/conn.rs: opening a connection by a URL and settings, in a build with TLS on a Unix platform.
use ldap.Common.{
  ℕ, zero, suc, ◌+◌, ◌/◌, ◌%◌, Bool, true, false, Option, none, some, List, [], ◌∷◌, ◌++◌, Bytes,
  ltb, if◌then◌else◌, is_empty, bytes_eq, ok, err, panic, ◌>>=◌, codes, ◌==◌, ◌||◌,
}
use ldap.Conn.MsgId.{MsgMap}
use ldap.Conn.Turn.{Conn, Request, Event, Action, turn, single_op}
use ldap.Requests.Build.{op_extended}
use ldap.Requests.Call.{Ldap, Answer, Called, nothing, perform, answer_of}
use ldap.Requests.Exops.{start_tls}
use ldap.Result.Types.{
  Run, url_parsing, empty_unix_path, port_in_unix_path, mismatched_stream_type, unknown_scheme,
  result_recv, timeout as timeout_error,
}
use ldap.Result.Convert.{LdapResultExt, success}
pub mod Secure
pub mod Rustls
pub mod Verified
pub mod Native
pub mod Endpoint
pub mod Upgrade

-- A stream that was opened before. Cloning it gives `invalid`.
pub data StdStream : Type 0 where
  given_tcp given_unix invalid : StdStream

abbrev pub clone : StdStream → StdStream
clone s = invalid

-- The fields but the connector of the TLS crate.
pub record LdapConnSettings : Type 0 where
  pub conn_timeout : Option ℕ
  pub starttls : Bool
  pub no_tls_verify : Bool
  pub std_stream : Option StdStream

abbrev pub new_settings : LdapConnSettings
new_settings = record {
  conn_timeout = none;
  starttls = false;
  no_tls_verify = false;
  std_stream = none;
}

abbrev pub set_conn_timeout : ℕ → LdapConnSettings → LdapConnSettings
set_conn_timeout timeout settings = record settings { conn_timeout = some timeout }

abbrev pub set_starttls : Bool → LdapConnSettings → LdapConnSettings
set_starttls starttls settings = record settings { starttls = starttls }

abbrev pub set_no_tls_verify : Bool → LdapConnSettings → LdapConnSettings
set_no_tls_verify no_tls_verify settings = record settings { no_tls_verify = no_tls_verify }

abbrev pub set_std_stream : StdStream → LdapConnSettings → LdapConnSettings
set_std_stream stream settings = record settings { std_stream = some stream }

-- What `Url::scheme`, `host_str` and `port` return.
pub record Address : Type 0 where
  pub scheme : Bytes
  pub host_str : Option Bytes
  pub port : Option ℕ

-- The rest of the world: whether a stream is opened or taken over, whether the TLS handshake with a
-- host succeeds, whether the time is over first, the lossy decoding of a path, and the events of the
-- connection after a request.
pub record Outside : Type 0 where
  pub connect : Bytes → Run (Unit {0})
  pub connect_unix : Bytes → Run (Unit {0})
  pub take_over : Run (Unit {0})
  pub create_tls_stream : Bytes → Run (Unit {0})
  pub late : Bool
  pub decode_lossy : Bytes → Bytes
  pub events : Request → List Event

pub data ConnType : Type 0 where
  tcp tls unix : ConnType

pub record Opened : Type 0 where
  pub conn : Conn
  pub ctype : ConnType
  pub ldap : Ldap
  pub has_tls : Bool

unfoldable pub conn_pair : ConnType → Opened
conn_pair ctype = record {
  conn = record { msgmap = record { last = 0; used = [] }; resultmap = []; searchmap = [] };
  ctype = ctype;
  ldap = record { last_id = 0; timeout = none; controls = none; search_opts = none };
  has_tls = false;
}

-- A number in decimal, with at most as many digits as there is fuel.
unfoldable pub decimal : ℕ → ℕ → Bytes
decimal zero n = []
decimal (suc f) n =
    let more = decimal f (n / 10) in
    if ltb n 10 then (b'0' + n) ∷ [] else more ++ ((b'0' + n % 10) ∷ [])

-- The colon of a port number.
unfoldable pub has_colon : Bytes → Bool
has_colon [] = false
has_colon (c ∷ s) = (c == b':') || has_colon s

abbrev pub str_or_empty : Option Bytes → Bytes
str_or_empty none = []
str_or_empty (some h) = h

abbrev pub unix_stream : Outside → Option Bytes → Option StdStream → Run (Unit {0})
unix_stream out host none =
    if is_empty (str_or_empty host)
    then err empty_unix_path
    else if has_colon (str_or_empty host)
    then err port_in_unix_path
    else out.connect_unix (out.decode_lossy (str_or_empty host))
unix_stream out host (some given_unix) = out.take_over
unix_stream out host (some given_tcp) = err mismatched_stream_type
unix_stream out host (some invalid) = err mismatched_stream_type

unfoldable pub new_unix : Address → LdapConnSettings → Outside → Run Opened
unfolding has_colon conn_pair
new_unix url settings out = do
  stream ← unix_stream out url.host_str settings.std_stream
  ok (conn_pair unix)

pub data Scheme : Type 0 where
  plain over_tls start : Scheme

-- The `match url.scheme()`, with the port of the scheme.
abbrev pub scheme_of : Address → LdapConnSettings → Run (Scheme × ℕ)
scheme_of url settings =
    if bytes_eq url.scheme (codes "ldap")
    then ok ((if settings.starttls then start else plain), 389)
    else if bytes_eq url.scheme (codes "ldaps")
    then ok (over_tls, 636)
    else err (unknown_scheme url.scheme)

abbrev pub port_or : ℕ → Option ℕ → ℕ
port_or n none = n
port_or n (some p) = p

-- The name of the host. A URL without a host panics.
abbrev pub hostname_of : Option Bytes → Run Bytes
hostname_of none = panic
hostname_of (some h) = ok (if is_empty h then codes "localhost" else h)

abbrev pub tcp_stream : Outside → Bytes → Option StdStream → Run (Unit {0})
tcp_stream out host_port none = out.connect host_port
tcp_stream out host_port (some given_tcp) = out.take_over
tcp_stream out host_port (some given_unix) = err mismatched_stream_type
tcp_stream out host_port (some invalid) = err mismatched_stream_type

abbrev pub first_events : Outside → List Request → List Event
first_events out [] = []
first_events out (r ∷ rs) = out.events r

-- The result of the StartTLS operation, next to the connection that `single_op` gives back.
abbrev pub joined : Conn → Ldap → Option (Run LdapResultExt) → Option (Run Opened)
joined c l none = none
joined c l (some r) = some (
    r >>= λ ext.
    success ext.base >>= λ res. ok (record { conn = c; ctype = tcp; ldap = l; has_tls = false }))

-- A connection that ends with an error takes the channel of the reply with it.
abbrev pub after_turn : Opened → Run (Conn × List Action × List Event) → Option (Run Opened)
after_turn o (ok (c, actions, rest)) =
    let called = perform (op_extended start_tls) 0 (answer_of 0 actions) o.conn.msgmap o.ldap in
    joined c called.ldap called.outcome
after_turn o (err e) = some (err result_recv)
after_turn o panic = some (err result_recv)

-- The connection in the mode for one operation, and the StartTLS operation. `none` waits.
unfoldable pub start_tls_exchange : Outside → Opened → Option (Run Opened)
unfolding perform answer_of turn success start_tls
start_tls_exchange out o =
    let asked = perform (op_extended start_tls) 0 nothing o.conn.msgmap o.ldap in
    after_turn o
      (turn single_op (record o.conn { msgmap = asked.msgmap }) (first_events out asked.sent))

abbrev pub secured : Outside → Bytes → Opened → Run Opened
secured out hostname o = do
  tls_stream ← out.create_tls_stream hostname
  ok (record o { ctype = tls; has_tls = true })

abbrev pub then_secured : Outside → Bytes → Option (Run Opened) → Option (Run Opened)
then_secured out hostname none = none
then_secured out hostname (some r) = some (r >>= secured out hostname)

-- The `match scheme`.
abbrev pub by_scheme : Outside → Bytes → Opened → Scheme → Option (Run Opened)
by_scheme out hostname o plain = some (ok o)
by_scheme out hostname o over_tls = some (secured out hostname o)
by_scheme out hostname o start = then_secured out hostname (start_tls_exchange out o)

abbrev pub with_stream : Outside → Run (Scheme × Bytes) → Option (Run Opened)
with_stream out (ok (scheme, hostname)) = by_scheme out hostname (conn_pair tcp) scheme
with_stream out (err e) = some (err e)
with_stream out panic = some panic

abbrev pub tcp_scheme : Address → LdapConnSettings → Outside → Run (Scheme × Bytes)
tcp_scheme url settings out = do
  (scheme, port) ← scheme_of url settings
  hostname ← hostname_of url.host_str
  stream ←
      tcp_stream out (hostname ++ (b':' ∷ decimal 5 (port_or port url.port))) settings.std_stream
  ok (scheme, hostname)

-- A port has at most five digits.
unfoldable pub new_tcp : Address → LdapConnSettings → Outside → Option (Run Opened)
unfolding start_tls_exchange conn_pair decimal
new_tcp url settings out = with_stream out (tcp_scheme url settings out)

abbrev pub within : Option ℕ → Outside → Option (Run Opened) → Option (Run Opened)
within none out opened = opened
within (some t) out opened = if out.late then some (err timeout_error) else opened

unfoldable pub from_url_with_settings : Address → LdapConnSettings → Outside → Option (Run Opened)
unfolding new_unix new_tcp
from_url_with_settings url settings out =
    if bytes_eq url.scheme (codes "ldapi")
    then some (new_unix url settings out)
    else within settings.conn_timeout out
        (new_tcp url (record settings { conn_timeout = none }) out)

-- `with_settings`, `new` and `from_url`, where the URL is what `Url::parse` makes of a text, if it is
-- one.
abbrev pub with_settings :
    (Bytes → Option Address) → LdapConnSettings → Bytes → Outside → Option (Run Opened)
with_settings parse_url settings text out = parsed (parse_url text)
  where
    parsed : Option Address → Option (Run Opened)
    parsed none = some (err url_parsing)
    parsed (some url) = from_url_with_settings url settings out

abbrev pub new : (Bytes → Option Address) → Bytes → Outside → Option (Run Opened)
new parse_url text out = with_settings parse_url new_settings text out

abbrev pub from_url : Address → Outside → Option (Run Opened)
from_url url out = from_url_with_settings url new_settings out
