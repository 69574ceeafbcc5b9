-- ===== src/Sync.antt =====
-- src/sync.rs: the synchronous connection and its stream of entries. A method blocks the thread until
-- the asynchronous one of the same name returns, so that it comes to the same.
use ldap.Common.{
  ℕ, Bool, true, Option, none, some, List, [], ◌∷◌, Bytes, ok, err, panic, length, if◌then◌else◌,
}
use ldap.Common.Int.{ℤ}
use ldap.Nom.{NomComplete, NomStreaming}
use ldap.Conn.MsgId.{MsgMap}
use ldap.Conn.Establish.{Address, LdapConnSettings, Outside, Opened, new_settings}
use ldap.Conn.Establish
use ldap.Controls.Types.{RawControl}
use ldap.Requests.Build.{
  Mod, Operation, op_simple_bind, op_sasl_external_bind, op_add, op_compare, op_delete, op_modify,
  op_modifydn, op_extended, op_unbind, op_abandon,
}
use ldap.Protocol.Gssapi.{Gssapi}
use ldap.Protocol.Sasl.{LdapCodec}
use ldap.Requests.Binds.{Exchange}
use ldap.Requests.Binds.Gssapi as Binds
use ldap.Requests.Binds.Ntlm
use ldap.Requests.Binds.Ntlm.{Sspi}
use ldap.Requests.Call.{Ldap, Answer, Called, perform}
use ldap.Result.Types.{LdapResult, Run, io, url_parsing}
use ldap.Result.Convert.{Exop}
use ldap.Search.Adapters.{Adapter, new_stream}
use ldap.Search.Chain
use ldap.Search.Request.{Params, SearchOptions}
use ldap.Search.State.{Handle, Search, Call}
use ldap.Search.Stream.{ResultEntry}
use ldap.Search.Adapters
pub mod Reading

-- The handle; the runtime has no state of its own here.
pub record LdapConn : Type 0 where
  pub ldap : Ldap

abbrev pub only_handle : Option (Run Opened) → Option (Run LdapConn)
only_handle none = none
only_handle (some (ok o)) = some (ok (record { ldap = o.ldap }))
only_handle (some (err e)) = some (err e)
only_handle (some panic) = some panic

-- `runtime` is whether the runtime can be built.
module _ (runtime : Bool) where
  abbrev pub from_url_with_settings : LdapConnSettings → Address → Outside → Option (Run LdapConn)
  from_url_with_settings settings url out =
      if runtime
      then only_handle (Establish.from_url_with_settings url settings out)
      else some (err io)

  abbrev pub from_parsed : LdapConnSettings → Option Address → Outside → Option (Run LdapConn)
  from_parsed settings none out = some (err url_parsing)
  from_parsed settings (some url) out = from_url_with_settings settings url out

  abbrev pub with_settings :
      (Bytes → Option Address) → LdapConnSettings → Bytes → Outside → Option (Run LdapConn)
  with_settings parse_url settings text out = from_parsed settings (parse_url text) out

  abbrev pub new : (Bytes → Option Address) → Bytes → Outside → Option (Run LdapConn)
  new parse_url text out = with_settings parse_url new_settings text out

  abbrev pub from_url : Address → Outside → Option (Run LdapConn)
  from_url url out = from_url_with_settings new_settings url out

abbrev pub with_search_options : SearchOptions → LdapConn → LdapConn
with_search_options opts conn = record { ldap = record conn.ldap { search_opts = some opts } }

abbrev pub with_controls : List RawControl → LdapConn → LdapConn
with_controls ctrls conn = record { ldap = record conn.ldap { controls = some ctrls } }

abbrev pub with_timeout : ℕ → LdapConn → LdapConn
with_timeout duration conn = record { ldap = record conn.ldap { timeout = some duration } }

-- An operation, with the channel for its reply, what comes of the wait and the shared map of ids.
abbrev pub Blocking : Type 0
Blocking = ℕ → Answer → MsgMap → LdapConn → Called

abbrev pub block_on : Operation → Blocking
block_on op tx answer m conn = perform op tx answer m conn.ldap

abbrev pub simple_bind : Bytes → Bytes → Blocking
simple_bind bind_dn bind_pw = block_on (op_simple_bind bind_dn bind_pw)

abbrev pub sasl_external_bind : Blocking
sasl_external_bind = block_on op_sasl_external_bind

abbrev pub add : Bytes → List (Bytes × List Bytes) → Blocking
add dn attrs = block_on (op_add dn attrs)

abbrev pub compare : Bytes → Bytes → Bytes → Blocking
compare dn attr val = block_on (op_compare dn attr val)

abbrev pub delete : Bytes → Blocking
delete dn = block_on (op_delete dn)

abbrev pub modify : Bytes → List Mod → Blocking
modify dn mods = block_on (op_modify dn mods)

abbrev pub modifydn : Bytes → Bytes → Bool → Option Bytes → Blocking
modifydn dn rdn delete_old new_sup = block_on (op_modifydn dn rdn delete_old new_sup)

abbrev pub unbind : Blocking
unbind = block_on op_unbind

abbrev pub extended : Exop → Blocking
extended exop = block_on (op_extended exop)

abbrev pub abandon : ℤ → Blocking
abandon msgid = block_on (op_abandon msgid)

abbrev pub last_id : LdapConn → ℕ
last_id conn = conn.ldap.last_id

-- A stream with its chain of adapters. It borrows the connection.
pub record EntryStream : Type 0 where
  pub chain : List Adapter
  pub stream : Search

abbrev pub opened_stream :
    List Adapter × Search × Call (Unit {0}) → Search × Option (Run EntryStream)
opened_stream (chain, s, none) = (s, none)
opened_stream (chain, s, some (ok u)) = (s, some (ok (record { chain = chain; stream = s })))
opened_stream (chain, s, some (err e)) = (s, some (err e))
opened_stream (chain, s, some panic) = (s, some panic)

abbrev pub direct : Search × Call (Unit {0}) → List Adapter × Search × Call (Unit {0})
direct (s, r) = ([], s, r)

abbrev pub handle_of : LdapConn → Handle
handle_of conn = record {
  controls = conn.ldap.controls;
  search_opts = conn.ldap.search_opts;
  timeout = conn.ldap.timeout;
}

abbrev pub next_stream :
    List Adapter × Search × Call (Option ResultEntry) → EntryStream × Call (Option ResultEntry)
next_stream (chain, s, r) = (record { chain = chain; stream = s }, r)

module _ (filters : NomComplete) (nom : NomStreaming) where
  abbrev pub search :
      ℕ → ℕ → Params → LdapConn → Search → Search × Call (List ResultEntry × LdapResult)
  search f g p conn s = Chain.search filters nom f g p (handle_of conn) s

  abbrev pub streaming_search : Params → LdapConn → Search → Search × Option (Run EntryStream)
  streaming_search p conn s =
      opened_stream (direct (Adapters.streaming_search filters nom p (handle_of conn) s))

  abbrev pub streaming_search_with :
      List Adapter → Params → LdapConn → Search → Search × Option (Run EntryStream)
  streaming_search_with adapters p conn s =
      opened_stream (Chain.start filters adapters p (new_stream (handle_of conn) s))

  -- On fuel for the loops of the adapters.
  abbrev pub next : ℕ → EntryStream → EntryStream × Call (Option ResultEntry)
  next f es = next_stream (Chain.next filters nom f (length es.chain) true es.chain es.stream)

abbrev pub finished : List Adapter × Search × LdapResult → Search × LdapResult
finished (chain, s, res) = (s, res)

abbrev pub result : EntryStream → Search × LdapResult
result es = finished (Chain.finish es.chain es.stream)

abbrev pub stream_last_id : EntryStream → ℕ
stream_last_id es = es.stream.stream.last_id

-- With the features gssapi and ntlm. The state that the handle shares with the codec is given.
module _ (gssapi : Gssapi) (has_tls : Bool) (c : LdapCodec gssapi) (endpoint : Option Bytes) where
  abbrev pub sasl_gssapi_bind : Bytes → Exchange (LdapCodec gssapi × LdapResult)
  sasl_gssapi_bind server_fqdn = Binds.sasl_gssapi_bind gssapi has_tls c endpoint server_fqdn

  abbrev pub sasl_gssapi_cred_bind : gssapi.Cred → Bytes → Exchange (LdapCodec gssapi × LdapResult)
  sasl_gssapi_cred_bind cred server_fqdn =
      Binds.sasl_gssapi_cred_bind gssapi has_tls c endpoint cred server_fqdn

abbrev pub sasl_ntlm_bind : Sspi → Bool → Option Bytes → Bytes → Bytes → Exchange LdapResult
sasl_ntlm_bind sspi has_tls endpoint username password =
    Ntlm.sasl_ntlm_bind sspi has_tls endpoint username password
