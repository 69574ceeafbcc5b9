-- ===== src/Tests/Calls.antt =====
-- Calls of operations and parameters of URLs, at concrete inputs.
use ldap.Common.{◌≡◌, refl, true, false, none, some, [], ◌∷◌, Outcome, codes, arith}
use ldap.Common.Utf8.{utf8_valid, utf8_run, utf8_step}
use ldap.Ber.Asn.{Tag}
use ldap.Ber.Structure.{application}
use ldap.Conn.MsgId.{MsgMap, contains, next_msgid, free_id}
use ldap.Conn.Maps.{get, insert}
use ldap.Conn.Turn.{After, Conn, LdapOp, arm, id_scrub, response, message, submit, sent}
use ldap.Conn.Routing.{cons, nil}
use ldap.Conn.World.{initial, start}
use ldap.Requests.Build.{op_delete, request, delete_request}
use ldap.Requests.Call.{Ldap, timed_out, perform, op_call, answer_of}
use ldap.Requests.Call.Completes.{perform-response, op_call-timed_out, request_of, response_of}
use ldap.Result.Types.{timeout as timeout_error}
use ldap.Result.Convert.{LdapResultExt}
use ldap.Search.Request.{one_level}
use ldap.Util.Url.{bindname, start_tls, get_url_params}
use ldap.Util.Url.Params.{UrlParts, url_of, get_url_params-url_of}

abbrev handle : Ldap
handle = record { last_id = 0; timeout = some 3; controls = some []; search_opts = none }

abbrev first_map : MsgMap
first_map = record { last = 1; used = 1 ∷ [] }

first_id : next_msgid initial.conn.msgmap ≡ some (Outcome.ok (1, first_map))
unfolding next_msgid free_id
first_id = refl

abbrev no_such_object : LdapResultExt
no_such_object = record {
  base = record { rc = 32; matched = codes "dc=x"; text = []; refs = []; ctrls = [] };
  exop = record { name = none; val = none };
  sasl_creds = none;
}

abbrev deletion : Tag
deletion = delete_request (codes "cn=a,dc=x")

-- The connection that was sent the deletion.
abbrev waiting : Conn
waiting = record { msgmap = first_map; resultmap = (1, 40) ∷ []; searchmap = [] }

perform-response_example :
    (a : After) × (arm
        (response (message (response_of 1 application 11 no_such_object [])) true)
        waiting
      ≡ Outcome.ok a)
    × (contains 1 a.conn.msgmap.used ≡ false)
    × (perform
          (op_delete (codes "cn=a,dc=x"))
          40
          (answer_of 40 a.actions)
          initial.conn.msgmap
          handle
        ≡ record {
          ldap = record { last_id = 1; timeout = none; controls = none; search_opts = none };
          msgmap = first_map;
          sent = request_of handle 1 LdapOp.single deletion 40 ∷ [];
          scrubbed = [];
          outcome = some (Outcome.ok no_such_object);
        })
unfolding arm submit sent utf8_valid utf8_run utf8_step request insert
perform-response_example =
    perform-response (op_delete (codes "cn=a,dc=x")) deletion handle 40 1 first_map [] waiting
      no_such_object application 11 [] true start refl refl refl first_id (cons _ refl refl nil) tt
      (omega arith, refl, refl, tt, tt, refl)

op_call-timed_out_example :
    (op_call LdapOp.single deletion 40 (timed_out true) initial.conn.msgmap handle ≡ record {
      ldap = record { last_id = 1; timeout = none; controls = none; search_opts = none };
      msgmap = first_map;
      sent = request_of handle 1 LdapOp.single deletion 40 ∷ [];
      scrubbed = 1 ∷ [];
      outcome = some (Outcome.err timeout_error);
    })
    × ((a : After) × (arm (id_scrub (some 1)) waiting ≡ Outcome.ok a)
        × (contains 1 a.conn.msgmap.used ≡ false)
        × (get 1 a.conn.resultmap ≡ none)
        × (get 1 a.conn.searchmap ≡ none))
op_call-timed_out_example =
    op_call-timed_out LdapOp.single deletion 40 3 1 handle initial.conn.msgmap first_map waiting
      refl first_id

-- A URL without percent signs, and its parts: no filter, and two extensions.
abbrev parts : UrlParts
parts = record {
  base_raw = codes "dc=x";
  attrs = codes "cn" ∷ codes "sn" ∷ [];
  scope = some one_level;
  filter_raw = [];
  items =
      record { crit = true; ext = bindname (codes "cn=a"); raw = codes "cn=a" }
      ∷ record { crit = false; ext = start_tls; raw = [] }
      ∷ [];
}

get_url_params-url_of_example :
    get_url_params some (λ s. s) (url_of parts)
    ≡ Outcome.ok (record {
      base_dn = codes "dc=x";
      attrs = codes "cn" ∷ codes "sn" ∷ [];
      scope = one_level;
      filter = codes "(objectClass=*)";
      extensions = bindname (codes "cn=a") ∷ start_tls ∷ [];
    })
get_url_params-url_of_example =
    get_url_params-url_of some (λ s. s) parts (codes "dc=x") (codes "(objectClass=*)") refl
      (refl, ground arith, ground arith) (ground arith) refl (ground arith) (ground arith)
