-- ===== src/Tests/Connections.antt =====
-- The connection, the results and the requests, at concrete inputs.
use ldap.Common.{ℕ, ◌≡◌, ◌≤◌, refl, true, false, none, some, [], ◌∷◌, ◌++◌, Outcome, arith, codes}
use ldap.Common.Int.{pos}
use ldap.Common.Utf8.{utf8_valid, utf8_run, utf8_step}
use ldap.Nom.{streaming, streaming-IsNomStreaming}
use ldap.Ber.Structure.{structure_tag, P, C, application, class_of, id_of, from_list}
use ldap.Ber.Asn.{Tag, raw, into_structure, integer_octets, count_rem, i_e_into_structure}
use ldap.Ber.Write.{encode_inner, write_type, write_length}
use ldap.Conn.MsgId.{max_id, MsgMap, contains, next_msgid, free_id}
use ldap.Conn.Fresh.{next_msgid_lem}
use ldap.Conn.Maps.{get, remove, insert, discard}
use ldap.Conn.Turn.{
  Conn, Request, single, response, id_scrub, message, arm, scrub, submit, sent, free, reply,
  to_mode,
}
use ldap.Conn.World.{
  World, Reachable, start, allocate, handle as handle_event, initial, consistent_at,
}
use ldap.Conn.Ids.{Reachable-IsConsistent, next_msgid-unused}
use ldap.Conn.Routing.{cons, nil, response-delivered}
use ldap.Conn.Overtaken.{response-panics}
use ldap.Requests.Call.{Ldap, nothing, dropped, perform}
use ldap.Requests.Call.Completes.{request_of}
use ldap.Requests.Refused.{AddsNothing, modification_of, modify-AddsNothing}
use ldap.Requests.Build.{Mod, op_modify}
use ldap.Result.Types.{add_no_values}
use ldap.Common.{◌⊎◌, List}
use ldap.Protocol.Codec.{Message, encode, decode_inner, message_tag}
use ldap.Requests.Build.{request, op_compare, compare}
use ldap.Requests.Numbers.{decode_inner-request}
use ldap.Result.Convert.{LdapResultExt, from_tag}
use ldap.Result.RoundTrip.{response_tags, from_tag-response_tags}

-- The last id was the greatest one, and the two that come after it are in use.
abbrev wrapped : MsgMap
wrapped = record { last = max_id; used = 1 ∷ 2 ∷ [] }

next_msgid_lem_example :
    (id : ℕ) × (next_msgid wrapped
      ≡ some (Outcome.ok (id, record { last = id; used = id ∷ 1 ∷ 2 ∷ [] })))
    × (1 ≤ id)
    × (id ≤ max_id)
    × (contains id (1 ∷ 2 ∷ []) ≡ false)
next_msgid_lem_example = next_msgid_lem wrapped 3 (omega arith) (omega arith) (omega arith) refl

abbrev first_map : MsgMap
first_map = record { last = 1; used = 1 ∷ [] }

first_id : next_msgid initial.conn.msgmap ≡ some (Outcome.ok (1, first_map))
unfolding next_msgid free_id
first_id = refl

-- One handle took the id 1.
abbrev one_pending : World
one_pending = record {
  conn = record initial.conn { msgmap = first_map };
  pending = 1 ∷ [];
  overtaken = [];
}

one_pending-Reachable : Reachable one_pending
one_pending-Reachable = allocate start first_id

-- The id 1 was scrubbed before its request, and another handle took the id 2.
abbrev second_map : MsgMap
second_map = record { last = 2; used = 2 ∷ [] }

abbrev overtaken_once : World
overtaken_once = record {
  conn = record initial.conn { msgmap = second_map };
  pending = 2 ∷ 1 ∷ [];
  overtaken = 1 ∷ [];
}

second_id : next_msgid (record { last = 1; used = [] }) ≡ some (Outcome.ok (2, second_map))
unfolding next_msgid free_id
second_id = refl

overtaken_once-Reachable : Reachable overtaken_once
unfolding arm scrub discard remove
overtaken_once-Reachable =
    allocate (handle_event (id_scrub (some 1)) one_pending-Reachable tt refl) second_id

Reachable-IsConsistent_example : consistent_at 2 overtaken_once.conn overtaken_once.pending ≡ true
Reachable-IsConsistent_example = Reachable-IsConsistent 2 overtaken_once-Reachable refl

next_msgid-unused_example :
    (contains 1 [] ≡ false)
    × (get 1 initial.conn.resultmap ≡ none)
    × (get 1 initial.conn.searchmap ≡ none)
next_msgid-unused_example = next_msgid-unused 1 first_map start refl first_id

abbrev comparison : Request
comparison = record {
  id = 1;
  op = single;
  tag = compare (codes "dc=x") (codes "cn") (codes "a");
  controls = none;
  tx = 40;
}

-- The connection after the comparison was sent.
abbrev waiting : Conn
waiting = record { msgmap = first_map; resultmap = (1, 40) ∷ []; searchmap = [] }

abbrev answer : Message
answer = record { msgid = pos 1; protoop = structure_tag application 15 (P []); ctrls = [] }

response-delivered_example :
    arm (response (message answer) true) waiting
    ≡ Outcome.ok (record {
      conn = record waiting { msgmap = free 1 first_map; resultmap = remove 1 waiting.resultmap };
      actions = reply 40 (raw answer.protoop) [] ∷ [];
      flow = to_mode;
    })
unfolding arm submit sent remove insert
response-delivered_example =
    response-delivered comparison [] waiting answer true one_pending-Reachable refl refl refl
      (cons _ refl refl nil) tt refl

abbrev compare_true : LdapResultExt
compare_true = record {
  base = record {
    rc = 6;
    matched = [];
    text = codes "ok";
    refs = codes "ldap://b" ∷ [];
    ctrls = [];
  };
  exop = record { name = none; val = some (1 ∷ []) };
  sasl_creds = none;
}

from_tag-response_tags_example :
    from_tag (raw (structure_tag application 15 (C (from_list (response_tags compare_true)))))
    ≡ Outcome.ok compare_true
unfolding utf8_valid utf8_run utf8_step
from_tag-response_tags_example =
    from_tag-response_tags compare_true application 15
      (omega arith, refl, refl, (refl, tt), tt, refl)

abbrev compared : Tag
compared = compare (codes "dc=x") (codes "cn") (codes "a")

decode_inner-request_example :
    (decode_inner streaming (encode (pos 9, compared, none) [] ++ 1 ∷ []) ≡ (
      1 ∷ [],
      Outcome.ok (some (record { msgid = pos 9; protoop = into_structure compared; ctrls = [] })),
    ))
    × (class_of (into_structure compared) ≡ application)
    × (id_of (into_structure compared) ≡ 14)
unfolding request compare into_structure message_tag encode_inner write_type write_length
    integer_octets count_rem i_e_into_structure
decode_inner-request_example =
    decode_inner-request streaming streaming-IsNomStreaming
      (op_compare (codes "dc=x") (codes "cn") (codes "a")) compared 9 none (1 ∷ []) refl
      (omega arith) tt (ground arith)

abbrev handle : Ldap
handle = record { last_id = 0; timeout = none; controls = some []; search_opts = none }

-- Of the modifications, the second one adds nothing.
abbrev modifications : List Mod
modifications = Mod.delete (codes "sn") [] ∷ Mod.add (codes "cn") [] ∷ []

modify-AddsNothing_example :
    (AddsNothing modifications
      × (perform (op_modify (codes "dc=x") modifications) 40 dropped initial.conn.msgmap handle
          ≡ record {
            ldap = handle;
            msgmap = initial.conn.msgmap;
            sent = [];
            scrubbed = [];
            outcome = some (Outcome.err add_no_values);
          }))
    ⊎ ((¬ AddsNothing modifications)
        × (perform (op_modify (codes "dc=x") modifications) 40 nothing initial.conn.msgmap handle
            ≡ record {
              ldap = record handle { last_id = 1; controls = none; timeout = none };
              msgmap = first_map;
              sent =
                  request_of handle 1 single (modification_of (codes "dc=x") modifications) 40 ∷ [];
              scrubbed = [];
              outcome = none;
            }))
modify-AddsNothing_example =
    modify-AddsNothing (codes "dc=x") modifications 40 1 dropped handle initial.conn.msgmap
      first_map first_id

-- The response to a comparison, where a search under the same id was left behind.
response-panics_example :
    (w : World) × Reachable w
    × (get 1 w.conn.resultmap ≡ some 40)
    × (get 1 w.conn.searchmap ≡ some 30)
    × (arm (response (message answer) true) w.conn ≡ Outcome.panic)
response-panics_example = response-panics 30 40 answer true refl refl
