-- ===== src/Search/Stream.antt =====
-- src/search.rs: `SearchStream` without adapters, where `ax` and the number of adapters are 0.
use ldap.Common.{
  ℕ, Bool, true, false, Option, none, some, List, [], ◌∷◌, Bytes, codes, ok, err, panic,
}
use ldap.Ber.Structure.{StructureTag}
use ldap.Controls.Types.{Control}
use ldap.Conn.Turn.{SearchItem, entry, referral, done}
use ldap.Result.Types.{LdapResult, Run, timeout, id_scrub_send, end_of_stream}

pub data StreamState : Type 0 where
  fresh active ended closed failed : StreamState

pub record ResultEntry : Type 0 where
  pub tag : StructureTag
  pub controls : List Control

-- `receiving` says whether `rx` is there, and `last_id` is the one of the `Ldap` handle.
pub record SearchStream : Type 0 where
  pub state : StreamState
  pub receiving : Bool
  pub last_id : ℕ
  pub res : Option LdapResult

-- What the wait for an item comes to: a timeout, with whether the scrub request can be sent, no
-- sender left, or an item.
pub data Received : Type 0 where
  timed_out : Bool → Received
  no_sender : Received
  item : SearchItem → List Control → Received

-- The stream, the scrub requests that were sent, and the outcome.
pub record Turned (A : Type 0) : Type 0 where
  pub stream : SearchStream
  pub scrubbed : List ℕ
  pub outcome : Run A

abbrev pub take_item : SearchItem → List Control → SearchStream → Turned (Option ResultEntry)
take_item (entry tag) controls s = record {
  stream = s;
  scrubbed = [];
  outcome = ok (some (record { tag = tag; controls = controls }));
}
take_item (referral tag) controls s = record {
  stream = s;
  scrubbed = [];
  outcome = ok (some (record { tag = tag; controls = controls }));
}
take_item (done res) controls s = record {
  stream = record s { receiving = false; res = some (record res { ctrls = controls }) };
  scrubbed = [];
  outcome = ok none;
}

abbrev pub take_received : Received → SearchStream → Turned (Option ResultEntry)
take_received (timed_out true) s = record {
  stream = s;
  scrubbed = s.last_id ∷ [];
  outcome = err timeout;
}
take_received (timed_out false) s = record {
  stream = s;
  scrubbed = [];
  outcome = err id_scrub_send;
}
take_received no_sender s = record {
  stream = record s { receiving = false };
  scrubbed = [];
  outcome = err end_of_stream;
}
take_received (item i controls) s = take_item i controls s

-- The panic is the `unwrap` of `rx`.
abbrev pub when_receiving : Bool → Received → SearchStream → Turned (Option ResultEntry)
when_receiving true r s = take_received r s
when_receiving false r s = record { stream = s; scrubbed = []; outcome = panic }

unfoldable pub next_inner : Received → SearchStream → Turned (Option ResultEntry)
next_inner r s = when_receiving s.receiving r s

-- The state after an error.
abbrev pub mark_error :
    Turned (Option ResultEntry) → Run (Option ResultEntry) → Turned (Option ResultEntry)
mark_error t (ok e) = t
mark_error t (err e) = record t { stream = record t.stream { state = failed } }
mark_error t panic = t

abbrev pub when_active : StreamState → Received → SearchStream → Turned (Option ResultEntry)
when_active active r s = let t = next_inner r s in mark_error t t.outcome
when_active fresh r s = record { stream = s; scrubbed = []; outcome = ok none }
when_active ended r s = record { stream = s; scrubbed = []; outcome = ok none }
when_active closed r s = record { stream = s; scrubbed = []; outcome = ok none }
when_active failed r s = record { stream = s; scrubbed = []; outcome = ok none }

unfoldable pub next : Received → SearchStream → Turned (Option ResultEntry)
unfolding next_inner
next r s = when_active s.state r s

abbrev pub synthetic : ℕ → Bytes → LdapResult
synthetic rc text = record { rc = rc; matched = []; text = text; refs = []; ctrls = [] }

abbrev pub result_or_cancelled : Option LdapResult → LdapResult
result_or_cancelled none = synthetic 88 (codes "user cancelled")
result_or_cancelled (some r) = r

abbrev pub scrub_unless_ended : StreamState → ℕ → List ℕ
scrub_unless_ended fresh id = id ∷ []
scrub_unless_ended active id = id ∷ []
scrub_unless_ended ended id = []
scrub_unless_ended closed id = id ∷ []
scrub_unless_ended failed id = id ∷ []

-- A scrub request that cannot be sent is only logged.
unfoldable pub finish_inner : SearchStream → SearchStream × List ℕ × LdapResult
finish_inner s = (
  record s { state = closed; receiving = false; res = none },
  scrub_unless_ended s.state s.last_id,
  result_or_cancelled s.res,
)

abbrev pub when_not_closed : StreamState → SearchStream → SearchStream × List ℕ × LdapResult
when_not_closed closed s = (s, [], synthetic 80 (codes "stream already finalized"))
when_not_closed fresh s = finish_inner s
when_not_closed active s = finish_inner s
when_not_closed ended s = finish_inner s
when_not_closed failed s = finish_inner s

unfoldable pub finish : SearchStream → SearchStream × List ℕ × LdapResult
unfolding finish_inner
finish s = when_not_closed s.state s
