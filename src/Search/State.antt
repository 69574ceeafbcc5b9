-- ===== src/Search/State.antt =====
-- src/search.rs: the state of a search, and the direct calls of `start`, `next` and `finish`.
use ldap.Common.{ℕ, Bool, true, false, Option, none, some, List, [], ◌∷◌, ◌++◌, ok, err, panic}
use ldap.Nom.{NomComplete}
use ldap.Ber.Asn.{Tag}
use ldap.Controls.Types.{RawControl}
use ldap.Result.Types.{LdapResult, Run, LdapError}
use ldap.Search.Request.{Params, SearchOptions, default_options, search_request}
use ldap.Search.Stream
use ldap.Search.Stream.{SearchStream, ResultEntry, StreamState, Received}

-- The fields of an `Ldap` handle that a search reads or takes. A duration is a number.
pub record Handle : Type 0 where
  pub controls : Option (List RawControl)
  pub search_opts : Option SearchOptions
  pub timeout : Option ℕ

-- What the call of `op_call` for a search comes to: the id of the operation and what the waits on
-- its channel come to, in order, or an error with the scrub requests that were sent.
pub data Opened : Type 0 where
  opened : ℕ → List Received → Opened
  refused : ℕ → LdapError → List ℕ → Opened

-- A stream with its handle; `script` is what the waits on `rx` come to. The world around it: what the
-- next searches come to, the requests that `op_call` was given, and the ids that were to be scrubbed.
pub record Search : Type 0 where
  pub stream : SearchStream
  pub script : List Received
  pub ldap : Handle
  pub coming : List Opened
  pub requests : List (Tag × Option (List RawControl))
  pub scrubbed : List ℕ

-- `none` is a call that still waits.
abbrev pub Call : Type 0 → Type 0
Call A = Option (Run A)

-- `unwrap_or_else(SearchOptions::new)` on the options that were taken.
abbrev pub options_of : Option SearchOptions → SearchOptions
options_of none = default_options
options_of (some opts) = opts

abbrev pub fail_stream : Search → Search
fail_stream s = record s { stream = record s.stream { state = StreamState.failed } }

-- `op_call` for a search: the controls and the timeout are taken from the handle.
unfoldable pub op_call : Tag → List Opened → Search → Search × Call (Unit {0})
op_call req [] s = (s, none)
op_call req (opened id script ∷ later) s = (
  record s {
    stream = record s.stream { state = StreamState.active; last_id = id };
    script = script;
    ldap = record s.ldap { controls = none; timeout = none };
    coming = later;
    requests = s.requests ++ ((req, s.ldap.controls) ∷ []);
  },
  some (ok tt),
)
op_call req (refused id e scrubs ∷ later) s = (
  record s {
    stream = record s.stream { last_id = id };
    script = [];
    ldap = record s.ldap { controls = none; timeout = none };
    coming = later;
    requests = s.requests ++ ((req, s.ldap.controls) ∷ []);
    scrubbed = s.scrubbed ++ scrubs;
  },
  some (err e),
)

-- After the options were taken: the request, or the error of the filter.
abbrev pub send_request : Run Tag → Search → Search × Call (Unit {0})
send_request (ok req) s =
    op_call req s.coming (record s { stream = record s.stream { receiving = true } })
send_request (err e) s = (s, some (err e))
send_request panic s = (s, some panic)

module _ (nom : NomComplete) where
  unfoldable pub start_inner : Params → Search → Search × Call (Unit {0})
  unfolding op_call search_request
  start_inner p s =
      send_request (search_request nom p (options_of s.ldap.search_opts))
        (record s { ldap = record s.ldap { search_opts = none } })

-- An error of `start` leaves the stream in the state of an error.
abbrev pub mark_start : Search × Call (Unit {0}) → Search × Call (Unit {0})
mark_start (s, some (ok u)) = (s, some (ok u))
mark_start (s, some (err e)) = (fail_stream s, some (err e))
mark_start (s, some panic) = (s, some panic)
mark_start (s, none) = (s, none)

abbrev pub is_fresh : StreamState → Bool
is_fresh StreamState.fresh = true
is_fresh StreamState.active = false
is_fresh StreamState.ended = false
is_fresh StreamState.closed = false
is_fresh StreamState.failed = false

abbrev pub is_active : StreamState → Bool
is_active StreamState.fresh = false
is_active StreamState.active = true
is_active StreamState.ended = false
is_active StreamState.closed = false
is_active StreamState.failed = false

abbrev pub is_closed : StreamState → Bool
is_closed StreamState.fresh = false
is_closed StreamState.active = false
is_closed StreamState.ended = false
is_closed StreamState.closed = true
is_closed StreamState.failed = false

-- One wait of `next_inner`, the first of the script.
abbrev pub wait : Bool → List Received → Search → Search × Call (Option ResultEntry)
wait false rs s = (s, some panic)
wait true [] s = (s, none)
wait true (r ∷ rs) s =
    let t = Stream.next_inner r s.stream in
    (
      record s { stream = t.stream; script = rs; scrubbed = s.scrubbed ++ t.scrubbed },
      some t.outcome,
    )

unfoldable pub next_direct : Search → Search × Call (Option ResultEntry)
unfolding Stream.next_inner
next_direct s = wait s.stream.receiving s.script s

unfoldable pub finish_direct : Search → Search × LdapResult
unfolding Stream.finish_inner
finish_direct s =
    let (stream, scrubs, res) = Stream.finish_inner s.stream in
    (record s { stream = stream; scrubbed = s.scrubbed ++ scrubs }, res)
