-- ===== src/Search/Chain.antt =====
-- src/search.rs: a stream with a chain of adapters, and `search` of src/ldap.rs. The first adapter of
-- a chain is the one at the index `ax`.
use ldap.Common.{
  ℕ, zero, suc, Bool, true, false, ◌||◌, Option, none, some, List, [], ◌∷◌, ◌++◌, ok, err, panic,
  if◌then◌else◌, bytes_eq, codes, length,
}
use ldap.Common.Int.{ℤ}
use ldap.Nom.{NomComplete, NomStreaming}
use ldap.Controls.Types.{RawControl}
use ldap.Controls.Codec.{paged_results_oid}
use ldap.Controls.Paged.{raw_control}
use ldap.Result.Types.{LdapResult, adapter_init}
use ldap.Search.Request.{Params}
use ldap.Search.State.{
  Handle, Search, Call, fail_stream, start_inner, mark_start, is_fresh, is_active, is_closed,
  next_direct, finish_direct,
}
use ldap.Search.Stream.{ResultEntry, StreamState, synthetic}
use ldap.Search.Adapters.{Adapter, entries_only, paged, Called, adapter_next, new_stream}

-- Whether `found_pr` is set.
unfoldable pub any_paged : List RawControl → Bool
any_paged [] = false
any_paged (c ∷ cs) = bytes_eq c.ctype paged_results_oid || any_paged cs

abbrev pub controls_of : Option (List RawControl) → List RawControl
controls_of none = []
controls_of (some cs) = cs

-- The adapters from an index on, in a stream with all of them.
abbrev pub adapter_chain_tail : ℕ → List Adapter → List Adapter
adapter_chain_tail zero adapters = adapters
adapter_chain_tail (suc ax) [] = []
adapter_chain_tail (suc ax) (a ∷ adapters) = adapter_chain_tail ax adapters

abbrev pub mark_called : Called (Unit {0}) → Called (Unit {0})
mark_called (chain, s, some (ok u)) = (chain, s, some (ok u))
mark_called (chain, s, some (err e)) = (chain, fail_stream s, some (err e))
mark_called (chain, s, some panic) = (chain, s, some panic)
mark_called (chain, s, none) = (chain, s, none)

abbrev pub under : Adapter → Called (Unit {0}) → Called (Unit {0})
under a (chain, s, r) = (a ∷ chain, s, r)

abbrev pub no_adapter : Search × Call (Unit {0}) → Called (Unit {0})
no_adapter (s, r) = ([], s, r)

-- `PagedResults` puts its control behind those of the search.
abbrev pub with_paged : ℤ → Search → Search
with_paged size s = record s {
  ldap = record s.ldap {
    controls =
        some
          (controls_of s.ldap.controls ++ (raw_control (record { size = size; cookie = [] }) ∷ []));
  };
}

-- It saves the handle with the controls as they were, and the parameters of the search.
abbrev pub saving : ℤ → Params → Search → Adapter
saving size p s =
    paged size (some (record s.ldap { controls = some (controls_of s.ldap.controls) }, p))

module _ (filters : NomComplete) where
  -- `SearchStream::start`, with the `start` of each adapter.
  unfoldable pub start : List Adapter → Params → Search → Called (Unit {0})
  unfolding start_inner any_paged
  start [] p s =
      if is_fresh s.stream.state
      then no_adapter (mark_start (start_inner filters p s))
      else ([], s, some (ok tt))
  start (entries_only refs ∷ chain) p s =
      let inner = start chain p s in
      if is_fresh s.stream.state
      then mark_called (under (entries_only []) inner)
      else (entries_only refs ∷ chain, s, some (ok tt))
  start (paged size saved ∷ chain) p s =
      let inner = start chain p (with_paged size s) in
      if is_fresh s.stream.state
      then (if any_paged (controls_of s.ldap.controls)
          then (
            paged size saved ∷ chain,
            fail_stream s,
            some (err (adapter_init (codes "found Paged Results control in op set"))),
          )
          else mark_called (under (saving size p s) inner))
      else (paged size saved ∷ chain, s, some (ok tt))

abbrev pub with_refs :
    Adapter → List Adapter × Search × LdapResult → List Adapter × Search × LdapResult
with_refs (entries_only refs) (chain, s, res) =
    (entries_only [] ∷ chain, s, record res { refs = res.refs ++ refs })
with_refs (paged size saved) (chain, s, res) = (paged size saved ∷ chain, s, res)

abbrev pub no_adapter_left : Search × LdapResult → List Adapter × Search × LdapResult
no_adapter_left (s, res) = ([], s, res)

-- `SearchStream::finish`, with the `finish` of each adapter.
unfoldable pub finish : List Adapter → Search → List Adapter × Search × LdapResult
unfolding finish_direct
finish [] s =
    if is_closed s.stream.state
    then ([], s, synthetic 80 (codes "stream already finalized"))
    else no_adapter_left (finish_direct s)
finish (a ∷ chain) s =
    let inner = finish chain s in
    if is_closed s.stream.state
    then (a ∷ chain, s, synthetic 80 (codes "stream already finalized"))
    else with_refs a inner

-- The state of the stream after a call: `top` is `ax == 0` in a stream with adapters.
abbrev pub mark_next : Bool → Called (Option ResultEntry) → Called (Option ResultEntry)
mark_next top (chain, s, some (ok (some re))) = (chain, s, some (ok (some re)))
mark_next top (chain, s, some (ok none)) = (
  chain,
  (if top then record s { stream = record s.stream { state = StreamState.ended } } else s),
  some (ok none),
)
mark_next top (chain, s, some (err e)) = (chain, fail_stream s, some (err e))
mark_next top (chain, s, some panic) = (chain, s, some panic)
mark_next top (chain, s, none) = (chain, s, none)

abbrev pub at_no_adapter : Search × Call (Option ResultEntry) → Called (Option ResultEntry)
at_no_adapter (s, r) = ([], s, r)

-- The loop `while let Some(entry) = stream.next().await?`.
abbrev pub collected : ResultEntry → Called (List ResultEntry) → Called (List ResultEntry)
collected e (chain, s, some (ok es)) = (chain, s, some (ok (e ∷ es)))
collected e (chain, s, some (err b)) = (chain, s, some (err b))
collected e (chain, s, some panic) = (chain, s, some panic)
collected e (chain, s, none) = (chain, s, none)

abbrev pub collect_case :
    Called (Option ResultEntry)
    → (List Adapter → Search → Called (List ResultEntry))
    → Called (List ResultEntry)
collect_case (chain, s, some (ok none)) again = (chain, s, some (ok []))
collect_case (chain, s, some (ok (some e))) again = collected e (again chain s)
collect_case (chain, s, some (err b)) again = (chain, s, some (err b))
collect_case (chain, s, some panic) again = (chain, s, some panic)
collect_case (chain, s, none) again = (chain, s, none)

abbrev pub finish_case : Called (List ResultEntry) → Search × Call (List ResultEntry × LdapResult)
finish_case (chain, s, some (ok es)) =
    let (chain', s', res) = finish chain s in (s', some (ok (es, res)))
finish_case (chain, s, some (err b)) = (s, some (err b))
finish_case (chain, s, some panic) = (s, some panic)
finish_case (chain, s, none) = (s, none)

module _ (filters : NomComplete) (nom : NomStreaming) where
  -- `SearchStream::next`. An index out of bounds panics.
  unfoldable pub next : ℕ → ℕ → Bool → List Adapter → Search → Called (Option ResultEntry)
  unfolding adapter_next
  next f zero top chain s =
      if is_active s.stream.state
      then mark_next false (at_no_adapter (next_direct s))
      else (chain, s, some (ok none))
  next f (suc left) top [] s =
      if is_active s.stream.state then ([], s, some panic) else ([], s, some (ok none))
  next f (suc left) top (a ∷ chain) s =
      let inner = adapter_next filters nom f (λ chain s. next f left false chain s) a chain s in
      if is_active s.stream.state then mark_next top inner else (a ∷ chain, s, some (ok none))

  -- On fuel.
  unfoldable pub collect : ℕ → ℕ → List Adapter → Search → Called (List ResultEntry)
  unfolding next
  collect f zero chain s = (chain, s, none)
  collect f (suc g) chain s =
      collect_case (next f (length chain) true chain s) (λ chain s. collect f g chain s)

  abbrev pub collect_started :
      ℕ → ℕ → Called (Unit {0}) → Search × Call (List ResultEntry × LdapResult)
  collect_started f g (chain, s, some (ok u)) = finish_case (collect f g chain s)
  collect_started f g (chain, s, some (err b)) = (s, some (err b))
  collect_started f g (chain, s, some panic) = (s, some panic)
  collect_started f g (chain, s, none) = (s, none)

  -- The handle gives its controls, its options and its timeout away.
  abbrev pub streaming_search_with : List Adapter → Params → Handle → Search → Called (Unit {0})
  streaming_search_with adapters p ldap s = start filters adapters p (new_stream ldap s)

  -- What `search` does, with any adapters: the stream is read to its end and finished.
  unfoldable pub search_with :
      List Adapter
      → ℕ
      → ℕ
      → Params
      → Handle
      → Search
      → Search × Call (List ResultEntry × LdapResult)
  unfolding start collect finish
  search_with adapters f g p ldap s = collect_started f g (streaming_search_with adapters p ldap s)

  -- `Ldap::search`.
  unfoldable pub search :
      ℕ → ℕ → Params → Handle → Search → Search × Call (List ResultEntry × LdapResult)
  unfolding search_with
  search f g p ldap s = search_with (entries_only [] ∷ []) f g p ldap s
