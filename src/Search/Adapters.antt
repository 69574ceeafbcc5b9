-- ===== src/Search/Adapters.antt =====
-- src/adapters.rs: the adapters `EntriesOnly` and `PagedResults`, and their `next`.
use ldap.Common.{
  ℕ, zero, suc, Bool, true, false, Option, none, some, List, [], ◌∷◌, ◌++◌, Bytes, ok, err, panic,
  ◌==◌, if◌then◌else◌, is_empty, ◌>>=◌, expect,
}
use ldap.Common.Int.{ℤ}
use ldap.Nom.{NomComplete, NomStreaming}
use ldap.Ber.Structure.{id_of}
use ldap.Controls.Types.{Control, ControlType, RawControl}
use ldap.Controls.Paged.{PagedResults, raw_control, parse_paged}
use ldap.Result.Types.{LdapResult, Run}
use ldap.Result.Convert.{parse_refs}
use ldap.Search.Request.{Params}
use ldap.Search.State.{Handle, Search, Call, start_inner, mark_start}
use ldap.Search.Stream.{ResultEntry, StreamState}

-- The adapters of the library, with their fields. What `PagedResults` saves in `start` is there or
-- not as a whole. Adapters of users are not modelled.
pub data Adapter : Type 0 where
  entries_only : List Bytes → Adapter
  paged : ℤ → Option (Handle × Params) → Adapter

-- `EntriesOnly::new` and `PagedResults::new`.
abbrev pub new_entries_only : Adapter
new_entries_only = entries_only []

abbrev pub new_paged : ℤ → Adapter
new_paged page_size = paged page_size none

-- The adapters from the index on, the search, and the outcome.
abbrev pub Called : Type 0 → Type 0
Called A = List Adapter × Search × Call A

-- A call of the next adapter, or of the direct method.
abbrev pub Inner : Type 0 → Type 0
Inner A = List Adapter → Search → Called A

-- `ResultEntry::is_intermediate` and `is_ref`.
abbrev pub is_intermediate : ResultEntry → Bool
is_intermediate re = id_of re.tag == 25

abbrev pub is_ref : ResultEntry → Bool
is_ref re = id_of re.tag == 19

-- `EntriesOnly::next`: its loop is on fuel, and stays waiting where there is none.
abbrev pub with_refs :
    List Bytes
    → Run (List Bytes)
    → List Adapter
    → Search
    → (List Bytes → Called (Option ResultEntry))
    → Called (Option ResultEntry)
with_refs refs (ok more) rest s again = again (refs ++ more)
with_refs refs (err e) rest s again = (entries_only refs ∷ rest, s, some (err e))
with_refs refs panic rest s again = (entries_only refs ∷ rest, s, some panic)

abbrev pub entries_case :
    List Bytes
    → Called (Option ResultEntry)
    → (List Bytes → List Adapter → Search → Called (Option ResultEntry))
    → Called (Option ResultEntry)
entries_case refs (rest, s, some (ok (some re))) again =
    if is_intermediate re
    then again refs rest s
    else if is_ref re
    then with_refs refs (parse_refs re.tag) rest s (λ more. again more rest s)
    else (entries_only refs ∷ rest, s, some (ok (some re)))
entries_case refs (rest, s, some (ok none)) again = (entries_only refs ∷ rest, s, some (ok none))
entries_case refs (rest, s, some (err e)) again = (entries_only refs ∷ rest, s, some (err e))
entries_case refs (rest, s, some panic) again = (entries_only refs ∷ rest, s, some panic)
entries_case refs (rest, s, none) again = (entries_only refs ∷ rest, s, none)

unfoldable pub entries_next :
    ℕ
    → Inner (Option ResultEntry)
    → List Bytes
    → List Adapter
    → Search
    → Called (Option ResultEntry)
entries_next zero inner refs rest s = (entries_only refs ∷ rest, s, none)
entries_next (suc f) inner refs rest s =
    entries_case refs (inner rest s) (λ refs rest s. entries_next f inner refs rest s)

abbrev pub is_paged : Option ControlType → Bool
is_paged none = false
is_paged (some ControlType.paged_results) = true
is_paged (some ControlType.post_read_resp) = false
is_paged (some ControlType.pre_read_resp) = false
is_paged (some ControlType.sync_done) = false
is_paged (some ControlType.sync_state) = false
is_paged (some ControlType.manage_dsa_it) = false
is_paged (some ControlType.matched_values) = false

abbrev pub behind :
    Control
    → Option (List Control × RawControl × List Control)
    → Option (List Control × RawControl × List Control)
behind c none = none
behind c (some (before, raw, after)) = some (c ∷ before, raw, after)

-- The first paged results control, with the controls before and after it.
unfoldable pub find_paged : List Control → Option (List Control × RawControl × List Control)
find_paged [] = none
find_paged (c ∷ ctrls) =
    let rest = behind c (find_paged ctrls) in
    if is_paged c.known_type then some ([], c.raw, ctrls) else rest

abbrev pub set_ctrls : LdapResult → List Control → Search → Search
set_ctrls res ctrls s = record s {
  stream = record s.stream { res = some (record res { ctrls = ctrls }) };
}

-- `SearchStream::new` with the state of the world.
abbrev pub new_stream : Handle → Search → Search
new_stream ldap s = record s {
  stream = record { state = StreamState.fresh; receiving = false; last_id = 0; res = none };
  script = [];
  ldap = ldap;
}

-- The handle and the receiver of another stream in place of those of `s`.
abbrev pub replace : Search → Search → Search
replace s t = record t {
  stream = record s.stream { receiving = t.stream.receiving; last_id = t.stream.last_id };
}

-- The stream as it was, in the world that another one left.
abbrev pub world_of : Search → Search → Search
world_of s t = record s { coming = t.coming; requests = t.requests; scrubbed = t.scrubbed }

module _ (filters : NomComplete) (nom : NomStreaming) where
  -- `streaming_search`, whose stream has no adapters.
  unfoldable pub streaming_search : Params → Handle → Search → Search × Call (Unit {0})
  unfolding start_inner
  streaming_search p ldap s = mark_start (start_inner filters p (new_stream ldap s))

  abbrev pub replaced :
      Search
      → Search × Call (Unit {0})
      → Adapter
      → List Adapter
      → (List Adapter → Search → Called (Option ResultEntry))
      → Called (Option ResultEntry)
  replaced s (t, some (ok u)) a rest again = again rest (replace s t)
  replaced s (t, some (err e)) a rest again = (a ∷ rest, world_of s t, some (err e))
  replaced s (t, some panic) a rest again = (a ∷ rest, world_of s t, some panic)
  replaced s (t, none) a rest again = (a ∷ rest, world_of s t, none)

  abbrev pub with_saved :
      Option (List RawControl)
      → ℤ
      → Handle
      → Params
      → Bytes
      → List Adapter
      → Search
      → (List Adapter → Search → Called (Option ResultEntry))
      → Called (Option ResultEntry)
  with_saved none size ldap p cookie rest s again =
      (paged size (some (ldap, p)) ∷ rest, s, some panic)
  with_saved (some controls) size ldap p cookie rest s again =
      let next_controls =
        controls ++ (raw_control (record { size = size; cookie = cookie }) ∷ []) in
      replaced s (streaming_search p (record ldap { controls = some next_controls }) s)
        (paged size (some (ldap, p))) rest again

  -- The search for the next page, with `expect` on the saved handle and on its controls.
  abbrev pub next_page :
      ℤ
      → Option (Handle × Params)
      → Bytes
      → List Adapter
      → Search
      → (List Adapter → Search → Called (Option ResultEntry))
      → Called (Option ResultEntry)
  next_page size none cookie rest s again = (paged size none ∷ rest, s, some panic)
  next_page size (some (saved_ldap, p)) cookie rest s again =
      with_saved saved_ldap.controls size saved_ldap p cookie rest s again

  -- After the end of a page, by its paged results control.
  abbrev pub page_end :
      ℤ
      → Option (Handle × Params)
      → LdapResult
      → List Control
      → List Control
      → Run PagedResults
      → List Adapter
      → Search
      → (List Adapter → Search → Called (Option ResultEntry))
      → Called (Option ResultEntry)
  page_end size saved res before after (ok pr) rest s again =
      if is_empty pr.cookie
      then (paged size saved ∷ rest, set_ctrls res (before ++ after) s, some (ok none))
      else next_page size saved pr.cookie rest s again
  page_end size saved res before after (err e) rest s again =
      (paged size saved ∷ rest, s, some (err e))
  page_end size saved res before after panic rest s again = (paged size saved ∷ rest, s, some panic)

  abbrev pub at_end :
      ℤ
      → Option (Handle × Params)
      → LdapResult
      → Option (List Control × RawControl × List Control)
      → List Adapter
      → Search
      → (List Adapter → Search → Called (Option ResultEntry))
      → Called (Option ResultEntry)
  at_end size saved res none rest s again = (paged size saved ∷ rest, s, some (ok none))
  at_end size saved res (some (before, raw, after)) rest s again =
      page_end size saved res before after (expect raw.val >>= parse_paged nom) rest s again

  abbrev pub with_result :
      ℤ
      → Option (Handle × Params)
      → Option LdapResult
      → List Adapter
      → Search
      → (List Adapter → Search → Called (Option ResultEntry))
      → Called (Option ResultEntry)
  with_result size saved none rest s again = (paged size saved ∷ rest, s, some (ok none))
  with_result size saved (some res) rest s again =
      at_end size saved res (find_paged res.ctrls) rest s again

  abbrev pub paged_case :
      ℤ
      → Option (Handle × Params)
      → Called (Option ResultEntry)
      → (List Adapter → Search → Called (Option ResultEntry))
      → Called (Option ResultEntry)
  paged_case size saved (rest, s, some (ok none)) again =
      with_result size saved s.stream.res rest s again
  paged_case size saved (rest, s, some (ok (some re))) again =
      (paged size saved ∷ rest, s, some (ok (some re)))
  paged_case size saved (rest, s, some (err e)) again = (paged size saved ∷ rest, s, some (err e))
  paged_case size saved (rest, s, some panic) again = (paged size saved ∷ rest, s, some panic)
  paged_case size saved (rest, s, none) again = (paged size saved ∷ rest, s, none)

  -- `PagedResults::next`, on fuel like the other.
  unfoldable pub paged_next :
      ℕ
      → Inner (Option ResultEntry)
      → ℤ
      → Option (Handle × Params)
      → List Adapter
      → Search
      → Called (Option ResultEntry)
  unfolding find_paged streaming_search
  paged_next zero inner size saved rest s = (paged size saved ∷ rest, s, none)
  paged_next (suc f) inner size saved rest s =
      paged_case size saved (inner rest s) (λ rest s. paged_next f inner size saved rest s)

  -- `adapter.next(self)`.
  unfoldable pub adapter_next :
      ℕ → Inner (Option ResultEntry) → Adapter → List Adapter → Search → Called (Option ResultEntry)
  unfolding entries_next paged_next
  adapter_next f inner (entries_only refs) rest s = entries_next f inner refs rest s
  adapter_next f inner (paged size saved) rest s = paged_next f inner size saved rest s
