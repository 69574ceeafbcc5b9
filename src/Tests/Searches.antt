-- ===== src/Tests/Searches.antt =====
-- A search stream, at concrete inputs.
use ldap.Common.{◌≡◌, true, false, some, [], ◌∷◌, ◌++◌, map, Outcome}
use ldap.Ber.Structure.{structure_tag, application, P}
use ldap.Conn.Turn.{done}
use ldap.Result.Types.{LdapResult}
use ldap.Search.Stream
use ldap.Search.Drain.{drain, drain-finish, next-panics, sent_entry, streaming_search, read_to_end}

abbrev success : LdapResult
success = record { rc = 0; matched = []; text = []; refs = []; ctrls = [] }

abbrev an_entry : Stream.ResultEntry
an_entry = record { tag = structure_tag application 4 (P []); controls = [] }

abbrev a_referral : Stream.ResultEntry
a_referral = record { tag = structure_tag application 19 (P []); controls = [] }

drain-finish_example :
    (drain
        (map sent_entry ((an_entry, false) ∷ (a_referral, true) ∷ [])
          ++ (Stream.item (done success) [] ∷ []))
        (streaming_search 5)
      ≡ (read_to_end 5 success [], Outcome.ok (some (an_entry ∷ a_referral ∷ []))))
    × ((Stream.finish (read_to_end 5 success [])).1 ≡ 5 ∷ [])
    × ((Stream.finish (read_to_end 5 success [])).2 ≡ record success { ctrls = [] })
drain-finish_example = drain-finish 5 ((an_entry, false) ∷ (a_referral, true) ∷ []) success [] []

next-panics_example :
    ((Stream.next (Stream.item (done success) []) (streaming_search 5)).stream
      ≡ read_to_end 5 success [])
    × ((Stream.next Stream.no_sender (read_to_end 5 success [])).outcome ≡ Outcome.panic)
next-panics_example = next-panics 5 success [] Stream.no_sender
