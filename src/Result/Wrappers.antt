-- ===== src/Result/Wrappers.antt =====
-- src/result.rs: the wrappers `SearchResult`, `CompareResult` and `ExopResult`.
use ldap.Common.{◌≡◌, refl, ◌||◌, List, ◌==◌, if◌then◌else◌, ok, err, ◌>>=◌, Bool-cases, inl, inr}
use ldap.Result.Types.{LdapResult, Run, ldap_result}
use ldap.Result.Convert.{Exop, success, non_error}
use ldap.Search.Stream.{ResultEntry}

abbrev pub SearchResult : Type 0
SearchResult = List ResultEntry × LdapResult

unfoldable pub search_success : SearchResult → Run (List ResultEntry × LdapResult)
search_success (entries, res) = if res.rc == 0 then ok (entries, res) else err (ldap_result res)

unfoldable pub search_non_error : SearchResult → Run (List ResultEntry × LdapResult)
search_non_error (entries, res) =
    if (res.rc == 0) || (res.rc == 10) then ok (entries, res) else err (ldap_result res)

unfoldable pub compare_non_error : LdapResult → Run LdapResult
compare_non_error res =
    if (res.rc == 5) || ((res.rc == 6) || (res.rc == 10)) then ok res else err (ldap_result res)

abbrev pub ExopResult : Type 0
ExopResult = Exop × LdapResult

unfoldable pub exop_success : ExopResult → Run (Exop × LdapResult)
exop_success (exop, res) = if res.rc == 0 then ok (exop, res) else err (ldap_result res)

unfoldable pub exop_non_error : ExopResult → Run (Exop × LdapResult)
exop_non_error (exop, res) =
    if (res.rc == 0) || (res.rc == 10) then ok (exop, res) else err (ldap_result res)

-- The wrappers agree with the methods of the result that they hold.
search_success_lem :
    (entries : List ResultEntry) (res : LdapResult)
    → search_success (entries, res) ≡ (success res >>= λ r. ok (entries, r))
unfolding search_success success
search_success_lem entries res = elim (Bool-cases (res.rc == 0)) [
  | inl h ↦ rw h refl
  | inr h ↦ rw h refl
]

search_non_error_lem :
    (entries : List ResultEntry) (res : LdapResult)
    → search_non_error (entries, res) ≡ (non_error res >>= λ r. ok (entries, r))
unfolding search_non_error non_error
search_non_error_lem entries res = elim (Bool-cases ((res.rc == 0) || (res.rc == 10))) [
  | inl h ↦ rw h refl
  | inr h ↦ rw h refl
]

exop_success_lem :
    (exop : Exop) (res : LdapResult)
    → exop_success (exop, res) ≡ (success res >>= λ r. ok (exop, r))
unfolding exop_success success
exop_success_lem exop res = elim (Bool-cases (res.rc == 0)) [
  | inl h ↦ rw h refl
  | inr h ↦ rw h refl
]
