-- ===== src/Conn/MsgId.antt =====
-- src/ldap.rs: `next_msgid`. The ids in use and the last one given out start at none and 0, so that
-- every id is a natural number, at most `i32::MAX`.
use ldap.Common.{
  ℕ, zero, suc, ◌+◌, Bool, false, ◌||◌, Option, none, some, List, [], ◌∷◌, ◌==◌, if◌then◌else◌, ok,
  err, panic,
}
use ldap.Result.Types.{Run}

abbrev pub max_id : ℕ
max_id = 2147483647

-- The contents of the shared `msgmap`. A `HashSet` is a list without duplicates.
pub record MsgMap : Type 0 where
  pub last : ℕ
  pub used : List ℕ

abbrev pub contains : ℕ → List ℕ → Bool
contains id [] = false
contains id (x ∷ xs) = (id == x) || contains id xs

abbrev pub following : ℕ → ℕ
following id = if id == max_id then 1 else id + 1

-- The loop, on fuel: the `assert_ne!` is the panic, and `none` is fuel that ran out.
unfoldable pub free_id : ℕ → ℕ → List ℕ → ℕ → Option (Run ℕ)
free_id zero last used id = none
free_id (suc f) last used id =
    let id' = following id in
    let rest = free_id f last used id' in
    if contains id' used then (if id' == last then some panic else rest) else some (ok id')

abbrev pub given_out : MsgMap → Option (Run ℕ) → Option (Run (ℕ × MsgMap))
given_out m none = none
given_out m (some (ok id)) = some (ok (id, record { last = id; used = id ∷ m.used }))
given_out m (some (err e)) = some (err e)
given_out m (some panic) = some panic

-- A turn around all ids takes `i32::MAX` steps.
unfoldable pub next_msgid : MsgMap → Option (Run (ℕ × MsgMap))
unfolding free_id
next_msgid m = given_out m (free_id max_id m.last m.used m.last)
