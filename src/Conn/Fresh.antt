-- ===== src/Conn/Fresh.antt =====
-- What `next_msgid` gives out (src/ldap.rs).
use ldap.Common.{
  ℕ, zero, suc, ◌≢◌, ◌+◌, ◌-◌, ◌≤◌, ◌≡◌, ◌⊎◌, inl, inr, refl, true, false, some, List, ◌∷◌, ltb,
  ◌==◌, if◌then◌else◌, ok, arith, Bool-cases,
}
use ldap.Conn.MsgId.{max_id, MsgMap, contains, following, free_id, next_msgid}

-- How many steps of the loop lead from one id to another.
abbrev distance : ℕ → ℕ → ℕ
distance id k = if ltb id k then k - id else k + max_id - id

distance_step :
    (id k : ℕ)
    → id ≤ max_id
    → 1 ≤ k
    → k ≤ max_id
    → following id ≢ k
    → distance (following id) k + 1 ≡ distance id k
distance_step id k h lo hi ne = ground arith

distance_one : (id k : ℕ) → id ≤ max_id → 1 ≤ k → k ≤ max_id → distance id k ≤ 1 → following id ≡ k
distance_one id k h lo hi d = ground arith

distance-following : (id : ℕ) → id ≤ max_id → distance id (following id) ≤ 1
distance-following id h = ground arith

contains_ne : (used : List ℕ) (a b : ℕ) → contains a used ≡ true → contains b used ≡ false → a ≢ b
contains_ne used a b h k = cc

-- The place where the loop began is not reached before the free id.
not_back :
    (id last k : ℕ)
    → id ≤ max_id
    → 1 ≤ k
    → k ≤ max_id
    → following id ≢ k
    → (last ≡ 0) ⊎ (distance id k ≤ distance id last)
    → (following id == last) ≡ false
not_back id last k h lo hi ne (inl e) = ground arith
not_back id last k h lo hi ne (inr a) = ground arith

stays_ahead :
    (id last k : ℕ)
    → id ≤ max_id
    → last ≤ max_id
    → 1 ≤ k
    → k ≤ max_id
    → following id ≢ k
    → (last ≡ 0) ⊎ (distance id k ≤ distance id last)
    → (last ≡ 0) ⊎ (distance (following id) k ≤ distance (following id) last)
stays_ahead id last k h hl lo hi ne (inl e) = inl e
stays_ahead id last k h hl lo hi ne (inr a) = inr (ground arith)

-- The loop stops at a free id if there is one ahead of the place where it began.
free_id_lem :
    (f last : ℕ) (used : List ℕ) (id k : ℕ)
    → id ≤ max_id
    → last ≤ max_id
    → 1 ≤ k
    → k ≤ max_id
    → contains k used ≡ false
    → distance id k ≤ f
    → (last ≡ 0) ⊎ (distance id k ≤ distance id last)
    → (new : ℕ) × (free_id f last used id ≡ some (ok new))
      × (1 ≤ new)
      × (new ≤ max_id)
      × (contains new used ≡ false)
unfolding free_id
free_id_lem zero last used id k h hl lo hi free d a = absurd (ground arith)
free_id_lem (suc f) last used id k h hl lo hi free d a =
    elim (Bool-cases (contains (following id) used)) [
      | inr e ↦ (following id, rw e refl, ground arith, ground arith, e)
      | inl e ↦
          let ne = contains_ne used (following id) k e free in
          let step = distance_step id k h lo hi ne in
          let (new, given, b1, b2, b3) =
            free_id_lem f last used (following id) k (ground arith) hl lo hi free
              (omega (arith, step)) (stays_ahead id last k h hl lo hi ne a) in
          (new, rw (e, not_back id last k h lo hi ne a) given, b1, b2, b3)
    ]

-- If the last id is at most 2^31 - 1 and any id from 1 to 2^31 - 1 is not in use, `next_msgid`
-- returns within 2^31 - 1 steps of its loop, without a panic, an id from 1 to 2^31 - 1 that was
-- not in use, and the map then has it as the last id and as one more id in use.
pub next_msgid_lem :
    (m : MsgMap) (k : ℕ)
    → m.last ≤ max_id
    → 1 ≤ k
    → k ≤ max_id
    → contains k m.used ≡ false
    → (id : ℕ) × (next_msgid m ≡ some (ok (id, record { last = id; used = id ∷ m.used })))
      × (1 ≤ id)
      × (id ≤ max_id)
      × (contains id m.used ≡ false)
unfolding next_msgid
next_msgid_lem m k h lo hi free =
    let (id, given, b1, b2, b3) =
      free_id_lem max_id m.last m.used m.last k h h lo hi free (ground arith) (ground arith) in
    (id, rw given refl, b1, b2, b3)
