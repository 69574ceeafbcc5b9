-- ===== src/Conn/Maps.antt =====
-- The maps and the set of a connection (src/conn.rs): association lists, the newest entry first.
use ldap.Common.{
  ℕ, ◌≡◌, refl, sym, ◌∙◌, arith, Bool, false, ◌||◌, Option, none, some, List, [], ◌∷◌, ◌==◌,
  if◌then◌else◌, Bool-cases, inl, inr,
}
use ldap.Conn.MsgId.{contains}

module _ {ℓ} {A : Type ℓ} where
  -- `HashMap::get`, `remove` and `insert`.
  unfoldable pub get : ℕ → List (ℕ × A) → Option A
  get id [] = none
  get id ((k, v) ∷ m) = if id == k then some v else get id m

  unfoldable pub remove : ℕ → List (ℕ × A) → List (ℕ × A)
  remove id [] = []
  remove id ((k, v) ∷ m) = let rest = remove id m in if id == k then rest else (k, v) ∷ rest

  unfoldable pub insert : ℕ → A → List (ℕ × A) → List (ℕ × A)
  unfolding remove
  insert id v m = (id, v) ∷ remove id m

-- `HashSet::remove`.
unfoldable pub discard : ℕ → List ℕ → List ℕ
discard id [] = []
discard id (x ∷ xs) = let rest = discard id xs in if id == x then rest else x ∷ rest

module _ {ℓ} {A : Type ℓ} where
  -- Whether there is an entry for an id.
  abbrev pub has : ℕ → List (ℕ × A) → Bool
  has k [] = false
  has k ((id, v) ∷ m) = (k == id) || has k m

  pub has-remove :
      (k id : ℕ) (m : List (ℕ × A)) → has k (remove id m) ≡ (if k == id then false else has k m)
  unfolding remove
  has-remove k id [] = ground arith
  has-remove k id ((j, v) ∷ m) = ground (arith, has-remove k id m)

  pub has-insert :
      (k id : ℕ) (v : A) (m : List (ℕ × A)) → has k (insert id v m) ≡ ((k == id) || has k m)
  unfolding insert
  has-insert k id v m = ground (arith, has-remove k id m)

  pub get-none : (k : ℕ) (m : List (ℕ × A)) → has k m ≡ false → get k m ≡ none
  unfolding get
  get-none k [] h = refl
  get-none k ((id, v) ∷ m) h = elim (Bool-cases (k == id)) [
    | inl e ↦ cc
    | inr e ↦ rw e (get-none k m (sym (rw e refl) ∙ h))
  ]

pub contains-discard :
    (k id : ℕ) (xs : List ℕ)
    → contains k (discard id xs) ≡ (if k == id then false else contains k xs)
unfolding discard
contains-discard k id [] = ground arith
contains-discard k id (x ∷ xs) = ground (arith, contains-discard k id xs)
