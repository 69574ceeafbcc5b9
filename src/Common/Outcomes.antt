-- ===== src/Common/Outcomes.antt =====
-- The outcome of a run: a value, an error value, or a panic.
use mathlib.Core.Option.{Option, none, some}

-- `panic` stands for an `expect`, an `unwrap`, a failed `assert` or an index out of bounds.
pub data Outcome {ℓ κ} (E : Type κ) (A : Type ℓ) : Type (ℓ ⊔ κ) where
  ok : A → Outcome E A
  err : E → Outcome E A
  panic : Outcome E A

infixl 5 ◌>>=◌ ◌>>◌
abbrev pub ◌>>=◌ {ℓ ℓ' κ} :
    {E : Type κ} {A : Type ℓ} {B : Type ℓ'} → Outcome E A → (A → Outcome E B) → Outcome E B
ok a >>= f = f a
err e >>= f = err e
panic >>= f = panic

abbrev pub ◌>>◌ {ℓ ℓ' κ} :
    {E : Type κ} {A : Type ℓ} {B : Type ℓ'} → Outcome E A → Outcome E B → Outcome E B
m >> k = m >>= λ _. k

-- `Option::expect` and `Option::unwrap`.
abbrev pub expect {ℓ κ} : {E : Type κ} {A : Type ℓ} → Option A → Outcome E A
expect none = panic
expect (some a) = ok a

-- `Option::and_then`.
abbrev pub and_then {ℓ κ} : {A : Type ℓ} {B : Type κ} → Option A → (A → Option B) → Option B
and_then none f = none
and_then (some a) f = f a
