-- ===== src/Common/Text.antt =====
-- Text literals as bytes, and taking elements off a vector or an iterator.
use Prim.Native.String.{String}
use Prim.Native.Char.{code}
use mathlib.Core.Path.{◌≡◌, refl}
use mathlib.Core.List.{List, [], ◌∷◌, ◌++◌}
use mathlib.Core.Option.{Option, none, some}
use ldap.Common.Lists.{Bytes}

-- The bytes of an ASCII text.
abbrev pub codes : String → Bytes
codes String.[] = []
codes (String.◌∷◌ c s) = code c ∷ codes s

module _ {ℓ} {A : Type ℓ} where
  -- `Iterator::next`: the first element and the rest.
  abbrev pub next : List A → Option (A × List A)
  next [] = none
  next (x ∷ xs) = some (x, xs)

  abbrev after : A → Option (List A × A) → Option (List A × A)
  after x none = some ([], x)
  after x (some (xs, y)) = some (x ∷ xs, y)

  -- `Vec::pop`: the vector without its last element, and that.
  unfoldable pub pop : List A → Option (List A × A)
  pop [] = none
  pop (x ∷ xs) = after x (pop xs)

  pub pop-append : (xs : List A) (x : A) → pop (xs ++ x ∷ []) ≡ some (xs, x)
  unfolding pop
  pop-append [] x = refl
  pop-append (y ∷ xs) x = rw (pop-append xs x)
