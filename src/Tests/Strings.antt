-- ===== src/Tests/Strings.antt =====
-- A test for lists of octets.
use ldap.Common.{
  ◌≡◌, ap, sym, ◌∙◌, Bool, true, ◌&&◌, [], ◌∷◌, Bytes, All, ltb, ltb→lt, Bool-cases, inl, inr,
}
use ldap.Ber.Total.{IsByte}

abbrev all_bytes : Bytes → Bool
all_bytes [] = true
all_bytes (b ∷ bs) = ltb b 256 && all_bytes bs

pub all_bytes-IsByte : (bs : Bytes) → all_bytes bs ≡ true → All IsByte bs
all_bytes-IsByte [] h = tt
all_bytes-IsByte (b ∷ bs) h = elim (Bool-cases (ltb b 256)) [
  | inl e ↦ (ltb→lt b 256 e, all_bytes-IsByte bs (ap (λ t. t && all_bytes bs) (sym e) ∙ h))
  | inr e ↦ cc
]
