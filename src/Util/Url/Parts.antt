-- ===== src/Util/Url/Parts.antt =====
-- Splitting what was joined (`str::split` and `str::splitn` in src/util.rs).
use ldap.Common.{
  ℕ, suc, ◌≡◌, refl, ◌∙◌, ap, false, List, [], ◌∷◌, ◌++◌, Bytes, ◌==◌, ==_refl, All, is_empty,
}
use ldap.Util.Url.{split, splitn}

-- A text without a separator.
abbrev pub Lacks : ℕ → Bytes → Type 0
Lacks sep p = All (λ c. (c == sep) ≡ false) p

abbrev pub join : ℕ → Bytes → List Bytes → Bytes
join sep p [] = p
join sep p (q ∷ qs) = p ++ (sep ∷ join sep q qs)

split_part :
    (sep : ℕ) (p rest : Bytes) → Lacks sep p → split sep (p ++ (sep ∷ rest)) ≡ p ∷ split sep rest
unfolding split
split_part sep [] rest h = rw (==_refl sep) refl
split_part sep (c ∷ p) rest h = rw (h.0, split_part sep p rest h.1) refl

split_last : (sep : ℕ) (p : Bytes) → Lacks sep p → split sep p ≡ p ∷ []
unfolding split
split_last sep [] h = refl
split_last sep (c ∷ p) h = rw (h.0, split_last sep p h.1) refl

pub split-join :
    (sep : ℕ) (p : Bytes) (ps : List Bytes)
    → Lacks sep p
    → All (Lacks sep) ps
    → split sep (join sep p ps) ≡ p ∷ ps
split-join sep p [] h hs = split_last sep p h
split-join sep p (q ∷ qs) h hs =
    split_part sep p (join sep q qs) h ∙ ap (λ r. p ∷ r) (split-join sep q qs hs.0 hs.1)

pub splitn_part :
    (n sep : ℕ) (p rest : Bytes)
    → Lacks sep p
    → splitn (suc (suc n)) sep (p ++ (sep ∷ rest)) ≡ p ∷ splitn (suc n) sep rest
unfolding splitn
splitn_part n sep [] rest h = rw (==_refl sep) refl
splitn_part n sep (c ∷ p) rest h = rw (h.0, splitn_part n sep p rest h.1) refl

pub Lacks-append : (sep : ℕ) (p q : Bytes) → Lacks sep p → Lacks sep q → Lacks sep (p ++ q)
Lacks-append sep [] q h k = k
Lacks-append sep (c ∷ p) q h k = (h.0, Lacks-append sep p q h.1 k)

pub Lacks-join :
    (sep by : ℕ) (p : Bytes) (ps : List Bytes)
    → (by == sep) ≡ false
    → Lacks sep p
    → All (Lacks sep) ps
    → Lacks sep (join by p ps)
Lacks-join sep by p [] e h hs = h
Lacks-join sep by p (q ∷ qs) e h hs =
    Lacks-append sep p (by ∷ join by q qs) h (e, Lacks-join sep by q qs e hs.0 hs.1)

pub is_empty-append : (p q : Bytes) (c : ℕ) → is_empty (p ++ (c ∷ q)) ≡ false
is_empty-append [] q c = refl
is_empty-append (d ∷ p) q c = refl
