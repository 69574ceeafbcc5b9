-- ===== src/Filter/Shape.antt =====
-- The type Filter of RFC 4511, and that the items of src/filter.rs have it.
use ldap.Common.{
  ℕ, suc, ◌+◌, ◌≡◌, ◌≢◌, ◌⊎◌, inl, inr, refl, sym, ap, subst, ◌∙◌, Bool, true, false, not,
  Bool-cases, Option, none, some, List, [], ◌∷◌, ◌++◌, Bytes, length, is_empty, arith, ◌==◌, ==_iff,
  ==_false, if◌then◌else◌, bytes_eq,
}
use ldap.Ber.Structure.{context, universal}
use ldap.Ber.Asn.{Tag, TagVec, sequence, octet_string, boolean, explicit_tag, nil, cons, vec}
use ldap.Filter.Items.{
  filtertag, empty_inside, push_parts, is_single_empty, eq_tag, extensible_tag, check_parts,
  non_eq_tag,
}
use ldap.Nom.Yields.{Yields}

-- RFC 4511, 4.5.1: the parts of a substring assertion after the first. No part is empty, and `final`
-- is the last.
pub data IsTail : List Tag → Type 0 where
  end : IsTail []
  final : {v : Bytes} → is_empty v ≡ false → IsTail (octet_string 2 context v ∷ [])
  any :
      {v : Bytes} {ts : List Tag}
      → is_empty v ≡ false
      → IsTail ts
      → IsTail (octet_string 1 context v ∷ ts)

-- There is at least one part, and `initial` is the first.
pub data IsSubstrings : List Tag → Type 0 where
  initial :
      {v : Bytes} {ts : List Tag}
      → is_empty v ≡ false
      → IsTail ts
      → IsSubstrings (octet_string 0 context v ∷ ts)
  no_initial : {t : Tag} {ts : List Tag} → IsTail (t ∷ ts) → IsSubstrings (t ∷ ts)

-- A comparison: greaterOrEqual, lessOrEqual or approxMatch.
pub data IsComparison : ℕ → Type 0 where
  greater_or_equal : IsComparison 5
  less_or_equal : IsComparison 6
  approx_match : IsComparison 8

-- An optional component.
abbrev pub component : ℕ → Option Bytes → List Tag
component id none = []
component id (some v) = octet_string id context v ∷ []

-- `dnAttributes` is false by default.
abbrev pub dn_attributes : Bool → List Tag
dn_attributes true = boolean 4 context true ∷ []
dn_attributes false = []

-- RFC 4526 has filters `and` and `or` without components.
mutual
  pub data IsFilter : Tag → Type 0 where
    and : {ts : TagVec} → AreFilters ts → IsFilter (sequence 0 context ts)
    or : {ts : TagVec} → AreFilters ts → IsFilter (sequence 1 context ts)
    not_ : {t : Tag} → IsFilter t → IsFilter (explicit_tag 2 context t)
    equality :
        (attr value : Bytes)
        → IsFilter (
            sequence 3 context
              (cons (octet_string 4 universal attr) (cons (octet_string 4 universal value) nil)))
    substrings :
        {ts : List Tag} (attr : Bytes)
        → IsSubstrings ts
        → IsFilter (
            sequence 4 context
              (cons (octet_string 4 universal attr) (cons (sequence 16 universal (vec ts)) nil)))
    comparison :
        {id : ℕ} (attr value : Bytes)
        → IsComparison id
        → IsFilter (
            sequence id context
              (cons (octet_string 4 universal attr) (cons (octet_string 4 universal value) nil)))
    present : (attr : Bytes) → IsFilter (octet_string 7 context attr)
    extensible :
        (rule attr : Option Bytes) (value : Bytes) (dn : Bool)
        → ((rule ≢ none) ⊎ (attr ≢ none))
        → IsFilter (
            sequence 9 context (
              vec (
                component 1 rule
                ++ (component 2 attr ++ (octet_string 3 context value ∷ dn_attributes dn)))))

  pub data AreFilters : TagVec → Type 0 where
    no_more : AreFilters nil
    one_more : {t : Tag} {ts : TagVec} → IsFilter t → AreFilters ts → AreFilters (cons t ts)

neither :
    ¬ (((let o : Option Bytes = none in o) ≢ none) ⊎ ((let o : Option Bytes = none in o) ≢ none))
neither (inl h) = h refl
neither (inr h) = h refl

pub extensible-IsFilter :
    (rule attr : Option Bytes) (value : Bytes) (dn : Bool)
    → ((rule ≢ none) ⊎ (attr ≢ none))
    → IsFilter (extensible_tag rule attr value dn)
unfolding extensible_tag
extensible-IsFilter none none value dn some_ = absurd (neither some_)
extensible-IsFilter none (some a) value true some_ = extensible none (some a) value true some_
extensible-IsFilter none (some a) value false some_ = extensible none (some a) value false some_
extensible-IsFilter (some r) none value true some_ = extensible (some r) none value true some_
extensible-IsFilter (some r) none value false some_ = extensible (some r) none value false some_
extensible-IsFilter (some r) (some a) value true some_ =
    extensible (some r) (some a) value true some_
extensible-IsFilter (some r) (some a) value false some_ =
    extensible (some r) (some a) value false some_

non_eq_tag-IsFilter :
    (attr i value : Bytes) (ge le approx : Bool)
    → Yields IsFilter (
        non_eq_tag attr i
          (if ge then some 5 else if le then some 6 else if approx then some 8 else none)
          value)
non_eq_tag-IsFilter attr i value true le approx = comparison attr value greater_or_equal
non_eq_tag-IsFilter attr i value false true approx = comparison attr value less_or_equal
non_eq_tag-IsFilter attr i value false false true = comparison attr value approx_match
non_eq_tag-IsFilter attr i value false false false = tt

-- The operators that `filtertag` knows.
pub filtertag-IsFilter :
    (attr i op value : Bytes) → Yields IsFilter (non_eq_tag attr i (filtertag op) value)
unfolding filtertag
filtertag-IsFilter attr i op value =
    non_eq_tag-IsFilter attr i value (bytes_eq op (b'>' ∷ b'=' ∷ []))
      (bytes_eq op (b'<' ∷ b'=' ∷ [])) (bytes_eq op (b'~' ∷ b'=' ∷ []))

-- Once an empty part inside is found, it stays found.
empty_inside-true : (len n : ℕ) (v : List Bytes) → empty_inside len true n v ≡ true
unfolding empty_inside
empty_inside-true len n [] = refl
empty_inside-true len n (ve ∷ v) = empty_inside-true len (n + 1) v

push_parts-IsTail :
    (n i : ℕ) (parts : List Bytes) → i + length parts ≡ n → IsTail (push_parts n i parts)
unfolding push_parts
push_parts-IsTail n i [] h = end
push_parts-IsTail n i (ve ∷ []) h = elim (Bool-cases (is_empty ve)) [
  | inl empty ↦ rw empty end
  | inr some_ ↦ rw (some_, (==_iff (i + 1) n).1 (omega arith)) (final some_)
]
push_parts-IsTail n i (ve ∷ (w ∷ more)) h = elim (Bool-cases (is_empty ve)) [
  | inl empty ↦ rw empty end
  | inr some_ ↦
      rw (some_, ==_false (i + 1) n (omega arith))
        (any some_ (push_parts-IsTail n (i + 1) (w ∷ more) (omega arith)))
]

IsTail-IsSubstrings : {ts : List Tag} → IsTail ts → is_empty ts ≡ false → IsSubstrings ts
IsTail-IsSubstrings end some_ = cc
IsTail-IsSubstrings (final h) some_ = no_initial (final h)
IsTail-IsSubstrings (any h tail) some_ = no_initial (any h tail)

push_parts-first :
    (n : ℕ) (v : Bytes) (parts : List Bytes)
    → is_empty v ≡ false
    → is_empty (push_parts n 0 (v ∷ parts)) ≡ false
unfolding push_parts
push_parts-first n v parts some_ = rw some_ refl

-- No part is empty but the last, and that is not the only one.
first_part :
    (v : Bytes) (parts : List Bytes)
    → is_single_empty (v ∷ parts) ≡ false
    → empty_inside (length (v ∷ parts)) false 0 (v ∷ parts) ≡ false
    → is_empty v ≡ false
unfolding empty_inside
first_part (b ∷ v) parts single inside = refl
first_part [] [] single inside = cc
first_part [] (w ∷ parts) single inside =
    let other : (1 == suc (suc (length parts))) ≡ false =
      ==_false 1 (suc (suc (length parts))) (omega arith) in
    sym (empty_inside-true (suc (suc (length parts))) 1 (w ∷ parts))
    ∙ (ap (λ b. empty_inside (suc (suc (length parts))) (not b) 1 (w ∷ parts)) (sym other) ∙ inside)

-- Without `initial` there is another part.
push_parts-IsSubstrings :
    (v : Bytes) (parts : List Bytes)
    → is_single_empty (v ∷ parts) ≡ false
    → empty_inside (length (v ∷ parts)) false 0 (v ∷ parts) ≡ false
    → IsSubstrings (push_parts (length (v ∷ parts)) 0 (v ∷ parts))
push_parts-IsSubstrings v parts single inside =
    IsTail-IsSubstrings (push_parts-IsTail (length (v ∷ parts)) 0 (v ∷ parts) (omega arith))
      (push_parts-first (length (v ∷ parts)) v parts (first_part v parts single inside))

eq_tag-IsFilter :
    (attr initial : Bytes) (parts : List Bytes)
    → empty_inside (length parts) false 0 parts ≡ false
    → IsFilter (eq_tag attr initial parts)
unfolding eq_tag
eq_tag-IsFilter attr initial_ [] inside = equality attr initial_
eq_tag-IsFilter attr (b ∷ bs) (v ∷ parts) inside =
    substrings attr
      (initial refl (push_parts-IsTail (length (v ∷ parts)) 0 (v ∷ parts) (omega arith)))
eq_tag-IsFilter attr [] (v ∷ parts) inside = elim (Bool-cases (is_single_empty (v ∷ parts))) [
  | inl single ↦ rw single (present attr)
  | inr several ↦ rw several (substrings attr (push_parts-IsSubstrings v parts several inside))
]

passed :
    (bad : Bool) (v parts : List Bytes)
    → (if bad then none else some v) ≡ some parts
    → (bad ≡ false) × (v ≡ parts)
passed true v parts h = cc
passed false v parts h = (refl, cc)

-- What `map_res` lets through.
pub check_parts-IsFilter :
    (attr initial : Bytes) (v parts : List Bytes)
    → check_parts v ≡ some parts
    → IsFilter (eq_tag attr initial parts)
check_parts-IsFilter attr initial_ v parts checked =
    let (inside, same) = passed (empty_inside (length v) false 0 v) v parts checked in
    subst (λ parts. IsFilter (eq_tag attr initial_ parts)) same
      (eq_tag-IsFilter attr initial_ v inside)
