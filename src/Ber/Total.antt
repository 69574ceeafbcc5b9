-- ===== src/Ber/Total.antt =====
-- The parser (lber/src/parse.rs) on any input of bytes.
use ldap.Common.{
  ℕ, zero, suc, ◌+◌, ◌-◌, ◌*◌, ◌/◌, ◌%◌, ◌^◌, ◌≤◌, ◌<◌, ◌≡◌, refl, ◌∙◌, [], ◌∷◌, Bytes, length, All,
  take, drop, arith, leb, leb→le, ltb, lt→ltb, Bool-cases, inl, inr, length-drop, length-take_le,
  bit_or,
}
use ldap.Common.Bits.{bit_or_byte}
use ldap.Nom.{IResult, ok, incomplete, error, failure, bind, NomStreaming, IsNomStreaming}
use ldap.Ber.Structure.{
  TagClass, TagStructure, primitive, constructed, class_number, class_from_u8, structure_number,
  universal, application, context, private_use,
}
use ldap.Ber.Parse.{
  class_bits, pc_bit, tagnr_bits, uint_fold, parse_uint, parse_type_header, parse_length, parse_tag,
  parse_payload, parse_tags, parse,
}
use ldap.Ber.Header.{type_octet, parse_type_header_octet}

abbrev pub IsByte : ℕ → Type 0
IsByte b = b < 256

-- The outcome asks for more input, or leaves at least `n` bytes less than `i` holds.
abbrev pub Consumes : {A : Type 0} → ℕ → Bytes → IResult Bytes A → Type 0
Consumes n i (ok j a) = (length j + n ≤ length i) × All IsByte j
Consumes n i incomplete = Unit {0}
Consumes n i error = ⊥
Consumes n i failure = ⊥

All-take : (n : ℕ) (i : Bytes) → All IsByte i → All IsByte (take n i)
All-take zero i h = tt
All-take (suc n) [] h = tt
All-take (suc n) (b ∷ i) h = (h.0, All-take n i h.1)

All-drop : (n : ℕ) (i : Bytes) → All IsByte i → All IsByte (drop n i)
All-drop zero i h = h
All-drop (suc n) [] h = tt
All-drop (suc n) (b ∷ i) h = All-drop n i h.1

uint_step : (res byte : ℕ) → byte < 256 → bit_or (res * 256 % 2 ^ 64) byte < 2 ^ 64
uint_step res byte h =
    let e : res * 256 % 2 ^ 64 ≡ res % 2 ^ 56 * 256 = omega arith in
    rw (e, bit_or_byte (res % 2 ^ 56) byte h) (omega arith)

uint_fold_bound : (i : Bytes) (res : ℕ) → All IsByte i → res < 2 ^ 64 → uint_fold res i < 2 ^ 64
unfolding uint_fold
uint_fold_bound [] res h hr = hr
uint_fold_bound (b ∷ i) res h hr = uint_fold_bound i _ h.1 (uint_step res b h.0)

-- `parse_uint` returns a `u64`.
pub parse_uint_bound : (i : Bytes) → All IsByte i → parse_uint i < 2 ^ 64
unfolding parse_uint
parse_uint_bound i h = uint_fold_bound i 0 h (omega arith)

class_at : (q : ℕ) → q < 4 → (c : TagClass) × (class_number c ≡ q)
class_at zero h = (universal, refl)
class_at (suc zero) h = (application, refl)
class_at (suc (suc zero)) h = (context, refl)
class_at (suc (suc (suc zero))) h = (private_use, refl)
class_at (suc (suc (suc (suc q)))) h = absurd (omega arith)

structure_at : (q : ℕ) → q < 2 → (s : TagStructure) × (structure_number s ≡ q)
structure_at zero h = (primitive, refl)
structure_at (suc zero) h = (constructed, refl)
structure_at (suc (suc q)) h = absurd (omega arith)

-- The class, the structure and the number that a byte stands for.
byte_fields :
    (b : ℕ)
    → b < 256
    → (c : TagClass) × (s : TagStructure) × (n : ℕ) × (n < 32) × (b ≡ type_octet c s n)
byte_fields b h =
    let (c, ec) = class_at (b / 64) (omega arith) in
    let (s, es) = structure_at (b / 32 % 2) (omega arith) in
    (c, s, b % 32, omega arith, omega arith)

Consumes-weaken :
    {A : Type 0} (n m : ℕ) (i j : Bytes) (r : IResult Bytes A)
    → length j + m ≤ length i + n
    → Consumes n j r
    → Consumes m i r
Consumes-weaken n m i j (ok k a) h c = (omega arith, c.1)
Consumes-weaken n m i j incomplete h c = tt
Consumes-weaken n m i j error h c = c
Consumes-weaken n m i j failure h c = c

Consumes-bind :
    {A B : Type 0} (n m : ℕ) (i : Bytes) (r : IResult Bytes A) (f : Bytes → A → IResult Bytes B)
    → Consumes n i r
    → ((j : Bytes) (a : A) → length j + n ≤ length i → All IsByte j → Consumes m i (f j a))
    → Consumes m i (bind r f)
Consumes-bind n m i (ok j a) f c k = k j a c.0 c.1
Consumes-bind n m i incomplete f c k = tt
Consumes-bind n m i error f c k = c
Consumes-bind n m i failure f c k = c

-- The same for a parser that runs on the content `i'`.
Consumes-inner :
    {A B : Type 0} (n m : ℕ) (i i' : Bytes) (r : IResult Bytes A) (f : Bytes → A → IResult Bytes B)
    → Consumes n i' r
    → ((j : Bytes) (a : A) → Consumes m i (f j a))
    → Consumes m i (bind r f)
Consumes-inner n m i i' (ok j a) f c k = k j a
Consumes-inner n m i i' incomplete f c k = tt
Consumes-inner n m i i' error f c k = c
Consumes-inner n m i i' failure f c k = c

module _ (nom : NomStreaming) (laws : IsNomStreaming nom) where
  Consumes-take :
      {B : Type 0} (m n : ℕ) (i : Bytes) (f : Bytes → Bytes → IResult Bytes B)
      → All IsByte i
      → ((j content : Bytes)
          → length j + length content ≤ length i
          → All IsByte j
          → All IsByte content
          → Consumes m i (f j content))
      → Consumes m i (bind (nom.take n i) f)
  Consumes-take m n i f h k = elim (Bool-cases (leb n (length i))) [
    | inl e ↦
        rw (laws.take_lem n i, e)
          (k (drop n i) (take n i)
            (omega
              (arith, length-drop n i, length-take_le n i (ground arith), leb→le n (length i) e))
            (All-drop n i h) (All-take n i h))
    | inr e ↦ rw (laws.take_lem n i, e) tt
  ]

  class_bits_nil : class_bits nom ([], 0) ≡ incomplete
  unfolding class_bits
  class_bits_nil =
      laws.map_opt_lem (nom.bits_take 2) class_from_u8 ([], 0) ∙ rw (laws.bits_take-nil 1)

  header_Consumes : (i : Bytes) → All IsByte i → Consumes 1 i (parse_type_header nom i)
  unfolding parse_type_header
  header_Consumes [] h =
      rw
        (laws.bits_incomplete _ [] (
          laws.tuple3_lem (class_bits nom) (pc_bit nom) (tagnr_bits nom) ([], 0)
          ∙ rw class_bits_nil))
        tt
  header_Consumes (b ∷ i) h =
      let (c, s, n, small, e) = byte_fields b h.0 in
      rw (e, parse_type_header_octet nom laws c s n i small) (omega arith, h.1)

  length_Consumes : (i : Bytes) → All IsByte i → Consumes 1 i (parse_length nom i)
  unfolding parse_length
  length_Consumes [] h = rw laws.be_u8-nil tt
  length_Consumes (b ∷ i) h = rw (laws.be_u8-cons b i) (elim (Bool-cases (ltb b 128)) [
    | inl e ↦ rw e (omega arith, h.1)
    | inr e ↦ rw e (
        Consumes-weaken 0 1 (b ∷ i) i _ (omega arith) (
          Consumes-take 0 (b - 128) i _ h.1 λ j content size hj hc.
            rw (lt→ltb (parse_uint content) (2 ^ 64) (parse_uint_bound content hc))
              (omega arith, hj)))
  ])

  prefix_Consumes :
      (i : Bytes)
      → All IsByte i
      → Consumes 2 i (nom.tuple (parse_type_header nom) (parse_length nom) i)
  prefix_Consumes i h = rw (laws.tuple_lem (parse_type_header nom) (parse_length nom) i) (
      Consumes-bind 1 2 i (parse_type_header nom i) _ (header_Consumes i h) λ j a size hj.
        Consumes-weaken 1 2 i j _ (omega arith) (
          Consumes-bind 1 1 j (parse_length nom j) _ (length_Consumes j hj)
            λ k b size' hk. (size', hk)))

  mutual
    unfolding parse_tag

    tag_Consumes :
        (f : ℕ) (i : Bytes) → All IsByte i → 3 * length i < f → Consumes 2 i (parse_tag nom f i)
    tag_Consumes zero i h hf = absurd (omega arith)
    tag_Consumes (suc f) i h hf =
        Consumes-bind 2 2 i (nom.tuple (parse_type_header nom) (parse_length nom) i) _
          (prefix_Consumes i h)
          λ j header size hj. Consumes-weaken 0 2 i j _ (omega arith) (
            Consumes-take 0 header.1 j _ hj λ k content size' hk hc.
              Consumes-inner 0 0 j content (parse_payload nom f header.0.1 content) _
                (payload_Consumes f header.0.1 content hc (omega arith))
                λ _ payload. (omega arith, hk))

    payload_Consumes :
        (f : ℕ) (s : TagStructure) (i : Bytes)
        → All IsByte i
        → 3 * length i + 2 < f
        → Consumes 0 i (parse_payload nom f s i)
    payload_Consumes zero s i h hf = absurd (omega arith)
    payload_Consumes (suc f) primitive i h hf = (omega arith, tt)
    payload_Consumes (suc f) constructed i h hf =
        Consumes-bind 0 0 i (parse_tags nom f i) _ (tags_Consumes f i h (omega arith))
          λ j tv size hj. (size, hj)

    tags_Consumes :
        (f : ℕ) (i : Bytes)
        → All IsByte i
        → 3 * length i + 1 < f
        → Consumes 0 i (parse_tags nom f i)
    tags_Consumes zero i h hf = absurd (omega arith)
    tags_Consumes (suc f) [] h hf = (omega arith, tt)
    tags_Consumes (suc f) (b ∷ i) h hf =
        Consumes-bind 2 0 (b ∷ i) (parse_tag nom f (b ∷ i)) _
          (tag_Consumes f (b ∷ i) h (omega arith))
          λ j sub size hj.
            Consumes-bind 0 0 (b ∷ i) (parse_tags nom f j) _
              (Consumes-weaken 0 0 (b ∷ i) j _ (omega arith) (tags_Consumes f j hj (omega arith)))
              λ k tv size' hk. (size', hk)

  -- On every sequence of octets the parser either asks for more input or returns a tag and
  -- leaves at least two octets less, all of them octets: it never reports an error or a
  -- failure, and its fuel, three times the number of octets and one, never runs out.
  pub parse-Consumes : (i : Bytes) → All IsByte i → Consumes 2 i (parse nom i)
  unfolding parse
  parse-Consumes [] h = tt
  parse-Consumes (b ∷ i) h = tag_Consumes _ (b ∷ i) h (omega arith)
