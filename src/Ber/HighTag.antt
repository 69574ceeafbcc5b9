-- ===== src/Ber/HighTag.antt =====
-- Tag numbers above 30: the encoder (lber/src/write.rs) and the parser (lber/src/parse.rs).
use ldap.Common.{
  ℕ, zero, suc, ◌<◌, ◌≡◌, ◌∙◌, ap, refl, subst, ◌++◌, ◌+◌, ◌-◌, ◌*◌, ◌/◌, ◌%◌, ◌^◌, Bytes, [], ◌∷◌,
  reverse, drop, map, All, Option, none, some, ltb, bit_or, arith, if◌then◌else◌, length,
}
use ldap.Common.{reverse-append, append_assoc, le→ltb_false, lt→ltb}
use ldap.Common.Bits.{low_seven_bits, set_top_bit}
use native.Mathlib.Nat.{pow-suc}
use ldap.Nom.{IResult, ok, incomplete, error, failure, bind, NomStreaming, IsNomStreaming}
use ldap.Ber.Structure.{TagClass, TagStructure, StructureTag, Payload, structure_tag, id_of}
use ldap.Ber.Write.{pop_groups, tag_groups, encode_inner, encode_payload, structure_of}
use ldap.Ber.Parse.{parse_type_header, parse_length, parse_payload, parse_tag, parse}
use ldap.Ber.Header.{type_octet, write_type_high, parse_type_header_octet}

-- A tag number by X.690 (8.1.2.4.2): groups of seven bits, the highest first, each but the last with
-- its top bit set.
abbrev pub high_number : ℕ → Bytes → Option (ℕ × Bytes)
high_number n [] = none
high_number n (b ∷ bs) =
    let rest = high_number (n * 128 + (b - 128)) bs in
    if ltb b 128 then some (n * 128 + b, bs) else rest

-- The number that groups stand for, the highest first.
abbrev value_of : ℕ → Bytes → ℕ
value_of n [] = n
value_of n (g ∷ gs) = value_of (n * 128 + g) gs

value_of-append : (n : ℕ) (gs : Bytes) (g : ℕ) → value_of n (gs ++ g ∷ []) ≡ value_of n gs * 128 + g
value_of-append n [] g = refl
value_of-append n (h ∷ gs) g = value_of-append (n * 128 + h) gs g

pop_groups-append :
    (gs : Bytes) (g : ℕ) → pop_groups (gs ++ g ∷ []) ≡ map (λ g. bit_or g 0x80) gs ++ g ∷ []
unfolding pop_groups
pop_groups-append [] g = refl
pop_groups-append (h ∷ []) g = refl
pop_groups-append (h ∷ k ∷ gs) g = ap (λ bs. bit_or h 0x80 ∷ bs) (pop_groups-append (k ∷ gs) g)

-- A number below 128 with its top bit set goes on to the next group.
high_number-go :
    (n g : ℕ) (bs : Bytes)
    → g < 128
    → high_number n (bit_or g 0x80 ∷ bs) ≡ high_number (n * 128 + g) bs
high_number-go n g bs h =
    rw
      (
        set_top_bit g h,
        le→ltb_false (g + 128) 128 (omega arith),
        (let e : g + 128 - 128 ≡ g = omega arith in e),
      )
      refl

high_number-map :
    (n : ℕ) (gs bs : Bytes)
    → All (λ g. g < 128) gs
    → high_number n (map (λ g. bit_or g 0x80) gs ++ bs) ≡ high_number (value_of n gs) bs
high_number-map n [] bs h = refl
high_number-map n (g ∷ gs) bs h =
    high_number-go n g (map (λ g. bit_or g 0x80) gs ++ bs) h.0
    ∙ high_number-map (n * 128 + g) gs bs h.1

-- The groups of a number, the highest first, and that they stand for it.
abbrev IsGroupsOf : ℕ → Bytes → Type 0
IsGroupsOf n gs = (value_of 0 gs ≡ n) × All (λ g. g < 128) gs

All-append_one :
    (gs : Bytes) (g : ℕ) → All (λ g. g < 128) gs → g < 128 → All (λ g. g < 128) (gs ++ g ∷ [])
All-append_one [] g h lt = (lt, tt)
All-append_one (k ∷ gs) g h lt = (h.0, All-append_one gs g h.1 lt)

-- One more group at the lower end.
IsGroupsOf-append :
    (n : ℕ) (gs : Bytes) → IsGroupsOf (n / 128) gs → IsGroupsOf n (gs ++ n % 128 ∷ [])
IsGroupsOf-append n gs (v, lt) = (
  value_of-append 0 gs (n % 128) ∙ rw v (omega arith),
  All-append_one gs (n % 128) lt (omega arith),
)

groups_step :
    (f n : ℕ)
    → 0 < n
    → reverse (tag_groups (suc f) n) ≡ reverse (tag_groups f (n / 128)) ++ n % 128 ∷ []
unfolding tag_groups
groups_step f n h =
    rw (lt→ltb 0 n h, low_seven_bits n, (let e : n % 128 % 256 ≡ n % 128 = omega arith in e))
      (reverse-append (n % 128 ∷ []) (tag_groups f (n / 128)))

tag_groups-IsGroupsOf : (f n : ℕ) → n < 128 ^ f → IsGroupsOf n (reverse (tag_groups f n))
unfolding tag_groups
tag_groups-IsGroupsOf zero n h = (omega arith, tt)
tag_groups-IsGroupsOf (suc f) zero h = (refl, tt)
tag_groups-IsGroupsOf (suc f) (suc n) h = rw (groups_step f (suc n) (omega arith)) (
    IsGroupsOf-append (suc n) _
      (tag_groups-IsGroupsOf f (suc n / 128) (omega (arith, pow-suc 128 f))))

high_number-last :
    (n g : ℕ) (rest : Bytes) → g < 128 → high_number n (g ∷ rest) ≡ some (n * 128 + g, rest)
high_number-last n g rest h = rw (lt→ltb g 128 h) refl

-- The octets that `write_type` writes after the first stand for the number.
high_number-groups :
    (n : ℕ) (rest : Bytes)
    → 0 < n
    → n < 2 ^ 64
    → high_number 0 (pop_groups (reverse (tag_groups 10 n)) ++ rest) ≡ some (n, rest)
high_number-groups n rest h big =
    let gs = reverse (tag_groups 9 (n / 128)) in
    let (v, lt) = tag_groups-IsGroupsOf 9 (n / 128) (omega arith) in
    rw
      (
        groups_step 9 n h,
        pop_groups-append gs (n % 128),
        append_assoc (map (λ g. bit_or g 0x80) gs) (n % 128 ∷ []) rest,
        high_number-map 0 gs (n % 128 ∷ rest) lt,
        v,
        high_number-last (n / 128) (n % 128) rest (omega arith),
      )
      (ap (λ k. some (k, rest)) (omega arith))

-- A tag that comes out has a number.
HasNumber : ℕ → IResult Bytes StructureTag → Type 0
HasNumber n (ok i tag) = id_of tag ≡ n
HasNumber n incomplete = Unit {0}
HasNumber n error = Unit {0}
HasNumber n failure = Unit {0}

HasNumber-bind :
    {A : Type 0} (n : ℕ) (r : IResult Bytes A) (f : Bytes → A → IResult Bytes StructureTag)
    → ((i : Bytes) (a : A) → HasNumber n (f i a))
    → HasNumber n (bind r f)
unfolding HasNumber
HasNumber-bind n (ok i a) f h = h i a
HasNumber-bind n incomplete f h = tt
HasNumber-bind n error f h = tt
HasNumber-bind n failure f h = tt

module _ (nom : NomStreaming) (laws : IsNomStreaming nom) where
  parse_tag-HasNumber :
      (f n : ℕ) (c : TagClass) (s : TagStructure) (i j : Bytes)
      → parse_type_header nom i ≡ ok j (c, s, n)
      → HasNumber n (parse_tag nom f i)
  unfolding parse_tag HasNumber
  parse_tag-HasNumber zero n c s i j h = tt
  parse_tag-HasNumber (suc f) n c s i j h =
      rw (laws.tuple_lem (parse_type_header nom) (parse_length nom) i, h)
        (lengths (parse_length nom j))
    where
      lengths :
          (r : IResult Bytes ℕ)
          → HasNumber n (
              bind {A = (TagClass × TagStructure × ℕ) × ℕ}
                (bind r (λ k b. ok k ((c, s, n), b)))
                λ i header. bind (nom.take header.1 i) λ i content.
                  bind
                    (parse_payload nom f header.0.1 content)
                    λ _ payload. ok i (structure_tag header.0.0 header.0.2 payload))
      lengths (ok k len) =
          HasNumber-bind n (nom.take len k) _
            λ i content. HasNumber-bind n (parse_payload nom f s content) _ λ _ payload. refl
      lengths incomplete = tt
      lengths error = tt
      lengths failure = tt

  parse-HasNumber :
      (n b : ℕ) (c : TagClass) (s : TagStructure) (i j : Bytes)
      → parse_type_header nom (b ∷ i) ≡ ok j (c, s, n)
      → HasNumber n (parse nom (b ∷ i))
  unfolding parse
  parse-HasNumber n b c s i j h = parse_tag-HasNumber (3 * length (b ∷ i) + 1) n c s (b ∷ i) j h

  -- A tag number above 31 is encoded, and does not come back: after the first octet the
  -- encoding of a tag with such a number, below 2^64, goes on with octets that a reader of tag
  -- numbers in the extended form of X.690 (8.1.2.4) takes for exactly that number, and then
  -- with the payload; but whatever octets follow the encoding, the parser does not return the
  -- tag and those octets.
  pub high_tag-lost :
      (c : TagClass) (id : ℕ) (payload : Payload) (rest : Bytes)
      → 31 < id
      → id < 2 ^ 64
      → let encoding = encode_inner (structure_tag c id payload) ++ rest in
        (high_number 0 (drop 1 encoding) ≡ some (id, encode_payload payload ++ rest))
        × (¬ (parse nom encoding ≡ ok rest (structure_tag c id payload)))
  unfolding encode_inner HasNumber
  high_tag-lost c id payload rest h big =
      let octets = pop_groups (reverse (tag_groups 10 id)) in
      let first = type_octet c (structure_of payload) 31 in
      rw
        (
          write_type_high c (structure_of payload) id (omega arith),
          append_assoc octets (encode_payload payload) rest,
        )
        (
          high_number-groups id (encode_payload payload ++ rest) (omega arith) big,
          (λ back.
              let n : id ≡ 31 = subst (HasNumber 31) back (
                parse-HasNumber 31 first c (structure_of payload) _ _ (
                  parse_type_header_octet nom laws c (structure_of payload) 31
                    (octets ++ (encode_payload payload ++ rest)) (omega arith))) in
              omega arith),
        )
