-- ===== src/Ber/RoundTrip.antt =====
-- The parser (lber/src/parse.rs) after the encoder (lber/src/write.rs).
use ldap.Common.{
  ℕ, zero, suc, ◌+◌, ◌*◌, ◌^◌, ◌≤◌, ◌<◌, ◌≡◌, refl, ◌∙◌, [], ◌∷◌, ◌++◌, Bytes, length, arith,
  length-append, append_assoc, ltb, Bool-cases, inl, inr, is_empty, false,
}
use ldap.Nom.{ok, bind, NomStreaming, IsNomStreaming}
use ldap.Ber.Structure.{StructureTag, Payload, Tags, structure_tag, P, C, nil, cons, TagClass}
use ldap.Ber.Write.{write_length, structure_of, encode_inner, encode_payload, encode_tags}
use ldap.Ber.Parse.{parse_type_header, parse_length, parse_tag, parse_payload, parse_tags, parse}
use ldap.Ber.Lengths.{write_length_long, take_front, parse_length-write_length}
use ldap.Ber.Header.{type_octet, write_type_low, parse_type_header_octet}

-- The tags that the parser can read: every number is at most 30 and every length is a `usize`.
abbrev mutual
  pub IsEncodable : StructureTag → Type 0
  IsEncodable (structure_tag class id payload) = (id < 31) × IsEncodablePayload payload

  pub IsEncodablePayload : Payload → Type 0
  IsEncodablePayload (P v) = length v < 2 ^ 64
  IsEncodablePayload (C tags) = (length (encode_tags tags) < 2 ^ 64) × IsEncodableTags tags

  pub IsEncodableTags : Tags → Type 0
  IsEncodableTags nil = Unit {0}
  IsEncodableTags (cons tag tags) = IsEncodable tag × IsEncodableTags tags

-- The content octets of a payload, without the length.
abbrev pub content_of : Payload → Bytes
content_of (P v) = v
content_of (C tags) = encode_tags tags

length-write_length_pos : (n : ℕ) → n < 2 ^ 64 → 1 ≤ length (write_length n)
length-write_length_pos n h = elim (Bool-cases (ltb n 128)) [
  | inl short ↦ unfold write_length in rw short (omega arith)
  | inr long ↦ rw (write_length_long n (ground arith) h) (omega arith)
]

length-content : (p : Payload) → IsEncodablePayload p → length (content_of p) < 2 ^ 64
length-content (P v) h = h
length-content (C tags) h = h.0

encode_payload_lem :
    (p : Payload) → encode_payload p ≡ write_length (length (content_of p)) ++ content_of p
unfolding encode_payload
encode_payload_lem (P v) = refl
encode_payload_lem (C tags) = refl

-- An encoding is the type octet, the length octets and the content.
pub encode_inner_low :
    (class : TagClass) (id : ℕ) (p : Payload)
    → id < 31
    → encode_inner (structure_tag class id p)
      ≡ type_octet class (structure_of p) id
        ∷ (write_length (length (content_of p)) ++ content_of p)
unfolding encode_inner
encode_inner_low class id p h =
    rw (write_type_low class (structure_of p) id h, encode_payload_lem p)

length-encode_inner :
    (class : TagClass) (id : ℕ) (p : Payload)
    → IsEncodable (structure_tag class id p)
    → length (content_of p) + 2 ≤ length (encode_inner (structure_tag class id p))
length-encode_inner class id p h =
    rw (encode_inner_low class id p h.0, length-append)
      (omega (arith, length-write_length_pos (length (content_of p)) (length-content p h.1)))

is_empty_pos : (xs : Bytes) → 1 ≤ length xs → is_empty xs ≡ false
is_empty_pos [] h = absurd (omega arith)
is_empty_pos (x ∷ xs) h = refl

encode_tags_nil : encode_tags nil ≡ []
unfolding encode_tags
encode_tags_nil = refl

encode_tags_cons :
    (t : StructureTag) (ts : Tags) → encode_tags (cons t ts) ≡ encode_inner t ++ encode_tags ts
unfolding encode_tags
encode_tags_cons t ts = refl

length-encode_inner_pos : (t : StructureTag) → IsEncodable t → 2 ≤ length (encode_inner t)
length-encode_inner_pos (structure_tag class id p) h =
    omega (arith, length-encode_inner class id p h)

length-encode_tags_cons :
    (t : StructureTag) (ts : Tags)
    → length (encode_tags (cons t ts)) ≡ length (encode_inner t) + length (encode_tags ts)
length-encode_tags_cons t ts =
    rw (encode_tags_cons t ts) (length-append (encode_inner t) (encode_tags ts))

module _ (nom : NomStreaming) (laws : IsNomStreaming nom) where
  parse_tags_cons :
      (f : ℕ) (xs : Bytes)
      → 1 ≤ length xs
      → parse_tags nom (suc f) xs
        ≡ bind
            (parse_tag nom f xs)
            (λ j sub. bind (parse_tags nom f j) (λ k tv. ok k (cons sub tv)))
  unfolding parse_tags
  parse_tags_cons f [] h = absurd (omega arith)
  parse_tags_cons f (b ∷ xs) h = refl

  -- One tag, given that its payload is read back.
  parse_tag_step :
      (class : TagClass) (id : ℕ) (p : Payload) (f : ℕ) (rest : Bytes)
      → IsEncodable (structure_tag class id p)
      → parse_payload nom f (structure_of p) (content_of p) ≡ ok [] p
      → parse_tag nom (suc f) (encode_inner (structure_tag class id p) ++ rest)
        ≡ ok rest (structure_tag class id p)
  unfolding parse_tag
  parse_tag_step class id p f rest h ih = rw (
    encode_inner_low class id p h.0,
    append_assoc,
    laws.tuple_lem (parse_type_header nom) (parse_length nom),
    parse_type_header_octet nom laws class (structure_of p) id _ (omega arith),
    parse_length-write_length nom laws (length (content_of p)) (content_of p ++ rest)
        (length-content p h.1),
    take_front nom laws (content_of p) rest,
    ih,
  )

  mutual
    unfolding parse_tag

    pub parse_tag-encode_inner_fuel :
        (t : StructureTag) (f : ℕ) (rest : Bytes)
        → IsEncodable t
        → 3 * length (encode_inner t) < f
        → parse_tag nom f (encode_inner t ++ rest) ≡ ok rest t
    parse_tag-encode_inner_fuel (structure_tag class id p) zero rest h hf = absurd (omega arith)
    parse_tag-encode_inner_fuel (structure_tag class id p) (suc f) rest h hf =
        parse_tag_step class id p f rest h
          (parse_payload-content_of p f h.1 (omega (arith, length-encode_inner class id p h)))

    parse_payload-content_of :
        (p : Payload) (f : ℕ)
        → IsEncodablePayload p
        → 3 * length (content_of p) + 2 < f
        → parse_payload nom f (structure_of p) (content_of p) ≡ ok [] p
    parse_payload-content_of p zero h hf = absurd (omega arith)
    parse_payload-content_of (P v) (suc f) h hf = refl
    parse_payload-content_of (C tags) (suc f) h hf =
        rw (parse_tags-encode_tags tags f h.1 (omega arith))

    parse_tags-encode_tags :
        (ts : Tags) (f : ℕ)
        → IsEncodableTags ts
        → 3 * length (encode_tags ts) + 1 < f
        → parse_tags nom f (encode_tags ts) ≡ ok [] ts
    parse_tags-encode_tags ts zero h hf = absurd (omega arith)
    parse_tags-encode_tags nil (suc f) h hf = rw (encode_tags_nil, parse_tags)
    parse_tags-encode_tags (cons t ts) (suc f) h hf =
        let size = length-encode_tags_cons t ts in
        let first =
          parse_tag-encode_inner_fuel t f (encode_tags ts) h.0
            (omega (arith, size, length-encode_inner_pos t h.0)) in
        let others =
          parse_tags-encode_tags ts f h.1 (omega (arith, size, length-encode_inner_pos t h.0)) in
        parse_tags_cons f (encode_tags (cons t ts))
          (omega (arith, size, length-encode_inner_pos t h.0))
        ∙ rw (encode_tags_cons t ts, first, others)

  -- For a tag structure in which every tag number is below 31 and every content is shorter
  -- than 2^64 octets, the parser applied to its encoding followed by any octets returns the
  -- same structure and leaves exactly those octets.
  pub parse-encode_inner :
      (t : StructureTag) (rest : Bytes)
      → IsEncodable t
      → parse nom (encode_inner t ++ rest) ≡ ok rest t
  unfolding parse
  parse-encode_inner t rest h =
      let size = length-append (encode_inner t) rest in
      rw (is_empty_pos (encode_inner t ++ rest) (omega (arith, size, length-encode_inner_pos t h)))
        (parse_tag-encode_inner_fuel t _ rest h (omega (arith, size)))
