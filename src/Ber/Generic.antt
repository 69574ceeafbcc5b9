-- ===== src/Ber/Generic.antt =====
-- lber/src/structures/sequence.rs: a sequence and a set of values of one type, with the conversion of
-- that type as an argument.
use ldap.Common.{ℕ, ◌≡◌, refl, ap, List, [], ◌∷◌, map}
use ldap.Ber.Universal.{Types, number}
use ldap.Ber.Structure.{TagClass, universal, StructureTag, structure_tag, C, Tags, from_list}
use ldap.Ber.Asn.{Tag, sequence, set, vec, into_structure, into_tags}

pub record SequenceOf (T : Type 0) : Type 0 where
  pub id : ℕ
  pub class : TagClass
  pub inner : List T

pub record SetOf (T : Type 0) : Type 0 where
  pub id : ℕ
  pub class : TagClass
  pub inner : List T

module _ {T : Type 0} where
  abbrev pub empty_sequence_of : SequenceOf T
  empty_sequence_of = record { id = number Types.sequence; class = universal; inner = [] }

  abbrev pub empty_set_of : SetOf T
  empty_set_of = record { id = number Types.set; class = universal; inner = [] }

  unfoldable pub sequence_of_into_structure : (T → StructureTag) → SequenceOf T → StructureTag
  sequence_of_into_structure into s = structure_tag s.class s.id (C (from_list (map into s.inner)))

  unfoldable pub set_of_into_structure : (T → StructureTag) → SetOf T → StructureTag
  set_of_into_structure into s = structure_tag s.class s.id (C (from_list (map into s.inner)))

from_list-into_tags : (ts : List Tag) → from_list (map into_structure ts) ≡ into_tags (vec ts)
unfolding into_structure
from_list-into_tags [] = refl
from_list-into_tags (t ∷ ts) = ap (Tags.cons (into_structure t)) (from_list-into_tags ts)

-- A sequence of tags is converted as the constructor of tags for a sequence is.
sequence_of-sequence :
    (id : ℕ) (class : TagClass) (ts : List Tag)
    → sequence_of_into_structure into_structure (record { id = id; class = class; inner = ts })
      ≡ into_structure (sequence id class (vec ts))
unfolding sequence_of_into_structure into_structure
sequence_of-sequence id class ts =
    ap (λ tags. structure_tag class id (C tags)) (from_list-into_tags ts)

set_of-set :
    (id : ℕ) (class : TagClass) (ts : List Tag)
    → set_of_into_structure into_structure (record { id = id; class = class; inner = ts })
      ≡ into_structure (set id class (vec ts))
unfolding set_of_into_structure into_structure
set_of-set id class ts = ap (λ tags. structure_tag class id (C tags)) (from_list-into_tags ts)
