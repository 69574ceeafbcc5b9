-- ===== src/Ber/Structure.antt =====
-- lber/src/common.rs, structure.rs and universal.rs: the generic tag structure.
use ldap.Common.{ℕ, ◌≡◌, refl, Bool, List, [], ◌∷◌, Option, none, some, Bytes, ◌==◌, if◌then◌else◌}

pub data TagStructure : Type 0 where
  primitive constructed : TagStructure

pub data TagClass : Type 0 where
  universal application context private_use : TagClass

-- `class as u8` and `structure as u8`.
abbrev pub class_number : TagClass → ℕ
class_number universal = 0
class_number application = 1
class_number context = 2
class_number private_use = 3

abbrev pub structure_number : TagStructure → ℕ
structure_number primitive = 0
structure_number constructed = 1

unfoldable pub structure_from_u8 : ℕ → Option TagStructure
structure_from_u8 n = if n == 0 then some primitive else if n == 1 then some constructed else none

unfoldable pub class_from_u8 : ℕ → Option TagClass
class_from_u8 n =
    if n == 0
    then some universal
    else if n == 1
    then some application
    else if n == 2
    then some context
    else if n == 3
    then some private_use
    else none

-- The derived `==` of a class.
abbrev pub class_eq : TagClass → TagClass → Bool
class_eq c d = class_number c == class_number d

-- `Tags` is the `Vec<StructureTag>` of a constructed payload.
mutual
  pub data StructureTag : Type 0 where
    structure_tag : TagClass → ℕ → Payload → StructureTag

  pub data Payload : Type 0 where
    P : Bytes → Payload
    C : Tags → Payload

  pub data Tags : Type 0 where
    nil : Tags
    cons : StructureTag → Tags → Tags

abbrev pub to_list : Tags → List StructureTag
to_list nil = []
to_list (cons t ts) = t ∷ to_list ts

abbrev pub from_list : List StructureTag → Tags
from_list [] = nil
from_list (t ∷ ts) = cons t (from_list ts)

pub to_list-from_list : (ts : List StructureTag) → to_list (from_list ts) ≡ ts
to_list-from_list [] = refl
to_list-from_list (t ∷ ts) = rw (to_list-from_list ts)

abbrev pub id_of : StructureTag → ℕ
id_of (structure_tag c id p) = id

abbrev pub class_of : StructureTag → TagClass
class_of (structure_tag c id p) = c

abbrev pub payload_of : StructureTag → Payload
payload_of (structure_tag c id p) = p

unfoldable pub match_class : TagClass → StructureTag → Option StructureTag
match_class c t = if class_eq (class_of t) c then some t else none

unfoldable pub match_id : ℕ → StructureTag → Option StructureTag
match_id id t = if id_of t == id then some t else none

abbrev pub payload_tags : Payload → Option (List StructureTag)
payload_tags (P v) = none
payload_tags (C ts) = some (to_list ts)

abbrev pub payload_bytes : Payload → Option Bytes
payload_bytes (P v) = some v
payload_bytes (C ts) = none

unfoldable pub expect_constructed : StructureTag → Option (List StructureTag)
expect_constructed t = payload_tags (payload_of t)

unfoldable pub expect_primitive : StructureTag → Option Bytes
expect_primitive t = payload_bytes (payload_of t)
