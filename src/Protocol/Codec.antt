-- ===== src/Protocol/Codec.antt =====
-- src/protocol.rs: `encode` and `decode_inner`.
use ldap.Common.{
  ◌&&◌, Option, none, some, List, [], ◌∷◌, Bytes, ◌==◌, if◌then◌else◌, ok, err, ◌>>=◌, expect,
  and_then, pop, map,
}
use ldap.Common.Int.{ℤ, to_i32}
use ldap.Nom.{IResult, incomplete, error, failure, NomStreaming}
use ldap.Ber.Universal.{Types, number}
use ldap.Ber.Structure.{
  StructureTag, structure_tag, Payload, P, C, from_list, context, universal, class_eq, class_of,
  id_of, payload_of, match_id, match_class, expect_constructed, expect_primitive,
}
use ldap.Ber.Asn.{Tag, raw, default_integer, default_sequence, into_structure}
use ldap.Ber.Write.{encode_into}
use ldap.Ber.Parse.{parse, parse_uint}
use ldap.Controls.Types.{RawControl, Control}
use ldap.Controls.Codec.{build_tag, parse_controls}
use ldap.Result.Types.{Run, io}

abbrev pub control_tags : Option (List RawControl) → List Tag
control_tags none = []
control_tags (some controls) =
    raw (structure_tag context 0 (C (from_list (map build_tag controls)))) ∷ []

-- The `outstruct` of a message.
unfoldable pub message_tag : ℤ → Tag → Option (List RawControl) → StructureTag
unfolding into_structure
message_tag id tag controls =
    into_structure (default_sequence (default_integer id ∷ tag ∷ control_tags controls))

-- `encode`, with the `maybe_wrap` that a build without `gssapi` has. The buffer comes last.
unfoldable pub encode : ℤ × Tag × Option (List RawControl) → Bytes → Bytes
unfolding message_tag encode_into
encode (id, tag, controls) into = encode_into into (message_tag id tag controls)

-- A message as it is received: its id, the protocol operation and the controls.
pub record Message : Type 0 where
  pub msgid : ℤ
  pub protoop : StructureTag
  pub ctrls : List Control

-- How the last element is taken: it is the controls, it is skipped, or it is the operation.
pub data LastElement : Type 0 where
  controls skipped operation : LastElement

abbrev pub controls_payload : Payload → Run LastElement
controls_payload (C ts) = ok controls
controls_payload (P v) = err io

unfoldable pub last_element : StructureTag → Run LastElement
last_element t =
    if class_eq (class_of t) context && (id_of t == 0)
    then controls_payload (payload_of t)
    else if class_eq (class_of t) context && (id_of t == 10)
    then ok skipped
    else ok operation

-- The elements before the operation, the operation and the controls.
unfoldable pub split_elements :
    LastElement
    → List StructureTag
    → StructureTag
    → Run (List StructureTag × StructureTag × List Control)
split_elements controls tags last = do
  (tags, protoop) ← expect (pop tags)
  ctrls ← parse_controls last
  ok (tags, protoop, ctrls)
split_elements skipped tags last = do (tags, protoop) ← expect (pop tags); ok (tags, protoop, [])
split_elements operation tags last = ok (tags, last, [])

unfoldable pub integer_bytes : StructureTag → Option Bytes
integer_bytes t =
    and_then (match_class universal t)
      λ t. and_then (match_id (number Types.integer) t) expect_primitive

unfoldable pub decode_elements : List StructureTag → Run Message
unfolding last_element split_elements integer_bytes
decode_elements tags = do
  (tags, last) ← expect (pop tags)
  kind ← last_element last
  (tags, protoop, ctrls) ← split_elements kind tags last
  (_, first) ← expect (pop tags)
  v ← expect (integer_bytes first)
  ok (record { msgid = to_i32 (parse_uint v); protoop = protoop; ctrls = ctrls })

-- `match_id(…).and_then(expect_constructed)`, or the decoding error.
abbrev pub or_error {ℓ} : {A : Type ℓ} → Option A → Run A
or_error none = err io
or_error (some a) = ok a

unfoldable pub message_elements : StructureTag → Option (List StructureTag)
message_elements tag = and_then (match_id (number Types.sequence) tag) expect_constructed

unfoldable pub decode_tag : StructureTag → Run Message
unfolding message_elements decode_elements
decode_tag tag = do tags ← or_error (message_elements tag); decode_elements tags

abbrev pub some_message : Run Message → Run (Option Message)
some_message r = do m ← r; ok (some m)

-- What is left of the buffer, and the outcome: no message yet, or one.
abbrev pub decode_parsed : Bytes → IResult Bytes StructureTag → Bytes × Run (Option Message)
decode_parsed buf (IResult.ok i tag) = (i, some_message (decode_tag tag))
decode_parsed buf incomplete = (buf, ok none)
decode_parsed buf error = (buf, err io)
decode_parsed buf failure = (buf, err io)

module _ (nom : NomStreaming) where
  unfoldable pub decode_inner : Bytes → Bytes × Run (Option Message)
  unfolding decode_tag
  decode_inner buf = decode_parsed buf (parse nom buf)
