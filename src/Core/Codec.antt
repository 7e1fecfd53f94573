-- ===== src/Core/Codec.antt =====
-- crates/isobmff-core/src/codec/box_definition.rs, box_encode.rs and box_decode.rs: what a box type is
-- to the rest of the library, and boxes written and read whole.
pub mod Actions
pub mod Fields
pub mod RoundTrip
use isobmff_rs.Common.{
  ℕ, ◌≡◌, Bool, Option, none, some, List, [], ◌∷◌, ◌++◌, length, ◌==◌, not, if◌then◌else◌,
  split_at_checked,
}
use isobmff_rs.Common.Words.{saturating_add, u64_max, u64_try_from, usize_try_from}
use isobmff_rs.Common.Result.{Result, ok, err, ok_or, and_then, unwrap_or, map_err, ◌>>=◌}
use isobmff_rs.Core.BoxType.{BoxType, box_type_eq}
use isobmff_rs.Core.Error.{
  Error, error, truncated_buffer, buffer_length_mismatch, box_type_mismatch,
}
use isobmff_rs.Core.BoxHeader
use isobmff_rs.Core.BoxHeader.{BoxHeader, encoded_len, with_payload_len}
use isobmff_rs.Core.RawBox.{RawBox, split_first}
use isobmff_rs.Core.Field
use isobmff_rs.Core.Field.{FieldReader, FieldWriter, reader, writer}

-- The traits `BoxDefinition`, `BoxEncode` and `BoxDecode` of a type: `BOX_TYPE`, `payload_len`,
-- `encode_fields` and `decode_fields`, the last two with the cursor as they leave it.
pub record BoxCodec (A : Type 0) : Type 0 where
  pub box_type : BoxType
  pub payload_len : A → ℕ
  pub encode_fields : A → FieldWriter → Result Error FieldWriter
  pub decode_fields : FieldReader → Result Error (A × FieldReader)

module _ {A : Type 0} (c : BoxCodec A) where
  -- `BoxEncode::encode_payload`: the buffer as it is left
  unfoldable pub encode_payload : A → List ℕ → Result Error (List ℕ)
  encode_payload value buffer = do
    let declared = c.payload_len value
    let offered = unwrap_or (u64_try_from (length buffer)) u64_max
    (if offered == declared
        then (do
          filled ← c.encode_fields value (writer buffer)
          tt ← Field.finish filled
          ok (filled.written ++ filled.rest))
        else err (error (buffer_length_mismatch declared offered)))

  -- `encoded_len_of`
  unfoldable pub encoded_len_of : A → ℕ
  encoded_len_of value = elim (with_payload_len c.box_type (c.payload_len value)) [
    | none ↦ u64_max
    | some header ↦ saturating_add (encoded_len header) (c.payload_len value)
  ]

  -- `encode_into` and `BoxEncode::encode`: the front of the buffer, and what is left of it
  unfoldable pub encode : A → List ℕ → Result Error (List ℕ × List ℕ)
  encode value buffer = do
    let needed = encoded_len_of value
    let available = unwrap_or (u64_try_from (length buffer)) u64_max
    let too_short = error (truncated_buffer needed available)
    header ← ok_or (with_payload_len c.box_type (c.payload_len value)) too_short
    (whole, rest) ←
        ok_or (and_then (usize_try_from needed) (λ n. split_at_checked n buffer)) too_short
    (front, payload) ← BoxHeader.encode header whole
    filled ← encode_payload value payload
    ok (front ++ filled, rest)

  -- `BoxDecode::decode_payload`
  unfoldable pub decode_payload : List ℕ → Result Error A
  decode_payload payload = do (value, _) ← c.decode_fields (reader payload); ok value

  -- The value of a box that was split off, where it is of the type.
  abbrev pub decode_framed : RawBox → List ℕ → Result Error (A × List ℕ)
  decode_framed framed rest =
      if box_type_eq framed.header.box_type c.box_type
      then (do value ← decode_payload framed.payload; ok (value, rest))
      else err (error (box_type_mismatch c.box_type framed.header.box_type))

  -- `BoxDecode::decode`: the value, and the bytes after the box
  unfoldable pub decode : List ℕ → Result Error (A × List ℕ)
  decode input = do (framed, rest) ← split_first input; decode_framed framed rest
