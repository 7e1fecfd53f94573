-- ===== src/Core/Field/Examples.antt =====
-- Concrete fields, and the theorems about the cursors at concrete inputs.
use isobmff_rs.Common.{ℕ, ◌≡◌, ◌≤◌, ◌<◌, refl, List, [], ◌∷◌, ◌++◌, arith, length, replicate}
use isobmff_rs.Common.Bytes.{from_be_bytes, to_be_bytes}
use isobmff_rs.Common.Int.{negsuc, from_bits}
use isobmff_rs.Common.Result.{ok, err}
use isobmff_rs.Core.Error.{
  error, truncated_payload, truncated_buffer, trailing_buffer, out_of_range,
}
use isobmff_rs.Core.Field.{
  FieldWriter, FieldWidth, reader, writer, write_slice_call, read_u32, read_i16, write_unsigned,
  finish,
}
use isobmff_rs.Core.Field.Kinds.{Field}
use isobmff_rs.Core.Field.Truncation.{read_fields_truncated}
use isobmff_rs.Core.Field.RoundTrip.{
  write_fields, read_fields, wires, read_fields-write_fields, finish_trailing,
  write_fields_truncated,
}

-- The source's example of a payload that ends inside a field.
read_cut : read_u32 (reader (0 ∷ 0 ∷ 0 ∷ [])) ≡ err (error (truncated_payload 4 3))
unfolding read_u32
read_cut = refl

read_negative :
    read_i16 (reader (0xff ∷ 0xfe ∷ 7 ∷ []))
    ≡ ok (negsuc 1, record { rest = 7 ∷ []; payload_len = 3 })
unfolding read_i16 from_be_bytes from_bits
read_negative = refl

write_wide :
    write_unsigned (writer (replicate 8 0)) FieldWidth.compact 0x1_0000_0000
    ≡ err (error (out_of_range 0x1_0000_0000 4))
unfolding write_unsigned
write_wide = refl

-- A write that does not fit leaves nothing of the buffer in the cursor.
failed_write :
    write_slice_call (writer (0 ∷ [])) (1 ∷ 2 ∷ [])
    ≡ (record { written = []; rest = []; buffer_len = 1 }, err (error (truncated_buffer 2 1)))
failed_write = refl

-- An identifier of 32 bits and a count of 16.
abbrev sequence : List Field
sequence = Field.u32 7 ∷ Field.i16 (negsuc 1) ∷ []

read_fields-write_fields_example :
    (w : FieldWriter) × (write_fields (writer (replicate 6 0)) sequence ≡ ok w)
    × (finish w ≡ ok tt)
    × (length w.written ≡ 6)
    × (read_fields sequence (reader (w.written ++ 9 ∷ []))
        ≡ ok (sequence, record { rest = 9 ∷ []; payload_len = length (w.written ++ 9 ∷ []) }))
unfolding to_be_bytes
read_fields-write_fields_example =
    read_fields-write_fields sequence (replicate 6 0) (9 ∷ []) (omega arith) refl

read_fields_truncated_example :
    (n : ℕ) × (read_fields sequence (reader (1 ∷ 2 ∷ 3 ∷ 4 ∷ 5 ∷ []))
      ≡ err (error (truncated_payload n 5)))
    × (5 < n)
    × (n ≤ length (wires sequence))
unfolding to_be_bytes
read_fields_truncated_example =
    read_fields_truncated sequence (1 ∷ 2 ∷ 3 ∷ 4 ∷ 5 ∷ []) (omega arith) (omega arith)

finish_trailing_example :
    (w : FieldWriter) × (write_fields (writer (replicate 8 0)) sequence ≡ ok w)
    × (finish w ≡ err (error (trailing_buffer (length (wires sequence)) 8)))
unfolding to_be_bytes
finish_trailing_example = finish_trailing sequence (replicate 8 0) (omega arith) (omega arith)

write_fields_truncated_example :
    (n : ℕ) × (write_fields (writer (replicate 5 0)) sequence ≡ err (error (truncated_buffer n 5)))
    × (5 < n)
    × (n ≤ length (wires sequence))
unfolding to_be_bytes
write_fields_truncated_example =
    write_fields_truncated sequence (replicate 5 0) (omega arith) (omega arith) (omega arith)
