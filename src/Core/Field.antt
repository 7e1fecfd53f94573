-- ===== src/Core/Field.antt =====
-- crates/isobmff-core/src/codec/field.rs: the cursors over the fields of a box payload.
pub mod Reading
pub mod Kinds
pub mod RoundTrip
pub mod Truncation
mod Examples
use isobmff_rs.Common.{ℕ, ◌+◌, ◌-◌, ◌^◌, Option, none, some, List, [], ◌∷◌, ◌++◌, length, is_empty}
use isobmff_rs.Common.{ltb, leb, Bool, if◌then◌else◌, split_at_checked}
use isobmff_rs.Common.Bytes.{from_be_bytes, to_be_bytes}
use isobmff_rs.Common.Words.{saturating_add, u32_try_from}
use isobmff_rs.Common.Int.{ℤ, pos, negsuc, from_bits, to_bits}
use isobmff_rs.Common.Result.{Result, ok, err, ◌>>=◌, ok_or}
use isobmff_rs.Core.Error.{
  Error, error, truncated_payload, truncated_buffer, trailing_buffer, out_of_range,
}

pub data FieldWidth : Type 0 where
  compact extended : FieldWidth

pub record FieldReader : Type 0 where
  pub rest : List ℕ
  pub payload_len : ℕ

-- `FieldReader::new`
abbrev pub reader : List ℕ → FieldReader
reader payload = record { rest = payload; payload_len = length payload }

-- The failure of a field of `length` bytes that runs past the payload.
abbrev pub truncated : FieldReader → ℕ → Error
truncated r n =
    error (truncated_payload (saturating_add (r.payload_len - length r.rest) n) r.payload_len)

-- `read_bytes::<N>` and `read_slice`. A read that fails leaves the cursor where it stood.
unfoldable pub read_slice : FieldReader → ℕ → Result Error (List ℕ × FieldReader)
read_slice r n = do
  (field, rest) ← ok_or (split_at_checked n r.rest) (truncated r n)
  ok (field, record r { rest = rest })

unfoldable pub read_u16 : FieldReader → Result Error (ℕ × FieldReader)
unfolding read_slice
read_u16 r = do (field, r) ← read_slice r 2; ok (from_be_bytes field, r)

unfoldable pub read_u32 : FieldReader → Result Error (ℕ × FieldReader)
unfolding read_slice
read_u32 r = do (field, r) ← read_slice r 4; ok (from_be_bytes field, r)

unfoldable pub read_u64 : FieldReader → Result Error (ℕ × FieldReader)
unfolding read_slice
read_u64 r = do (field, r) ← read_slice r 8; ok (from_be_bytes field, r)

unfoldable pub read_i16 : FieldReader → Result Error (ℤ × FieldReader)
unfolding read_slice
read_i16 r = do (field, r) ← read_slice r 2; ok (from_bits (2 ^ 15) (from_be_bytes field), r)

unfoldable pub read_i32 : FieldReader → Result Error (ℤ × FieldReader)
unfolding read_slice
read_i32 r = do (field, r) ← read_slice r 4; ok (from_bits (2 ^ 31) (from_be_bytes field), r)

unfoldable pub read_i64 : FieldReader → Result Error (ℤ × FieldReader)
unfolding read_slice
read_i64 r = do (field, r) ← read_slice r 8; ok (from_bits (2 ^ 63) (from_be_bytes field), r)

unfoldable pub read_unsigned : FieldReader → FieldWidth → Result Error (ℕ × FieldReader)
unfolding read_u32 read_u64
read_unsigned r compact = read_u32 r
read_unsigned r extended = read_u64 r

unfoldable pub read_signed : FieldReader → FieldWidth → Result Error (ℤ × FieldReader)
unfolding read_i32 read_i64
read_signed r compact = read_i32 r
read_signed r extended = read_i64 r

unfoldable pub require : FieldReader → ℕ → Result Error (Unit {0})
require r n = if leb n (length r.rest) then ok tt else err (truncated r n)

unfoldable pub take_remainder : FieldReader → List ℕ × FieldReader
take_remainder r = (r.rest, record r { rest = [] })

-- The buffer is `written` and then `rest`, and was `buffer_len` bytes long when it was handed over.
pub record FieldWriter : Type 0 where
  pub written : List ℕ
  pub rest : List ℕ
  pub buffer_len : ℕ

-- `FieldWriter::new`
abbrev pub writer : List ℕ → FieldWriter
writer buffer = record { written = []; rest = buffer; buffer_len = length buffer }

-- `FieldWriter::written`: the bytes that the fields have claimed
abbrev pub claimed : FieldWriter → ℕ
claimed w = w.buffer_len - length w.rest

-- What `write_slice` does with the split of the buffer, which is taken out of the cursor: a call that
-- fails leaves nothing of it there.
abbrev pub split_written :
    FieldWriter → List ℕ → Option (List ℕ × List ℕ) → FieldWriter × Result Error (Unit {0})
split_written w bytes none = (
  record w { rest = [] },
  err (error (truncated_buffer (saturating_add (claimed w) (length bytes)) w.buffer_len)),
)
split_written w bytes (some (field, rest)) =
    (record w { written = w.written ++ bytes; rest = rest }, ok tt)

-- `write_bytes` and `write_slice`: the cursor as the call leaves it, and what it returns
abbrev pub write_slice_call : FieldWriter → List ℕ → FieldWriter × Result Error (Unit {0})
write_slice_call w bytes = split_written w bytes (split_at_checked (length bytes) w.rest)

-- `?` on a call that writes: what follows goes on with the cursor, and a cursor whose call failed is
-- given up.
abbrev pub on_written : FieldWriter × Result Error (Unit {0}) → Result Error FieldWriter
on_written (w, ok _) = ok w
on_written (w, err e) = err e

-- `write_slice(bytes)?`
unfoldable pub write_slice : FieldWriter → List ℕ → Result Error FieldWriter
write_slice w bytes = on_written (write_slice_call w bytes)

unfoldable pub write_u16 : FieldWriter → ℕ → Result Error FieldWriter
unfolding write_slice
write_u16 w value = write_slice w (to_be_bytes 2 value)

unfoldable pub write_u32 : FieldWriter → ℕ → Result Error FieldWriter
unfolding write_slice
write_u32 w value = write_slice w (to_be_bytes 4 value)

unfoldable pub write_u64 : FieldWriter → ℕ → Result Error FieldWriter
unfolding write_slice
write_u64 w value = write_slice w (to_be_bytes 8 value)

unfoldable pub write_i16 : FieldWriter → ℤ → Result Error FieldWriter
unfolding write_slice
write_i16 w value = write_slice w (to_be_bytes 2 (to_bits (2 ^ 15) value))

unfoldable pub write_i32 : FieldWriter → ℤ → Result Error FieldWriter
unfolding write_slice
write_i32 w value = write_slice w (to_be_bytes 4 (to_bits (2 ^ 31) value))

unfoldable pub write_i64 : FieldWriter → ℤ → Result Error FieldWriter
unfolding write_slice
write_i64 w value = write_slice w (to_be_bytes 8 (to_bits (2 ^ 63) value))

unfoldable pub write_unsigned : FieldWriter → FieldWidth → ℕ → Result Error FieldWriter
unfolding write_u32 write_u64
write_unsigned w compact value = do
  narrow ← ok_or (u32_try_from value) (error (out_of_range value 4))
  write_u32 w narrow
write_unsigned w extended value = write_u64 w value

-- `i32::try_from(value).ok()`
abbrev pub i32_try_from : ℤ → Option ℤ
i32_try_from (pos n) = if ltb n (2 ^ 31) then some (pos n) else none
i32_try_from (negsuc n) = if ltb n (2 ^ 31) then some (negsuc n) else none

unfoldable pub write_signed : FieldWriter → FieldWidth → ℤ → Result Error FieldWriter
unfolding write_i32 write_i64
write_signed w compact value = do
  narrow ← ok_or (i32_try_from value) (error (out_of_range (to_bits (2 ^ 63) value) 4))
  write_i32 w narrow
write_signed w extended value = write_i64 w value

-- `FieldWriter::take_remainder`: the bytes that are claimed by it, and the cursor at the end
unfoldable pub take_rest : FieldWriter → List ℕ × FieldWriter
take_rest w = (w.rest, record w { rest = [] })

unfoldable pub finish : FieldWriter → Result Error (Unit {0})
finish w = if is_empty w.rest then ok tt else err (error (trailing_buffer (claimed w) w.buffer_len))
