-- ===== src/Core/Field/Kinds.antt =====
-- The fields of every kind that the cursors read and write, and the bytes of each.
use isobmff_rs.Common.{ℕ, ◌≡◌, ◌+◌, ◌<◌, ◌^◌, List, ◌++◌, length, refl}
use isobmff_rs.Common.{arith, le→ltb, some}
use isobmff_rs.Common.Bytes.{
  to_be_bytes, length-to_be_bytes, from_be_bytes, from_be_bytes-to_be_bytes,
}
use isobmff_rs.Common.Int.{
  ℤ, pos, negsuc, InRange, to_bits, from_bits, from_bits-to_bits, to_bits-lt,
}
use isobmff_rs.Common.Words.{IsU16, IsU32, IsU64, u32_max}
use isobmff_rs.Common.Result.{Result, ok, ◌>>=◌}
use isobmff_rs.Core.Error.{Error}
use isobmff_rs.Core.Field.{FieldReader, FieldWriter, FieldWidth, read_slice, write_slice}
use isobmff_rs.Core.Field.{
  read_u16, read_u32, read_u64, read_i16, read_i32, read_i64, read_unsigned, read_signed,
}
use isobmff_rs.Core.Field.{
  write_u16, write_u32, write_u64, write_i16, write_i32, write_i64, write_unsigned, write_signed,
}
use isobmff_rs.Core.Field.{i32_try_from}
use isobmff_rs.Core.Field.Reading.{read_slice-append}

-- A field with its value.
pub data Field : Type 0 where
  bytes : List ℕ → Field
  u16 u32 u64 : ℕ → Field
  i16 i32 i64 : ℤ → Field
  unsigned : FieldWidth → ℕ → Field
  signed : FieldWidth → ℤ → Field

abbrev pub write_field : FieldWriter → Field → Result Error FieldWriter
write_field w (bytes b) = write_slice w b
write_field w (u16 n) = write_u16 w n
write_field w (u32 n) = write_u32 w n
write_field w (u64 n) = write_u64 w n
write_field w (i16 z) = write_i16 w z
write_field w (i32 z) = write_i32 w z
write_field w (i64 z) = write_i64 w z
write_field w (unsigned width n) = write_unsigned w width n
write_field w (signed width z) = write_signed w width z

-- Reads a field of the kind, and for bytes of the length, of the one given.
abbrev pub read_field : Field → FieldReader → Result Error (Field × FieldReader)
read_field (bytes b) r = do (v, r) ← read_slice r (length b); ok (bytes v, r)
read_field (u16 _) r = do (v, r) ← read_u16 r; ok (u16 v, r)
read_field (u32 _) r = do (v, r) ← read_u32 r; ok (u32 v, r)
read_field (u64 _) r = do (v, r) ← read_u64 r; ok (u64 v, r)
read_field (i16 _) r = do (v, r) ← read_i16 r; ok (i16 v, r)
read_field (i32 _) r = do (v, r) ← read_i32 r; ok (i32 v, r)
read_field (i64 _) r = do (v, r) ← read_i64 r; ok (i64 v, r)
read_field (unsigned width _) r = do (v, r) ← read_unsigned r width; ok (unsigned width v, r)
read_field (signed width _) r = do (v, r) ← read_signed r width; ok (signed width v, r)

-- The value is in the range of the field.
abbrev pub IsField : Field → Type 0
IsField (bytes b) = Unit
IsField (u16 n) = IsU16 n
IsField (u32 n) = IsU32 n
IsField (u64 n) = IsU64 n
IsField (i16 z) = InRange (2 ^ 15) z
IsField (i32 z) = InRange (2 ^ 31) z
IsField (i64 z) = InRange (2 ^ 63) z
IsField (unsigned FieldWidth.compact n) = IsU32 n
IsField (unsigned FieldWidth.extended n) = IsU64 n
IsField (signed FieldWidth.compact z) = InRange (2 ^ 31) z
IsField (signed FieldWidth.extended z) = InRange (2 ^ 63) z

-- The big-endian bytes of the field.
abbrev pub wire : Field → List ℕ
wire (bytes b) = b
wire (u16 n) = to_be_bytes 2 n
wire (u32 n) = to_be_bytes 4 n
wire (u64 n) = to_be_bytes 8 n
wire (i16 z) = to_be_bytes 2 (to_bits (2 ^ 15) z)
wire (i32 z) = to_be_bytes 4 (to_bits (2 ^ 31) z)
wire (i64 z) = to_be_bytes 8 (to_bits (2 ^ 63) z)
wire (unsigned FieldWidth.compact n) = to_be_bytes 4 n
wire (unsigned FieldWidth.extended n) = to_be_bytes 8 n
wire (signed FieldWidth.compact z) = to_be_bytes 4 (to_bits (2 ^ 31) z)
wire (signed FieldWidth.extended z) = to_be_bytes 8 (to_bits (2 ^ 63) z)

i32_try_from_lem : (z : ℤ) → InRange (2 ^ 31) z → i32_try_from z ≡ some z
i32_try_from_lem (pos n) h = ground arith
i32_try_from_lem (negsuc n) h = ground arith

-- A field in range writes its bytes.
pub write_field_lem :
    (w : FieldWriter) (f : Field) → IsField f → write_field w f ≡ write_slice w (wire f)
unfolding write_u16 write_i16 write_unsigned write_signed
write_field_lem w (bytes b) h = refl
write_field_lem w (u16 n) h = refl
write_field_lem w (u32 n) h = unfold write_u32 in refl
write_field_lem w (u64 n) h = refl
write_field_lem w (i16 z) h = refl
write_field_lem w (i32 z) h = refl
write_field_lem w (i64 z) h = refl
write_field_lem w (unsigned FieldWidth.compact n) h = rw (le→ltb u32_max n (omega arith)) refl
write_field_lem w (unsigned FieldWidth.extended n) h = refl
write_field_lem w (signed FieldWidth.compact z) h = rw (i32_try_from_lem z h) refl
write_field_lem w (signed FieldWidth.extended z) h = refl

module _ (payload_len : ℕ) (tail : List ℕ) where
  abbrev pub at : List ℕ → FieldReader
  at rest = record { rest = rest; payload_len = payload_len }

  pub slice_of :
      (n value : ℕ)
      → read_slice (at (to_be_bytes n value ++ tail)) n ≡ ok (to_be_bytes n value, at tail)
  slice_of n value =
      read_slice-append n payload_len (to_be_bytes n value) tail (length-to_be_bytes n value)

  -- The integer that a run of bytes spells, and the signed one.
  pub unsigned_of : (n value : ℕ) → value < 256 ^ n → from_be_bytes (to_be_bytes n value) ≡ value
  unsigned_of n value h = from_be_bytes-to_be_bytes n value h

  pub signed_of :
      (n half : ℕ) (z : ℤ)
      → half + half ≡ 256 ^ n
      → InRange half z
      → from_bits half (from_be_bytes (to_be_bytes n (to_bits half z))) ≡ z
  signed_of n half z e h =
      rw (from_be_bytes-to_be_bytes n (to_bits half z) (omega (arith, to_bits-lt half z h)))
        (from_bits-to_bits half z h)

  -- The bytes of a field in range read as that field.
  pub read_wire : (f : Field) → IsField f → read_field f (at (wire f ++ tail)) ≡ ok (f, at tail)
  unfolding read_u16 read_i16 read_unsigned read_signed
  read_wire (bytes b) h = rw (read_slice-append (length b) payload_len b tail refl) refl
  read_wire (u16 n) h = rw (slice_of 2 n, unsigned_of 2 n (omega arith)) refl
  read_wire (u32 n) h = rw (slice_of 4 n, unsigned_of 4 n (omega arith)) refl
  read_wire (u64 n) h = rw (slice_of 8 n, unsigned_of 8 n (omega arith)) refl
  read_wire (i16 z) h = rw (slice_of 2 _, signed_of 2 (2 ^ 15) z refl h) refl
  read_wire (i32 z) h = rw (slice_of 4 _, signed_of 4 (2 ^ 31) z refl h) refl
  read_wire (i64 z) h = rw (slice_of 8 _, signed_of 8 (2 ^ 63) z refl h) refl
  read_wire (unsigned FieldWidth.compact n) h =
      rw (slice_of 4 n, unsigned_of 4 n (omega arith)) refl
  read_wire (unsigned FieldWidth.extended n) h =
      rw (slice_of 8 n, unsigned_of 8 n (omega arith)) refl
  read_wire (signed FieldWidth.compact z) h = rw (slice_of 4 _, signed_of 4 (2 ^ 31) z refl h) refl
  read_wire (signed FieldWidth.extended z) h = rw (slice_of 8 _, signed_of 8 (2 ^ 63) z refl h) refl
