-- ===== src/Boxes/FullBox.antt =====
-- crates/isobmff-boxes/src/full_box.rs: the versions of full boxes, and the fields they set.
pub mod RoundTrip
use isobmff_rs.Common.{ℕ, ◌^◌}
use isobmff_rs.Common.{
  ltb, ◌==◌, if◌then◌else◌, Bool, true, false, Option, none, some, List, [], ◌∷◌, ◌++◌,
}
use isobmff_rs.Common.Int.{ℤ, pos, negsuc, to_bits}
use isobmff_rs.Common.Words.{u32_try_from}
use isobmff_rs.Common.Result.{Result, ok, err, ok_or, ◌>>=◌}
use isobmff_rs.Core.Error.{Error, error, unsupported_version, out_of_range}
use isobmff_rs.Core.FullBox.{FullBoxFlags, FullBoxHeader, no_flags, from_bytes, to_bytes}
use isobmff_rs.Core.Field.{
  FieldReader, FieldWriter, FieldWidth, read_slice, write_slice, read_u32, read_i32, write_unsigned,
  write_signed,
}

-- `FullBoxHeader::from_bytes(reader.read_bytes::<4>()?)`
unfoldable pub read_header : FieldReader → Result Error (FullBoxHeader × FieldReader)
read_header r = do (field, r) ← read_slice r 4; ok (from_bytes field, r)

-- `writer.write_bytes(&header.to_bytes())`
unfoldable pub write_header : FieldWriter → FullBoxHeader → Result Error FieldWriter
write_header w header = write_slice w (to_bytes header)

-- `read_version_zero`
unfoldable pub read_version_zero : FieldReader → Result Error (FullBoxFlags × FieldReader)
read_version_zero r = do
  (header, r) ← read_header r
  (if header.version == 0
      then ok (header.flags, r)
      else err (error (unsupported_version header.version)))

-- `write_version_zero`
unfoldable pub write_version_zero : FieldWriter → Result Error FieldWriter
write_version_zero w = write_header w (record { version = 0; flags = no_flags })

-- `read_composition_offset`
unfoldable pub read_composition_offset : FieldReader → ℕ → Result Error (ℤ × FieldReader)
read_composition_offset r version =
    if version == 0 then (do (offset, r) ← read_u32 r; ok (pos offset, r)) else read_i32 r

-- `u64::try_from(offset).ok()`
abbrev pub unsigned_of : ℤ → Option ℕ
unsigned_of (pos n) = some n
unsigned_of (negsuc n) = none

-- `write_composition_offset`
unfoldable pub write_composition_offset : FieldWriter → ℕ → ℤ → Result Error FieldWriter
write_composition_offset w version offset =
    if version == 0
    then (do
      unsigned ← ok_or (unsigned_of offset) (error (out_of_range (to_bits (2 ^ 63) offset) 4))
      write_unsigned w FieldWidth.compact unsigned)
    else write_signed w FieldWidth.compact offset

-- `version_width`
unfoldable pub version_width : ℕ → Result Error FieldWidth
version_width version =
    if version == 0
    then ok FieldWidth.compact
    else (if version == 1
        then ok FieldWidth.extended
        else err (error (unsupported_version version)))
