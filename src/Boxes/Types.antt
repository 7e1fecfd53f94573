-- ===== src/Boxes/Types.antt =====
-- crates/isobmff-boxes/src: the boxes of brands (ftyp.rs, styp.rs) and those of bytes (free.rs, mdat.rs).
pub mod RoundTrip
use isobmff_rs.Common.{ℕ, List, [], ◌∷◌, length}
use isobmff_rs.Common.Words.{saturating_add, u64_max, u64_try_from}
use isobmff_rs.Common.Result.{Result, ok, ◌>>=◌, unwrap_or}
use isobmff_rs.Core.Error.{Error}
use isobmff_rs.Core.FourCc.{FourCc}
use isobmff_rs.Core.BoxType.{BoxType}
use isobmff_rs.Core.Field.{
  FieldReader, FieldWriter, read_slice, read_u32, take_remainder, write_slice, write_u32,
}
use isobmff_rs.Core.Codec.{BoxCodec}
use isobmff_rs.Boxes.Table.{four_cc_entry, entries_len, read_to_end, write_entries}
use isobmff_rs.Boxes.Counted.{compact}

-- `FileTypeBox` and `SegmentTypeBox`, of the same fields
pub record GeneralType : Type 0 where
  pub major_brand : FourCc
  pub minor_version : ℕ
  pub compatible_brands : List FourCc

-- `read_general_type`
abbrev pub read_general_type : FieldReader → Result Error (GeneralType × FieldReader)
read_general_type r = do
  (major_brand, r) ← read_slice r 4
  (minor_version, r) ← read_u32 r
  (compatible_brands, r) ← read_to_end four_cc_entry r
  ok (
    record {
      major_brand = record { bytes = major_brand };
      minor_version = minor_version;
      compatible_brands = compatible_brands;
    },
    r,
  )

-- `general_type_len`
abbrev pub general_type_len : GeneralType → ℕ
general_type_len x = saturating_add (entries_len four_cc_entry x.compatible_brands) 8

-- `write_general_type`
abbrev pub write_general_type : GeneralType → FieldWriter → Result Error FieldWriter
write_general_type x w = do
  w ← write_slice w x.major_brand.bytes
  w ← write_u32 w x.minor_version
  write_entries four_cc_entry w x.compatible_brands

abbrev pub general_type_codec : BoxType → BoxCodec GeneralType
general_type_codec box_type = record {
  box_type = box_type;
  payload_len = general_type_len;
  encode_fields = write_general_type;
  decode_fields = read_general_type;
}

abbrev pub ftyp_codec : BoxCodec GeneralType
ftyp_codec = general_type_codec (compact b'f' b't' b'y' b'p')

abbrev pub styp_codec : BoxCodec GeneralType
styp_codec = general_type_codec (compact b's' b't' b'y' b'p')

-- The codec of a box whose payload is its `data`.
abbrev pub bytes_codec : BoxType → BoxCodec (List ℕ)
bytes_codec box_type = record {
  box_type = box_type;
  payload_len = λ content. unwrap_or (u64_try_from (length content)) u64_max;
  encode_fields = λ content w. write_slice w content;
  decode_fields = λ r. ok (take_remainder r);
}

-- `FreeSpaceBox<Free>`
abbrev pub free_codec : BoxCodec (List ℕ)
free_codec = bytes_codec (compact b'f' b'r' b'e' b'e')

-- `FreeSpaceBox<Skip>`
abbrev pub skip_codec : BoxCodec (List ℕ)
skip_codec = bytes_codec (compact b's' b'k' b'i' b'p')

-- `MediaDataBox`
abbrev pub mdat_codec : BoxCodec (List ℕ)
mdat_codec = bytes_codec (compact b'm' b'd' b'a' b't')
