-- ===== src/Boxes/Types/RoundTrip.antt =====
-- The boxes of brands and of bytes, written and read back.
use isobmff_rs.Common.{
  ℕ, ◌≡◌, ◌+◌, ◌*◌, ◌<◌, ◌^◌, List, ◌++◌, length, refl, arith, length-append, le→ltb,
}
use isobmff_rs.Common.Words.{u64_max, IsU32}
use isobmff_rs.Common.Bytes.{to_be_bytes, length-to_be_bytes}
use isobmff_rs.Common.Result.{◌>>=◌}
use isobmff_rs.Core.FourCc.{FourCc}
use isobmff_rs.Core.BoxType.{BoxType}
use isobmff_rs.Core.Field.{take_remainder, write_slice, write_u32}
use isobmff_rs.Core.Field.Reading.{read_slice-append}
use isobmff_rs.Core.Codec.Actions.{Writes-bytes, Writes-seq}
use isobmff_rs.Core.Codec.Fields.{Writes-u32, Reads-u32}
use isobmff_rs.Core.Codec.RoundTrip.{IsCodec}
use isobmff_rs.Boxes.Table.{four_cc_entry, write_entries}
use isobmff_rs.Boxes.Table.RoundTrip.{
  IsEntry, IsTable, entry_bytes, Writes-entries, ReadsAll-to_end, entries_len_lem,
  length-entry_bytes,
}
use isobmff_rs.Boxes.Types.{GeneralType, general_type_codec, bytes_codec}

pub bytes-IsCodec :
    (box_type : BoxType) (content : List ℕ)
    → length content < 2 ^ 64
    → IsCodec (bytes_codec box_type) content
unfolding take_remainder
bytes-IsCodec box_type content fits = record {
  payload = content;
  counted = rw (le→ltb u64_max (length content) (omega (arith, fits))) refl;
  writes = Writes-bytes content;
  reads = λ n. refl;
}

abbrev pub brand_bytes : FourCc → List ℕ
brand_bytes brand = brand.bytes

pub brand-IsEntry :
    (brand : FourCc) → length brand.bytes ≡ 4 → IsEntry four_cc_entry brand_bytes brand
brand-IsEntry brand e = record {
  sized = e;
  writes = Writes-bytes brand.bytes;
  reads = λ n tail. rw (read_slice-append 4 n brand.bytes tail e) refl;
}

-- Four bytes for the brand, a version of 32 bits, and brands of four bytes.
pub record IsGeneralType (x : GeneralType) : Type 0 where
  pub major : length x.major_brand.bytes ≡ 4
  pub minor : IsU32 x.minor_version
  pub brands : IsTable four_cc_entry brand_bytes x.compatible_brands

abbrev general_type_bytes : GeneralType → List ℕ
general_type_bytes x =
    x.major_brand.bytes
    ++ (to_be_bytes 4 x.minor_version ++ entry_bytes brand_bytes x.compatible_brands)

pub general_type-IsCodec :
    (box_type : BoxType) (x : GeneralType)
    → IsGeneralType x
    → length x.compatible_brands * 4 + 8 < 2 ^ 64
    → IsCodec (general_type_codec box_type) x
general_type-IsCodec box_type x valid fits = record {
  payload = general_type_bytes x;
  counted =
      rw
        (
          entries_len_lem four_cc_entry brand_bytes x.compatible_brands valid.brands,
          length-append x.major_brand.bytes
              (to_be_bytes 4 x.minor_version ++ entry_bytes brand_bytes x.compatible_brands),
          length-append (to_be_bytes 4 x.minor_version)
              (entry_bytes brand_bytes x.compatible_brands),
          valid.major,
          length-to_be_bytes 4 x.minor_version,
          length-entry_bytes four_cc_entry brand_bytes x.compatible_brands valid.brands.entries,
        )
        (omega (arith, fits));
  writes =
      Writes-seq (λ w. write_slice w x.major_brand.bytes)
        (λ w.
          write_u32 w x.minor_version >>= λ w'. write_entries four_cc_entry w' x.compatible_brands)
        _ _ (Writes-bytes x.major_brand.bytes)
        (Writes-seq (λ w. write_u32 w x.minor_version)
          (λ w. write_entries four_cc_entry w x.compatible_brands) _ _
          (Writes-u32 x.minor_version valid.minor)
          (Writes-entries four_cc_entry brand_bytes x.compatible_brands valid.brands.entries));
  reads = λ n.
      rw
        (
          read_slice-append 4 n x.major_brand.bytes _ valid.major,
          Reads-u32 x.minor_version valid.minor n _,
          ReadsAll-to_end four_cc_entry brand_bytes x.compatible_brands valid.brands n,
        )
        refl;
}
