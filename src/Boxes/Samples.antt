-- ===== src/Boxes/Samples.antt =====
-- crates/isobmff-boxes/src: composition offsets (ctts.rs), sample sizes (sample_size/stsz.rs) and edit
-- lists (elst.rs).
pub mod RoundTrip
pub mod Edits
use Prim.Native.Nat.{bit_and}
use isobmff_rs.Common.{
  ℕ, zero, suc, ◌%◌, ◌==◌, ltb, not, if◌then◌else◌, Bool, true, false, List, [], ◌∷◌, length,
}
use isobmff_rs.Common.Int.{ℤ}
use isobmff_rs.Common.Words.{saturating_add, saturating_mul, u64_max, u64_try_from}
use isobmff_rs.Common.Result.{Result, ok, err, ◌>>=◌, unwrap_or}
use isobmff_rs.Core.Error.{Error, error, unsupported_version}
use isobmff_rs.Core.Field.{
  FieldReader, FieldWriter, FieldWidth, read_u32, read_i16, read_unsigned, read_signed, write_slice,
  write_u32, write_i16, write_unsigned, write_signed,
}
use isobmff_rs.Core.FullBox.{FullBoxFlags, no_flags}
use isobmff_rs.Core.Codec.{BoxCodec}
use isobmff_rs.Boxes.FullBox.{
  read_header, write_header, read_version_zero, write_version_zero, read_composition_offset,
  write_composition_offset, version_width,
}
use isobmff_rs.Boxes.Table.{
  TableEntry, u32_entry, table_len, counted_len, read_counted, read_fixed_entries, read_entries,
  write_counted, write_entry_count, write_entries,
}
use isobmff_rs.Boxes.Counted.{compact}

pub record CompositionOffsetEntry : Type 0 where
  pub sample_count : ℕ
  pub sample_offset : ℤ

pub record CompositionOffsetBox : Type 0 where
  pub version : ℕ
  pub entries : List CompositionOffsetEntry

abbrev pub read_composition_entry :
    ℕ → FieldReader → Result Error (CompositionOffsetEntry × FieldReader)
read_composition_entry version r = do
  (sample_count, r) ← read_u32 r
  (sample_offset, r) ← read_composition_offset r version
  ok (record { sample_count = sample_count; sample_offset = sample_offset }, r)

abbrev pub write_composition_entry :
    ℕ → CompositionOffsetEntry → FieldWriter → Result Error FieldWriter
write_composition_entry version entry w = do
  w ← write_u32 w entry.sample_count
  write_composition_offset w version entry.sample_offset

-- The entries of the box, as a table that the version sets.
abbrev pub composition_entry : ℕ → TableEntry CompositionOffsetEntry
composition_entry version = record {
  encoded_len = 8;
  read = read_composition_entry version;
  write = write_composition_entry version;
}

abbrev pub ctts_decode : FieldReader → Result Error (CompositionOffsetBox × FieldReader)
ctts_decode r = do
  (header, r) ← read_header r
  (if ltb 1 header.version then err (error (unsupported_version header.version)) else (do
    (entry_count, r) ← read_u32 r
    (entries, r) ← read_fixed_entries r entry_count 8 (read_composition_entry header.version)
    ok (record { version = header.version; entries = entries }, r)))

abbrev pub ctts_encode : CompositionOffsetBox → FieldWriter → Result Error FieldWriter
ctts_encode x w = if ltb 1 x.version then err (error (unsupported_version x.version)) else (do
  w ← write_header w (record { version = x.version; flags = no_flags })
  w ← write_entry_count w (length x.entries)
  write_entries (composition_entry x.version) w x.entries)

abbrev pub ctts_codec : BoxCodec CompositionOffsetBox
ctts_codec = record {
  box_type = compact b'c' b't' b't' b's';
  payload_len = λ x. saturating_add (table_len (length x.entries) 8) 8;
  encode_fields = ctts_encode;
  decode_fields = ctts_decode;
}

-- The `sample_size` of `constant` is not 0.
pub data SampleSizes : Type 0 where
  constant : ℕ → ℕ → SampleSizes
  table : List ℕ → SampleSizes

-- What follows the field `sample_size`.
abbrev pub read_sample_sizes : ℕ → FieldReader → Result Error (SampleSizes × FieldReader)
read_sample_sizes zero r = do (entry_sizes, r) ← read_counted u32_entry r; ok (table entry_sizes, r)
read_sample_sizes (suc n) r = do
  (sample_count, r) ← read_u32 r
  ok (constant (suc n) sample_count, r)

abbrev pub stsz_decode : FieldReader → Result Error (SampleSizes × FieldReader)
stsz_decode r = do
  (_, r) ← read_version_zero r
  (sample_size, r) ← read_u32 r
  read_sample_sizes sample_size r

abbrev pub stsz_len : SampleSizes → ℕ
stsz_len (constant _ _) = 12
stsz_len (table entry_sizes) = saturating_add (counted_len u32_entry entry_sizes) 8

abbrev pub write_sample_sizes : SampleSizes → FieldWriter → Result Error FieldWriter
write_sample_sizes (constant sample_size sample_count) w = do
  w ← write_u32 w sample_size
  write_u32 w sample_count
write_sample_sizes (table entry_sizes) w = do
  w ← write_u32 w 0
  write_counted u32_entry w entry_sizes

abbrev pub stsz_encode : SampleSizes → FieldWriter → Result Error FieldWriter
stsz_encode x w = do w ← write_version_zero w; write_sample_sizes x w

-- `SampleSizeBox`
abbrev pub stsz_codec : BoxCodec SampleSizes
stsz_codec = record {
  box_type = compact b's' b't' b's' b'z';
  payload_len = stsz_len;
  encode_fields = stsz_encode;
  decode_fields = stsz_decode;
}

pub record EditListEntry : Type 0 where
  pub edit_duration : ℕ
  pub media_time : ℤ
  pub media_rate_integer : ℤ
  pub media_rate_fraction : ℤ

pub record EditListBox : Type 0 where
  pub version : ℕ
  pub repeat_edits : Bool
  pub entries : List EditListEntry

-- `REPEAT_EDITS`
abbrev pub repeat_mask : ℕ
repeat_mask = 0x01

-- `entry_len`
abbrev pub entry_len : ℕ → ℕ
entry_len version = if version == 1 then 20 else 12

abbrev pub read_edit : FieldWidth → FieldReader → Result Error (EditListEntry × FieldReader)
read_edit width r = do
  (edit_duration, r) ← read_unsigned r width
  (media_time, r) ← read_signed r width
  (media_rate_integer, r) ← read_i16 r
  (media_rate_fraction, r) ← read_i16 r
  ok (
    record {
      edit_duration = edit_duration;
      media_time = media_time;
      media_rate_integer = media_rate_integer;
      media_rate_fraction = media_rate_fraction;
    },
    r,
  )

abbrev pub write_edit : FieldWidth → EditListEntry → FieldWriter → Result Error FieldWriter
write_edit width entry w = do
  w ← write_unsigned w width entry.edit_duration
  w ← write_signed w width entry.media_time
  w ← write_i16 w entry.media_rate_integer
  write_i16 w entry.media_rate_fraction

-- The entries of the box, as a table that the version and its width set.
abbrev pub edit_entry : ℕ → FieldWidth → TableEntry EditListEntry
edit_entry version width = record {
  encoded_len = entry_len version;
  read = read_edit width;
  write = write_edit width;
}

-- The last byte of the flags.
abbrev pub low_byte : FullBoxFlags → ℕ
low_byte flags = flags.bits % 256

-- `flags & mask != 0`
abbrev pub has_flag : ℕ → ℕ → Bool
has_flag flags mask = not (bit_and flags mask == 0)

abbrev pub elst_decode : FieldReader → Result Error (EditListBox × FieldReader)
elst_decode r = do
  (header, r) ← read_header r
  width ← version_width header.version
  (entry_count, r) ← read_u32 r
  (entries, r) ← read_entries r entry_count (entry_len header.version) (read_edit width)
  ok (
    record {
      version = header.version;
      repeat_edits = has_flag (low_byte header.flags) repeat_mask;
      entries = entries;
    },
    r,
  )

abbrev pub elst_encode : EditListBox → FieldWriter → Result Error FieldWriter
elst_encode x w = do
  width ← version_width x.version
  let flags = if x.repeat_edits then repeat_mask else 0
  w ← write_slice w (x.version ∷ 0 ∷ 0 ∷ flags ∷ [])
  w ← write_unsigned w FieldWidth.compact (unwrap_or (u64_try_from (length x.entries)) u64_max)
  write_entries (edit_entry x.version width) w x.entries

abbrev pub elst_codec : BoxCodec EditListBox
elst_codec = record {
  box_type = compact b'e' b'l' b's' b't';
  payload_len = λ x.
      saturating_add
        (saturating_mul (unwrap_or (u64_try_from (length x.entries)) u64_max) (entry_len x.version))
        8;
  encode_fields = elst_encode;
  decode_fields = elst_decode;
}
