-- ===== src/Boxes/Headers.antt =====
-- crates/isobmff-boxes/src: the headers of a movie, a track and its media (mvhd.rs, tkhd.rs, mdhd.rs,
-- data_types/matrix.rs, data_types/language_code.rs).
pub mod Movie
pub mod Track
use Prim.Native.Nat.{bit_and, bit_or}
use isobmff_rs.Common.{
  ℕ, ◌%◌, ◌^◌, ◌==◌, not, if◌then◌else◌, Bool, true, false, List, [], ◌∷◌, replicate,
}
use isobmff_rs.Common.Int.{ℤ}
use isobmff_rs.Common.Words.{saturating_add}
use isobmff_rs.Common.Result.{Result, ok, err, ◌>>=◌}
use isobmff_rs.Core.Error.{Error, error, invalid_value}
use isobmff_rs.Core.Field.{
  FieldReader, FieldWriter, read_slice, read_u16, read_u32, read_i16, read_i32, read_unsigned,
  write_slice, write_u16, write_u32, write_i16, write_i32, write_unsigned,
}
use isobmff_rs.Core.FullBox.{no_flags}
use isobmff_rs.Core.Codec.{BoxCodec}
use isobmff_rs.Boxes.FullBox.{read_header, write_header, version_width}
use isobmff_rs.Boxes.Table.{TableEntry, read_times, write_entries}
use isobmff_rs.Boxes.Counted.{compact}
use isobmff_rs.Boxes.Samples.{has_flag, low_byte}

-- `Matrix`, an array of nine
abbrev pub i32_entry : TableEntry ℤ
i32_entry = record { encoded_len = 4; read = read_i32; write = λ n w. write_i32 w n }

-- `Matrix::read`
abbrev pub read_matrix : FieldReader → Result Error (List ℤ × FieldReader)
read_matrix r = read_times 9 read_i32 r

-- `Matrix::write`
abbrev pub write_matrix : List ℤ → FieldWriter → Result Error FieldWriter
write_matrix matrix w = write_entries i32_entry w matrix

-- `LanguageCode::from_bits`: `bits & 0x7fff`
abbrev pub language_from_bits : ℕ → ℕ
language_from_bits bits = bits % 2 ^ 15

pub record MediaHeaderBox : Type 0 where
  pub version : ℕ
  pub creation_time : ℕ
  pub modification_time : ℕ
  pub timescale : ℕ
  pub duration : ℕ
  pub language : ℕ

abbrev pub mdhd_decode : FieldReader → Result Error (MediaHeaderBox × FieldReader)
mdhd_decode r = do
  (header, r) ← read_header r
  width ← version_width header.version
  (creation_time, r) ← read_unsigned r width
  (modification_time, r) ← read_unsigned r width
  (timescale, r) ← read_u32 r
  (duration, r) ← read_unsigned r width
  (language, r) ← read_u16 r
  (_, r) ← read_slice r 2
  ok (
    record {
      version = header.version;
      creation_time = creation_time;
      modification_time = modification_time;
      timescale = timescale;
      duration = duration;
      language = language_from_bits language;
    },
    r,
  )

abbrev pub mdhd_encode : MediaHeaderBox → FieldWriter → Result Error FieldWriter
mdhd_encode x w = do
  width ← version_width x.version
  w ← write_header w (record { version = x.version; flags = no_flags })
  w ← write_unsigned w width x.creation_time
  w ← write_unsigned w width x.modification_time
  w ← write_u32 w x.timescale
  w ← write_unsigned w width x.duration
  w ← write_u16 w x.language
  write_slice w (replicate 2 0)

abbrev pub mdhd_codec : BoxCodec MediaHeaderBox
mdhd_codec = record {
  box_type = compact b'm' b'd' b'h' b'd';
  payload_len = λ x. saturating_add (if x.version == 1 then 28 else 16) 8;
  encode_fields = mdhd_encode;
  decode_fields = mdhd_decode;
}

-- The rate and the volume are the integers that the fixed-point numbers hold.
pub record MovieHeaderBox : Type 0 where
  pub version : ℕ
  pub creation_time : ℕ
  pub modification_time : ℕ
  pub timescale : ℕ
  pub duration : ℕ
  pub rate : ℤ
  pub volume : ℤ
  pub matrix : List ℤ
  pub next_track_id : ℕ

abbrev pub mvhd_decode : FieldReader → Result Error (MovieHeaderBox × FieldReader)
mvhd_decode r = do
  (header, r) ← read_header r
  width ← version_width header.version
  (creation_time, r) ← read_unsigned r width
  (modification_time, r) ← read_unsigned r width
  (timescale, r) ← read_u32 r
  (duration, r) ← read_unsigned r width
  (rate, r) ← read_i32 r
  (volume, r) ← read_i16 r
  (_, r) ← read_slice r 10
  (matrix, r) ← read_matrix r
  (_, r) ← read_slice r 24
  (next_track_id, r) ← read_u32 r
  ok (
    record {
      version = header.version;
      creation_time = creation_time;
      modification_time = modification_time;
      timescale = timescale;
      duration = duration;
      rate = rate;
      volume = volume;
      matrix = matrix;
      next_track_id = next_track_id;
    },
    r,
  )

abbrev pub mvhd_encode : MovieHeaderBox → FieldWriter → Result Error FieldWriter
mvhd_encode x w = do
  width ← version_width x.version
  (if x.next_track_id == 0 then err (error (invalid_value "next_track_ID")) else (do
    w ← write_header w (record { version = x.version; flags = no_flags })
    w ← write_unsigned w width x.creation_time
    w ← write_unsigned w width x.modification_time
    w ← write_u32 w x.timescale
    w ← write_unsigned w width x.duration
    w ← write_i32 w x.rate
    w ← write_i16 w x.volume
    w ← write_slice w (replicate 10 0)
    w ← write_matrix x.matrix w
    w ← write_slice w (replicate 24 0)
    write_u32 w x.next_track_id))

abbrev pub mvhd_codec : BoxCodec MovieHeaderBox
mvhd_codec = record {
  box_type = compact b'm' b'v' b'h' b'd';
  payload_len = λ x. saturating_add (if x.version == 1 then 28 else 16) 84;
  encode_fields = mvhd_encode;
  decode_fields = mvhd_decode;
}

-- The flags of the header are the four conditions; the volume, the width and the height are the
-- integers that the fixed-point numbers hold.
pub record TrackHeaderBox : Type 0 where
  pub version : ℕ
  pub track_enabled : Bool
  pub track_in_movie : Bool
  pub track_in_preview : Bool
  pub track_size_is_aspect_ratio : Bool
  pub creation_time : ℕ
  pub modification_time : ℕ
  pub track_id : ℕ
  pub duration : ℕ
  pub layer : ℤ
  pub alternate_group : ℤ
  pub volume : ℤ
  pub matrix : List ℤ
  pub width : ℕ
  pub height : ℕ

abbrev pub tkhd_decode : FieldReader → Result Error (TrackHeaderBox × FieldReader)
tkhd_decode r = do
  (header, r) ← read_header r
  field_width ← version_width header.version
  let flags = low_byte header.flags
  (creation_time, r) ← read_unsigned r field_width
  (modification_time, r) ← read_unsigned r field_width
  (track_id, r) ← read_u32 r
  (_, r) ← read_slice r 4
  (duration, r) ← read_unsigned r field_width
  (_, r) ← read_slice r 8
  (layer, r) ← read_i16 r
  (alternate_group, r) ← read_i16 r
  (volume, r) ← read_i16 r
  (_, r) ← read_slice r 2
  (matrix, r) ← read_matrix r
  (width, r) ← read_u32 r
  (height, r) ← read_u32 r
  ok (
    record {
      version = header.version;
      track_enabled = has_flag flags 1;
      track_in_movie = has_flag flags 2;
      track_in_preview = has_flag flags 4;
      track_size_is_aspect_ratio = has_flag flags 8;
      creation_time = creation_time;
      modification_time = modification_time;
      track_id = track_id;
      duration = duration;
      layer = layer;
      alternate_group = alternate_group;
      volume = volume;
      matrix = matrix;
      width = width;
      height = height;
    },
    r,
  )

-- The mask, where the condition is set, on top of the flags so far.
abbrev pub with_flag : Bool → ℕ → ℕ → ℕ
with_flag true mask flags = bit_or flags mask
with_flag false mask flags = flags

abbrev pub track_flags : Bool → Bool → Bool → Bool → ℕ
track_flags enabled in_movie in_preview aspect =
    with_flag aspect 8 (with_flag in_preview 4 (with_flag in_movie 2 (with_flag enabled 1 0)))

abbrev pub tkhd_encode : TrackHeaderBox → FieldWriter → Result Error FieldWriter
tkhd_encode x w = do
  field_width ← version_width x.version
  (if x.track_id == 0 then err (error (invalid_value "track_ID")) else (do
    let flags =
        track_flags x.track_enabled x.track_in_movie x.track_in_preview x.track_size_is_aspect_ratio
    w ← write_slice w (x.version ∷ 0 ∷ 0 ∷ flags ∷ [])
    w ← write_unsigned w field_width x.creation_time
    w ← write_unsigned w field_width x.modification_time
    w ← write_u32 w x.track_id
    w ← write_slice w (replicate 4 0)
    w ← write_unsigned w field_width x.duration
    w ← write_slice w (replicate 8 0)
    w ← write_i16 w x.layer
    w ← write_i16 w x.alternate_group
    w ← write_i16 w x.volume
    w ← write_slice w (replicate 2 0)
    w ← write_matrix x.matrix w
    w ← write_u32 w x.width
    write_u32 w x.height))

abbrev pub tkhd_codec : BoxCodec TrackHeaderBox
tkhd_codec = record {
  box_type = compact b't' b'k' b'h' b'd';
  payload_len = λ x. saturating_add (if x.version == 1 then 32 else 20) 64;
  encode_fields = tkhd_encode;
  decode_fields = tkhd_decode;
}
