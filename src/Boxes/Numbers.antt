-- ===== src/Boxes/Numbers.antt =====
-- crates/isobmff-boxes/src: boxes of a few numbers (pasp.rs, btrt.rs, clli.rs, amve.rs, clap.rs, mfro.rs,
-- srat.rs).
pub mod RoundTrip
use isobmff_rs.Common.{ℕ}
use isobmff_rs.Common.Int.{ℤ}
use isobmff_rs.Common.Result.{Result, ok, ◌>>=◌}
use isobmff_rs.Core.Error.{Error}
use isobmff_rs.Core.Field.{
  FieldReader, FieldWriter, read_u16, read_u32, read_i32, write_u16, write_u32, write_i32,
}
use isobmff_rs.Core.Codec.{BoxCodec}
use isobmff_rs.Boxes.FullBox.{read_version_zero, write_version_zero}
use isobmff_rs.Boxes.Counted.{compact}

pub record PixelAspectRatioBox : Type 0 where
  pub h_spacing : ℕ
  pub v_spacing : ℕ

abbrev pub pasp_decode : FieldReader → Result Error (PixelAspectRatioBox × FieldReader)
pasp_decode r = do
  (h_spacing, r) ← read_u32 r
  (v_spacing, r) ← read_u32 r
  ok (record { h_spacing = h_spacing; v_spacing = v_spacing }, r)

abbrev pub pasp_encode : PixelAspectRatioBox → FieldWriter → Result Error FieldWriter
pasp_encode x w = do w ← write_u32 w x.h_spacing; write_u32 w x.v_spacing

abbrev pub pasp_codec : BoxCodec PixelAspectRatioBox
pasp_codec = record {
  box_type = compact b'p' b'a' b's' b'p';
  payload_len = λ x. 8;
  encode_fields = pasp_encode;
  decode_fields = pasp_decode;
}

pub record BitRateBox : Type 0 where
  pub buffer_size_db : ℕ
  pub max_bitrate : ℕ
  pub avg_bitrate : ℕ

abbrev pub btrt_decode : FieldReader → Result Error (BitRateBox × FieldReader)
btrt_decode r = do
  (buffer_size_db, r) ← read_u32 r
  (max_bitrate, r) ← read_u32 r
  (avg_bitrate, r) ← read_u32 r
  ok (
    record {
      buffer_size_db = buffer_size_db;
      max_bitrate = max_bitrate;
      avg_bitrate = avg_bitrate;
    },
    r,
  )

abbrev pub btrt_encode : BitRateBox → FieldWriter → Result Error FieldWriter
btrt_encode x w = do
  w ← write_u32 w x.buffer_size_db
  w ← write_u32 w x.max_bitrate
  write_u32 w x.avg_bitrate

abbrev pub btrt_codec : BoxCodec BitRateBox
btrt_codec = record {
  box_type = compact b'b' b't' b'r' b't';
  payload_len = λ x. 12;
  encode_fields = btrt_encode;
  decode_fields = btrt_decode;
}

pub record ContentLightLevelBox : Type 0 where
  pub max_content_light_level : ℕ
  pub max_pic_average_light_level : ℕ

abbrev pub clli_decode : FieldReader → Result Error (ContentLightLevelBox × FieldReader)
clli_decode r = do
  (max_content_light_level, r) ← read_u16 r
  (max_pic_average_light_level, r) ← read_u16 r
  ok (
    record {
      max_content_light_level = max_content_light_level;
      max_pic_average_light_level = max_pic_average_light_level;
    },
    r,
  )

abbrev pub clli_encode : ContentLightLevelBox → FieldWriter → Result Error FieldWriter
clli_encode x w = do
  w ← write_u16 w x.max_content_light_level
  write_u16 w x.max_pic_average_light_level

abbrev pub clli_codec : BoxCodec ContentLightLevelBox
clli_codec = record {
  box_type = compact b'c' b'l' b'l' b'i';
  payload_len = λ x. 4;
  encode_fields = clli_encode;
  decode_fields = clli_decode;
}

pub record AmbientViewingEnvironmentBox : Type 0 where
  pub ambient_illuminance : ℕ
  pub ambient_light_x : ℕ
  pub ambient_light_y : ℕ

abbrev pub amve_decode : FieldReader → Result Error (AmbientViewingEnvironmentBox × FieldReader)
amve_decode r = do
  (ambient_illuminance, r) ← read_u32 r
  (ambient_light_x, r) ← read_u16 r
  (ambient_light_y, r) ← read_u16 r
  ok (
    record {
      ambient_illuminance = ambient_illuminance;
      ambient_light_x = ambient_light_x;
      ambient_light_y = ambient_light_y;
    },
    r,
  )

abbrev pub amve_encode : AmbientViewingEnvironmentBox → FieldWriter → Result Error FieldWriter
amve_encode x w = do
  w ← write_u32 w x.ambient_illuminance
  w ← write_u16 w x.ambient_light_x
  write_u16 w x.ambient_light_y

abbrev pub amve_codec : BoxCodec AmbientViewingEnvironmentBox
amve_codec = record {
  box_type = compact b'a' b'm' b'v' b'e';
  payload_len = λ x. 8;
  encode_fields = amve_encode;
  decode_fields = amve_decode;
}

pub record CleanApertureBox : Type 0 where
  pub clean_aperture_width_n : ℤ
  pub clean_aperture_width_d : ℤ
  pub clean_aperture_height_n : ℤ
  pub clean_aperture_height_d : ℤ
  pub horiz_off_n : ℤ
  pub horiz_off_d : ℤ
  pub vert_off_n : ℤ
  pub vert_off_d : ℤ

abbrev pub clap_decode : FieldReader → Result Error (CleanApertureBox × FieldReader)
clap_decode r = do
  (clean_aperture_width_n, r) ← read_i32 r
  (clean_aperture_width_d, r) ← read_i32 r
  (clean_aperture_height_n, r) ← read_i32 r
  (clean_aperture_height_d, r) ← read_i32 r
  (horiz_off_n, r) ← read_i32 r
  (horiz_off_d, r) ← read_i32 r
  (vert_off_n, r) ← read_i32 r
  (vert_off_d, r) ← read_i32 r
  ok (
    record {
      clean_aperture_width_n = clean_aperture_width_n;
      clean_aperture_width_d = clean_aperture_width_d;
      clean_aperture_height_n = clean_aperture_height_n;
      clean_aperture_height_d = clean_aperture_height_d;
      horiz_off_n = horiz_off_n;
      horiz_off_d = horiz_off_d;
      vert_off_n = vert_off_n;
      vert_off_d = vert_off_d;
    },
    r,
  )

abbrev pub clap_encode : CleanApertureBox → FieldWriter → Result Error FieldWriter
clap_encode x w = do
  w ← write_i32 w x.clean_aperture_width_n
  w ← write_i32 w x.clean_aperture_width_d
  w ← write_i32 w x.clean_aperture_height_n
  w ← write_i32 w x.clean_aperture_height_d
  w ← write_i32 w x.horiz_off_n
  w ← write_i32 w x.horiz_off_d
  w ← write_i32 w x.vert_off_n
  write_i32 w x.vert_off_d

abbrev pub clap_codec : BoxCodec CleanApertureBox
clap_codec = record {
  box_type = compact b'c' b'l' b'a' b'p';
  payload_len = λ x. 32;
  encode_fields = clap_encode;
  decode_fields = clap_decode;
}

pub record MovieFragmentRandomAccessOffsetBox : Type 0 where
  pub parent_size : ℕ

abbrev pub mfro_decode :
    FieldReader → Result Error (MovieFragmentRandomAccessOffsetBox × FieldReader)
mfro_decode r = do
  (_, r) ← read_version_zero r
  (parent_size, r) ← read_u32 r
  ok (record { parent_size = parent_size }, r)

abbrev pub mfro_encode : MovieFragmentRandomAccessOffsetBox → FieldWriter → Result Error FieldWriter
mfro_encode x w = do w ← write_version_zero w; write_u32 w x.parent_size

abbrev pub mfro_codec : BoxCodec MovieFragmentRandomAccessOffsetBox
mfro_codec = record {
  box_type = compact b'm' b'f' b'r' b'o';
  payload_len = λ x. 8;
  encode_fields = mfro_encode;
  decode_fields = mfro_decode;
}

pub record SamplingRateBox : Type 0 where
  pub sampling_rate : ℕ

abbrev pub srat_decode : FieldReader → Result Error (SamplingRateBox × FieldReader)
srat_decode r = do
  (_, r) ← read_version_zero r
  (sampling_rate, r) ← read_u32 r
  ok (record { sampling_rate = sampling_rate }, r)

abbrev pub srat_encode : SamplingRateBox → FieldWriter → Result Error FieldWriter
srat_encode x w = do w ← write_version_zero w; write_u32 w x.sampling_rate

abbrev pub srat_codec : BoxCodec SamplingRateBox
srat_codec = record {
  box_type = compact b's' b'r' b'a' b't';
  payload_len = λ x. 8;
  encode_fields = srat_encode;
  decode_fields = srat_decode;
}
