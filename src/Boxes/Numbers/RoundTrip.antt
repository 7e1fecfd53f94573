-- ===== src/Boxes/Numbers/RoundTrip.antt =====
-- The boxes of a few numbers, written and read back.
use isobmff_rs.Common.{List, [], ◌∷◌, refl, All}
use isobmff_rs.Core.FullBox.{to_bytes}
use isobmff_rs.Core.FullBox.RoundTrip.{length-to_bytes}
use isobmff_rs.Core.Field.Kinds.{Field, IsField}
use isobmff_rs.Core.Field.RoundTrip.{wires}
use isobmff_rs.Core.Codec.Fields.{length-wires, Writes-all, Reads-u16, Reads-u32, Reads-i32}
use isobmff_rs.Core.Codec.RoundTrip.{IsCodec}
use isobmff_rs.Boxes.FullBox.{write_version_zero, write_header}
use isobmff_rs.Boxes.FullBox.RoundTrip.{header_of, Reads-version_zero}
use isobmff_rs.Boxes.Numbers.{
  PixelAspectRatioBox, pasp_codec, BitRateBox, btrt_codec, ContentLightLevelBox, clli_codec,
  AmbientViewingEnvironmentBox, amve_codec, CleanApertureBox, clap_codec,
  MovieFragmentRandomAccessOffsetBox, mfro_codec, SamplingRateBox, srat_codec,
}

-- The fields of each box.
abbrev pub pasp_fields : PixelAspectRatioBox → List Field
pasp_fields x = Field.u32 x.h_spacing ∷ Field.u32 x.v_spacing ∷ []

pub pasp-IsCodec : (x : PixelAspectRatioBox) → All IsField (pasp_fields x) → IsCodec pasp_codec x
pasp-IsCodec x h = record {
  payload = wires (pasp_fields x);
  counted = rw (length-wires (pasp_fields x)) refl;
  writes = Writes-all (pasp_fields x) h;
  reads = λ n. rw (Reads-u32 x.h_spacing h.0 n _, Reads-u32 x.v_spacing h.1.0 n _) refl;
}

abbrev pub btrt_fields : BitRateBox → List Field
btrt_fields x = Field.u32 x.buffer_size_db ∷ Field.u32 x.max_bitrate ∷ Field.u32 x.avg_bitrate ∷ []

pub btrt-IsCodec : (x : BitRateBox) → All IsField (btrt_fields x) → IsCodec btrt_codec x
btrt-IsCodec x h = record {
  payload = wires (btrt_fields x);
  counted = rw (length-wires (btrt_fields x)) refl;
  writes = Writes-all (btrt_fields x) h;
  reads = λ n.
      rw
        (
          Reads-u32 x.buffer_size_db h.0 n _,
          Reads-u32 x.max_bitrate h.1.0 n _,
          Reads-u32 x.avg_bitrate h.1.1.0 n _,
        )
        refl;
}

abbrev pub clli_fields : ContentLightLevelBox → List Field
clli_fields x = Field.u16 x.max_content_light_level ∷ Field.u16 x.max_pic_average_light_level ∷ []

pub clli-IsCodec : (x : ContentLightLevelBox) → All IsField (clli_fields x) → IsCodec clli_codec x
clli-IsCodec x h = record {
  payload = wires (clli_fields x);
  counted = rw (length-wires (clli_fields x)) refl;
  writes = Writes-all (clli_fields x) h;
  reads = λ n.
      rw
        (
          Reads-u16 x.max_content_light_level h.0 n _,
          Reads-u16 x.max_pic_average_light_level h.1.0 n _,
        )
        refl;
}

abbrev pub amve_fields : AmbientViewingEnvironmentBox → List Field
amve_fields x =
    Field.u32 x.ambient_illuminance ∷ Field.u16 x.ambient_light_x ∷ Field.u16 x.ambient_light_y ∷ []

pub amve-IsCodec :
    (x : AmbientViewingEnvironmentBox) → All IsField (amve_fields x) → IsCodec amve_codec x
amve-IsCodec x h = record {
  payload = wires (amve_fields x);
  counted = rw (length-wires (amve_fields x)) refl;
  writes = Writes-all (amve_fields x) h;
  reads = λ n.
      rw
        (
          Reads-u32 x.ambient_illuminance h.0 n _,
          Reads-u16 x.ambient_light_x h.1.0 n _,
          Reads-u16 x.ambient_light_y h.1.1.0 n _,
        )
        refl;
}

abbrev pub clap_fields : CleanApertureBox → List Field
clap_fields x =
    Field.i32 x.clean_aperture_width_n
    ∷ Field.i32 x.clean_aperture_width_d
    ∷ Field.i32 x.clean_aperture_height_n
    ∷ Field.i32 x.clean_aperture_height_d
    ∷ Field.i32 x.horiz_off_n
    ∷ Field.i32 x.horiz_off_d
    ∷ Field.i32 x.vert_off_n
    ∷ Field.i32 x.vert_off_d
    ∷ []

pub clap-IsCodec : (x : CleanApertureBox) → All IsField (clap_fields x) → IsCodec clap_codec x
clap-IsCodec x h = record {
  payload = wires (clap_fields x);
  counted = rw (length-wires (clap_fields x)) refl;
  writes = Writes-all (clap_fields x) h;
  reads = λ n.
      rw
        (
          Reads-i32 x.clean_aperture_width_n h.0 n _,
          Reads-i32 x.clean_aperture_width_d h.1.0 n _,
          Reads-i32 x.clean_aperture_height_n h.1.1.0 n _,
          Reads-i32 x.clean_aperture_height_d h.1.1.1.0 n _,
          Reads-i32 x.horiz_off_n h.1.1.1.1.0 n _,
          Reads-i32 x.horiz_off_d h.1.1.1.1.1.0 n _,
          Reads-i32 x.vert_off_n h.1.1.1.1.1.1.0 n _,
          Reads-i32 x.vert_off_d h.1.1.1.1.1.1.1.0 n _,
        )
        refl;
}

abbrev pub mfro_fields : MovieFragmentRandomAccessOffsetBox → List Field
mfro_fields x = Field.bytes (to_bytes (header_of 0)) ∷ Field.u32 x.parent_size ∷ []

pub mfro-IsCodec :
    (x : MovieFragmentRandomAccessOffsetBox) → All IsField (mfro_fields x) → IsCodec mfro_codec x
unfolding write_version_zero write_header
mfro-IsCodec x h = record {
  payload = wires (mfro_fields x);
  counted = rw (length-wires (mfro_fields x), length-to_bytes (header_of 0)) refl;
  writes = Writes-all (mfro_fields x) h;
  reads = λ n. rw (Reads-version_zero n _, Reads-u32 x.parent_size h.1.0 n _) refl;
}

abbrev pub srat_fields : SamplingRateBox → List Field
srat_fields x = Field.bytes (to_bytes (header_of 0)) ∷ Field.u32 x.sampling_rate ∷ []

pub srat-IsCodec : (x : SamplingRateBox) → All IsField (srat_fields x) → IsCodec srat_codec x
unfolding write_version_zero write_header
srat-IsCodec x h = record {
  payload = wires (srat_fields x);
  counted = rw (length-wires (srat_fields x), length-to_bytes (header_of 0)) refl;
  writes = Writes-all (srat_fields x) h;
  reads = λ n. rw (Reads-version_zero n _, Reads-u32 x.sampling_rate h.1.0 n _) refl;
}
