-- ===== src/Boxes/Timing/RoundTrip.antt =====
-- The boxes of times and numbers, written and read back.
use isobmff_rs.Common.{◌+◌, List, [], ◌∷◌, refl, arith, All}
use isobmff_rs.Core.FullBox.{FullBoxHeader, IsFlags, to_bytes}
use isobmff_rs.Core.FullBox.RoundTrip.{length-to_bytes}
use isobmff_rs.Core.Field.{FieldWidth}
use isobmff_rs.Core.Field.Kinds.{Field, IsField}
use isobmff_rs.Core.Field.RoundTrip.{wires}
use isobmff_rs.Core.Codec.Fields.{
  length-wires, Writes-all, Reads-u32, Reads-u64, Reads-unsigned, Reads-signed,
}
use isobmff_rs.Core.Codec.RoundTrip.{IsCodec}
use isobmff_rs.Boxes.FullBox.{write_version_zero, write_header}
use isobmff_rs.Boxes.FullBox.RoundTrip.{
  header_of, header_of-IsFullBoxHeader, Reads-version_zero, Reads-header, IsVersion, width_at,
  version_width_lem, len_lem, len_zero_lem,
}
use isobmff_rs.Boxes.Timing.{
  MovieFragmentHeaderBox, mfhd_codec, MovieExtendsHeaderBox, mehd_codec,
  TrackFragmentBaseMediaDecodeTimeBox, tfdt_codec, ProducerReferenceTimeBox, prft_codec,
  CompositionToDecodeBox, cslg_codec,
}

-- The fields of each box, and the values whose fields are in range.
abbrev pub mfhd_fields : MovieFragmentHeaderBox → List Field
mfhd_fields x = Field.bytes (to_bytes (header_of 0)) ∷ Field.u32 x.sequence_number ∷ []

pub mfhd-IsCodec : (x : MovieFragmentHeaderBox) → All IsField (mfhd_fields x) → IsCodec mfhd_codec x
unfolding write_version_zero write_header
mfhd-IsCodec x h = record {
  payload = wires (mfhd_fields x);
  counted = rw (length-wires (mfhd_fields x), length-to_bytes (header_of 0)) refl;
  writes = Writes-all (mfhd_fields x) h;
  reads = λ n. rw (Reads-version_zero n _, Reads-u32 x.sequence_number h.1.0 n _) refl;
}

abbrev pub mehd_fields : MovieExtendsHeaderBox → List Field
mehd_fields x =
    Field.bytes (to_bytes (header_of x.version))
    ∷ Field.unsigned (width_at x.version) x.fragment_duration
    ∷ []

pub mehd-IsCodec :
    (x : MovieExtendsHeaderBox)
    → IsVersion x.version
    → All IsField (mehd_fields x)
    → IsCodec mehd_codec x
unfolding write_header
mehd-IsCodec x v h = record {
  payload = wires (mehd_fields x);
  counted =
      rw (length-wires (mehd_fields x), length-to_bytes (header_of x.version))
        (len_lem x.version 8 12 (λ n. 4 + (n + 0)) v refl refl);
  writes = rw (version_width_lem x.version v) (Writes-all (mehd_fields x) h);
  reads = λ n.
      rw
        (
          Reads-header (header_of x.version) (header_of-IsFullBoxHeader x.version (omega arith)) n
              _,
          version_width_lem x.version v,
          Reads-unsigned (width_at x.version) x.fragment_duration h.1.0 n _,
        )
        refl;
}

abbrev pub tfdt_fields : TrackFragmentBaseMediaDecodeTimeBox → List Field
tfdt_fields x =
    Field.bytes (to_bytes (header_of x.version))
    ∷ Field.unsigned (width_at x.version) x.base_media_decode_time
    ∷ []

pub tfdt-IsCodec :
    (x : TrackFragmentBaseMediaDecodeTimeBox)
    → IsVersion x.version
    → All IsField (tfdt_fields x)
    → IsCodec tfdt_codec x
unfolding write_header
tfdt-IsCodec x v h = record {
  payload = wires (tfdt_fields x);
  counted =
      rw (length-wires (tfdt_fields x), length-to_bytes (header_of x.version))
        (len_lem x.version 8 12 (λ n. 4 + (n + 0)) v refl refl);
  writes = rw (version_width_lem x.version v) (Writes-all (tfdt_fields x) h);
  reads = λ n.
      rw
        (
          Reads-header (header_of x.version) (header_of-IsFullBoxHeader x.version (omega arith)) n
              _,
          version_width_lem x.version v,
          Reads-unsigned (width_at x.version) x.base_media_decode_time h.1.0 n _,
        )
        refl;
}

abbrev pub prft_fields : ProducerReferenceTimeBox → List Field
prft_fields x =
    Field.bytes (to_bytes (record { version = x.version; flags = x.flags }))
    ∷ Field.u32 x.reference_track_id
    ∷ Field.u64 x.ntp_timestamp
    ∷ Field.unsigned (width_at x.version) x.media_time
    ∷ []

pub prft-IsCodec :
    (x : ProducerReferenceTimeBox)
    → IsVersion x.version
    → IsFlags x.flags
    → All IsField (prft_fields x)
    → IsCodec prft_codec x
unfolding write_header
prft-IsCodec x v f h =
    let header : FullBoxHeader = record { version = x.version; flags = x.flags } in
    record {
      payload = wires (prft_fields x);
      counted =
          rw (length-wires (prft_fields x), length-to_bytes header)
            (len_lem x.version 20 24 (λ n. 4 + (4 + (8 + (n + 0)))) v refl refl);
      writes = rw (version_width_lem x.version v) (Writes-all (prft_fields x) h);
      reads = λ n.
          rw
            (
              Reads-header header (record { versioned = omega arith; flagged = f }) n _,
              version_width_lem x.version v,
              Reads-u32 x.reference_track_id h.1.0 n _,
              Reads-u64 x.ntp_timestamp h.1.1.0 n _,
              Reads-unsigned (width_at x.version) x.media_time h.1.1.1.0 n _,
            )
            refl;
    }

abbrev pub cslg_fields : CompositionToDecodeBox → List Field
cslg_fields x =
    Field.bytes (to_bytes (header_of x.version))
    ∷ Field.signed (width_at x.version) x.composition_to_dts_shift
    ∷ Field.signed (width_at x.version) x.least_decode_to_display_delta
    ∷ Field.signed (width_at x.version) x.greatest_decode_to_display_delta
    ∷ Field.signed (width_at x.version) x.composition_start_time
    ∷ Field.signed (width_at x.version) x.composition_end_time
    ∷ []

pub cslg-IsCodec :
    (x : CompositionToDecodeBox)
    → IsVersion x.version
    → All IsField (cslg_fields x)
    → IsCodec cslg_codec x
unfolding write_header
cslg-IsCodec x v h =
    let width : FieldWidth = width_at x.version in
    record {
      payload = wires (cslg_fields x);
      counted =
          rw (length-wires (cslg_fields x), length-to_bytes (header_of x.version))
            (len_zero_lem x.version 24 44 (λ n. 4 + (n + (n + (n + (n + (n + 0)))))) v refl refl);
      writes = rw (version_width_lem x.version v) (Writes-all (cslg_fields x) h);
      reads = λ n.
          rw
            (
              Reads-header (header_of x.version) (header_of-IsFullBoxHeader x.version (omega arith))
                  n _,
              version_width_lem x.version v,
              Reads-signed width x.composition_to_dts_shift h.1.0 n _,
              Reads-signed width x.least_decode_to_display_delta h.1.1.0 n _,
              Reads-signed width x.greatest_decode_to_display_delta h.1.1.1.0 n _,
              Reads-signed width x.composition_start_time h.1.1.1.1.0 n _,
              Reads-signed width x.composition_end_time h.1.1.1.1.1.0 n _,
            )
            refl;
    }
