-- ===== src/Boxes/Timing.antt =====
-- crates/isobmff-boxes/src: boxes of times and numbers (mfhd.rs, mehd.rs, tfdt.rs, prft.rs, cslg.rs).
pub mod RoundTrip
use isobmff_rs.Common.{ℕ, ◌==◌, if◌then◌else◌}
use isobmff_rs.Common.Int.{ℤ}
use isobmff_rs.Common.Result.{Result, ok, ◌>>=◌}
use isobmff_rs.Core.Error.{Error}
use isobmff_rs.Core.Field.{
  FieldReader, FieldWriter, read_u32, read_u64, read_unsigned, read_signed, write_u32, write_u64,
  write_unsigned, write_signed,
}
use isobmff_rs.Core.FullBox.{FullBoxFlags, no_flags}
use isobmff_rs.Core.Codec.{BoxCodec}
use isobmff_rs.Boxes.FullBox.{
  read_header, write_header, read_version_zero, write_version_zero, version_width,
}
use isobmff_rs.Boxes.Counted.{compact}

pub record MovieFragmentHeaderBox : Type 0 where
  pub sequence_number : ℕ

abbrev pub mfhd_decode : FieldReader → Result Error (MovieFragmentHeaderBox × FieldReader)
mfhd_decode r = do
  (_, r) ← read_version_zero r
  (sequence_number, r) ← read_u32 r
  ok (record { sequence_number = sequence_number }, r)

abbrev pub mfhd_encode : MovieFragmentHeaderBox → FieldWriter → Result Error FieldWriter
mfhd_encode x w = do w ← write_version_zero w; write_u32 w x.sequence_number

abbrev pub mfhd_codec : BoxCodec MovieFragmentHeaderBox
mfhd_codec = record {
  box_type = compact b'm' b'f' b'h' b'd';
  payload_len = λ x. 8;
  encode_fields = mfhd_encode;
  decode_fields = mfhd_decode;
}

pub record MovieExtendsHeaderBox : Type 0 where
  pub version : ℕ
  pub fragment_duration : ℕ

abbrev pub mehd_decode : FieldReader → Result Error (MovieExtendsHeaderBox × FieldReader)
mehd_decode r = do
  (header, r) ← read_header r
  width ← version_width header.version
  (fragment_duration, r) ← read_unsigned r width
  ok (record { version = header.version; fragment_duration = fragment_duration }, r)

abbrev pub mehd_encode : MovieExtendsHeaderBox → FieldWriter → Result Error FieldWriter
mehd_encode x w = do
  width ← version_width x.version
  w ← write_header w (record { version = x.version; flags = no_flags })
  write_unsigned w width x.fragment_duration

abbrev pub mehd_codec : BoxCodec MovieExtendsHeaderBox
mehd_codec = record {
  box_type = compact b'm' b'e' b'h' b'd';
  payload_len = λ x. if x.version == 1 then 12 else 8;
  encode_fields = mehd_encode;
  decode_fields = mehd_decode;
}

pub record TrackFragmentBaseMediaDecodeTimeBox : Type 0 where
  pub version : ℕ
  pub base_media_decode_time : ℕ

abbrev pub tfdt_decode :
    FieldReader → Result Error (TrackFragmentBaseMediaDecodeTimeBox × FieldReader)
tfdt_decode r = do
  (header, r) ← read_header r
  width ← version_width header.version
  (base_media_decode_time, r) ← read_unsigned r width
  ok (record { version = header.version; base_media_decode_time = base_media_decode_time }, r)

abbrev pub tfdt_encode :
    TrackFragmentBaseMediaDecodeTimeBox → FieldWriter → Result Error FieldWriter
tfdt_encode x w = do
  width ← version_width x.version
  w ← write_header w (record { version = x.version; flags = no_flags })
  write_unsigned w width x.base_media_decode_time

abbrev pub tfdt_codec : BoxCodec TrackFragmentBaseMediaDecodeTimeBox
tfdt_codec = record {
  box_type = compact b't' b'f' b'd' b't';
  payload_len = λ x. if x.version == 1 then 12 else 8;
  encode_fields = tfdt_encode;
  decode_fields = tfdt_decode;
}

pub record ProducerReferenceTimeBox : Type 0 where
  pub version : ℕ
  pub flags : FullBoxFlags
  pub reference_track_id : ℕ
  pub ntp_timestamp : ℕ
  pub media_time : ℕ

abbrev pub prft_decode : FieldReader → Result Error (ProducerReferenceTimeBox × FieldReader)
prft_decode r = do
  (header, r) ← read_header r
  width ← version_width header.version
  (reference_track_id, r) ← read_u32 r
  (ntp_timestamp, r) ← read_u64 r
  (media_time, r) ← read_unsigned r width
  ok (
    record {
      version = header.version;
      flags = header.flags;
      reference_track_id = reference_track_id;
      ntp_timestamp = ntp_timestamp;
      media_time = media_time;
    },
    r,
  )

abbrev pub prft_encode : ProducerReferenceTimeBox → FieldWriter → Result Error FieldWriter
prft_encode x w = do
  width ← version_width x.version
  w ← write_header w (record { version = x.version; flags = x.flags })
  w ← write_u32 w x.reference_track_id
  w ← write_u64 w x.ntp_timestamp
  write_unsigned w width x.media_time

abbrev pub prft_codec : BoxCodec ProducerReferenceTimeBox
prft_codec = record {
  box_type = compact b'p' b'r' b'f' b't';
  payload_len = λ x. if x.version == 1 then 24 else 20;
  encode_fields = prft_encode;
  decode_fields = prft_decode;
}

pub record CompositionToDecodeBox : Type 0 where
  pub version : ℕ
  pub composition_to_dts_shift : ℤ
  pub least_decode_to_display_delta : ℤ
  pub greatest_decode_to_display_delta : ℤ
  pub composition_start_time : ℤ
  pub composition_end_time : ℤ

abbrev pub cslg_decode : FieldReader → Result Error (CompositionToDecodeBox × FieldReader)
cslg_decode r = do
  (header, r) ← read_header r
  width ← version_width header.version
  (shift, r) ← read_signed r width
  (least, r) ← read_signed r width
  (greatest, r) ← read_signed r width
  (start, r) ← read_signed r width
  (finish, r) ← read_signed r width
  ok (
    record {
      version = header.version;
      composition_to_dts_shift = shift;
      least_decode_to_display_delta = least;
      greatest_decode_to_display_delta = greatest;
      composition_start_time = start;
      composition_end_time = finish;
    },
    r,
  )

abbrev pub cslg_encode : CompositionToDecodeBox → FieldWriter → Result Error FieldWriter
cslg_encode x w = do
  width ← version_width x.version
  w ← write_header w (record { version = x.version; flags = no_flags })
  w ← write_signed w width x.composition_to_dts_shift
  w ← write_signed w width x.least_decode_to_display_delta
  w ← write_signed w width x.greatest_decode_to_display_delta
  w ← write_signed w width x.composition_start_time
  write_signed w width x.composition_end_time

abbrev pub cslg_codec : BoxCodec CompositionToDecodeBox
cslg_codec = record {
  box_type = compact b'c' b's' b'l' b'g';
  payload_len = λ x. if x.version == 0 then 24 else 44;
  encode_fields = cslg_encode;
  decode_fields = cslg_decode;
}
