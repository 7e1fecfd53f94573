-- ===== src/Boxes/HintStatistics.antt =====
-- crates/isobmff-boxes/src/hint_statistics.rs: the boxes of one number, which is the value of the box.
pub mod RoundTrip
use isobmff_rs.Common.{ℕ}
use isobmff_rs.Common.Int.{ℤ}
use isobmff_rs.Core.BoxType.{BoxType}
use isobmff_rs.Core.Field.{read_u32, read_u64, read_i32, write_u32, write_u64, write_i32}
use isobmff_rs.Core.Codec.{BoxCodec}
use isobmff_rs.Boxes.Counted.{compact}

-- The trait implementations that the boxes of a number of the same width share
abbrev pub u32_codec : BoxType → BoxCodec ℕ
u32_codec t = record {
  box_type = t;
  payload_len = λ x. 4;
  encode_fields = λ x w. write_u32 w x;
  decode_fields = read_u32;
}

abbrev pub u64_codec : BoxType → BoxCodec ℕ
u64_codec t = record {
  box_type = t;
  payload_len = λ x. 8;
  encode_fields = λ x w. write_u64 w x;
  decode_fields = read_u64;
}

abbrev pub i32_codec : BoxType → BoxCodec ℤ
i32_codec t = record {
  box_type = t;
  payload_len = λ x. 4;
  encode_fields = λ x w. write_i32 w x;
  decode_fields = read_i32;
}

-- `HintBytesSent64Box`
abbrev pub trpy_codec : BoxCodec ℕ
trpy_codec = u64_codec (compact b't' b'r' b'p' b'y')

-- `HintPacketsSent64Box`
abbrev pub nump_codec : BoxCodec ℕ
nump_codec = u64_codec (compact b'n' b'u' b'm' b'p')

-- `HintPayloadBytesSent64Box`
abbrev pub tpyl_codec : BoxCodec ℕ
tpyl_codec = u64_codec (compact b't' b'p' b'y' b'l')

-- `HintBytesSentBox`
abbrev pub totl_codec : BoxCodec ℕ
totl_codec = u32_codec (compact b't' b'o' b't' b'l')

-- `HintPacketsSentBox`
abbrev pub npck_codec : BoxCodec ℕ
npck_codec = u32_codec (compact b'n' b'p' b'c' b'k')

-- `HintPayloadBytesSentBox`
abbrev pub tpay_codec : BoxCodec ℕ
tpay_codec = u32_codec (compact b't' b'p' b'a' b'y')

-- `HintMediaBytesSentBox`
abbrev pub dmed_codec : BoxCodec ℕ
dmed_codec = u64_codec (compact b'd' b'm' b'e' b'd')

-- `HintImmediateBytesSentBox`
abbrev pub dimm_codec : BoxCodec ℕ
dimm_codec = u64_codec (compact b'd' b'i' b'm' b'm')

-- `HintRepeatedBytesSentBox`
abbrev pub drep_codec : BoxCodec ℕ
drep_codec = u64_codec (compact b'd' b'r' b'e' b'p')

-- `HintMinRelativeTimeBox`
abbrev pub tmin_codec : BoxCodec ℤ
tmin_codec = i32_codec (compact b't' b'm' b'i' b'n')

-- `HintMaxRelativeTimeBox`
abbrev pub tmax_codec : BoxCodec ℤ
tmax_codec = i32_codec (compact b't' b'm' b'a' b'x')

-- `HintLargestPacketBox`
abbrev pub pmax_codec : BoxCodec ℕ
pmax_codec = u32_codec (compact b'p' b'm' b'a' b'x')

-- `HintLongestPacketBox`
abbrev pub dmax_codec : BoxCodec ℕ
dmax_codec = u32_codec (compact b'd' b'm' b'a' b'x')
