-- ===== src/Framing/ReadError.antt =====
-- crates/isobmff/src/error/read.rs: why a file is not read.
use isobmff_rs.Common.{ℕ}
use isobmff_rs.Core.BoxType.{BoxType}
use isobmff_rs.Core.Error.{Error}
use isobmff_rs.Framing.Range.{ByteRange}

-- The fields of each stand in the order of the source.
pub data ReadError : Type 0 where
  unwanted_input : ℕ → ByteRange → ReadError
  undecided_box : BoxType → ReadError
  no_open_box : ReadError
  payload_limit_exceeded : BoxType → ℕ → ℕ → ReadError
  unfinished_header : ℕ → ℕ → ReadError
  unfinished_box : BoxType → ℕ → ℕ → ReadError
  duplicate_box : BoxType → ReadError
  sample_count_limit_exceeded : ℕ → ℕ → ReadError
  sample_table_mismatch : ℕ → BoxType → ReadError
  unknown_sample_description_index : ℕ → ℕ → ReadError
  unknown_data_reference_index : ℕ → ℕ → ReadError
  unsupported_data_reference : ℕ → ℕ → ReadError
  missing_movie : ReadError
  unknown_track_id : ℕ → ReadError
  missing_track_extends : ℕ → ReadError
  missing_decoding_time : ℕ → ReadError
  data_offset_out_of_range : ℕ → ReadError
  decoding_time_overflow : ℕ → ReadError
  leniency_count_limit_exceeded : ℕ → ℕ → ReadError
  identified_media_data_count_limit_exceeded : ℕ → ℕ → ReadError
  unresolved_sample_count_limit_exceeded : ℕ → ℕ → ReadError
  duplicate_identified_media_data : ℕ → ReadError
  unresolved_identified_media_data : ℕ → ReadError
  unreadable_compressed_data : BoxType → ReadError
  compressed_box_with_movie_fragment_random_access : BoxType → ReadError
  compressed_box_before_located_sample : BoxType → ReadError
  compressed_box_count_limit_exceeded : ℕ → ℕ → ReadError
  data_offset_past_skipped_compressed_boxes : ℕ → ReadError
  segment_index_count_limit_exceeded : ℕ → ℕ → ReadError
  subsegment_count_limit_exceeded : ℕ → ℕ → ReadError
  segment_index_out_of_range : ℕ → ReadError
  held_location_limit_exceeded : ℕ → ℕ → ReadError
  sample_bytes_limit_exceeded : ℕ → ℕ → ReadError
  held_bytes_limit_exceeded : ℕ → ℕ → ReadError
  unfinished_sample : ℕ → ℕ → ℕ → ReadError
  box : Error → ReadError
