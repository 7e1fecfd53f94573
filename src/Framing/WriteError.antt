-- ===== src/Framing/WriteError.antt =====
-- crates/isobmff/src/error/write.rs and timeline.rs: why a file is not written.
use isobmff_rs.Common.{ℕ, Option}
use isobmff_rs.Common.Int.{ℤ}
use isobmff_rs.Core.BoxType.{BoxType}
use isobmff_rs.Core.Error.{Error}
use isobmff_rs.Framing.BoxEvent.{BoxEventKind}

pub data TimelineError : Type 0 where
  unknown_track_id : ℕ → TimelineError
  invalid_media_time : ℕ → ℤ → TimelineError
  missing_movie_timescale : ℕ → TimelineError

-- The fields of each stand in the order of the source.
pub data WriteError : Type 0 where
  payload_length_mismatch : BoxType → ℕ → ℕ → WriteError
  unexpected_event : BoxEventKind → BoxEventKind → WriteError
  unfinished_box : BoxType → ℕ → ℕ → WriteError
  past_end_of_file : BoxType → WriteError
  already_finished : WriteError
  segment_index_count_mismatch : ℕ → ℕ → WriteError
  reserved_space_mismatch : Option ℕ → ℕ → WriteError
  sample_table_not_empty : ℕ → BoxType → WriteError
  unknown_track_id : ℕ → WriteError
  unknown_sample_description_index : ℕ → ℕ → WriteError
  unknown_data_reference_index : ℕ → ℕ → WriteError
  external_data_reference : ℕ → ℕ → WriteError
  unsupported_data_reference : ℕ → ℕ → WriteError
  mixed_sample_descriptions : ℕ → WriteError
  decoding_time_mismatch : ℕ → ℕ → ℕ → WriteError
  sample_size_out_of_range : ℕ → ℕ → WriteError
  data_offset_out_of_range : ℕ → WriteError
  media_time_out_of_range : ℕ → ℤ → ℕ → WriteError
  timeline : TimelineError → WriteError
  segment_index_out_of_range : ℕ → WriteError
  box : Error → WriteError
