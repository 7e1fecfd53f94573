-- ===== src/Boxes/Counted.antt =====
-- crates/isobmff-boxes/src: the boxes of a table that a count goes before (stts.rs, stsc.rs, stss.rs,
-- chunk_offset/stco.rs, chunk_offset/co64.rs) or that runs to the end of the payload (stdp.rs).
pub mod RoundTrip
use isobmff_rs.Common.{ℕ, List, [], ◌∷◌, ◌++◌}
use isobmff_rs.Common.Words.{saturating_add}
use isobmff_rs.Common.Result.{Result, ok, ◌>>=◌}
use isobmff_rs.Core.Error.{Error}
use isobmff_rs.Core.BoxType.{BoxType}
use isobmff_rs.Core.Field.{FieldReader, FieldWriter, read_u32, write_u32}
use isobmff_rs.Core.Codec.{BoxCodec}
use isobmff_rs.Boxes.FullBox.{read_version_zero, write_version_zero}
use isobmff_rs.Boxes.Table.{
  TableEntry, u16_entry, u32_entry, u64_entry, counted_len, entries_len, read_counted,
  write_counted, read_to_end, write_entries,
}

-- `BoxType::compact` of four bytes that are not `uuid`
abbrev pub compact : ℕ → ℕ → ℕ → ℕ → BoxType
compact a b c d = BoxType.compact (record { four_cc = record { bytes = a ∷ b ∷ c ∷ d ∷ [] } })

pub record TimeToSampleEntry : Type 0 where
  pub sample_count : ℕ
  pub sample_delta : ℕ

abbrev pub read_time_to_sample : FieldReader → Result Error (TimeToSampleEntry × FieldReader)
read_time_to_sample r = do
  (sample_count, r) ← read_u32 r
  (sample_delta, r) ← read_u32 r
  ok (record { sample_count = sample_count; sample_delta = sample_delta }, r)

abbrev pub write_time_to_sample : TimeToSampleEntry → FieldWriter → Result Error FieldWriter
write_time_to_sample entry w = do w ← write_u32 w entry.sample_count; write_u32 w entry.sample_delta

abbrev pub time_to_sample_entry : TableEntry TimeToSampleEntry
time_to_sample_entry = record {
  encoded_len = 8;
  read = read_time_to_sample;
  write = write_time_to_sample;
}

pub record SampleToChunkEntry : Type 0 where
  pub first_chunk : ℕ
  pub samples_per_chunk : ℕ
  pub sample_description_index : ℕ

abbrev pub read_sample_to_chunk : FieldReader → Result Error (SampleToChunkEntry × FieldReader)
read_sample_to_chunk r = do
  (first_chunk, r) ← read_u32 r
  (samples_per_chunk, r) ← read_u32 r
  (sample_description_index, r) ← read_u32 r
  ok (
    record {
      first_chunk = first_chunk;
      samples_per_chunk = samples_per_chunk;
      sample_description_index = sample_description_index;
    },
    r,
  )

abbrev pub write_sample_to_chunk : SampleToChunkEntry → FieldWriter → Result Error FieldWriter
write_sample_to_chunk entry w = do
  w ← write_u32 w entry.first_chunk
  w ← write_u32 w entry.samples_per_chunk
  write_u32 w entry.sample_description_index

abbrev pub sample_to_chunk_entry : TableEntry SampleToChunkEntry
sample_to_chunk_entry = record {
  encoded_len = 12;
  read = read_sample_to_chunk;
  write = write_sample_to_chunk;
}

-- The codec that these boxes share, of a box that is its entries.
module _ {A : Type 0} (box_type : BoxType) (e : TableEntry A) where
  abbrev pub counted_fields : FieldReader → Result Error (List A × FieldReader)
  counted_fields r = do (_, r) ← read_version_zero r; read_counted e r

  abbrev pub counted_codec : BoxCodec (List A)
  counted_codec = record {
    box_type = box_type;
    payload_len = λ entries. saturating_add (counted_len e entries) 4;
    encode_fields = λ entries w. write_version_zero w >>= λ w'. write_counted e w' entries;
    decode_fields = counted_fields;
  }

  abbrev pub uncounted_codec : BoxCodec (List A)
  uncounted_codec = record {
    box_type = box_type;
    payload_len = λ entries. saturating_add (entries_len e entries) 4;
    encode_fields = λ entries w. write_version_zero w >>= λ w'. write_entries e w' entries;
    decode_fields = λ r. read_version_zero r >>= λ p. read_to_end e p.1;
  }

-- `TimeToSampleBox`
abbrev pub stts_codec : BoxCodec (List TimeToSampleEntry)
stts_codec = counted_codec (compact b's' b't' b't' b's') time_to_sample_entry

-- `SampleToChunkBox`
abbrev pub stsc_codec : BoxCodec (List SampleToChunkEntry)
stsc_codec = counted_codec (compact b's' b't' b's' b'c') sample_to_chunk_entry

-- `ChunkOffsetBox`
abbrev pub stco_codec : BoxCodec (List ℕ)
stco_codec = counted_codec (compact b's' b't' b'c' b'o') u32_entry

-- `ChunkLargeOffsetBox`
abbrev pub co64_codec : BoxCodec (List ℕ)
co64_codec = counted_codec (compact b'c' b'o' b'6' b'4') u64_entry

-- `SyncSampleBox`
abbrev pub stss_codec : BoxCodec (List ℕ)
stss_codec = counted_codec (compact b's' b't' b's' b's') u32_entry

-- `DegradationPriorityBox`
abbrev pub stdp_codec : BoxCodec (List ℕ)
stdp_codec = uncounted_codec (compact b's' b't' b'd' b'p') u16_entry
