-- ===== src/Boxes/Counted/RoundTrip.antt =====
-- The boxes of a table, written and read back.
use isobmff_rs.Common.{
  ℕ, ◌≡◌, ◌+◌, ◌*◌, ◌<◌, ◌^◌, List, [], ◌∷◌, ◌++◌, length, refl, arith, All, length-append,
  append_assoc,
}
use isobmff_rs.Common.Bytes.{to_be_bytes, length-to_be_bytes}
use isobmff_rs.Common.Words.{saturating_add, IsU16, IsU32, IsU64}
use isobmff_rs.Common.Result.{◌>>=◌}
use isobmff_rs.Core.BoxType.{BoxType}
use isobmff_rs.Core.FullBox.{to_bytes}
use isobmff_rs.Core.FullBox.RoundTrip.{length-to_bytes}
use isobmff_rs.Core.Field.Kinds.{Field, IsField}
use isobmff_rs.Core.Field.RoundTrip.{wires}
use isobmff_rs.Core.Codec.Actions.{Writes-seq, Reads-seq, ReadsAll-seq, Reads-ReadsAll}
use isobmff_rs.Core.Codec.Fields.{
  length-wires, Writes-all, Writes-u16, Writes-u32, Writes-u64, Reads-u16, Reads-u32, Reads-u64,
}
use isobmff_rs.Core.Codec.RoundTrip.{IsCodec}
use isobmff_rs.Boxes.FullBox.{read_version_zero, write_version_zero}
use isobmff_rs.Boxes.FullBox.RoundTrip.{header_of, Reads-version_zero, Writes-version_zero}
use isobmff_rs.Boxes.Table.{
  TableEntry, u16_entry, u32_entry, u64_entry, entries_len, counted_len, read_counted,
  write_counted, read_to_end, write_entries,
}
use isobmff_rs.Boxes.Table.RoundTrip.{
  IsEntry, IsTable, entry_bytes, counted_bytes, Reads-counted, Writes-counted, Writes-entries,
  ReadsAll-to_end, entries_len_lem, length-entry_bytes,
}
use isobmff_rs.Boxes.Counted.{
  TimeToSampleEntry, SampleToChunkEntry, time_to_sample_entry, sample_to_chunk_entry, counted_codec,
  uncounted_codec,
}

module _ {A : Type 0} (box_type : BoxType) (e : TableEntry A) (wire : A → List ℕ) (xs : List A)
    (t : IsTable e wire xs) where
  abbrev counted_payload : List ℕ
  counted_payload = to_bytes (header_of 0) ++ counted_bytes e wire xs t

  counted_len_lem :
      length xs * e.encoded_len + 8 < 2 ^ 64
      → saturating_add (counted_len e xs) 4 ≡ length counted_payload
  counted_len_lem fits =
      rw
        (
          entries_len_lem e wire xs t,
          length-append (to_bytes (header_of 0)) (counted_bytes e wire xs t),
          length-append (to_be_bytes 4 (length xs)) (entry_bytes wire xs),
          length-to_bytes (header_of 0),
          length-to_be_bytes 4 (length xs),
          length-entry_bytes e wire xs t.entries,
        )
        (omega (arith, fits))

  abbrev uncounted_payload : List ℕ
  uncounted_payload = to_bytes (header_of 0) ++ entry_bytes wire xs

  uncounted_len_lem :
      length xs * e.encoded_len + 8 < 2 ^ 64
      → saturating_add (entries_len e xs) 4 ≡ length uncounted_payload
  uncounted_len_lem fits =
      rw
        (
          entries_len_lem e wire xs t,
          length-append (to_bytes (header_of 0)) (entry_bytes wire xs),
          length-to_bytes (header_of 0),
          length-entry_bytes e wire xs t.entries,
        )
        (omega (arith, fits))

  pub counted-IsCodec :
      length xs * e.encoded_len + 8 < 2 ^ 64 → IsCodec (counted_codec box_type e) xs
  counted-IsCodec fits = record {
    payload = counted_payload;
    counted = counted_len_lem fits;
    writes =
        Writes-seq (λ w. write_version_zero w) (λ w. write_counted e w xs) _ _ Writes-version_zero
          (Writes-counted e wire xs t);
    reads =
        Reads-ReadsAll (λ r. read_version_zero r >>= λ p. read_counted e p.1) xs counted_payload
          (Reads-seq read_version_zero (λ _ r. read_counted e r) _ xs _ _ Reads-version_zero
            (Reads-counted e wire xs t));
  }

  pub uncounted-IsCodec :
      length xs * e.encoded_len + 8 < 2 ^ 64 → IsCodec (uncounted_codec box_type e) xs
  uncounted-IsCodec fits = record {
    payload = uncounted_payload;
    counted = uncounted_len_lem fits;
    writes =
        Writes-seq (λ w. write_version_zero w) (λ w. write_entries e w xs) _ _ Writes-version_zero
          (Writes-entries e wire xs t.entries);
    reads =
        ReadsAll-seq read_version_zero (λ _ r. read_to_end e r) _ xs _ _ Reads-version_zero
          (ReadsAll-to_end e wire xs t);
  }

-- The fields of the entries, and the entries in range.
abbrev pub time_to_sample_fields : TimeToSampleEntry → List Field
time_to_sample_fields x = Field.u32 x.sample_count ∷ Field.u32 x.sample_delta ∷ []

abbrev pub IsTimeToSample : TimeToSampleEntry → Type 0
IsTimeToSample x = All IsField (time_to_sample_fields x)

pub time_to_sample-IsEntry :
    (x : TimeToSampleEntry)
    → IsTimeToSample x
    → IsEntry time_to_sample_entry (λ y. wires (time_to_sample_fields y)) x
time_to_sample-IsEntry x (hc, (hd, _)) = record {
  sized = length-wires (time_to_sample_fields x);
  writes = Writes-all (time_to_sample_fields x) (hc, (hd, tt));
  reads = λ n tail.
      rw
        (
          append_assoc,
          append_assoc,
          Reads-u32 x.sample_count hc n _,
          Reads-u32 x.sample_delta hd n tail,
        )
        refl;
}

abbrev pub sample_to_chunk_fields : SampleToChunkEntry → List Field
sample_to_chunk_fields x =
    Field.u32 x.first_chunk
    ∷ Field.u32 x.samples_per_chunk
    ∷ Field.u32 x.sample_description_index
    ∷ []

abbrev pub IsSampleToChunk : SampleToChunkEntry → Type 0
IsSampleToChunk x = All IsField (sample_to_chunk_fields x)

pub sample_to_chunk-IsEntry :
    (x : SampleToChunkEntry)
    → IsSampleToChunk x
    → IsEntry sample_to_chunk_entry (λ y. wires (sample_to_chunk_fields y)) x
sample_to_chunk-IsEntry x (hf, (hs, (hi, _))) = record {
  sized = length-wires (sample_to_chunk_fields x);
  writes = Writes-all (sample_to_chunk_fields x) (hf, (hs, (hi, tt)));
  reads = λ n tail.
      rw
        (
          append_assoc,
          append_assoc,
          append_assoc,
          Reads-u32 x.first_chunk hf n _,
          Reads-u32 x.samples_per_chunk hs n _,
          Reads-u32 x.sample_description_index hi n tail,
        )
        refl;
}

pub u16-IsEntry : (n : ℕ) → IsU16 n → IsEntry u16_entry (to_be_bytes 2) n
u16-IsEntry n h = record {
  sized = length-to_be_bytes 2 n;
  writes = Writes-u16 n h;
  reads = Reads-u16 n h;
}

pub u32-IsEntry : (n : ℕ) → IsU32 n → IsEntry u32_entry (to_be_bytes 4) n
u32-IsEntry n h = record {
  sized = length-to_be_bytes 4 n;
  writes = Writes-u32 n h;
  reads = Reads-u32 n h;
}

pub u64-IsEntry : (n : ℕ) → IsU64 n → IsEntry u64_entry (to_be_bytes 8) n
u64-IsEntry n h = record {
  sized = length-to_be_bytes 8 n;
  writes = Writes-u64 n h;
  reads = Reads-u64 n h;
}
