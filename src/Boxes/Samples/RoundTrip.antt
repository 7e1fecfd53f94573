-- ===== src/Boxes/Samples/RoundTrip.antt =====
-- Composition offsets, sample sizes and edit lists, written and read back.
use isobmff_rs.Common.{
  ℕ, zero, suc, ◌≡◌, ◌+◌, ◌*◌, ◌<◌, ◌^◌, ltb, false, List, [], ◌∷◌, ◌++◌, length, refl, arith,
  length-append, le→ltb, append_assoc,
}
use isobmff_rs.Common.Int.{ℤ, pos, negsuc}
use isobmff_rs.Common.Words.{IsU32}
use isobmff_rs.Common.Bytes.{to_be_bytes, length-to_be_bytes}
use isobmff_rs.Common.Result.{ok}
use isobmff_rs.Core.FullBox.{to_bytes}
use isobmff_rs.Core.FullBox.RoundTrip.{length-to_bytes}
use isobmff_rs.Core.Field.{write_u32}
use isobmff_rs.Core.Field.Kinds.{Field}
use isobmff_rs.Core.Field.RoundTrip.{wires}
use isobmff_rs.Core.Codec.Actions.{at, Writes-seq, Reads-ReadsAll}
use isobmff_rs.Core.Codec.Fields.{length-wires, Writes-all, Writes-u32, Reads-u32}
use isobmff_rs.Core.Codec.RoundTrip.{IsCodec}
use isobmff_rs.Boxes.FullBox.{write_header, write_version_zero, write_composition_offset}
use isobmff_rs.Boxes.FullBox.RoundTrip.{
  header_of, header_of-IsFullBoxHeader, Reads-version_zero, Writes-version_zero, Reads-header,
  Writes-header, IsVersion, IsOffset, offset_bytes, Reads-offset, Writes-offset,
}
use isobmff_rs.Boxes.Table.{u32_entry, read_fixed_entries, write_counted, read_counted}
use isobmff_rs.Boxes.Table.RoundTrip.{
  IsEntry, IsTable, entry_bytes, counted_bytes, Reads-counted, Writes-counted, fixed_lem,
  entries_len_lem, length-entry_bytes,
}
use isobmff_rs.Boxes.Samples.{
  CompositionOffsetEntry, CompositionOffsetBox, composition_entry, ctts_codec, SampleSizes,
  constant, table, stsz_codec, write_sample_sizes, read_sample_sizes,
}

length-offset_bytes :
    (version : ℕ) (offset : ℤ) → IsOffset version offset → length (offset_bytes version offset) ≡ 4
length-offset_bytes zero (pos n) h = length-to_be_bytes 4 n
length-offset_bytes zero (negsuc n) h = absurd h
length-offset_bytes (suc version) offset h = length-to_be_bytes 4 _

-- An entry of a version, and its bytes.
abbrev pub composition_bytes : ℕ → CompositionOffsetEntry → List ℕ
composition_bytes version x = to_be_bytes 4 x.sample_count ++ offset_bytes version x.sample_offset

pub record IsComposition (version : ℕ) (x : CompositionOffsetEntry) : Type 0 where
  pub count : IsU32 x.sample_count
  pub offset : IsOffset version x.sample_offset

pub composition-IsEntry :
    (version : ℕ) (x : CompositionOffsetEntry)
    → IsComposition version x
    → IsEntry (composition_entry version) (composition_bytes version) x
composition-IsEntry version x h = record {
  sized = omega (
    arith,
    length-append (to_be_bytes 4 x.sample_count) (offset_bytes version x.sample_offset),
    length-to_be_bytes 4 x.sample_count,
    length-offset_bytes version x.sample_offset h.offset,
  );
  writes =
      Writes-seq (λ w. write_u32 w x.sample_count)
        (λ w. write_composition_offset w version x.sample_offset) _ _
        (Writes-u32 x.sample_count h.count) (Writes-offset version x.sample_offset h.offset);
  reads = λ n tail.
      rw
        (
          append_assoc,
          Reads-u32 x.sample_count h.count n _,
          Reads-offset version x.sample_offset h.offset n tail,
        )
        refl;
}

pub record IsCompositionOffset (x : CompositionOffsetBox) : Type 0 where
  pub versioned : IsVersion x.version
  pub tabled : IsTable (composition_entry x.version) (composition_bytes x.version) x.entries

module _ (x : CompositionOffsetBox) (h : IsCompositionOffset x) where
  abbrev entries_of : List ℕ
  entries_of =
      counted_bytes (composition_entry x.version) (composition_bytes x.version) x.entries h.tabled

  abbrev ctts_payload : List ℕ
  ctts_payload = to_bytes (header_of x.version) ++ entries_of

  ctts_version : ltb 1 x.version ≡ false
  ctts_version = le→ltb 1 x.version h.versioned

  pub ctts-IsCodec : length x.entries * 8 + 8 < 2 ^ 64 → IsCodec ctts_codec x
  unfolding write_header write_counted
  ctts-IsCodec fits =
      let e = composition_entry x.version in
      let bytes = composition_bytes x.version in
      record {
        payload = ctts_payload;
        counted =
            rw
              (
                entries_len_lem e bytes x.entries h.tabled,
                length-append (to_bytes (header_of x.version)) entries_of,
                length-append (to_be_bytes 4 (length x.entries)) (entry_bytes bytes x.entries),
                length-to_bytes (header_of x.version),
                length-to_be_bytes 4 (length x.entries),
                length-entry_bytes e bytes x.entries h.tabled.entries,
              )
              (omega (arith, fits));
        writes = rw ctts_version (
            Writes-seq (λ w. write_header w (header_of x.version))
              (λ w. write_counted e w x.entries) _ _ (Writes-header (header_of x.version))
              (Writes-counted e bytes x.entries h.tabled));
        reads = λ n.
            rw
              (
                Reads-header (header_of x.version)
                    (header_of-IsFullBoxHeader x.version (omega (arith, h.versioned))) n _,
                ctts_version,
                Reads-u32 (length x.entries) h.tabled.counted n _,
                Reads-ReadsAll (λ r. read_fixed_entries r (length x.entries) 8 e.read) x.entries _
                    (fixed_lem e bytes x.entries h.tabled) n,
              )
              refl;
      }

-- A constant size that is not 0, and a count; or a table of sizes.
abbrev pub IsSampleSizes : SampleSizes → Type 0
IsSampleSizes (constant sample_size sample_count) =
    (0 < sample_size) × (IsU32 sample_size × IsU32 sample_count)
IsSampleSizes (table entry_sizes) = IsTable u32_entry (to_be_bytes 4) entry_sizes

abbrev constant_fields : ℕ → ℕ → List Field
constant_fields sample_size sample_count =
    Field.bytes (to_bytes (header_of 0)) ∷ Field.u32 sample_size ∷ Field.u32 sample_count ∷ []

constant_read :
    (sample_size sample_count n : ℕ)
    → 0 < sample_size
    → IsU32 sample_count
    → read_sample_sizes sample_size (at n (to_be_bytes 4 sample_count ++ []))
      ≡ ok (constant sample_size sample_count, at n [])
constant_read zero sample_count n above h = absurd (omega arith)
constant_read (suc k) sample_count n above h = rw (Reads-u32 sample_count h n []) refl

pub stsz-IsCodec : (x : SampleSizes) → IsSampleSizes x → IsCodec stsz_codec x
unfolding write_version_zero write_header
stsz-IsCodec (constant sample_size sample_count) (above, (hs, hc)) = record {
  payload = wires (constant_fields sample_size sample_count);
  counted =
      rw (length-wires (constant_fields sample_size sample_count), length-to_bytes (header_of 0))
        refl;
  writes = Writes-all (constant_fields sample_size sample_count) (tt, (hs, (hc, tt)));
  reads = λ n.
      rw
        (
          Reads-version_zero n _,
          Reads-u32 sample_size hs n _,
          constant_read sample_size sample_count n above hc,
        )
        refl;
}
stsz-IsCodec (table entry_sizes) t =
    let tabled : List ℕ = counted_bytes u32_entry (to_be_bytes 4) entry_sizes t in
    record {
      payload = to_bytes (header_of 0) ++ (to_be_bytes 4 0 ++ tabled);
      counted =
          rw
            (
              entries_len_lem u32_entry (to_be_bytes 4) entry_sizes t,
              length-append (to_bytes (header_of 0)) (to_be_bytes 4 0 ++ tabled),
              length-append (to_be_bytes 4 0) tabled,
              length-append (to_be_bytes 4 (length entry_sizes))
                  (entry_bytes (to_be_bytes 4) entry_sizes),
              length-to_bytes (header_of 0),
              length-to_be_bytes 4 0,
              length-to_be_bytes 4 (length entry_sizes),
              length-entry_bytes u32_entry (to_be_bytes 4) entry_sizes t.entries,
            )
            (omega (arith, t.counted));
      writes =
          Writes-seq (λ w. write_version_zero w) (λ w. write_sample_sizes (table entry_sizes) w) _ _
            Writes-version_zero
            (Writes-seq (λ w. write_u32 w 0) (λ w. write_counted u32_entry w entry_sizes) _ _
              (Writes-u32 0 (omega arith))
              (Writes-counted u32_entry (to_be_bytes 4) entry_sizes t));
      reads = λ n.
          rw
            (
              Reads-version_zero n _,
              Reads-u32 0 (omega arith) n _,
              Reads-ReadsAll (λ r. read_counted u32_entry r) entry_sizes _
                  (Reads-counted u32_entry (to_be_bytes 4) entry_sizes t) n,
            )
            refl;
    }
