-- ===== src/Boxes/Samples/Edits.antt =====
-- Edit lists, written and read back.
use isobmff_rs.Common.{
  ℕ, ◌≡◌, ◌+◌, ◌*◌, ◌<◌, ◌^◌, if◌then◌else◌, Bool, true, false, List, [], ◌∷◌, ◌++◌, length, refl,
  sym, ap, ◌∙◌, arith, All, length-append, append_assoc,
}
use isobmff_rs.Common.Bytes.{to_be_bytes, to_be_onto, length-to_be_bytes}
use isobmff_rs.Core.FullBox.{FullBoxHeader, to_bytes, IsFullBoxHeader}
use isobmff_rs.Core.Field.{FieldWidth, write_slice}
use isobmff_rs.Core.Field.Kinds.{Field, IsField}
use isobmff_rs.Core.Field.RoundTrip.{wires}
use isobmff_rs.Core.Codec.Actions.{at, Reads, Writes-bytes, Writes-seq, Reads-ReadsAll}
use isobmff_rs.Core.Codec.Fields.{
  length-wires, Writes-all, Reads-u32, Reads-i16, Reads-unsigned, Reads-signed,
}
use isobmff_rs.Core.Codec.RoundTrip.{IsCodec}
use isobmff_rs.Boxes.FullBox.{read_header}
use isobmff_rs.Boxes.FullBox.RoundTrip.{
  Reads-header, IsVersion, width_at, version_width_lem, len_lem,
}
use isobmff_rs.Boxes.Table.{read_entries, write_entry_count, write_counted}
use isobmff_rs.Boxes.Table.RoundTrip.{
  IsEntry, IsTable, entry_bytes, counted_bytes, Writes-counted, Reads-entries, entries_len_lem,
  length-entry_bytes,
}
use isobmff_rs.Boxes.Samples.{
  EditListEntry, EditListBox, edit_entry, entry_len, elst_codec, repeat_mask, has_flag, low_byte,
}

-- The fields of an edit at a width.
abbrev pub edit_fields : FieldWidth → EditListEntry → List Field
edit_fields width x =
    Field.unsigned width x.edit_duration
    ∷ Field.signed width x.media_time
    ∷ Field.i16 x.media_rate_integer
    ∷ Field.i16 x.media_rate_fraction
    ∷ []

abbrev pub edit_bytes : FieldWidth → EditListEntry → List ℕ
edit_bytes width x = wires (edit_fields width x)

-- An edit whose fields are in range in the version.
abbrev pub IsEdit : ℕ → EditListEntry → Type 0
IsEdit version x = All IsField (edit_fields (width_at version) x)

pub edit-IsEntry :
    (version : ℕ) (x : EditListEntry)
    → IsVersion version
    → IsEdit version x
    → IsEntry (edit_entry version (width_at version)) (edit_bytes (width_at version)) x
edit-IsEntry version x v h =
    let width : FieldWidth = width_at version in
    record {
      sized =
          length-wires (edit_fields width x)
          ∙ sym (len_lem version 12 20 (λ n. n + (n + (2 + (2 + 0)))) v refl refl);
      writes = Writes-all (edit_fields width x) h;
      reads = λ n tail.
          rw
            (
              append_assoc,
              append_assoc,
              append_assoc,
              append_assoc,
              Reads-unsigned width x.edit_duration h.0 n _,
              Reads-signed width x.media_time h.1.0 n _,
              Reads-i16 x.media_rate_integer h.1.1.0 n _,
              Reads-i16 x.media_rate_fraction h.1.1.1.0 n tail,
            )
            refl;
    }

-- The header of an edit list, and its bytes as they are written.
abbrev flags_of : Bool → ℕ
flags_of repeat = if repeat then repeat_mask else 0

abbrev edit_header : ℕ → Bool → FullBoxHeader
edit_header version repeat = record { version = version; flags = record { bits = flags_of repeat } }

abbrev head_bytes : ℕ → Bool → List ℕ
head_bytes version repeat = version ∷ 0 ∷ 0 ∷ flags_of repeat ∷ []

head_bytes_lem :
    (version : ℕ) (repeat : Bool)
    → head_bytes version repeat ≡ to_bytes (edit_header version repeat)
unfolding to_bytes to_be_bytes to_be_onto
head_bytes_lem version true = refl
head_bytes_lem version false = refl

edit_header-IsFullBoxHeader :
    (version : ℕ) (repeat : Bool) → IsVersion version → IsFullBoxHeader (edit_header version repeat)
edit_header-IsFullBoxHeader version true v = record {
  versioned = omega arith;
  flagged = omega arith;
}
edit_header-IsFullBoxHeader version false v = record {
  versioned = omega arith;
  flagged = omega arith;
}

Reads-head :
    (version : ℕ) (repeat : Bool)
    → IsVersion version
    → Reads read_header (edit_header version repeat) (head_bytes version repeat)
Reads-head version repeat v n tail =
    ap (λ (l : List ℕ). read_header (at n (l ++ tail))) (head_bytes_lem version repeat)
    ∙ Reads-header (edit_header version repeat) (edit_header-IsFullBoxHeader version repeat v) n
        tail

has_flag_lem :
    (version : ℕ) (repeat : Bool)
    → has_flag (low_byte (edit_header version repeat).flags) repeat_mask ≡ repeat
has_flag_lem version true = refl
has_flag_lem version false = refl

pub record IsEditList (x : EditListBox) : Type 0 where
  pub versioned : IsVersion x.version
  pub tabled :
      IsTable
        (edit_entry x.version (width_at x.version))
        (edit_bytes (width_at x.version))
        x.entries

module _ (x : EditListBox) (h : IsEditList x) where
  abbrev edits_of : List ℕ
  edits_of =
      counted_bytes (edit_entry x.version (width_at x.version)) (edit_bytes (width_at x.version))
        x.entries h.tabled

  abbrev elst_payload : List ℕ
  elst_payload = head_bytes x.version x.repeat_edits ++ edits_of

  pub elst-IsCodec : length x.entries * entry_len x.version + 8 < 2 ^ 64 → IsCodec elst_codec x
  unfolding write_counted write_entry_count
  elst-IsCodec fits =
      let e = edit_entry x.version (width_at x.version) in
      let bytes = edit_bytes (width_at x.version) in
      record {
        payload = elst_payload;
        counted =
            rw
              (
                entries_len_lem e bytes x.entries h.tabled,
                length-append (to_be_bytes 4 (length x.entries)) (entry_bytes bytes x.entries),
                length-to_be_bytes 4 (length x.entries),
                length-entry_bytes e bytes x.entries h.tabled.entries,
              )
              (omega (arith, fits));
        writes = rw (version_width_lem x.version h.versioned) (
            Writes-seq (λ w. write_slice w (head_bytes x.version x.repeat_edits))
              (λ w. write_counted e w x.entries) _ _
              (Writes-bytes (head_bytes x.version x.repeat_edits))
              (Writes-counted e bytes x.entries h.tabled));
        reads = λ n.
            rw
              (
                Reads-head x.version x.repeat_edits h.versioned n _,
                version_width_lem x.version h.versioned,
                Reads-u32 (length x.entries) h.tabled.counted n _,
                Reads-ReadsAll (λ r. read_entries r (length x.entries) e.encoded_len e.read)
                    x.entries _ (Reads-entries e bytes x.entries h.tabled) n,
                has_flag_lem x.version x.repeat_edits,
              )
              refl;
      }
