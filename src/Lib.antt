-- ===== src/Lib.antt =====
-- A model of isobmff-rs, a library that reads and writes the boxes of the ISO base media file format.
--
-- The program has five crates. crates/isobmff-core has the format's framing: box types and sizes, the
-- box header, boxes split off an input, the cursors over the fields of a payload, and the errors.
-- crates/isobmff-boxes has the box types themselves. crates/isobmff reads and writes files made of
-- boxes: its framing passes boxes from and to a file event by event, on which its readers and writers
-- of structure data and media data stand. crates/isobmff-mux puts tracks together and takes them
-- apart. crates/isobmff-test-support serves tests.
--
-- Core models crates/isobmff-core/src:
--   Core/FourCc, Core/BoxType: data_types/fourcc.rs, data_types/uuid.rs and framing/box_type.rs.
--   Core/BoxSize: framing/box_size.rs (`CompactSize::new` is `compact_size`, `ExtendedSize::new` is
--     `extended_size`).
--   Core/BoxHeader: framing/box_header.rs. `decode` is `BoxHeader::decode`, its steps functions of
--     their own; `encode` answers with the front of the buffer as it is written and what is left.
--   Core/RawBox: framing/raw_box.rs, `split_first` and the iterator `Boxes`.
--   Core/Field: codec/field.rs, `FieldReader` and `FieldWriter`.
--   Core/Error: error.rs.
--   Core/Codec: codec/box_definition.rs, codec/box_encode.rs and codec/box_decode.rs, the three traits of
--     a box type as the record `BoxCodec`; Core/Codec/Actions and Core/Codec/Fields have the actions on
--     cursors that codecs are proved with.
--   Core/FullBox: data_types/full_box.rs.
--   Core/Container: container.rs and codec/box_variants.rs. `Reader` is what reads a child, of one type
--     or of variants; a call answers with the children that it leaves.
-- Boxes models crates/isobmff-boxes/src:
--   Boxes/FullBox: full_box.rs; Boxes/Table: table.rs, the trait `TableEntry` as a record.
--   Boxes/Counted, Boxes/Samples, Boxes/Timing, Boxes/Numbers, Boxes/HintStatistics, Boxes/Types and
--     Boxes/Headers: the box types, grouped by their fields; `stts_codec` has the trait implementations
--     of `TimeToSampleBox` in stts.rs, and so on.
--   Boxes/Kinds: the box types together, each with its values and its codec.
-- Framing models crates/isobmff/src/framing and what it answers with:
--   Framing/Range: byte_range.rs, output.rs and convert.rs; Framing/ReadError and Framing/WriteError:
--     error/read.rs, error/write.rs and error/timeline.rs; Framing/BoxEvent: framing/box_event.rs.
--   Framing/BoxWriter: framing/box_writer.rs. A call answers with the writer as it leaves it.
--     `write_box`, in BoxWriter/Values, takes the codec of the value's type.
--   Framing/BoxReader: framing/box_reader.rs, its state in BoxReader, the calls that offer input in
--     BoxReader/Reading, the answers to an open box in BoxReader/Answers.
--   Framing/Reserved: framing/reserved.rs; `encoded` is a buffer as `BoxHeader::encode` leaves it.
-- Timeline models crates/isobmff/src/timeline.rs, of which Timeline/Multiples has the search for the pass
-- over an edit list in which an edit lasts one tick longer.
-- The framing uses the core through `BoxHeader::decode`, `BoxHeader::encode` and `RawBox::split_first`,
-- and the codecs through `BoxCodec`; containers use `RawBox` and the codecs.
--
-- How the model stands to the code:
--   Bytes are numbers, and `All IsByte` says that they are below 256. An array `[u8; N]` is a list,
--   whose length is a field of a validity predicate (IsHeader, IsWriter). Numbers are natural numbers;
--   where the code saturates or checks, so does the model, at the width of the code. A `usize` has 64
--   bits. Signed fields are integers that are read from their two's complement.
--   A buffer that is written into is the list of what is written and the list of what is left of it.
--   A method that changes its object answers with the object that it leaves; one that fails answers
--   with an error, and with the object beside it where the object could have changed. The writes of
--   fields are modelled as they stand in the code, behind `?`, which gives up a cursor whose call
--   failed: `write_slice` is `write_slice_call`, which has the cursor of a failed call too, behind `?`.
--   A call that can panic answers with an option, `none` where it does: `vec![0; n]` is `zeroed n`, and
--   there is none past `isize::MAX`.
--   A header that the constructors of the code give is one with IsHeader.
--
-- Loops: `boxes` runs on as much fuel as the input has bytes, since every box takes eight bytes at
-- least; `read_header` runs on one more than the input has bytes, since every turn of its loop takes a
-- byte or returns.
--
-- `first_multiple_in_range` runs on one more than its step, since the step falls with every turn.
--
-- Not modelled: formatting of errors and names for people; memory that is reserved ahead and not
-- state; the other box types of crates/isobmff-boxes, among them the containers and the boxes of
-- strings; in crates/isobmff the readers and writers of structure data and media data, compressed boxes
-- and the rest of the timeline; crates/isobmff-mux.
pub mod Common
pub mod Core
pub mod Boxes
pub mod Framing
pub mod Timeline
