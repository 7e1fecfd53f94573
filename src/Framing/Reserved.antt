-- ===== src/Framing/Reserved.antt =====
-- crates/isobmff/src/framing/reserved.rs: space reserved in a file, and what is put in it.
pub mod Spaces
pub mod Placeholder
mod Examples
use isobmff_rs.Common.{
  ℕ, ◌-◌, Bool, true, false, Option, none, some, List, [], ◌∷◌, ◌++◌, length, take, drop, replicate,
  ltb, ◌==◌, if◌then◌else◌,
}
use isobmff_rs.Common.Words.{checked_add, checked_sub, saturating_add, saturating_sub, u64_max}
use isobmff_rs.Common.Result.{
  Result, ok, err, ok_or, map_err, and_then, unwrap_or, to_option, ◌>>=◌,
}
use isobmff_rs.Core.BoxType.{BoxType}
use isobmff_rs.Core.BoxSize.{BoxSize, extended_size}
use isobmff_rs.Core.BoxHeader
use isobmff_rs.Core.BoxHeader.{BoxHeader, encoded_len, with_payload_len}
use isobmff_rs.Framing.Range.{ByteRange, Output, to_u64}
use isobmff_rs.Common.Words.{usize_try_from, zeroed}
use isobmff_rs.Framing.BoxEvent.{BoxEvent}
use isobmff_rs.Framing.BoxReader.{get_from}
use isobmff_rs.Framing.BoxWriter.{BoxWriter, Call, on_ok, handle_event}
use isobmff_rs.Framing.WriteError.{WriteError}

abbrev pub free_header_bytes : ℕ
free_header_bytes = 8

abbrev pub free_type : BoxType
free_type = BoxType.compact (record { four_cc = record { bytes = b'f' ∷ b'r' ∷ b'e' ∷ b'e' ∷ [] } })

abbrev pub media_data_type : BoxType
media_data_type =
    BoxType.compact (record { four_cc = record { bytes = b'm' ∷ b'd' ∷ b'a' ∷ b't' ∷ [] } })

-- The buffer as `encode` leaves it.
abbrev pub encoded : BoxHeader → List ℕ → Result WriteError (List ℕ)
encoded header buffer = do
  (front, rest) ← map_err (λ e. WriteError.box e) (BoxHeader.encode header buffer)
  ok (front ++ rest)

-- The header and the length of the space, before its buffer is allocated.
reserved_header : ℕ → Result WriteError (BoxHeader × ℕ)
reserved_header total_bytes = do
  let mismatch = WriteError.reserved_space_mismatch (some total_bytes) 0
  payload_len ← ok_or (checked_sub total_bytes free_header_bytes) mismatch
  header ← ok_or (with_payload_len free_type payload_len) mismatch
  buffer_len ← ok_or (usize_try_from total_bytes) mismatch
  ok (header, buffer_len)

reserved_bytes : Result WriteError (BoxHeader × ℕ) → Option (Result WriteError (List ℕ))
reserved_bytes (err e) = some (err e)
reserved_bytes (ok (header, buffer_len)) =
    and_then (zeroed buffer_len) (λ buffer. some (encoded header buffer))

-- `reserve`: what it returns, and `none` where it panics
unfoldable pub reserve : ℕ → Option (Result WriteError (List ℕ))
unfolding reserved_header reserved_bytes
reserve total_bytes = reserved_bytes (reserved_header total_bytes)

-- The events of the reserved box, which is in place already: the writer only counts it.
write_events : BoxWriter → BoxHeader → List ℕ → Call (Unit {0})
write_events w header bytes =
    let payload =
      unwrap_or (get_from bytes (unwrap_or (usize_try_from (encoded_len header)) u64_max)) [] in
    on_ok (handle_event w (BoxEvent.header header)) (λ w _.
      on_ok (handle_event w (BoxEvent.payload payload))
        (λ w _. on_ok (handle_event w BoxEvent.end) (λ w _. (w, ok tt))))

-- The bytes and the header of `write_reserved`, before its events.
reserved_box : ℕ → Result WriteError (List ℕ) → Result WriteError (List ℕ × BoxHeader)
reserved_box total_bytes reserved = do
  bytes ← reserved
  header ←
      ok_or (with_payload_len free_type (saturating_sub total_bytes free_header_bytes))
        (WriteError.reserved_space_mismatch (some total_bytes) 0)
  ok (bytes, header)

write_box_of : BoxWriter → Result WriteError (List ℕ × BoxHeader) → Call Output
unfolding write_events
write_box_of w (err e) = (w, err e)
write_box_of w (ok (bytes, header)) =
    on_ok (write_events w header bytes)
      (λ moved _. (moved, ok (record { offset = w.next_offset; bytes = bytes })))

-- `BoxWriter::write_reserved`, and `none` where it panics
unfoldable pub write_reserved : BoxWriter → ℕ → Option (Call Output)
unfolding write_box_of reserved_box
write_reserved w total_bytes =
    and_then (reserve total_bytes)
      (λ reserved. some (write_box_of w (reserved_box total_bytes reserved)))

-- The `free` header over the rest of the space, where there is a rest.
abbrev pub fill_rest : ByteRange → List ℕ → WriteError → ℕ → Result WriteError (List Output)
fill_rest reserved bytes mismatch rest = do
  let offered_bytes = to_u64 (length bytes)
  header ←
      ok_or (and_then (checked_sub rest free_header_bytes) (with_payload_len free_type)) mismatch
  free ← encoded header (replicate 8 0)
  ok (
      record { offset = reserved.offset; bytes = bytes }
      ∷ record { offset = saturating_add reserved.offset offered_bytes; bytes = free }
      ∷ [])

-- `fill`
unfoldable pub fill : ByteRange → List ℕ → Result WriteError (List Output)
fill reserved bytes = do
  let offered_bytes = to_u64 (length bytes)
  let mismatch = WriteError.reserved_space_mismatch reserved.length offered_bytes
  rest ← ok_or (and_then reserved.length (λ length. checked_sub length offered_bytes)) mismatch
  (if rest == 0
      then ok (record { offset = reserved.offset; bytes = bytes } ∷ [])
      else fill_rest reserved bytes mismatch rest)

-- A buffer that a header is written into, where it can be.
abbrev pub buffer_of : BoxHeader → List ℕ → Option (List ℕ)
buffer_of header buffer =
    and_then (to_option (BoxHeader.encode header buffer)) (λ (front, rest). some (front ++ rest))

-- `filter(|header| matches!(header.size(), BoxSize::Compact(_)))`
abbrev pub if_compact : BoxHeader → Option BoxHeader
if_compact header = elim (header.size) [ BoxSize.compact _ ↦ some header | _ ↦ none ]

-- The 16 bytes of `media_data_header`, by whether a compact header holds the payload.
placeholder_bytes : ℕ → Option BoxHeader → Option (List ℕ)
unfolding BoxHeader.new extended_size
placeholder_bytes payload_len (some header) =
    and_then (with_payload_len free_type 0) (λ free_header.
      and_then (buffer_of free_header (replicate 8 0)) (λ free.
        and_then (buffer_of header (replicate 8 0)) (λ media_data. some (free ++ media_data))))
placeholder_bytes payload_len none = and_then (checked_add payload_len 16) (λ total_bytes.
    and_then (extended_size total_bytes) (λ size.
      and_then (BoxHeader.new media_data_type (BoxSize.extended size))
        (λ header. buffer_of header (replicate 16 0))))

-- `media_data_header`
unfoldable pub media_data_header : ℕ → ℕ → Option Output
unfolding placeholder_bytes
media_data_header placeholder_offset payload_len =
    let compact = and_then (with_payload_len media_data_type payload_len) if_compact in
    and_then (placeholder_bytes payload_len compact)
      (λ bytes. some (record { offset = placeholder_offset; bytes = bytes }))
