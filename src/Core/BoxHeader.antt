-- ===== src/Core/BoxHeader.antt =====
-- crates/isobmff-core/src/framing/box_header.rs: the header that opens every box.
pub mod Fields
pub mod Decoding
pub mod Truncation
pub mod RoundTrip
pub mod Payload
pub mod Prefix
mod Examples
use isobmff_rs.Common.{
  ℕ, ◌≡◌, ◌+◌, ◌≤◌, ◌<◌, Bool, true, false, Option, none, some, List, [], ◌∷◌, ◌++◌,
}
use isobmff_rs.Common.{length, ltb, ◌==◌, if◌then◌else◌, split_at_checked}
use isobmff_rs.Common.Bytes.{from_be_bytes, to_be_bytes}
use isobmff_rs.Common.Words.{checked_add, checked_sub, u32_try_from}
use isobmff_rs.Common.Result.{Result, ok, err, ◌>>=◌, ok_or, and_then, or_else, unwrap_or}
use isobmff_rs.Core.FourCc.{FourCc, Uuid}
use isobmff_rs.Core.BoxType
use isobmff_rs.Core.BoxType.{BoxType, CompactType, ExtendedType}
use isobmff_rs.Core.BoxType.{compact_type, extended_type, as_found, four_cc, IsBoxType}
use isobmff_rs.Core.BoxSize
use isobmff_rs.Core.BoxSize.{BoxSize, CompactSize, ExtendedSize}
use isobmff_rs.Core.BoxSize.{compact_size, extended_size, total_bytes, IsBoxSize}
use isobmff_rs.Core.Error.{Error, error, truncated_header, size_below_header, invalid_value}
use isobmff_rs.Core.Error.{truncated_buffer}

abbrev pub extended_size_marker : ℕ
extended_size_marker = 1

abbrev pub to_end_of_file_marker : ℕ
to_end_of_file_marker = 0

abbrev pub header_length : Bool → Bool → ℕ
header_length false false = 8
header_length true false = 16
header_length false true = 24
header_length true true = 32

pub record BoxHeader : Type 0 where
  pub box_type : BoxType
  pub size : BoxSize

-- `matches!(size, BoxSize::Extended(_))`
abbrev pub has_large_size : BoxSize → Bool
has_large_size (BoxSize.compact _) = false
has_large_size (BoxSize.extended _) = true
has_large_size BoxSize.to_end_of_file = false

-- `matches!(box_type, BoxType::Extended(_))`
abbrev pub has_extended_type : BoxType → Bool
has_extended_type (BoxType.compact _) = false
has_extended_type (BoxType.extended _) = true

abbrev pub encoded_len : BoxHeader → ℕ
encoded_len h = header_length (has_large_size h.size) (has_extended_type h.box_type)

abbrev pub covers : BoxHeader → Option ℕ → Option BoxHeader
covers header none = some header
covers header (some total) = if ltb total (encoded_len header) then none else some header

-- `BoxHeader::new`
unfoldable pub new : BoxType → BoxSize → Option BoxHeader
new box_type size =
    let header : BoxHeader = record { box_type = box_type; size = size } in
    covers header (total_bytes size)

unfoldable pub with_payload_len : BoxType → ℕ → Option BoxHeader
unfolding compact_size extended_size
with_payload_len box_type payload_len =
    let compact =
      and_then
        (and_then (checked_add payload_len (header_length false (has_extended_type box_type)))
          u32_try_from)
        compact_size in
    let extended =
      and_then (checked_add payload_len (header_length true (has_extended_type box_type)))
        extended_size in
    and_then
      (or_else (and_then compact (λ s. some (BoxSize.compact s)))
        (and_then extended (λ s. some (BoxSize.extended s))))
      (λ size. some (record { box_type = box_type; size = size }))

unfoldable pub payload_len : BoxHeader → Option ℕ
payload_len h = and_then (total_bytes h.size) (λ total. checked_sub total (encoded_len h))

-- The `largesize` field, which stands where the `size` field holds its marker.
pub take_large_size : ℕ → ℕ → ℕ → List ℕ → Result Error (Option ℕ × List ℕ)
take_large_size declared header_bytes available rest =
    if declared == extended_size_marker
    then (do
      (large_size_field, rest) ←
          ok_or (split_at_checked 8 rest) (error (truncated_header header_bytes available))
      ok (some (from_be_bytes large_size_field), rest))
    else ok (none, rest)

-- The `extended_type` field, which stands where the `boxtype` field holds its marker.
pub take_box_type : Option CompactType → ℕ → ℕ → List ℕ → Result Error (BoxType × List ℕ)
take_box_type (some compact) header_bytes available rest = ok (BoxType.compact compact, rest)
take_box_type none header_bytes available rest = do
  (extended_type_field, rest) ←
      ok_or (split_at_checked 16 rest) (error (truncated_header header_bytes available))
  ok (BoxType.extended (as_found (record { bytes = extended_type_field })), rest)

pub declared_size : ℕ → Option ℕ → Option BoxSize
unfolding compact_size extended_size
declared_size declared (some large_size) =
    and_then (extended_size large_size) (λ s. some (BoxSize.extended s))
declared_size declared none =
    if declared == to_end_of_file_marker
    then some BoxSize.to_end_of_file
    else and_then (compact_size declared) (λ s. some (BoxSize.compact s))

-- The compact type that the `boxtype` field names, `none` for the marker.
abbrev pub type_of : List ℕ → Option CompactType
type_of type_field = compact_type (record { bytes = type_field })

abbrev pub is_none {ℓ} : {A : Type ℓ} → Option A → Bool
is_none none = true
is_none (some _) = false

-- The header of the type and the declared total, if it covers itself.
pub checked_header : ℕ → Option ℕ → BoxType → ℕ → Result Error BoxHeader
unfolding declared_size new
checked_header declared large_size box_type header_bytes =
    ok_or (and_then (declared_size declared large_size) (new box_type))
      (error (size_below_header header_bytes (unwrap_or large_size declared)))

-- What `decode` does once the `size` and `boxtype` fields are split off.
pub decode_rest : ℕ → Option CompactType → ℕ → List ℕ → Result Error (BoxHeader × List ℕ)
unfolding take_large_size take_box_type checked_header
decode_rest declared compact available rest = do
  let header_bytes = header_length (declared == extended_size_marker) (is_none compact)
  (large_size, rest) ← take_large_size declared header_bytes available rest
  (box_type, rest) ← take_box_type compact header_bytes available rest
  header ← checked_header declared large_size box_type header_bytes
  ok (header, rest)

-- `BoxHeader::decode`: the header and the bytes after it
unfoldable pub decode : List ℕ → Result Error (BoxHeader × List ℕ)
unfolding decode_rest compact_type
decode input = do
  let available = length input
  (size_field, rest) ←
      ok_or (split_at_checked 4 input)
        (error (truncated_header (header_length false false) available))
  (type_field, rest) ←
      ok_or (split_at_checked 4 rest)
        (error (truncated_header (header_length false false) available))
  decode_rest (from_be_bytes size_field) (type_of type_field) available rest

-- `for (slot, byte) in slots.iter_mut().zip(fields) { *slot = byte }`
abbrev pub overwrite : List ℕ → List ℕ → List ℕ
overwrite [] fields = []
overwrite (slot ∷ slots) [] = slot ∷ slots
overwrite (slot ∷ slots) (byte ∷ fields) = byte ∷ overwrite slots fields

-- The UUID that goes into the `extended_type` field, which is never a reserved one.
abbrev pub writable_type : BoxType → Result Error (Option Uuid)
writable_type (BoxType.compact _) = ok none
writable_type (BoxType.extended e) = elim (extended_type e.uuid) [
  | none ↦ err (error (invalid_value "extended_type"))
  | some _ ↦ ok (some e.uuid)
]

-- The `size` field and the `largesize` field.
abbrev pub size_fields : BoxSize → ℕ × Option ℕ
size_fields BoxSize.to_end_of_file = (to_end_of_file_marker, none)
size_fields (BoxSize.compact size) = (size.get, none)
size_fields (BoxSize.extended size) = (extended_size_marker, some size.get)

abbrev pub large_size_bytes : Option ℕ → List ℕ
large_size_bytes none = []
large_size_bytes (some n) = to_be_bytes 8 n

abbrev pub uuid_bytes : Option Uuid → List ℕ
uuid_bytes none = []
uuid_bytes (some uuid) = uuid.bytes

-- The fields in wire order.
abbrev pub field_bytes : BoxHeader → Option Uuid → List ℕ
field_bytes h extended_type =
    to_be_bytes 4 (size_fields h.size).0
    ++ ((four_cc h.box_type).bytes
        ++ (large_size_bytes (size_fields h.size).1 ++ uuid_bytes extended_type))

-- `BoxHeader::encode`: the front of the buffer as it is written, and what is left of the buffer
unfoldable pub encode : BoxHeader → List ℕ → Result Error (List ℕ × List ℕ)
unfolding extended_type
encode h buffer = do
  extended_type ← writable_type h.box_type
  (header, rest) ←
      ok_or (split_at_checked (encoded_len h) buffer)
        (error (truncated_buffer (encoded_len h) (length buffer)))
  ok (overwrite header (field_bytes h extended_type), rest)

-- The declared total, if there is one, covers the header.
abbrev pub Covered : BoxHeader → Option ℕ → Type 0
Covered h none = Unit
Covered h (some total) = encoded_len h ≤ total

-- A header that the constructors give: its fields are in range and its total covers it.
pub record IsHeader (h : BoxHeader) : Type 0 where
  pub typed : IsBoxType h.box_type
  pub sized : IsBoxSize h.size
  pub covered : Covered h (total_bytes h.size)

-- A header whose `extended_type`, if it has one, is not reserved.
abbrev pub IsWritable : BoxHeader → Type 0
IsWritable h = (u : Option Uuid) × (writable_type h.box_type ≡ ok u)
