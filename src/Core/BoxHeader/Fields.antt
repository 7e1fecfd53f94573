-- ===== src/Core/BoxHeader/Fields.antt =====
-- The fields that `encode` writes and `decode` takes apart, one lemma for each step.
use isobmff_rs.Common.{ℕ, ◌≡◌, ◌+◌, Option, none, some, List, [], ◌∷◌, ◌++◌}
use isobmff_rs.Common.{length, length-append, arith, refl}
use isobmff_rs.Common.{split_at_checked-append, append_assoc}
use isobmff_rs.Common.Bytes.{from_be_bytes, to_be_bytes, length-to_be_bytes}
use isobmff_rs.Common.Bytes.{from_be_bytes-to_be_bytes}
use isobmff_rs.Common.Result.{ok}
use isobmff_rs.Core.FourCc.{Uuid}
use isobmff_rs.Core.BoxType.{BoxType, compact_type}
use isobmff_rs.Core.BoxType.{four_cc, IsBoxType}
use isobmff_rs.Core.BoxSize.{BoxSize, total_bytes, IsBoxSize}
use isobmff_rs.Core.BoxHeader.{BoxHeader, IsHeader, encoded_len, decode, field_bytes, overwrite}
use isobmff_rs.Core.BoxHeader.{writable_type, size_fields, large_size_bytes, uuid_bytes}
use isobmff_rs.Core.BoxHeader.{
  take_large_size, take_box_type, declared_size, decode_rest, checked_header, type_of, Covered,
  covers,
}
use isobmff_rs.Core.BoxHeader.{header_length, new, has_extended_type, has_large_size}

-- Fields as long as the slots take their place.
pub overwrite_full :
    (slots fields : List ℕ) → length slots ≡ length fields → overwrite slots fields ≡ fields
overwrite_full [] [] h = refl
overwrite_full [] (f ∷ fs) h = absurd (omega arith)
overwrite_full (s ∷ ss) [] h = absurd (omega arith)
overwrite_full (s ∷ ss) (f ∷ fs) h = rw (overwrite_full ss fs (omega arith))

-- The UUID of an extended type is written as it is, and a compact type has none.
abbrev pub uuid_of : BoxType → Option Uuid
uuid_of (BoxType.compact _) = none
uuid_of (BoxType.extended e) = some e.uuid

pub writable_type-eq-ok : (t : BoxType) (u : Option Uuid) → writable_type t ≡ ok u → u ≡ uuid_of t
writable_type-eq-ok (BoxType.compact c) u w = cc
writable_type-eq-ok (BoxType.extended e) u w = ground arith

pub length-four_cc : (t : BoxType) → IsBoxType t → length (four_cc t).bytes ≡ 4
length-four_cc (BoxType.compact c) h = h.0.0
length-four_cc (BoxType.extended e) h = refl

-- The fields of any size and type are as long as the header.
length_of_fields :
    (t : BoxType) (s : BoxSize)
    → IsBoxType t
    → 8 + (length (large_size_bytes (size_fields s).1) + length (uuid_bytes (uuid_of t)))
      ≡ header_length (has_large_size s) (has_extended_type t)
length_of_fields (BoxType.compact c) (BoxSize.compact s) h = refl
length_of_fields (BoxType.compact c) (BoxSize.extended s) h =
    omega (arith, length-to_be_bytes 8 s.get)
length_of_fields (BoxType.compact c) BoxSize.to_end_of_file h = refl
length_of_fields (BoxType.extended e) (BoxSize.compact s) h = omega (arith, h.0)
length_of_fields (BoxType.extended e) (BoxSize.extended s) h =
    omega (arith, h.0, length-to_be_bytes 8 s.get)
length_of_fields (BoxType.extended e) BoxSize.to_end_of_file h = omega (arith, h.0)

-- The fields are as long as the header.
pub length-field_bytes :
    (h : BoxHeader) → IsHeader h → length (field_bytes h (uuid_of h.box_type)) ≡ encoded_len h
length-field_bytes h valid =
    rw (length-append, length-append, length-append, length-to_be_bytes)
      (omega (
        arith,
        length-four_cc h.box_type valid.typed,
        length_of_fields h.box_type h.size valid.typed,
      ))

-- `decode` takes the two fields of four bytes off the front.
pub decode-append :
    (a b tail : List ℕ)
    → length a ≡ 4
    → length b ≡ 4
    → decode (a ++ (b ++ tail))
      ≡ decode_rest (from_be_bytes a) (type_of b) (length (a ++ (b ++ tail))) tail
unfolding decode
decode-append a b tail ha hb =
    rw (split_at_checked-append 4 a (b ++ tail) ha, split_at_checked-append 4 b tail hb) refl

-- The `largesize` field is read back, and only where the `size` field says that it is there.
take_large_size_lem :
    (size : BoxSize) (header_bytes available : ℕ) (rest : List ℕ)
    → IsBoxSize size
    → take_large_size
        (size_fields size).0
        header_bytes
        available
        (large_size_bytes (size_fields size).1 ++ rest)
      ≡ ok ((size_fields size).1, rest)
unfolding take_large_size
take_large_size_lem (BoxSize.compact s) header_bytes available rest h = ground arith
take_large_size_lem (BoxSize.extended s) header_bytes available rest h =
    rw
      (
        split_at_checked-append 8 (to_be_bytes 8 s.get) rest (length-to_be_bytes 8 s.get),
        from_be_bytes-to_be_bytes 8 s.get (omega arith),
      )
      refl
take_large_size_lem BoxSize.to_end_of_file header_bytes available rest h = refl

-- The `boxtype` and `extended_type` fields name the type.
take_box_type_lem :
    (t : BoxType) (header_bytes available : ℕ) (rest : List ℕ)
    → IsBoxType t
    → take_box_type
        (type_of (four_cc t).bytes)
        header_bytes
        available
        (uuid_bytes (uuid_of t) ++ rest)
      ≡ ok (t, rest)
unfolding take_box_type compact_type
take_box_type_lem (BoxType.compact c) header_bytes available rest h = rw h.1 refl
take_box_type_lem (BoxType.extended e) header_bytes available rest h =
    rw (split_at_checked-append 16 e.uuid.bytes rest h.0) refl

declared_size_lem :
    (size : BoxSize)
    → IsBoxSize size
    → declared_size (size_fields size).0 (size_fields size).1 ≡ some size
unfolding declared_size
declared_size_lem (BoxSize.compact s) h = ground arith
declared_size_lem (BoxSize.extended s) h = ground arith
declared_size_lem BoxSize.to_end_of_file h = refl

new-Covered : (h : BoxHeader) (total : Option ℕ) → Covered h total → covers h total ≡ some h
new-Covered h none c = refl
new-Covered h (some total) c = ground arith

new_lem : (h : BoxHeader) → IsHeader h → new h.box_type h.size ≡ some h
unfolding new
new_lem h valid = new-Covered h (total_bytes h.size) valid.covered

checked_header_lem :
    (h : BoxHeader) (header_bytes : ℕ)
    → IsHeader h
    → checked_header (size_fields h.size).0 (size_fields h.size).1 h.box_type header_bytes ≡ ok h
unfolding checked_header
checked_header_lem h header_bytes valid =
    rw (declared_size_lem h.size valid.sized, new_lem h valid) refl

-- What follows the first two fields of a header decodes as that header.
pub decode_rest_lem :
    (h : BoxHeader) (available : ℕ) (rest : List ℕ)
    → IsHeader h
    → decode_rest
        (size_fields h.size).0
        (type_of (four_cc h.box_type).bytes)
        available
        (large_size_bytes (size_fields h.size).1 ++ (uuid_bytes (uuid_of h.box_type) ++ rest))
      ≡ ok (h, rest)
unfolding decode_rest
decode_rest_lem h available rest valid =
    rw
      (
        take_large_size_lem h.size _ available (uuid_bytes (uuid_of h.box_type) ++ rest)
            valid.sized,
        take_box_type_lem h.box_type _ available rest valid.typed,
        checked_header_lem h _ valid,
      )
      refl

pub field_bytes-append :
    (h : BoxHeader) (rest : List ℕ)
    → field_bytes h (uuid_of h.box_type) ++ rest
      ≡ to_be_bytes 4 (size_fields h.size).0
        ++ ((four_cc h.box_type).bytes
            ++ (large_size_bytes (size_fields h.size).1
                ++ (uuid_bytes (uuid_of h.box_type) ++ rest)))
field_bytes-append h rest = simp append_assoc
