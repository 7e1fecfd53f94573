-- ===== src/Core/BoxHeader/Prefix.antt =====
-- What `decode` answers to the first bytes of a header that is still being read.
use isobmff_rs.Common.{
  ℕ, ◌≡◌, ◌+◌, ◌≤◌, ◌<◌, List, ◌++◌, length, refl, arith, sym, ap, ◌∙◌, ◌==◌, ltb, if◌then◌else◌,
  append-prefix, length-append,
}
use isobmff_rs.Common.Bytes.{
  from_be_bytes, to_be_bytes, from_be_bytes-to_be_bytes, length-to_be_bytes,
}
use isobmff_rs.Common.Result.{err}
use isobmff_rs.Core.BoxType.{BoxType, four_cc, IsBoxType, compact_type}
use isobmff_rs.Core.BoxSize.{BoxSize, IsBoxSize}
use isobmff_rs.Core.Error.{error, truncated_header}
use isobmff_rs.Core.BoxHeader.{
  BoxHeader, IsHeader, decode, field_bytes, encoded_len, size_fields, type_of, is_none,
  has_large_size, has_extended_type,
}
use isobmff_rs.Core.BoxHeader.Fields.{uuid_of, decode-append, length-four_cc, field_bytes-append}
use isobmff_rs.Core.BoxHeader.RoundTrip.{size_field-lt}
use isobmff_rs.Core.BoxHeader.Truncation.{header_bytes_of, decode_rest_short, decode_no_fields}
use native.Mathlib.Decide.{dec_lt}

-- The bytes that a reader asks for once it has read so many: the first two fields, then the header.
abbrev pub needed_for : BoxHeader → ℕ → ℕ
needed_for h n = if ltb n 8 then 8 else encoded_len h

large_marker : (size : BoxSize) → IsBoxSize size → ((size_fields size).0 == 1) ≡ has_large_size size
large_marker (BoxSize.compact s) valid = ground arith
large_marker (BoxSize.extended s) valid = refl
large_marker BoxSize.to_end_of_file valid = refl

type_marker :
    (t : BoxType) → IsBoxType t → is_none (type_of (four_cc t).bytes) ≡ has_extended_type t
unfolding compact_type
type_marker (BoxType.compact c) valid = rw valid.1 refl
type_marker (BoxType.extended e) valid = refl

-- The first two fields name the length of the whole header.
header_bytes_lem :
    (h : BoxHeader)
    → IsHeader h
    → header_bytes_of (size_fields h.size).0 (type_of (four_cc h.box_type).bytes) ≡ encoded_len h
header_bytes_lem h valid =
    rw (large_marker h.size valid.sized, type_marker h.box_type valid.typed) refl

decode-long_prefix :
    (h : BoxHeader) (p rest more : List ℕ)
    → IsHeader h
    → field_bytes h (uuid_of h.box_type) ++ rest ≡ p ++ more
    → 8 ≤ length p
    → length p < encoded_len h
    → decode p ≡ err (error (truncated_header (encoded_len h) (length p)))
decode-long_prefix h p rest more valid e long short =
    let a : List ℕ = to_be_bytes 4 (size_fields h.size).0 in
    let b : List ℕ = (four_cc h.box_type).bytes in
    let la : length a ≡ 4 = length-to_be_bytes 4 _ in
    let lb : length b ≡ 4 = length-four_cc h.box_type valid.typed in
    let (q, ep, eq) =
      append-prefix a p _ more (sym (field_bytes-append h rest) ∙ e) (omega arith) in
    let lp : length p ≡ length a + length q = ap length ep ∙ length-append a q in
    let (tail, et, _) = append-prefix b q _ more eq (omega arith) in
    let lq : length q ≡ length b + length tail = ap length et ∙ length-append b tail in
    let ei : p ≡ a ++ (b ++ tail) = ep ∙ ap (λ t. a ++ t) et in
    let en : header_bytes_of (from_be_bytes a) (type_of b) ≡ encoded_len h =
      rw (from_be_bytes-to_be_bytes 4 _ (size_field-lt h.size valid.sized))
        (header_bytes_lem h valid) in
    ap decode ei
    ∙ (decode-append a b tail la lb
        ∙ (decode_rest_short (from_be_bytes a) _ tail (type_of b) (omega arith) ∙ rw (en, ei) refl))

-- On the first bytes of a header, not all of it, `decode` names the length that is needed.
pub decode-prefix :
    (h : BoxHeader) (p rest more : List ℕ)
    → IsHeader h
    → field_bytes h (uuid_of h.box_type) ++ rest ≡ p ++ more
    → length p < encoded_len h
    → decode p ≡ err (error (truncated_header (needed_for h (length p)) (length p)))
decode-prefix h p rest more valid e short = elim (dec_lt (length p) 8) [
  | yes few ↦ decode_no_fields p few ∙ ground arith
  | no many ↦ decode-long_prefix h p rest more valid e (omega arith) short ∙ ground arith
]
