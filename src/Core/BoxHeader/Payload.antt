-- ===== src/Core/BoxHeader/Payload.antt =====
-- `with_payload_len` and `payload_len`: the header chosen for a payload, and the payload it spans.
use isobmff_rs.Common.{ℕ, ◌≡◌, ◌↔◌, ◌+◌, ◌≤◌, ◌<◌, Bool, true, none, some}
use isobmff_rs.Common.{arith}
use isobmff_rs.Common.Words.{u64_max}
use isobmff_rs.Core.BoxType.{BoxType, IsBoxType}
use isobmff_rs.Core.BoxSize.{BoxSize, IsBoxSize}
use isobmff_rs.Core.BoxHeader.{
  BoxHeader, IsHeader, encoded_len, header_length, has_extended_type, has_large_size,
}
use isobmff_rs.Core.BoxHeader.{with_payload_len, payload_len}

-- The total that a payload makes behind a header with or without a `largesize` field.
abbrev total_of : BoxType → Bool → ℕ → ℕ
total_of t large n = n + header_length large (has_extended_type t)

-- A header that `with_payload_len` gives has the type, is one that the constructors give, and spans a
-- payload of the length.
pub with_payload_len-eq-some :
    (t : BoxType) (n : ℕ) (h : BoxHeader)
    → IsBoxType t
    → with_payload_len t n ≡ some h
    → IsHeader h × (h.box_type ≡ t) × (payload_len h ≡ some n)
unfolding with_payload_len payload_len
with_payload_len-eq-some (BoxType.compact c) n h valid e = ground arith
with_payload_len-eq-some (BoxType.extended c) n h valid e = ground arith

-- `with_payload_len` gives no header exactly where the total with a `largesize` field overruns 64 bits.
pub with_payload_len-eq-none :
    (t : BoxType) (n : ℕ) → (with_payload_len t n ≡ none) ↔ (u64_max < total_of t true n)
unfolding with_payload_len
with_payload_len-eq-none (BoxType.compact c) n = ground arith
with_payload_len-eq-none (BoxType.extended c) n = ground arith

shortest_size :
    (t : BoxType) (n : ℕ) (h : BoxHeader) (size : BoxSize)
    → with_payload_len t n ≡ some h
    → IsBoxSize size
    → payload_len (record { box_type = t; size = size }) ≡ some n
    → encoded_len h ≤ header_length (has_large_size size) (has_extended_type t)
unfolding with_payload_len payload_len
shortest_size (BoxType.compact c) n h (BoxSize.compact s) e valid ep = ground arith
shortest_size (BoxType.compact c) n h (BoxSize.extended s) e valid ep = ground arith
shortest_size (BoxType.compact c) n h BoxSize.to_end_of_file e valid ep = ground arith
shortest_size (BoxType.extended c) n h (BoxSize.compact s) e valid ep = ground arith
shortest_size (BoxType.extended c) n h (BoxSize.extended s) e valid ep = ground arith
shortest_size (BoxType.extended c) n h BoxSize.to_end_of_file e valid ep = ground arith

-- The header that `with_payload_len` chooses is no longer than any other header of the type whose
-- payload has the length.
pub with_payload_len_shortest :
    (n : ℕ) (h other : BoxHeader)
    → with_payload_len other.box_type n ≡ some h
    → IsHeader other
    → payload_len other ≡ some n
    → encoded_len h ≤ encoded_len other
with_payload_len_shortest n h other e valid ep =
    shortest_size other.box_type n h other.size e valid.sized ep
