-- ===== src/Core/BoxHeader/Truncation.antt =====
-- What `decode` answers to an input that ends inside the header.
use isobmff_rs.Common.{ℕ, ◌≡◌, ◌≢◌, inl, inr, ◌+◌, ◌≤◌, ◌<◌, Option, none, some, List, ◌++◌}
use isobmff_rs.Common.{
  length, length-append, take, drop, arith, refl, ◌==◌, length-drop, length-take,
}
use isobmff_rs.Common.{
  append_assoc, ap, ◌∙◌, sym, Bool, true, false, Option-cases, Bool-cases, if◌then◌else◌,
  take-append-drop,
}
use isobmff_rs.Common.Bytes.{from_be_bytes}
use isobmff_rs.Common.Result.{Result, ok, err, ◌>>=◌, unwrap_or}
use isobmff_rs.Core.BoxType.{BoxType, CompactType}
use isobmff_rs.Core.Error.{Error, error, truncated_header, size_below_header}
use isobmff_rs.Core.BoxHeader.{BoxHeader, decode, decode_rest, type_of}
use isobmff_rs.Core.BoxHeader.{
  take_large_size, take_box_type, header_length, is_none, declared_size, checked_header, new,
  encoded_len, has_large_size, has_extended_type,
}
use isobmff_rs.Core.BoxHeader.Decoding.{new-eq-some}
use isobmff_rs.Core.BoxSize.{BoxSize}
use isobmff_rs.Core.BoxHeader.Fields.{decode-append}
use native.Mathlib.Decide.{dec_lt}

-- The length of the header whose first two fields are these.
abbrev pub header_bytes_of : ℕ → Option CompactType → ℕ
header_bytes_of declared compact = header_length (declared == 1) (is_none compact)

-- An answer that more input does not change, on an input whose header is so many bytes long: the
-- header, or a total that does not cover it.
pub data Settled (needed : ℕ) (r : Result Error (BoxHeader × List ℕ)) : Type 0 where
  header :
      (h : BoxHeader) (rest : List ℕ) → r ≡ ok (h, rest) → encoded_len h ≡ needed → Settled needed r
  below : (declared : ℕ) → r ≡ err (error (size_below_header needed declared)) → Settled needed r

abbrev has_large : Option ℕ → Bool
has_large none = false
has_large (some _) = true

module _ (declared available : ℕ) (tail : List ℕ) where
  pub decode_rest_short :
      (compact : Option CompactType)
      → 8 + length tail < header_bytes_of declared compact
      → decode_rest declared compact available tail
        ≡ err (error (truncated_header (header_bytes_of declared compact) available))
  unfolding decode_rest
  decode_rest_short none h = ground (arith, length-drop 8 tail)
  decode_rest_short (some c) h = ground (arith, length-drop 8 tail)

  -- The bytes of the fields that follow the first two.
  abbrev large_bytes : ℕ
  large_bytes = if declared == 1 then 8 else 0

  take_large_size-total :
      (n : ℕ)
      → large_bytes ≤ length tail
      → (p : Option ℕ × List ℕ) × (take_large_size declared n available tail ≡ ok p)
        × (length p.1 + large_bytes ≡ length tail)
        × (has_large p.0 ≡ (declared == 1))
  unfolding take_large_size
  take_large_size-total n h = elim (Bool-cases (declared == 1)) [
    | inl one ↦ (
      (some (from_be_bytes (take 8 tail)), drop 8 tail),
      ground (arith, one),
      ground (arith, one, length-drop 8 tail),
      sym one,
    )
    | inr other ↦ ((none, tail), ground (arith, other), ground (arith, other), sym other)
  ]

take_box_type-total :
    (compact : Option CompactType) (n available : ℕ) (tail : List ℕ)
    → (if is_none compact then 16 else 0) ≤ length tail
    → (p : BoxType × List ℕ) × (take_box_type compact n available tail ≡ ok p)
      × (has_extended_type p.0 ≡ is_none compact)
unfolding take_box_type
take_box_type-total none n available tail h = (
  (BoxType.extended (record { uuid = record { bytes = take 16 tail } }), drop 16 tail),
  ground arith,
  refl,
)
take_box_type-total (some c) n available tail h = ((BoxType.compact c, tail), refl, refl)

declared_size-large :
    (declared : ℕ) (large : Option ℕ) (size : BoxSize)
    → declared_size declared large ≡ some size
    → has_large_size size ≡ has_large large
unfolding declared_size
declared_size-large declared none (BoxSize.compact s) e = refl
declared_size-large declared none (BoxSize.extended s) e = ground arith
declared_size-large declared none BoxSize.to_end_of_file e = refl
declared_size-large declared (some n) (BoxSize.compact s) e = ground arith
declared_size-large declared (some n) (BoxSize.extended s) e = refl
declared_size-large declared (some n) BoxSize.to_end_of_file e = ground arith

-- The header that is checked is as long as its fields say, whatever the check finds.
checked_header-Settled :
    (declared : ℕ) (large : Option ℕ) (t : BoxType) (n : ℕ) (rest : List ℕ)
    → header_length (has_large large) (has_extended_type t) ≡ n
    → Settled n (checked_header declared large t n >>= λ h. ok (h, rest))
unfolding checked_header
checked_header-Settled declared large t n rest l =
    elim (Option-cases (declared_size declared large)) [
      | inl e ↦ below (unwrap_or large declared) (rw e refl)
      | inr (size, e) ↦ elim (Option-cases (new t size)) [
        | inl en ↦ below (unwrap_or large declared) (rw (e, en) refl)
        | inr (h, en) ↦
            header h rest (rw (e, en) refl)
              (rw ((new-eq-some t size h en).0, declared_size-large declared large size e) l)
      ]
    ]

decode_rest_long :
    (declared available : ℕ) (tail : List ℕ) (compact : Option CompactType)
    → header_bytes_of declared compact ≤ 8 + length tail
    → Settled (header_bytes_of declared compact) (decode_rest declared compact available tail)
unfolding decode_rest
decode_rest_long declared available tail compact h =
    let n : ℕ = header_bytes_of declared compact in
    let ((large, r1), e1, l1, b1) =
      take_large_size-total declared available tail n (ground arith) in
    let ((t, r2), e2, b2) = take_box_type-total compact n available r1 (ground (arith, l1)) in
    rw (e1, e2) (checked_header-Settled declared large t n r2 (rw (b1, b2) refl))

-- An input that holds the first two fields.
pub first_fields :
    (input : List ℕ)
    → 8 ≤ length input
    → (a b tail : List ℕ) × (input ≡ a ++ (b ++ tail)) × (length a ≡ 4) × (length b ≡ 4)
first_fields input h = (
  take 4 input,
  take 4 (drop 4 input),
  drop 4 (drop 4 input),
  rw (take-append-drop 4 (drop 4 input), take-append-drop 4 input) refl,
  omega (arith, length-take 4 input),
  omega (arith, length-take 4 (drop 4 input), length-drop 4 input),
)

-- The three ways in which `decode` answers, by how much of the header the input holds.
pub data Answer (input : List ℕ) : Type 0 where
  no_fields :
      length input < 8
      → decode input ≡ err (error (truncated_header 8 (length input)))
      → Answer input
  cut_short :
      (a b tail : List ℕ)
      → input ≡ a ++ (b ++ tail)
      → length a ≡ 4
      → length b ≡ 4
      → length input < header_bytes_of (from_be_bytes a) (type_of b)
      → decode input
        ≡ err (
            error (truncated_header (header_bytes_of (from_be_bytes a) (type_of b)) (length input)))
      → Answer input
  whole :
      (a b tail : List ℕ)
      → input ≡ a ++ (b ++ tail)
      → length a ≡ 4
      → length b ≡ 4
      → header_bytes_of (from_be_bytes a) (type_of b) ≤ length input
      → Settled (header_bytes_of (from_be_bytes a) (type_of b)) (decode input)
      → Answer input

pub decode_no_fields :
    (input : List ℕ)
    → length input < 8
    → decode input ≡ err (error (truncated_header 8 (length input)))
unfolding decode
decode_no_fields input h = ground (arith, length-drop 4 input)

length_two_fields :
    (a b tail : List ℕ) → length a ≡ 4 → length b ≡ 4 → length (a ++ (b ++ tail)) ≡ 8 + length tail
length_two_fields a b tail ha hb = omega (arith, length-append a (b ++ tail), length-append b tail)

Answer-append : (a b tail : List ℕ) → length a ≡ 4 → length b ≡ 4 → Answer (a ++ (b ++ tail))
Answer-append a b tail ha hb =
    let n : ℕ = header_bytes_of (from_be_bytes a) (type_of b) in
    let l : length (a ++ (b ++ tail)) ≡ 8 + length tail = length_two_fields a b tail ha hb in
    let d = decode-append a b tail ha hb in
    elim (dec_lt (8 + length tail) n) [
      | yes short ↦
          cut_short a b tail refl ha hb (omega arith)
            (d ∙ decode_rest_short (from_be_bytes a) _ tail (type_of b) short)
      | no long ↦
          whole a b tail refl ha hb (omega arith)
            (rw d (decode_rest_long (from_be_bytes a) _ tail (type_of b) (omega arith)))
    ]

pub decode-Answer : (input : List ℕ) → Answer input
decode-Answer input = elim (dec_lt (length input) 8) [
  | yes short ↦ no_fields short (decode_no_fields input short)
  | no long ↦
      let (a, b, tail, e, ha, hb) = first_fields input (omega arith) in
      rw e (Answer-append a b tail ha hb)
]

Settled-ne-truncated :
    (needed : ℕ) (r : Result Error (BoxHeader × List ℕ)) (n m : ℕ)
    → Settled needed r
    → r ≢ err (error (truncated_header n m))
Settled-ne-truncated needed r n m (header h rest e l) = λ t. cc
Settled-ne-truncated needed r n m (below declared e) = λ t. cc

pub header_bytes_of-le :
    (declared : ℕ) (compact : Option CompactType) → header_bytes_of declared compact ≤ 32
header_bytes_of-le declared none = ground arith
header_bytes_of-le declared (some c) = ground arith

same_truncation :
    (r : Result Error (BoxHeader × List ℕ)) (n m n' m' : ℕ)
    → r ≡ err (error (truncated_header n m))
    → r ≡ err (error (truncated_header n' m'))
    → (n ≡ n') × (m ≡ m')
same_truncation r n m n' m' p q = ground arith

extended_fields :
    (a b tail more : List ℕ)
    → length a ≡ 4
    → length b ≡ 4
    → header_bytes_of (from_be_bytes a) (type_of b) ≤ length ((a ++ (b ++ tail)) ++ more)
    → Settled (header_bytes_of (from_be_bytes a) (type_of b)) (decode ((a ++ (b ++ tail)) ++ more))
extended_fields a b tail more ha hb enough =
    let e : (a ++ (b ++ tail)) ++ more ≡ a ++ (b ++ (tail ++ more)) = simp append_assoc in
    rw (e, decode-append a b (tail ++ more) ha hb)
      (decode_rest_long (from_be_bytes a) _ (tail ++ more) (type_of b)
        (omega (arith, ap length e, length_two_fields a b (tail ++ more) ha hb)))

-- `decode` of an input that ends inside the header names the length of the whole header, and one
-- extension to that length suffices: where the input holds the eight bytes of the first two fields
-- and `decode` answers that it needs `needed` bytes, it has counted the input, the input is shorter
-- than `needed`, `needed` is at most 32, and on the input followed by enough bytes to hold `needed`
-- it answers with a header that is `needed` bytes long, or with a total that does not cover the
-- `needed` bytes of one.
pub decode_extended :
    (input more : List ℕ) (needed available : ℕ)
    → 8 ≤ length input
    → decode input ≡ err (error (truncated_header needed available))
    → needed ≤ length (input ++ more)
    → (available ≡ length input)
      × (length input < needed)
      × (needed ≤ 32)
      × Settled needed (decode (input ++ more))
decode_extended input more needed available long e enough = extended (decode-Answer input)
  where
    extended :
        Answer input
        → (available ≡ length input)
          × (length input < needed)
          × (needed ≤ 32)
          × Settled needed (decode (input ++ more))
    extended (no_fields short d) = absurd (omega arith)
    extended (whole a b tail i ha hb n s) = absurd (Settled-ne-truncated _ _ needed available s e)
    extended (cut_short a b tail i ha hb n d) =
        let (en, ea) = same_truncation _ needed available _ _ e d in
        (
          ea,
          omega (arith, en),
          omega (arith, en, header_bytes_of-le (from_be_bytes a) (type_of b)),
          rw (i, en) (extended_fields a b tail more ha hb (rw (i, en) at enough)),
        )
