-- ===== src/Core/Field/Truncation.antt =====
-- A run of fields that is read off a payload shorter than it.
use isobmff_rs.Common.{
  ℕ, ◌≡◌, ◌+◌, ◌-◌, ◌≤◌, ◌<◌, ◌^◌, List, [], ◌∷◌, length, take, drop, refl, arith, length-append,
  length-drop, split_at_checked_short,
}
use isobmff_rs.Common.Bytes.{from_be_bytes, length-to_be_bytes}
use isobmff_rs.Common.Int.{from_bits}
use isobmff_rs.Common.Words.{saturating_add}
use isobmff_rs.Common.Result.{ok, err}
use isobmff_rs.Core.Error.{error, truncated_payload}
use isobmff_rs.Core.Field.{FieldReader, FieldWidth, reader, read_slice, truncated}
use isobmff_rs.Core.Field.{read_u16, read_i16, read_unsigned, read_signed}
use isobmff_rs.Core.Field.Kinds.{Field, wire, read_field}
use isobmff_rs.Core.Field.RoundTrip.{read_fields, wires}
use native.Mathlib.Decide.{dec_lt}

-- The cursor behind so many bytes.
abbrev past : FieldReader → ℕ → FieldReader
past r n = record r { rest = drop n r.rest }

read_slice_long :
    (r : FieldReader) (n : ℕ) → n ≤ length r.rest → read_slice r n ≡ ok (take n r.rest, past r n)
unfolding read_slice
read_slice_long r n h = ground arith

read_slice_short :
    (r : FieldReader) (n : ℕ) → length r.rest < n → read_slice r n ≡ err (truncated r n)
unfolding read_slice
read_slice_short r n h = rw (split_at_checked_short n r.rest h) refl

-- The bytes that a field of the kind takes.
abbrev width : Field → ℕ
width (Field.bytes b) = length b
width (Field.u16 _) = 2
width (Field.i16 _) = 2
width (Field.u32 _) = 4
width (Field.i32 _) = 4
width (Field.u64 _) = 8
width (Field.i64 _) = 8
width (Field.unsigned FieldWidth.compact _) = 4
width (Field.unsigned FieldWidth.extended _) = 8
width (Field.signed FieldWidth.compact _) = 4
width (Field.signed FieldWidth.extended _) = 8

length-wire : (f : Field) → length (wire f) ≡ width f
length-wire (Field.bytes b) = refl
length-wire (Field.u16 n) = length-to_be_bytes 2 n
length-wire (Field.i16 z) = length-to_be_bytes 2 _
length-wire (Field.u32 n) = length-to_be_bytes 4 n
length-wire (Field.i32 z) = length-to_be_bytes 4 _
length-wire (Field.u64 n) = length-to_be_bytes 8 n
length-wire (Field.i64 z) = length-to_be_bytes 8 _
length-wire (Field.unsigned FieldWidth.compact n) = length-to_be_bytes 4 n
length-wire (Field.unsigned FieldWidth.extended n) = length-to_be_bytes 8 n
length-wire (Field.signed FieldWidth.compact z) = length-to_be_bytes 4 _
length-wire (Field.signed FieldWidth.extended z) = length-to_be_bytes 8 _

-- A field of the kind is read off any bytes that are enough, and takes as many as it has.
read_field_long :
    (f : Field) (r : FieldReader)
    → width f ≤ length r.rest
    → (v : Field) × (read_field f r ≡ ok (v, past r (width f)))
unfolding read_u16 read_i16 read_unsigned read_signed
read_field_long (Field.bytes b) r h =
    (Field.bytes (take (length b) r.rest), rw (read_slice_long r (length b) h) refl)
read_field_long (Field.u16 n) r h =
    (Field.u16 (from_be_bytes (take 2 r.rest)), rw (read_slice_long r 2 h) refl)
read_field_long (Field.i16 n) r h = (
  Field.i16 (from_bits (2 ^ 15) (from_be_bytes (take 2 r.rest))),
  rw (read_slice_long r 2 h) refl,
)
read_field_long (Field.u32 n) r h =
    (Field.u32 (from_be_bytes (take 4 r.rest)), rw (read_slice_long r 4 h) refl)
read_field_long (Field.i32 n) r h = (
  Field.i32 (from_bits (2 ^ 31) (from_be_bytes (take 4 r.rest))),
  rw (read_slice_long r 4 h) refl,
)
read_field_long (Field.u64 n) r h =
    (Field.u64 (from_be_bytes (take 8 r.rest)), rw (read_slice_long r 8 h) refl)
read_field_long (Field.i64 n) r h = (
  Field.i64 (from_bits (2 ^ 63) (from_be_bytes (take 8 r.rest))),
  rw (read_slice_long r 8 h) refl,
)
read_field_long (Field.unsigned FieldWidth.compact n) r h = (
  Field.unsigned FieldWidth.compact (from_be_bytes (take 4 r.rest)),
  rw (read_slice_long r 4 h) refl,
)
read_field_long (Field.unsigned FieldWidth.extended n) r h = (
  Field.unsigned FieldWidth.extended (from_be_bytes (take 8 r.rest)),
  rw (read_slice_long r 8 h) refl,
)
read_field_long (Field.signed FieldWidth.compact n) r h = (
  Field.signed FieldWidth.compact (from_bits (2 ^ 31) (from_be_bytes (take 4 r.rest))),
  rw (read_slice_long r 4 h) refl,
)
read_field_long (Field.signed FieldWidth.extended n) r h = (
  Field.signed FieldWidth.extended (from_bits (2 ^ 63) (from_be_bytes (take 8 r.rest))),
  rw (read_slice_long r 8 h) refl,
)

read_field_short :
    (f : Field) (r : FieldReader)
    → length r.rest < width f
    → read_field f r ≡ err (truncated r (width f))
unfolding read_u16 read_i16 read_unsigned read_signed
read_field_short (Field.bytes b) r h = rw (read_slice_short r (length b) h) refl
read_field_short (Field.u16 n) r h = rw (read_slice_short r 2 h) refl
read_field_short (Field.i16 n) r h = rw (read_slice_short r 2 h) refl
read_field_short (Field.u32 n) r h = rw (read_slice_short r 4 h) refl
read_field_short (Field.i32 n) r h = rw (read_slice_short r 4 h) refl
read_field_short (Field.u64 n) r h = rw (read_slice_short r 8 h) refl
read_field_short (Field.i64 n) r h = rw (read_slice_short r 8 h) refl
read_field_short (Field.unsigned FieldWidth.compact n) r h = rw (read_slice_short r 4 h) refl
read_field_short (Field.unsigned FieldWidth.extended n) r h = rw (read_slice_short r 8 h) refl
read_field_short (Field.signed FieldWidth.compact n) r h = rw (read_slice_short r 4 h) refl
read_field_short (Field.signed FieldWidth.extended n) r h = rw (read_slice_short r 8 h) refl

read_fields_short :
    (fs : List Field) (r : FieldReader)
    → length r.rest ≤ r.payload_len
    → length r.rest < length (wires fs)
    → r.payload_len - length r.rest + length (wires fs) < 2 ^ 64
    → (n : ℕ) × (read_fields fs r ≡ err (error (truncated_payload n r.payload_len)))
      × (r.payload_len < n)
      × (n ≤ r.payload_len - length r.rest + length (wires fs))
unfolding read_fields
read_fields_short [] r within short bound = absurd (omega arith)
read_fields_short (f ∷ fs) r within short bound =
    let l = length-append (wire f) (wires fs) in
    let lw = length-wire f in
    elim (dec_lt (length r.rest) (width f)) [
      | yes cut ↦ (
        saturating_add (r.payload_len - length r.rest) (width f),
        rw (read_field_short f r cut) refl,
        omega (arith, l, lw),
        omega (arith, l, lw),
      )
      | no fits ↦
          let (v, e) = read_field_long f r (omega arith) in
          let ld = length-drop (width f) r.rest in
          let (n, en, lo, hi) =
            read_fields_short fs (past r (width f)) (omega (arith, ld)) (omega (arith, l, lw, ld))
              (omega (arith, l, lw, ld)) in
          (n, rw (e, en) refl, lo, omega (arith, l, lw, ld, hi))
    ]

-- Reading fields off a payload that is shorter than they are fails, whatever the bytes of the payload
-- are: for fields that take fewer than 2 ^ 64 bytes, the failure names a length past the payload and
-- no longer than the fields, and the length of the payload.
pub read_fields_truncated :
    (fs : List Field) (payload : List ℕ)
    → length payload < length (wires fs)
    → length (wires fs) < 2 ^ 64
    → (n : ℕ) × (read_fields fs (reader payload)
        ≡ err (error (truncated_payload n (length payload))))
      × (length payload < n)
      × (n ≤ length (wires fs))
read_fields_truncated fs payload short bound =
    let (n, e, lo, hi) = read_fields_short fs (reader payload) (omega arith) short (omega arith) in
    (n, e, lo, omega (arith, hi))
