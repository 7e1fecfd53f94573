-- ===== src/Core/Codec/Fields.antt =====
-- The fields that the cursors write and read, as actions on the cursors.
use isobmff_rs.Common.{
  [], ◌∷◌, ◌++◌, ◌≤◌, ◌+◌, All, length-append, ℕ, ◌≡◌, ◌^◌, List, length, refl, arith, ◌∙◌,
}
use isobmff_rs.Common.Bytes.{to_be_bytes, length-to_be_bytes}
use isobmff_rs.Common.Int.{ℤ, InRange, to_bits}
use isobmff_rs.Common.Words.{IsU16, IsU32, IsU64}
use isobmff_rs.Common.Result.{Result, ok, ◌>>=◌}
use isobmff_rs.Core.Field.{
  FieldWriter, FieldWidth, read_u16, read_u32, read_u64, read_i16, read_i32, read_i64,
  read_unsigned, read_signed, write_u16, write_u32, write_u64, write_i16, write_i32, write_i64,
  write_unsigned, write_signed, take_remainder,
}
use isobmff_rs.Core.Error.{Error}
use isobmff_rs.Core.Field.RoundTrip.{wires}
use isobmff_rs.Core.Field.Reading.{write_slice_fits}
use isobmff_rs.Core.Field.Kinds.{
  slice_of, unsigned_of, signed_of, Field, IsField, wire, write_field, write_field_lem,
}
use isobmff_rs.Core.Codec.Actions.{Writes-seq, Writes-none, Writes-last, Writes, Reads, ReadsAll}

-- A field of a kind, in range, is written as its bytes.
Writes-field : (f : Field) → IsField f → Writes (λ w. write_field w f) (wire f)
Writes-field f h w fits = write_field_lem w f h ∙ write_slice_fits w (wire f) fits

pub Writes-u16 : (n : ℕ) → IsU16 n → Writes (λ w. write_u16 w n) (to_be_bytes 2 n)
Writes-u16 n h = Writes-field (Field.u16 n) h

pub Reads-u16 : (n : ℕ) → IsU16 n → Reads read_u16 n (to_be_bytes 2 n)
unfolding read_u16
Reads-u16 n h len tail = rw (slice_of len tail 2 n, unsigned_of len tail 2 n (omega arith)) refl

pub Writes-u32 : (n : ℕ) → IsU32 n → Writes (λ w. write_u32 w n) (to_be_bytes 4 n)
Writes-u32 n h = Writes-field (Field.u32 n) h

pub Reads-u32 : (n : ℕ) → IsU32 n → Reads read_u32 n (to_be_bytes 4 n)
unfolding read_u32
Reads-u32 n h len tail = rw (slice_of len tail 4 n, unsigned_of len tail 4 n (omega arith)) refl

pub Writes-u64 : (n : ℕ) → IsU64 n → Writes (λ w. write_u64 w n) (to_be_bytes 8 n)
Writes-u64 n h = Writes-field (Field.u64 n) h

pub Reads-u64 : (n : ℕ) → IsU64 n → Reads read_u64 n (to_be_bytes 8 n)
unfolding read_u64
Reads-u64 n h len tail = rw (slice_of len tail 8 n, unsigned_of len tail 8 n (omega arith)) refl

pub Writes-i16 :
    (n : ℤ) → InRange (2 ^ 15) n → Writes (λ w. write_i16 w n) (to_be_bytes 2 (to_bits (2 ^ 15) n))
Writes-i16 n h = Writes-field (Field.i16 n) h

pub Reads-i16 : (n : ℤ) → InRange (2 ^ 15) n → Reads read_i16 n (to_be_bytes 2 (to_bits (2 ^ 15) n))
unfolding read_i16
Reads-i16 n h len tail = rw (slice_of len tail 2 _, signed_of len tail 2 (2 ^ 15) n refl h) refl

pub Writes-i32 :
    (n : ℤ) → InRange (2 ^ 31) n → Writes (λ w. write_i32 w n) (to_be_bytes 4 (to_bits (2 ^ 31) n))
Writes-i32 n h = Writes-field (Field.i32 n) h

pub Reads-i32 : (n : ℤ) → InRange (2 ^ 31) n → Reads read_i32 n (to_be_bytes 4 (to_bits (2 ^ 31) n))
unfolding read_i32
Reads-i32 n h len tail = rw (slice_of len tail 4 _, signed_of len tail 4 (2 ^ 31) n refl h) refl

pub Writes-i64 :
    (n : ℤ) → InRange (2 ^ 63) n → Writes (λ w. write_i64 w n) (to_be_bytes 8 (to_bits (2 ^ 63) n))
Writes-i64 n h = Writes-field (Field.i64 n) h

pub Reads-i64 : (n : ℤ) → InRange (2 ^ 63) n → Reads read_i64 n (to_be_bytes 8 (to_bits (2 ^ 63) n))
unfolding read_i64
Reads-i64 n h len tail = rw (slice_of len tail 8 _, signed_of len tail 8 (2 ^ 63) n refl h) refl

-- A number of the width, and its bytes.
abbrev pub IsUnsigned : FieldWidth → ℕ → Type 0
IsUnsigned width n = IsField (Field.unsigned width n)

abbrev pub unsigned_bytes : FieldWidth → ℕ → List ℕ
unsigned_bytes width n = wire (Field.unsigned width n)

abbrev pub IsSigned : FieldWidth → ℤ → Type 0
IsSigned width n = IsField (Field.signed width n)

abbrev pub signed_bytes : FieldWidth → ℤ → List ℕ
signed_bytes width n = wire (Field.signed width n)

abbrev pub width_len : FieldWidth → ℕ
width_len FieldWidth.compact = 4
width_len FieldWidth.extended = 8

pub length-unsigned_bytes :
    (width : FieldWidth) (n : ℕ) → length (unsigned_bytes width n) ≡ width_len width
length-unsigned_bytes FieldWidth.compact n = length-to_be_bytes 4 n
length-unsigned_bytes FieldWidth.extended n = length-to_be_bytes 8 n

pub length-signed_bytes :
    (width : FieldWidth) (n : ℤ) → length (signed_bytes width n) ≡ width_len width
length-signed_bytes FieldWidth.compact n = length-to_be_bytes 4 _
length-signed_bytes FieldWidth.extended n = length-to_be_bytes 8 _

pub Writes-unsigned :
    (width : FieldWidth) (n : ℕ)
    → IsUnsigned width n
    → Writes (λ w. write_unsigned w width n) (unsigned_bytes width n)
Writes-unsigned width n h = Writes-field (Field.unsigned width n) h

pub Reads-unsigned :
    (width : FieldWidth) (n : ℕ)
    → IsUnsigned width n
    → Reads (λ r. read_unsigned r width) n (unsigned_bytes width n)
unfolding read_unsigned
Reads-unsigned FieldWidth.compact n h = Reads-u32 n h
Reads-unsigned FieldWidth.extended n h = Reads-u64 n h

pub Writes-signed :
    (width : FieldWidth) (n : ℤ)
    → IsSigned width n
    → Writes (λ w. write_signed w width n) (signed_bytes width n)
Writes-signed width n h = Writes-field (Field.signed width n) h

pub Reads-signed :
    (width : FieldWidth) (n : ℤ)
    → IsSigned width n
    → Reads (λ r. read_signed r width) n (signed_bytes width n)
unfolding read_signed
Reads-signed FieldWidth.compact n h = Reads-i32 n h
Reads-signed FieldWidth.extended n h = Reads-i64 n h

-- The bytes up to the end of the payload.
pub ReadsAll-remainder : (bytes : List ℕ) → ReadsAll (λ r. ok (take_remainder r)) bytes bytes
unfolding take_remainder
ReadsAll-remainder bytes n = refl

-- The fields one after the other, the last one last.
abbrev pub write_all : FieldWriter → List Field → Result Error FieldWriter
write_all w [] = ok w
write_all w (f ∷ []) = write_field w f
write_all w (f ∷ (g ∷ fs)) = write_field w f >>= λ w'. write_all w' (g ∷ fs)

abbrev pub field_len : Field → ℕ
field_len (Field.bytes b) = length b
field_len (Field.u16 _) = 2
field_len (Field.u32 _) = 4
field_len (Field.u64 _) = 8
field_len (Field.i16 _) = 2
field_len (Field.i32 _) = 4
field_len (Field.i64 _) = 8
field_len (Field.unsigned width _) = width_len width
field_len (Field.signed width _) = width_len width

abbrev pub fields_len : List Field → ℕ
fields_len [] = 0
fields_len (f ∷ fs) = field_len f + fields_len fs

length-wire : (f : Field) → length (wire f) ≡ field_len f
length-wire (Field.bytes b) = refl
length-wire (Field.u16 n) = length-to_be_bytes 2 n
length-wire (Field.u32 n) = length-to_be_bytes 4 n
length-wire (Field.u64 n) = length-to_be_bytes 8 n
length-wire (Field.i16 n) = length-to_be_bytes 2 _
length-wire (Field.i32 n) = length-to_be_bytes 4 _
length-wire (Field.i64 n) = length-to_be_bytes 8 _
length-wire (Field.unsigned width n) = length-unsigned_bytes width n
length-wire (Field.signed width n) = length-signed_bytes width n

pub length-wires : (fs : List Field) → length (wires fs) ≡ fields_len fs
length-wires [] = refl
length-wires (f ∷ fs) =
    omega (arith, length-append (wire f) (wires fs), length-wire f, length-wires fs)

-- Fields in range are written as their bytes.
pub Writes-all : (fs : List Field) → All IsField fs → Writes (λ w. write_all w fs) (wires fs)
Writes-all [] h = Writes-none
Writes-all (f ∷ []) (hf, _) = Writes-last (λ w. write_field w f) (wire f) (Writes-field f hf)
Writes-all (f ∷ (g ∷ fs)) (hf, h) =
    Writes-seq (λ w. write_field w f) (λ w. write_all w (g ∷ fs)) (wire f) (wires (g ∷ fs))
      (Writes-field f hf) (Writes-all (g ∷ fs) h)

-- The fields, and then what follows them.
abbrev pub write_before :
    List Field → (FieldWriter → Result Error FieldWriter) → FieldWriter → Result Error FieldWriter
write_before [] k w = k w
write_before (f ∷ fs) k w = write_field w f >>= λ w'. write_before fs k w'

abbrev pub wires_before : List Field → List ℕ → List ℕ
wires_before [] bytes = bytes
wires_before (f ∷ fs) bytes = wire f ++ wires_before fs bytes

pub length-wires_before :
    (fs : List Field) (bytes : List ℕ)
    → length (wires_before fs bytes) ≡ fields_len fs + length bytes
length-wires_before [] bytes = omega arith
length-wires_before (f ∷ fs) bytes = omega (
  arith,
  length-append (wire f) (wires_before fs bytes),
  length-wire f,
  length-wires_before fs bytes,
)

pub Writes-before :
    (fs : List Field) (k : FieldWriter → Result Error FieldWriter) (bytes : List ℕ)
    → All IsField fs
    → Writes k bytes
    → Writes (write_before fs k) (wires_before fs bytes)
Writes-before [] k bytes h hk = hk
Writes-before (f ∷ fs) k bytes (hf, h) hk =
    Writes-seq (λ w. write_field w f) (write_before fs k) (wire f) (wires_before fs bytes)
      (Writes-field f hf) (Writes-before fs k bytes h hk)

pub width_len-le : (width : FieldWidth) → width_len width ≤ 8
width_len-le FieldWidth.compact = omega arith
width_len-le FieldWidth.extended = omega arith
