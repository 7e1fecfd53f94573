-- ===== src/Boxes/FullBox/RoundTrip.antt =====
-- The headers and the offsets of full boxes, written and read back.
use isobmff_rs.Common.{
  ℕ, zero, suc, ◌≡◌, ◌≤◌, ◌^◌, ◌==◌, if◌then◌else◌, false, List, [], refl, sym, arith,
}
use isobmff_rs.Common.Int.{ℤ, pos, negsuc, InRange, to_bits}
use isobmff_rs.Common.Bytes.{to_be_bytes}
use isobmff_rs.Common.Words.{IsU32, IsU8}
use isobmff_rs.Core.FullBox.{FullBoxHeader, no_flags, to_bytes, IsFullBoxHeader}
use isobmff_rs.Core.FullBox.RoundTrip.{from_bytes-to_bytes, length-to_bytes}
use isobmff_rs.Core.Field.{FieldWidth}
use isobmff_rs.Core.Field.Reading.{read_slice-append}
use isobmff_rs.Core.Codec.Actions.{Writes, Reads, Writes-bytes}
use isobmff_rs.Core.Codec.Fields.{width_len, Writes-unsigned, Writes-signed, Reads-u32, Reads-i32}
use isobmff_rs.Common.Result.{ok}
use isobmff_rs.Boxes.FullBox.{
  read_header, write_header, read_version_zero, write_version_zero, read_composition_offset,
  write_composition_offset, version_width,
}

pub Reads-header : (h : FullBoxHeader) → IsFullBoxHeader h → Reads read_header h (to_bytes h)
unfolding read_header
Reads-header h valid n tail =
    rw (read_slice-append 4 n (to_bytes h) tail (length-to_bytes h), from_bytes-to_bytes h valid)
      refl

pub Writes-header : (h : FullBoxHeader) → Writes (λ w. write_header w h) (to_bytes h)
unfolding write_header
Writes-header h = Writes-bytes (to_bytes h)

-- The header with a version and no flags.
abbrev pub header_of : ℕ → FullBoxHeader
header_of version = record { version = version; flags = no_flags }

pub header_of-IsFullBoxHeader : (version : ℕ) → IsU8 version → IsFullBoxHeader (header_of version)
header_of-IsFullBoxHeader version h = record { versioned = h; flagged = omega arith }

pub Reads-version_zero : Reads read_version_zero no_flags (to_bytes (header_of 0))
unfolding read_version_zero
Reads-version_zero n tail =
    rw (Reads-header (header_of 0) (header_of-IsFullBoxHeader 0 (omega arith)) n tail) refl

pub Writes-version_zero : Writes (λ w. write_version_zero w) (to_bytes (header_of 0))
unfolding write_version_zero
Writes-version_zero = Writes-header (header_of 0)

-- An offset of a version: unsigned in version 0, signed from version 1 on.
abbrev pub IsOffset : ℕ → ℤ → Type 0
IsOffset zero (pos n) = IsU32 n
IsOffset zero (negsuc n) = ⊥
IsOffset (suc version) offset = InRange (2 ^ 31) offset

abbrev pub offset_bytes : ℕ → ℤ → List ℕ
offset_bytes zero (pos n) = to_be_bytes 4 n
offset_bytes zero (negsuc n) = []
offset_bytes (suc version) offset = to_be_bytes 4 (to_bits (2 ^ 31) offset)

suc_above : (n : ℕ) → (suc n == 0) ≡ false
suc_above n = ground arith

pub Reads-offset :
    (version : ℕ) (offset : ℤ)
    → IsOffset version offset
    → Reads (λ r. read_composition_offset r version) offset (offset_bytes version offset)
unfolding read_composition_offset
Reads-offset zero (pos m) h n tail = rw (Reads-u32 m h n tail) refl
Reads-offset zero (negsuc m) h n tail = absurd h
Reads-offset (suc version) offset h n tail = rw (suc_above version) (Reads-i32 offset h n tail)

pub Writes-offset :
    (version : ℕ) (offset : ℤ)
    → IsOffset version offset
    → Writes (λ w. write_composition_offset w version offset) (offset_bytes version offset)
unfolding write_composition_offset
Writes-offset zero (pos m) h w fits = Writes-unsigned FieldWidth.compact m h w fits
Writes-offset zero (negsuc m) h w fits = absurd h
Writes-offset (suc version) offset h w fits =
    rw (suc_above version) (Writes-signed FieldWidth.compact offset h w fits)

-- A version of a box whose times have 4 bytes in version 0 and 8 in version 1.
abbrev pub IsVersion : ℕ → Type 0
IsVersion version = version ≤ 1

abbrev pub width_at : ℕ → FieldWidth
width_at zero = FieldWidth.compact
width_at (suc version) = FieldWidth.extended

pub version_width_lem :
    (version : ℕ) → IsVersion version → version_width version ≡ ok (width_at version)
unfolding version_width
version_width_lem zero h = refl
version_width_lem (suc zero) h = refl
version_width_lem (suc (suc version)) h = absurd (omega arith)

-- A length that the version sets is the length with the width of the version.
pub len_lem :
    (version narrow wide : ℕ) (len : ℕ → ℕ)
    → IsVersion version
    → len 4 ≡ narrow
    → len 8 ≡ wide
    → (if version == 1 then wide else narrow) ≡ len (width_len (width_at version))
len_lem zero narrow wide len h en ew = sym en
len_lem (suc zero) narrow wide len h en ew = sym ew
len_lem (suc (suc version)) narrow wide len h en ew = absurd (omega arith)

pub len_zero_lem :
    (version narrow wide : ℕ) (len : ℕ → ℕ)
    → IsVersion version
    → len 4 ≡ narrow
    → len 8 ≡ wide
    → (if version == 0 then narrow else wide) ≡ len (width_len (width_at version))
len_zero_lem zero narrow wide len h en ew = sym en
len_zero_lem (suc zero) narrow wide len h en ew = sym ew
len_zero_lem (suc (suc version)) narrow wide len h en ew = absurd (omega arith)
