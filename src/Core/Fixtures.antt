-- ===== src/Core/Fixtures.antt =====
-- Concrete headers and inputs that the examples share.
use isobmff_rs.Common.{ℕ, refl, none, List, [], ◌∷◌, arith, All}
use isobmff_rs.Common.Bytes.{IsByte}
use isobmff_rs.Core.BoxType.{BoxType}
use isobmff_rs.Core.BoxSize.{BoxSize}
use isobmff_rs.Core.BoxHeader.{BoxHeader, IsHeader, IsWritable}

abbrev pub free : BoxType
free = BoxType.compact (record { four_cc = record { bytes = b'f' ∷ b'r' ∷ b'e' ∷ b'e' ∷ [] } })

abbrev pub mdat : BoxType
mdat = BoxType.compact (record { four_cc = record { bytes = b'm' ∷ b'd' ∷ b'a' ∷ b't' ∷ [] } })

-- A header of a `free` box of ten bytes, and one of an `mdat` that runs to the end of the file.
abbrev pub free_header : BoxHeader
free_header = record { box_type = free; size = BoxSize.compact (record { get = 10 }) }

abbrev pub mdat_header : BoxHeader
mdat_header = record { box_type = mdat; size = BoxSize.to_end_of_file }

pub free_header-IsHeader : IsHeader free_header
free_header-IsHeader = record {
  typed = ((refl, omega arith), refl);
  sized = omega arith;
  covered = omega arith;
}

pub mdat_header-IsHeader : IsHeader mdat_header
mdat_header-IsHeader = record { typed = ((refl, omega arith), refl); sized = tt; covered = tt }

pub free_header-IsWritable : IsWritable free_header
free_header-IsWritable = (none, refl)

-- The bytes of the `free` box, its payload of two bytes included.
abbrev pub free_bytes : List ℕ
free_bytes = 0 ∷ 0 ∷ 0 ∷ 10 ∷ b'f' ∷ b'r' ∷ b'e' ∷ b'e' ∷ 1 ∷ 2 ∷ []

-- The first two fields of an `mdat` with a `largesize` field.
abbrev pub large_mdat : List ℕ
large_mdat = 0 ∷ 0 ∷ 0 ∷ 1 ∷ b'm' ∷ b'd' ∷ b'a' ∷ b't' ∷ []

pub free_bytes-IsByte : All IsByte free_bytes
free_bytes-IsByte = omega arith
