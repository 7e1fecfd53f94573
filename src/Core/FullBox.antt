-- ===== src/Core/FullBox.antt =====
-- crates/isobmff-core/src/data_types/full_box.rs: the version and the flags that begin a full box.
pub mod RoundTrip
use isobmff_rs.Common.{ℕ, ◌≤◌, ltb, if◌then◌else◌, Option, none, some, List, [], ◌∷◌, drop}
use isobmff_rs.Common.Bytes.{from_be_bytes, to_be_bytes}
use isobmff_rs.Common.Words.{IsU8}

-- `FLAGS_MAXIMUM`
abbrev pub flags_maximum : ℕ
flags_maximum = 0x00ff_ffff

pub record FullBoxFlags : Type 0 where
  pub bits : ℕ

-- `FullBoxFlags::new`
unfoldable pub full_box_flags : ℕ → Option FullBoxFlags
full_box_flags bits = if ltb flags_maximum bits then none else some (record { bits = bits })

-- `FullBoxFlags::ZERO`
abbrev pub no_flags : FullBoxFlags
no_flags = record { bits = 0 }

pub record FullBoxHeader : Type 0 where
  pub version : ℕ
  pub flags : FullBoxFlags

-- `FullBoxHeader::from_bytes`; an array of no bytes does not occur.
unfoldable pub from_bytes : List ℕ → FullBoxHeader
from_bytes [] = record { version = 0; flags = no_flags }
from_bytes (version ∷ flags) = record {
  version = version;
  flags = record { bits = from_be_bytes (0 ∷ flags) };
}

-- `FullBoxHeader::to_bytes`
unfoldable pub to_bytes : FullBoxHeader → List ℕ
to_bytes h = h.version ∷ drop 1 (to_be_bytes 4 h.flags.bits)

abbrev pub IsFlags : FullBoxFlags → Type 0
IsFlags f = f.bits ≤ flags_maximum

pub record IsFullBoxHeader (h : FullBoxHeader) : Type 0 where
  pub versioned : IsU8 h.version
  pub flagged : IsFlags h.flags
