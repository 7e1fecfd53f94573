-- ===== src/Core/BoxSize.antt =====
-- crates/isobmff-core/src/framing/box_size.rs: the total that a box header declares.
use isobmff_rs.Common.{ℕ, ◌≤◌, Option, none, some, ltb, if◌then◌else◌}
use isobmff_rs.Common.Words.{IsU32, IsU64}

abbrev pub compact_minimum : ℕ
compact_minimum = 8

abbrev pub extended_minimum : ℕ
extended_minimum = 16

pub record CompactSize : Type 0 where
  pub get : ℕ

pub record ExtendedSize : Type 0 where
  pub get : ℕ

pub data BoxSize : Type 0 where
  compact : CompactSize → BoxSize
  extended : ExtendedSize → BoxSize
  to_end_of_file : BoxSize

-- `CompactSize::new`
unfoldable pub compact_size : ℕ → Option CompactSize
compact_size size = if ltb size compact_minimum then none else some (record { get = size })

-- `ExtendedSize::new`
unfoldable pub extended_size : ℕ → Option ExtendedSize
extended_size size = if ltb size extended_minimum then none else some (record { get = size })

-- `BoxSize::total_bytes`
abbrev pub total_bytes : BoxSize → Option ℕ
total_bytes (BoxSize.compact size) = some size.get
total_bytes (BoxSize.extended size) = some size.get
total_bytes BoxSize.to_end_of_file = none

-- The values that `CompactSize::new` and `ExtendedSize::new` give.
abbrev pub IsBoxSize : BoxSize → Type 0
IsBoxSize (BoxSize.compact size) = (compact_minimum ≤ size.get) × IsU32 size.get
IsBoxSize (BoxSize.extended size) = (extended_minimum ≤ size.get) × IsU64 size.get
IsBoxSize BoxSize.to_end_of_file = Unit
