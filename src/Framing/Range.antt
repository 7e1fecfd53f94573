-- ===== src/Framing/Range.antt =====
-- crates/isobmff/src/byte_range.rs, output.rs and convert.rs: positions in a file, bytes for one, and
-- lengths as 64-bit numbers. A `usize` has 64 bits here, as on the targets with such addresses.
use isobmff_rs.Common.{ℕ, ◌≡◌, Option, List, min, arith}
use isobmff_rs.Common.Words.{u64_max, u64_try_from}
use isobmff_rs.Common.Result.{unwrap_or}

pub record ByteRange : Type 0 where
  pub offset : ℕ
  pub length : Option ℕ

pub record Output : Type 0 where
  pub offset : ℕ
  pub bytes : List ℕ

-- `to_u64`
abbrev pub to_u64 : ℕ → ℕ
to_u64 length = unwrap_or (u64_try_from length) u64_max

pub to_u64-min : (n : ℕ) → to_u64 n ≡ min n u64_max
to_u64-min n = ground arith
