-- ===== src/Common/Words.antt =====
-- Unsigned words as native numbers: their ranges, and the operations that saturate or are checked.
use Prim.Native.Nat.{ℕ, ◌+◌, ◌-◌, ◌*◌, ◌/◌, ◌%◌, ◌^◌, ◌<◌, min}
use mathlib.Core.Option.{Option, none, some}
use mathlib.Core.List.{List}
use isobmff_rs.Common.Lists.{replicate}
use native.Mathlib.Omega.{arith}
use isobmff_rs.Common.Tests.{ltb, leb, ◌==◌, if◌then◌else◌}

abbrev pub IsU8 : ℕ → Type 0
IsU8 n = n < 256

abbrev pub IsU16 : ℕ → Type 0
IsU16 n = n < 2 ^ 16

abbrev pub IsU32 : ℕ → Type 0
IsU32 n = n < 2 ^ 32

abbrev pub IsU64 : ℕ → Type 0
IsU64 n = n < 2 ^ 64

abbrev pub u32_max : ℕ
u32_max = 2 ^ 32 - 1

abbrev pub u64_max : ℕ
u64_max = 2 ^ 64 - 1

abbrev pub u128_max : ℕ
u128_max = 2 ^ 128 - 1

-- `u64::saturating_add` and `u64::saturating_sub`
abbrev pub saturating_add : ℕ → ℕ → ℕ
saturating_add a b = min (a + b) u64_max

abbrev pub saturating_sub : ℕ → ℕ → ℕ
saturating_sub a b = a - b

-- `u64::checked_add`
abbrev pub checked_add : ℕ → ℕ → Option ℕ
checked_add a b = if ltb u64_max (a + b) then none else some (a + b)

-- `checked_sub` at any unsigned width
abbrev pub checked_sub : ℕ → ℕ → Option ℕ
checked_sub a b = if ltb a b then none else some (a - b)

-- `u32::try_from(value).ok()` of a wider unsigned integer
abbrev pub u32_try_from : ℕ → Option ℕ
u32_try_from n = if ltb u32_max n then none else some n

-- `u64::try_from` of a `usize`, and `usize::try_from` of a `u64`
abbrev pub u64_try_from : ℕ → Option ℕ
u64_try_from n = if ltb u64_max n then none else some n

abbrev pub usize_try_from : ℕ → Option ℕ
usize_try_from n = if ltb u64_max n then none else some n

-- `u64::saturating_mul`
abbrev pub saturating_mul : ℕ → ℕ → ℕ
saturating_mul a b = min (a * b) u64_max

-- Adding stays within 64 bits.
pub saturating_add-IsU64 : (a b : ℕ) → IsU64 (saturating_add a b)
saturating_add-IsU64 a b = omega arith

-- `u128::checked_mul` and `u128::checked_add`
abbrev pub u128_checked_mul : ℕ → ℕ → Option ℕ
u128_checked_mul a b = if ltb u128_max (a * b) then none else some (a * b)

abbrev pub u128_checked_add : ℕ → ℕ → Option ℕ
u128_checked_add a b = if ltb u128_max (a + b) then none else some (a + b)

-- `checked_div` and `checked_rem` at any unsigned width
abbrev pub checked_div : ℕ → ℕ → Option ℕ
checked_div a b = if b == 0 then none else some (a / b)

abbrev pub checked_rem : ℕ → ℕ → Option ℕ
checked_rem a b = if b == 0 then none else some (a % b)

-- `div_ceil`, for a divisor above 0
abbrev pub div_ceil : ℕ → ℕ → ℕ
div_ceil a b = if a % b == 0 then a / b else a / b + 1

-- `isize::MAX`, the most bytes that an allocation holds
abbrev pub isize_max : ℕ
isize_max = 2 ^ 63 - 1

-- `vec![0; n]`, and `none` where it panics for its length
abbrev pub zeroed : ℕ → Option (List ℕ)
zeroed n = if leb n isize_max then some (replicate n 0) else none
