-- ===== src/Common/Int.antt =====
-- Signed integers: `pos n` is n and `negsuc n` is -(n + 1); the two's-complement reading of a word.
use Prim.Native.Nat.{ℕ, ◌+◌, ◌-◌, ◌<◌}
use mathlib.Core.Path.{◌≡◌}
use native.Mathlib.Omega.{arith}
use isobmff_rs.Common.Tests.{ltb, if◌then◌else◌}

pub data ℤ : Type 0 where
  pos : ℕ → ℤ
  negsuc : ℕ → ℤ

-- `bits` of a word as the signed integer of `half * 2` values that it stands for.
unfoldable pub from_bits : ℕ → ℕ → ℤ
from_bits half bits = if ltb bits half then pos bits else negsuc (half + half - bits - 1)

-- The two's-complement word of a signed integer.
unfoldable pub to_bits : ℕ → ℤ → ℕ
to_bits half (pos n) = n
to_bits half (negsuc n) = half + half - n - 1

-- The range of a signed integer of `half * 2` values.
abbrev pub InRange : ℕ → ℤ → Type 0
InRange half (pos n) = n < half
InRange half (negsuc n) = n < half

pub from_bits-to_bits :
    (half : ℕ) (value : ℤ) → InRange half value → from_bits half (to_bits half value) ≡ value
unfolding from_bits to_bits
from_bits-to_bits half (pos n) h = ground arith
from_bits-to_bits half (negsuc n) h = ground arith

pub to_bits-from_bits :
    (half bits : ℕ) → bits < half + half → to_bits half (from_bits half bits) ≡ bits
unfolding from_bits to_bits
to_bits-from_bits half bits h = ground arith

pub to_bits-lt : (half : ℕ) (value : ℤ) → InRange half value → to_bits half value < half + half
unfolding to_bits
to_bits-lt half (pos n) h = omega arith
to_bits-lt half (negsuc n) h = omega arith

pub from_bits-InRange : (half bits : ℕ) → bits < half + half → InRange half (from_bits half bits)
unfolding from_bits
from_bits-InRange half bits h = ground arith
