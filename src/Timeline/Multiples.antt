-- ===== src/Timeline/Multiples.antt =====
-- crates/isobmff/src/timeline.rs, `first_in_range` and `first_multiple_in_range`: the pass over an edit
-- list in which an edit lasts one tick longer.
pub mod Ceiling
pub mod Wraps
pub mod Least
pub mod Search
mod Examples
use isobmff_rs.Common.{
  ℕ, zero, suc, ◌-◌, ◌==◌, leb, Bool, true, false, if◌then◌else◌, Option, none, some,
}
use isobmff_rs.Common.Words.{u128_checked_mul, u128_checked_add, checked_rem, checked_sub, div_ceil}
use isobmff_rs.Common.Chain.{◌>>=◌}

-- What the wraps past the modulus give.
abbrev pub from_wraps : ℕ → ℕ → ℕ → Option ℕ → Option ℕ
from_wraps step modulus low wraps = do
  w ← wraps
  product ← u128_checked_mul modulus w
  total ← u128_checked_add product low
  some (div_ceil total step)

-- The turns of `first_multiple_in_range`, as far as the fuel goes.
unfoldable pub first_multiple_from : ℕ → ℕ → ℕ → ℕ → ℕ → Option ℕ
first_multiple_from zero step modulus low high = none
first_multiple_from (suc fuel) zero modulus low high = none
first_multiple_from (suc fuel) (suc n) modulus low high =
    let step : ℕ = suc n in
    let first : ℕ = div_ceil low step in
    elim (u128_checked_mul first step) [
      | none ↦ none
      | some product ↦ elim (leb product high) [
        | true ↦ some first
        | false ↦ from_wraps step modulus low (do
          inner_step ← checked_rem modulus step
          high_rem ← checked_rem high step
          inner_low ← checked_sub step high_rem
          low_rem ← checked_rem low step
          inner_high ← checked_sub step low_rem
          first_multiple_from fuel inner_step step inner_low inner_high)
      ]
    ]

-- `first_multiple_in_range`. The step falls with every turn, so one turn more than it is fuel enough.
unfoldable pub first_multiple_in_range : ℕ → ℕ → ℕ → ℕ → Option ℕ
unfolding first_multiple_from
first_multiple_in_range step modulus low high = first_multiple_from (suc step) step modulus low high

-- `first_in_range`
unfoldable pub first_in_range : ℕ → ℕ → ℕ → ℕ → Option ℕ
first_in_range step offset modulus low = if leb low offset then some 0 else (do
  from ← checked_sub low offset
  beyond ← checked_sub modulus offset
  to ← checked_sub beyond 1
  first_multiple_in_range step modulus from to)
