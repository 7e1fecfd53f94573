-- ===== src/Timeline/Multiples/Ceiling.antt =====
-- Division that rounds up, and what it is the least of.
use native.Mathlib.Decide.{dec_lt}
use isobmff_rs.Common.{sym, ℕ, ◌≡◌, ◌+◌, ◌*◌, ◌/◌, ◌%◌, ◌<◌, ◌≤◌, ◌==◌, if◌then◌else◌, arith}
use native.Mathlib.Nat.{div-add-mod, mod-lt, mul-add, mul-le-mul_left}
use isobmff_rs.Common.Words.{div_ceil}

ceil_of :
    (a b q r : ℕ)
    → a ≡ b * q + r
    → r < b
    → (a ≤ b * (if r == 0 then q else q + 1)) × (b * (if r == 0 then q else q + 1) < a + b)
ceil_of a b q r e h = ground (arith, mul-add b q 1)

-- The multiple is no less than the number, and less than one step past it.
pub div_ceil_bounds : (a b : ℕ) → 0 < b → (a ≤ b * div_ceil a b) × (b * div_ceil a b < a + b)
div_ceil_bounds a b h = ceil_of a b (a / b) (a % b) (sym (div-add-mod a b)) (mod-lt a h)

-- It is the least such multiple.
pub div_ceil_least : (a b x : ℕ) → 0 < b → a ≤ b * x → div_ceil a b ≤ x
div_ceil_least a b x h holds = elim (dec_lt x (div_ceil a b)) [
  | yes past ↦
      let bound = mul-le-mul_left b past in
      absurd (omega (arith, bound, mul-add b x 1, (div_ceil_bounds a b h).1))
  | no within ↦ omega (arith, within)
]
