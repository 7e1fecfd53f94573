-- ===== src/Timeline/Multiples/Wraps.antt =====
-- The multiples of a step that lie in a range past some multiple of the modulus, and the same question
-- about the number of wraps, in the modulus of the step.
use isobmff_rs.Common.{ℕ, ◌≡◌, ◌+◌, ◌-◌, ◌*◌, ◌/◌, ◌%◌, ◌<◌, ◌≤◌, ◌∙◌, ap, arith}
use native.Mathlib.Decide.{dec_lt}
use native.Mathlib.Nat.{
  mul_assoc, add-mul, mul-le-mul_left, div-add-mod, mod-eq_of_lt, mul-add, mul-add-mod_self_left,
}

-- The multiple `step * x`, modulo `modulus`, lies from `low` to `high`.
abbrev pub Hits : ℕ → ℕ → ℕ → ℕ → ℕ → Type 0
Hits step modulus low high x = (low ≤ step * x % modulus) × (step * x % modulus ≤ high)

-- It lies from `low` to `high` past the multiple `modulus * y`.
abbrev pub Wraps : ℕ → ℕ → ℕ → ℕ → ℕ → ℕ → Type 0
Wraps step modulus low high x y = (modulus * y + low ≤ step * x) × (step * x ≤ modulus * y + high)

pub Hits-Wraps :
    (step modulus low high x : ℕ)
    → Hits step modulus low high x
    → Wraps step modulus low high x (step * x / modulus)
Hits-Wraps step modulus low high x (hl, hh) =
    let e = div-add-mod (step * x) modulus in (omega (arith, e), omega (arith, e))

pub past_lem : (modulus n y k : ℕ) → n ≡ modulus * y + k → k < modulus → n % modulus ≡ k
past_lem modulus n y k e h =
    ap (λ v. v % modulus) e ∙ (mul-add-mod_self_left modulus y k ∙ mod-eq_of_lt h)

pub Wraps-Hits :
    (step modulus low high x y : ℕ)
    → high < modulus
    → Wraps step modulus low high x y
    → Hits step modulus low high x
Wraps-Hits step modulus low high x y below (wl, wh) =
    let k : ℕ = step * x - modulus * y in
    let e = past_lem modulus (step * x) y k (omega arith) (omega arith) in
    (omega (arith, e), omega (arith, e))

-- A product over a sum of four, the last of them 1, and a product of a sum.
times_sum : (a b c d : ℕ) → a * (b + c + d + 1) ≡ a * b + a * c + a * d + a
times_sum a b c d = omega (arith, mul-add a (b + c + d) 1, mul-add a (b + c) d, mul-add a b c)

sum_times : (a q r y : ℕ) → (a * q + r) * y ≡ a * (q * y) + r * y
sum_times a q r y = omega (arith, add-mul (a * q) r y, mul_assoc a q y)

-- The modulus is the step `quotient` times and a rest; the ends of the range are the step `between`
-- times, each with a rest of its own.
module _ (step quotient rest between low_rest high_rest modulus low high : ℕ) where
  pub record IsSplit : Type 0 where
    pub modulus_split : modulus ≡ step * quotient + rest
    pub low_split : low ≡ step * between + low_rest
    pub high_split : high ≡ step * between + high_rest
    pub low_above : 0 < low_rest
    pub high_below : high_rest < step
    pub ordered : low_rest ≤ high_rest

  module _ (split : IsSplit) where
    -- The multiple of the step that `y` wraps and `z` more steps come to.
    abbrev pub outer : ℕ → ℕ → ℕ
    outer y z = quotient * y + between + z + 1

    modulus_lem : (y : ℕ) → modulus * y ≡ step * (quotient * y) + rest * y
    modulus_lem y = ap (λ m. m * y) split.modulus_split ∙ sum_times step quotient rest y

    outer_lem :
        (y z : ℕ) → step * outer y z ≡ step * (quotient * y) + step * between + step * z + step
    outer_lem y z = times_sum step (quotient * y) between z

    above_lem : (x y : ℕ) → modulus * y + low ≤ step * x → quotient * y + between < x
    above_lem x y h = elim (dec_lt (quotient * y + between) x) [
      | yes past ↦ past
      | no within ↦
          let le : x ≤ quotient * y + between = omega (arith, within) in
          let bound = mul-le-mul_left step le in
          absurd (
            omega (
              arith,
              bound,
              mul-add step (quotient * y) between,
              modulus_lem y,
              split.low_split,
              split.low_above,
            ))
    ]

    -- Wraps in the modulus of the step come from, and give, wraps of the step.
    pub Wraps-outward :
        (y z : ℕ)
        → Wraps rest step (step - high_rest) (step - low_rest) y z
        → Wraps step modulus low high (outer y z) y
    Wraps-outward y z (wl, wh) = (
      omega (
        arith,
        outer_lem y z,
        modulus_lem y,
        split.low_split,
        split.high_split,
        split.high_below,
        split.ordered,
      ),
      omega (
        arith,
        outer_lem y z,
        modulus_lem y,
        split.low_split,
        split.high_split,
        split.high_below,
        split.ordered,
      ),
    )

    pub Wraps-inward :
        (x y : ℕ)
        → Wraps step modulus low high x y
        → (z : ℕ) × Wraps rest step (step - high_rest) (step - low_rest) y z
    Wraps-inward x y (wl, wh) =
        let past = above_lem x y wl in
        let z : ℕ = x - (quotient * y + between + 1) in
        let ex : x ≡ outer y z = omega (arith, past) in
        let e : step * x ≡ step * (quotient * y) + step * between + step * z + step =
          ap (λ v. step * v) ex ∙ outer_lem y z in
        (
          z,
          (
            omega (
              arith,
              e,
              modulus_lem y,
              split.low_split,
              split.high_split,
              split.high_below,
              split.ordered,
            ),
            omega (
              arith,
              e,
              modulus_lem y,
              split.low_split,
              split.high_split,
              split.high_below,
              split.ordered,
            ),
          ),
        )
