-- ===== src/Timeline/Multiples/Least.antt =====
-- The least number whose multiple lies in a range, from the wraps and without them.
use isobmff_rs.Common.{
  ℕ, zero, ◌≡◌, ◌+◌, ◌-◌, ◌*◌, ◌/◌, ◌%◌, ◌^◌, ◌<◌, ◌≤◌, Option, none, some, ap, ◌∙◌, arith, le→ltb,
}
use native.Mathlib.Decide.{dec_lt}
use native.Mathlib.Nat.{
  mod-le, mod-eq_of_lt, mul-add, mul_comm, mul-le-mul_left, mul-le-mul, add-mul-mod_self_right,
  zero-mod, zero-mul,
}
use isobmff_rs.Common.Words.{div_ceil, u128_max}
use isobmff_rs.Timeline.Multiples.{from_wraps}
use isobmff_rs.Timeline.Multiples.Ceiling.{div_ceil_bounds, div_ceil_least}
use isobmff_rs.Timeline.Multiples.Wraps.{
  Hits, Hits-Wraps, Wraps-Hits, IsSplit, outer, Wraps-outward, Wraps-inward,
}

-- The least number whose multiple lies in the range, or none where there is no such number.
abbrev pub Least : ℕ → ℕ → ℕ → ℕ → Option ℕ → Type 0
Least step modulus low high none = (x : ℕ) → ¬ Hits step modulus low high x
Least step modulus low high (some x) =
    Hits step modulus low high x × ((y : ℕ) → Hits step modulus low high y → x ≤ y)

-- The multiples recur after as many steps as the modulus, so the least number is below it.
Least-lt :
    (step modulus low high x : ℕ) → 0 < modulus → Least step modulus low high (some x) → x < modulus
Least-lt step modulus low high x above ((hl, hh), least) = elim (dec_lt x modulus) [
  | yes below ↦ below
  | no past ↦
      let y : ℕ = x - modulus in
      let ex : x ≡ y + modulus = omega (arith, past) in
      let e : step * x % modulus ≡ step * y % modulus =
        ap (λ v. step * v % modulus) ex
        ∙ (ap (λ v. v % modulus) (mul-add step y modulus)
            ∙ add-mul-mod_self_right (step * y) step modulus) in
      absurd (omega (arith, least y (omega (arith, e), omega (arith, e)), ex))
]

-- A step of 0 never leaves 0.
pub none-Least : (modulus low high : ℕ) → 0 < low → Least zero modulus low high none
none-Least modulus low high above x (hl, hh) =
    let e : zero * x % modulus ≡ 0 = ap (λ v. v % modulus) (zero-mul x) ∙ zero-mod modulus in
    omega (arith, e)

-- A multiple of the step between the ends is the least one past the lower end.
pub some-Least :
    (step modulus low high : ℕ)
    → 0 < step
    → high < modulus
    → div_ceil low step * step ≤ high
    → Least step modulus low high (some (div_ceil low step))
some-Least step modulus low high above below within =
    let first : ℕ = div_ceil low step in
    let comm = mul_comm first step in
    let e : step * first % modulus ≡ step * first = mod-eq_of_lt (omega (arith, comm)) in
    (
      (omega (arith, e, (div_ceil_bounds low step above).0), omega (arith, e, comm)),
      λ y h. div_ceil_least low step y above (omega (arith, h.0, mod-le (step * y) modulus)),
    )

-- Products of numbers up to 2 ^ 63 leave room in 128 bits.
product_bound : (a b : ℕ) → a ≤ 2 ^ 63 → b ≤ 2 ^ 63 → a * b ≤ 2 ^ 126
product_bound a b ha hb = mul-le-mul ha hb

module _ (step modulus low high : ℕ) (above : 0 < step) (below : high < modulus)
    (narrow : step < modulus) (small : modulus ≤ 2 ^ 63)
    (quotient rest between low_rest high_rest : ℕ)
    (split : IsSplit step quotient rest between low_rest high_rest modulus low high) where
  -- The least number of wraps gives the least multiple.
  pub wraps-Least :
      (r : Option ℕ)
      → Least rest step (step - high_rest) (step - low_rest) r
      → Least step modulus low high (from_wraps step modulus low r)
  wraps-Least none h = λ x hits.
      let (z, w) =
        Wraps-inward step quotient rest between low_rest high_rest modulus low high split x _
          (Hits-Wraps step modulus low high x hits) in
      h (step * x / modulus) (
        Wraps-Hits rest step (step - high_rest) (step - low_rest) (step * x / modulus) z
          (omega (arith, split.low_above)) w)
  wraps-Least (some w) (hits, least) =
      let total : ℕ = modulus * w + low in
      let c : ℕ = div_ceil total step in
      let z : ℕ = rest * w / step in
      let x : ℕ = outer step quotient rest between low_rest high_rest modulus low high split w z in
      let (xl, xh) =
        Wraps-outward step quotient rest between low_rest high_rest modulus low high split w z
          (Hits-Wraps rest step (step - high_rest) (step - low_rest) w hits) in
      let w_below = Least-lt rest step (step - high_rest) (step - low_rest) w above (hits, least) in
      let product = product_bound modulus w small (omega (arith, w_below)) in
      let c_le = mul-le-mul_left step (div_ceil_least total step x above xl) in
      let (cl, _) = div_ceil_bounds total step above in
      rw
        (
          le→ltb u128_max (modulus * w) (omega (arith, product)),
          le→ltb u128_max total (omega (arith, product)),
        )
        (
          Wraps-Hits step modulus low high c w below (cl, omega (arith, c_le, xh)),
          λ y h.
              let (zy, wy) =
                Wraps-inward step quotient rest between low_rest high_rest modulus low high split y
                  _ (Hits-Wraps step modulus low high y h) in
              let wraps : ℕ = step * y / modulus in
              let inner = least wraps (
                Wraps-Hits rest step (step - high_rest) (step - low_rest) wraps zy
                  (omega (arith, split.low_above)) wy) in
              let scaled = mul-le-mul_left modulus inner in
              div_ceil_least total step y above
                (omega (arith, scaled, (Hits-Wraps step modulus low high y h).0)),
        )
