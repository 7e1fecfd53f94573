-- ===== src/Timeline/Multiples/Search.antt =====
-- What `first_multiple_in_range` and `first_in_range` find, by induction on the turns.
use isobmff_rs.Common.{
  ℕ, zero, suc, ◌≡◌, ◌+◌, ◌-◌, ◌*◌, ◌/◌, ◌%◌, ◌^◌, ◌<◌, ◌≤◌, ◌==◌, leb, true, false, Option, none,
  some, refl, sym, arith, inl, inr, Bool-cases, leb→le, le→ltb, ◌↔◌,
}
use native.Mathlib.Decide.{dec_lt}
use native.Mathlib.Nat.{
  div-add-mod, mod-lt, mod-eq_of_lt, mul-add, mul_comm, mul-le-mul_left, mul-zero,
}
use isobmff_rs.Common.Words.{div_ceil, u128_max}
use isobmff_rs.Timeline.Multiples.{
  from_wraps, first_multiple_from, first_multiple_in_range, first_in_range,
}
use isobmff_rs.Timeline.Multiples.Ceiling.{div_ceil_bounds, div_ceil_least}
use isobmff_rs.Timeline.Multiples.Wraps.{Hits, past_lem, IsSplit}
use isobmff_rs.Timeline.Multiples.Least.{Least, none-Least, some-Least, wraps-Least}
use native.Mathlib.Nat.{mod-add-mod}

rest_above :
    (step low q r : ℕ) → 0 < step → low ≡ step * q + r → low < step * div_ceil low step → 0 < r
rest_above step low q zero above e past =
    let bound = mul-le-mul_left step (div_ceil_least low step q above (omega arith)) in
    absurd (omega (arith, bound))
rest_above step low q (suc r) above e past = omega arith

leb-lt : (a b : ℕ) → leb a b ≡ false → b < a
leb-lt a b h = ground arith

suc_above : (n : ℕ) → (suc n == 0) ≡ false
suc_above n = ground arith

-- The split of the range, where the first multiple past its lower end is past its upper end too.
range_split :
    (step modulus low high : ℕ)
    → 0 < step
    → 0 < low
    → low ≤ high
    → high < step * div_ceil low step
    → IsSplit step
        (modulus / step)
        (modulus % step)
        (low / step)
        (low % step)
        (high % step)
        modulus
        low
        high
range_split step modulus low high above positive ordered past =
    let q : ℕ = low / step in
    let lr : ℕ = low % step in
    let hr : ℕ = high - step * q in
    let el : step * q + lr ≡ low = div-add-mod low step in
    let ls = mod-lt low above in
    let after =
      mul-le-mul_left step
        (div_ceil_least low step (q + 1) above (omega (arith, el, ls, mul-add step q 1))) in
    let eh : high % step ≡ hr =
      past_lem step high q hr (omega (arith, el)) (omega (arith, after, past, mul-add step q 1)) in
    record {
      modulus_split = sym (div-add-mod modulus step);
      low_split = sym el;
      high_split = omega (arith, eh, el);
      low_above = rest_above step low q lr above (sym el) (omega (arith, past, ordered));
      high_below = mod-lt high above;
      ordered = omega (arith, eh, el);
    }

-- One turn, where no multiple overruns 128 bits: the first multiple, or the wraps.
module _ (fuel n modulus low high : ℕ) (fits : div_ceil low (suc n) * suc n ≤ u128_max) where
  turn_within :
      leb (div_ceil low (suc n) * suc n) high ≡ true
      → first_multiple_from (suc fuel) (suc n) modulus low high ≡ some (div_ceil low (suc n))
  unfolding first_multiple_from
  turn_within within =
      rw (first_multiple_from, le→ltb u128_max (div_ceil low (suc n) * suc n) fits, within) refl

  turn_past :
      leb (div_ceil low (suc n) * suc n) high ≡ false
      → first_multiple_from (suc fuel) (suc n) modulus low high
        ≡ from_wraps (suc n) modulus low (
            first_multiple_from fuel
              (modulus % suc n)
              (suc n)
              (suc n - high % suc n)
              (suc n - low % suc n))
  unfolding first_multiple_from
  turn_past past =
      let lr = mod-lt low {m = suc n} (omega arith) in
      let hr = mod-lt high {m = suc n} (omega arith) in
      rw
        (
          first_multiple_from,
          le→ltb u128_max (div_ceil low (suc n) * suc n) fits,
          past,
          suc_above n,
          le→ltb (suc n) (high % suc n) (omega (arith, hr)),
          le→ltb (suc n) (low % suc n) (omega (arith, lr)),
        )
        refl

-- `first_multiple_from` on more fuel than the step finds the least number.
first_multiple_from-Least :
    (fuel step modulus low high : ℕ)
    → step < fuel
    → step < modulus
    → modulus ≤ 2 ^ 63
    → 0 < low
    → low ≤ high
    → high < modulus
    → Least step modulus low high (first_multiple_from fuel step modulus low high)
unfolding first_multiple_from
first_multiple_from-Least zero step modulus low high enough narrow small positive ordered below =
    absurd (omega arith)
first_multiple_from-Least (suc fuel) zero modulus low high enough narrow small positive ordered
      below =
    none-Least modulus low high positive
first_multiple_from-Least (suc fuel) (suc n) modulus low high enough narrow small positive ordered
      below =
    let step : ℕ = suc n in
    let first : ℕ = div_ceil low step in
    let (_, near) = div_ceil_bounds low step (omega arith) in
    let comm = mul_comm first step in
    let fits : first * step ≤ u128_max = omega (arith, near, comm) in
    elim (Bool-cases (leb (first * step) high)) [
      | inl within ↦
          rw (turn_within fuel n modulus low high fits within)
            (some-Least step modulus low high (omega arith) below (leb→le _ _ within))
      | inr past ↦
          let lost : high < first * step = leb-lt _ _ past in
          let mr = mod-lt modulus {m = step} (omega arith) in
          let split =
            range_split step modulus low high (omega arith) positive ordered
              (omega (arith, lost, comm)) in
          let lr = mod-lt low {m = step} (omega arith) in
          let hr = mod-lt high {m = step} (omega arith) in
          let inner =
            first_multiple_from-Least fuel (modulus % step) step (step - high % step)
              (step - low % step) (omega (arith, mr)) (omega (arith, mr)) (omega arith)
              (omega (arith, hr)) (omega (arith, split.ordered))
              (omega (arith, split.low_above, lr)) in
          rw (turn_past fuel n modulus low high fits past) (
            wraps-Least step modulus low high (omega arith) below narrow small (modulus / step)
              (modulus % step) (low / step) (low % step) (high % step) split _ inner)
    ]

-- Where a step is below the modulus, which is at most 2 ^ 63, and the range lies above 0 and below the
-- modulus, `first_multiple_in_range` finds the least number whose multiple of the step, modulo the
-- modulus, lies in the range, and answers `none` exactly where there is no such number.
pub first_multiple_in_range-Least :
    (step modulus low high : ℕ)
    → step < modulus
    → modulus ≤ 2 ^ 63
    → 0 < low
    → low ≤ high
    → high < modulus
    → Least step modulus low high (first_multiple_in_range step modulus low high)
unfolding first_multiple_in_range
first_multiple_in_range-Least step modulus low high narrow small positive ordered below =
    first_multiple_from-Least (suc step) step modulus low high (omega arith) narrow small positive
      ordered below

-- The sum `step * x + offset`, modulo `modulus`, is `low` at least.
abbrev pub Reaches : ℕ → ℕ → ℕ → ℕ → ℕ → Type 0
Reaches step offset modulus low x = low ≤ (step * x + offset) % modulus

abbrev pub LeastReach : ℕ → ℕ → ℕ → ℕ → Option ℕ → Type 0
LeastReach step offset modulus low none = (x : ℕ) → ¬ Reaches step offset modulus low x
LeastReach step offset modulus low (some x) =
    Reaches step offset modulus low x × ((y : ℕ) → Reaches step offset modulus low y → x ≤ y)

module _ (step offset modulus low : ℕ) (placed : offset < modulus) (bounded : low < modulus) where
  -- The sums that reach are the multiples in the range above the offset.
  reach-Hits :
      (x : ℕ)
      → offset < low
      → Reaches step offset modulus low x
        ↔ Hits step modulus (low - offset) (modulus - offset - 1) x
  reach-Hits x above =
      let k : ℕ = step * x % modulus in
      let below = mod-lt (step * x) {m = modulus} (omega arith) in
      let e : (k + offset) % modulus ≡ (step * x + offset) % modulus =
        mod-add-mod (step * x) modulus offset in
      elim (dec_lt (k + offset) modulus) [
        | yes within ↦
            let r : (k + offset) % modulus ≡ k + offset = mod-eq_of_lt within in
            (λ h. (omega (arith, e, r, h), omega (arith, within)), λ h. omega (arith, e, r, h.0))
        | no past ↦
            let r : (k + offset) % modulus ≡ k + offset - modulus =
              past_lem modulus (k + offset) 1 (k + offset - modulus) (omega (arith, past))
                (omega (arith, below)) in
            (λ h. absurd (omega (arith, e, r, h, below)), λ h. absurd (omega (arith, h.1, past)))
      ]

  first_in_range_within : leb low offset ≡ true → first_in_range step offset modulus low ≡ some 0
  unfolding first_in_range
  first_in_range_within within = rw (first_in_range, within) refl

  first_in_range_past :
      leb low offset ≡ false
      → first_in_range step offset modulus low
        ≡ first_multiple_in_range step modulus (low - offset) (modulus - offset - 1)
  unfolding first_in_range
  first_in_range_past past =
      let above = leb-lt low offset past in
      rw
        (
          first_in_range,
          past,
          le→ltb low offset (omega (arith, above)),
          le→ltb modulus offset (omega arith),
          le→ltb (modulus - offset) 1 (omega arith),
        )
        refl

  reach-Least :
      (r : Option ℕ)
      → offset < low
      → Least step modulus (low - offset) (modulus - offset - 1) r
      → LeastReach step offset modulus low r
  reach-Least none above h = λ x reaches. h x ((reach-Hits x above).0 reaches)
  reach-Least (some x) above (hits, least) =
      ((reach-Hits x above).1 hits, λ y reaches. least y ((reach-Hits y above).0 reaches))

  -- Where the step, the offset and the lower bound are below the modulus, which is at most 2 ^ 63,
  -- `first_in_range` finds the least number for which the step times it and the offset, modulo the
  -- modulus, come to the lower bound at least, and answers `none` exactly where there is none.
  pub first_in_range-LeastReach :
      step < modulus
      → modulus ≤ 2 ^ 63
      → LeastReach step offset modulus low (first_in_range step offset modulus low)
  first_in_range-LeastReach narrow small = elim (Bool-cases (leb low offset)) [
    | inl within ↦
        let e : (step * 0 + offset) % modulus ≡ offset =
          past_lem modulus (step * 0 + offset) 0 offset
            (omega (arith, mul-zero step, mul-zero modulus)) placed in
        rw (first_in_range_within within)
          (omega (arith, e, leb→le low offset within), λ y h. omega arith)
    | inr past ↦
        let above = leb-lt low offset past in
        rw (first_in_range_past past) (
          reach-Least _ above (
            first_multiple_in_range-Least step modulus (low - offset) (modulus - offset - 1) narrow
              small (omega (arith, above)) (omega (arith, above)) (omega arith)))
  ]
