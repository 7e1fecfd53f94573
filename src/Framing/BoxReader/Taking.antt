-- ===== src/Framing/BoxReader/Taking.antt =====
-- What a reader splits off the front of its input.
use isobmff_rs.Common.{
  ℕ, zero, suc, ◌≡◌, ◌≤◌, ◌<◌, false, Option, none, some, List, [], ◌∷◌, length, take, drop, min,
  is_empty, refl, arith, length-take,
}
use isobmff_rs.Common.Words.{saturating_add, u64_max}
use isobmff_rs.Framing.Range.{to_u64, to_u64-min}
use isobmff_rs.Framing.BoxReader.{BoxReader}
use isobmff_rs.Framing.BoxReader.Reading.{take_length, take_input}

pub to_u64-small : (n : ℕ) → n ≤ u64_max → to_u64 n ≡ n
to_u64-small n h = omega (arith, to_u64-min n)

is_empty-eq-false : (xs : List ℕ) → 0 < length xs → is_empty xs ≡ false
is_empty-eq-false [] h = absurd (omega arith)
is_empty-eq-false (x ∷ xs) h = refl

pub take-nil : (n : ℕ) → take {A = ℕ} n [] ≡ []
take-nil zero = refl
take-nil (suc n) = refl

-- What `take` splits off an input that is not empty, where the limit allows for a byte.
pub take_input_lem :
    (r : BoxReader) (input : List ℕ) (limit n : ℕ)
    → 0 < n
    → n ≡ min limit (length input)
    → limit ≤ u64_max
    → take_input r input (some limit)
      ≡ some (take n input, drop n input, record r { position = saturating_add r.position n })
unfolding take_input
take_input_lem r input limit n some_byte en bound =
    let el : take_length input (some limit) ≡ n = ground arith in
    let lt : length (take n input) ≡ n = omega (arith, length-take n input) in
    let ee : is_empty (take n input) ≡ false = is_empty-eq-false (take n input) (omega arith) in
    let eu : to_u64 (length (take n input)) ≡ n = rw lt (to_u64-small n (omega arith)) in
    rw (el, ee, eu) refl

pub take_input_empty : (r : BoxReader) (limit : Option ℕ) → take_input r [] limit ≡ none
unfolding take_input
take_input_empty r limit = rw take-nil refl

pub take_input_zero : (r : BoxReader) (input : List ℕ) → take_input r input (some 0) ≡ none
unfolding take_input
take_input_zero r input = let e : min 0 (length input) ≡ 0 = omega arith in rw e refl
