-- ===== src/Core/RawBox/Iteration.antt =====
-- `Boxes`: the iteration ends, yields the boxes in order, and stops behind the first failure.
use isobmff_rs.Common.{
  ℕ, zero, suc, ◌≡◌, ◌≢◌, ◌+◌, ◌≤◌, List, [], ◌∷◌, ◌++◌, length, All, refl, arith, inl, inr, sym,
  ◌∙◌, ap, map,
}
use isobmff_rs.Common.{length-append, All-append}
use mathlib.Core.Path.{subst}
use isobmff_rs.Common.Bytes.{IsByte}
use isobmff_rs.Common.Result.{Result, ok, err, Result-cases}
use isobmff_rs.Core.Error.{Error}
use isobmff_rs.Core.BoxHeader.{IsHeader}
use isobmff_rs.Core.RawBox.{RawBox, split_first, raw_bytes, IsFramed, next, collect, boxes}
use isobmff_rs.Core.RawBox.Framing.{
  split_first-eq-ok, split_first-raw_bytes, length-raw_bytes, encoded_len_bounds,
}

-- Boxes laid end to end, each framed in front of the bytes of those after it.
abbrev pub bytes_of : List RawBox → List ℕ
bytes_of [] = []
bytes_of (b ∷ bs) = raw_bytes b ++ bytes_of bs

abbrev pub AreFramed : List RawBox → Type 0
AreFramed [] = Unit
AreFramed (b ∷ bs) = IsFramed b (bytes_of bs) × AreFramed bs

pub raw_bytes_grow :
    (b : RawBox) (rest : List ℕ)
    → IsHeader b.header
    → 8 + length rest ≤ length (raw_bytes b ++ rest)
raw_bytes_grow b rest valid =
    omega (
      arith,
      length-append (raw_bytes b) rest,
      length-raw_bytes b valid,
      encoded_len_bounds b.header,
    )

split_first_shrinks :
    (input : List ℕ) (b : RawBox) (rest : List ℕ)
    → All IsByte input
    → split_first input ≡ ok (b, rest)
    → 8 + length rest ≤ length input
split_first_shrinks input b rest bytes e =
    let (f, i) = split_first-eq-ok input b rest bytes e in
    omega (arith, ap length i, raw_bytes_grow b rest f.headed)

collect-nil : (fuel : ℕ) → collect fuel [] ≡ []
unfolding collect next
collect-nil zero = refl
collect-nil (suc fuel) = refl

collect_step :
    (fuel : ℕ) (input : List ℕ) (b : RawBox) (rest : List ℕ)
    → 8 ≤ length input
    → split_first input ≡ ok (b, rest)
    → collect (suc fuel) input ≡ ok b ∷ collect fuel rest
unfolding collect next
collect_step fuel [] b rest h e = absurd (omega arith)
collect_step fuel (x ∷ input) b rest h e = ground (arith, e)

collect_failed :
    (fuel x : ℕ) (input : List ℕ) (e : Error)
    → split_first (x ∷ input) ≡ err e
    → collect (suc fuel) (x ∷ input) ≡ err e ∷ []
unfolding collect next
collect_failed fuel x input e h = ground (arith, h, collect-nil fuel)

-- What an iteration over an input yields: the boxes from the front, each framed as its header says,
-- up to the end of the input or to the first bytes that frame no box, whose failure comes last.
pub data Yields : List ℕ → List (Result Error RawBox) → Type 0 where
  done : Yields [] []
  framed :
      {rest : List ℕ} {items : List (Result Error RawBox)} (b : RawBox)
      → IsFramed b rest
      → Yields rest items
      → Yields (raw_bytes b ++ rest) (ok b ∷ items)
  failed :
      {input : List ℕ} (e : Error)
      → input ≢ []
      → split_first input ≡ err e
      → Yields input (err e ∷ [])

collect-Yields :
    (fuel : ℕ) (input : List ℕ)
    → All IsByte input
    → length input ≤ fuel
    → Yields input (collect fuel input)
collect-Yields fuel [] bytes h = rw (collect-nil fuel) done
collect-Yields zero (x ∷ input) bytes h = absurd (omega arith)
collect-Yields (suc fuel) (x ∷ input) bytes h = elim (Result-cases (split_first (x ∷ input))) [
  | inr (e, failure) ↦ rw (collect_failed fuel x input e failure) (failed e (λ p. cc) failure)
  | inl ((b, rest), e) ↦
      let (f, i) = split_first-eq-ok (x ∷ input) b rest bytes e in
      let shorter = split_first_shrinks (x ∷ input) b rest bytes e in
      let rest_bytes = ((All-append IsByte (raw_bytes b) rest).0 (subst (All IsByte) i bytes)).1 in
      rw (collect_step fuel (x ∷ input) b rest (omega arith) e) (
        subst (λ l. Yields l (ok b ∷ collect fuel rest)) (sym i)
          (framed b f (collect-Yields fuel rest rest_bytes (omega arith))))
]

-- Iterating over any input of bytes ends, and yields what `Yields` says of it: the length of the
-- input is fuel enough.
pub boxes-Yields : (input : List ℕ) → All IsByte input → Yields input (boxes input)
unfolding boxes
boxes-Yields input bytes = collect-Yields (length input) input bytes (omega arith)

collect_framed :
    (bs : List RawBox) (fuel : ℕ)
    → AreFramed bs
    → length (bytes_of bs) ≤ fuel
    → collect fuel (bytes_of bs) ≡ map ok bs
collect_framed [] fuel f h = collect-nil fuel
collect_framed (b ∷ bs) zero (f, fs) h =
    absurd (omega (arith, raw_bytes_grow b (bytes_of bs) f.headed))
collect_framed (b ∷ bs) (suc fuel) (f, fs) h =
    let grow = raw_bytes_grow b (bytes_of bs) f.headed in
    collect_step fuel (raw_bytes b ++ bytes_of bs) b (bytes_of bs) (omega arith)
      (split_first-raw_bytes b (bytes_of bs) f)
    ∙ ap (λ t. ok b ∷ t) (collect_framed bs fuel fs (omega arith))

-- Boxes laid end to end, each framed as its header says, are the boxes that the iteration yields,
-- with no failure.
pub boxes-bytes_of : (bs : List RawBox) → AreFramed bs → boxes (bytes_of bs) ≡ map ok bs
unfolding boxes
boxes-bytes_of bs f = collect_framed bs (length (bytes_of bs)) f (omega arith)

Yields-all :
    (input : List ℕ) (bs : List RawBox) (items : List (Result Error RawBox))
    → Yields input items
    → items ≡ map ok bs
    → AreFramed bs × (input ≡ bytes_of bs)
Yields-all input [] items done e = (tt, refl)
Yields-all input [] items (framed b f y) e = absurd (cc)
Yields-all input [] items (failed x n s) e = absurd (cc)
Yields-all input (c ∷ bs) items done e = absurd (cc)
Yields-all input (c ∷ bs) items (framed {rest = rest} {items = more} b f y) e =
    let eb : b ≡ c = cc in
    let (fs, i) = Yields-all rest bs more y (cc) in ((rw (← eb, ← i) f, fs), rw (← eb, ← i) refl)
Yields-all input (c ∷ bs) items (failed x n s) e = absurd (cc)

-- Where the iteration over an input of bytes yields no failure, the input is the bytes of the boxes
-- that it yields, each framed as its header says.
pub boxes_complete :
    (input : List ℕ) (bs : List RawBox)
    → All IsByte input
    → boxes input ≡ map ok bs
    → AreFramed bs × (input ≡ bytes_of bs)
boxes_complete input bs bytes e = Yields-all input bs (boxes input) (boxes-Yields input bytes) e
