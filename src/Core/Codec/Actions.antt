-- ===== src/Core/Codec/Actions.antt =====
-- What an action on a cursor writes or reads, and how the actions compose.
use isobmff_rs.Common.{
  ℕ, ◌≡◌, ◌≤◌, List, [], ◌++◌, length, drop, refl, arith, sym, ap, ◌∙◌, append_assoc, append-nil,
  length-append, length-drop, drop-append,
}
use isobmff_rs.Common.Result.{Result, ok, ◌>>=◌}
use isobmff_rs.Core.Error.{Error}
use isobmff_rs.Core.Field.{FieldReader, FieldWriter, write_slice, read_slice}
use isobmff_rs.Core.Field.Reading.{write_slice_fits, read_slice-append}

-- The writer past the bytes.
abbrev pub advanced : FieldWriter → List ℕ → FieldWriter
advanced w bytes = record w { written = w.written ++ bytes; rest = drop (length bytes) w.rest }

-- Into a buffer that holds the bytes, the action writes the bytes.
abbrev pub Writes : (FieldWriter → Result Error FieldWriter) → List ℕ → Type 0
Writes act bytes = (w : FieldWriter) → length bytes ≤ length w.rest → act w ≡ ok (advanced w bytes)

advanced-append : (w : FieldWriter) (a b : List ℕ) → advanced (advanced w a) b ≡ advanced w (a ++ b)
advanced-append w a b = rw (append_assoc w.written a b, ← drop-append a b w.rest) refl

pub Writes-seq :
    (f g : FieldWriter → Result Error FieldWriter) (a b : List ℕ)
    → Writes f a
    → Writes g b
    → Writes (λ w. f w >>= g) (a ++ b)
Writes-seq f g a b wf wg w fits =
    let la = length-append a b in
    let ea = wf w (omega arith) in
    let eb = wg (advanced w a) (omega (arith, length-drop (length a) w.rest)) in
    rw (ea, eb) (ap ok (advanced-append w a b))

pub Writes-none : Writes (λ w. ok w) []
Writes-none w fits = rw append-nil refl

pub Writes-bytes : (bytes : List ℕ) → Writes (λ w. write_slice w bytes) bytes
Writes-bytes bytes w fits = write_slice_fits w bytes fits

-- A cursor over a payload of the length, with these bytes to come.
abbrev pub at : ℕ → List ℕ → FieldReader
at n rest = record { rest = rest; payload_len = n }

module _ {A : Type 0} where
  -- From bytes in front of any others, the action reads the value.
  abbrev pub Reads : (FieldReader → Result Error (A × FieldReader)) → A → List ℕ → Type 0
  Reads act a bytes = (n : ℕ) (tail : List ℕ) → act (at n (bytes ++ tail)) ≡ ok (a, at n tail)

  -- From a payload that ends with the bytes, the action reads the value.
  abbrev pub ReadsAll : (FieldReader → Result Error (A × FieldReader)) → A → List ℕ → Type 0
  ReadsAll act a bytes = (n : ℕ) → act (at n bytes) ≡ ok (a, at n [])

  pub Reads-ok : (a : A) → Reads (λ r. ok (a, r)) a []
  Reads-ok a n tail = refl

  pub Reads-ReadsAll :
      (act : FieldReader → Result Error (A × FieldReader)) (a : A) (bytes : List ℕ)
      → Reads act a bytes
      → ReadsAll act a bytes
  Reads-ReadsAll act a bytes h n = ap (λ b. act (at n b)) (sym (append-nil bytes)) ∙ h n []

module _ {A B : Type 0} where
  pub Reads-seq :
      (f : FieldReader → Result Error (A × FieldReader))
      (k : A → FieldReader → Result Error (B × FieldReader)) (a : A) (b : B) (x y : List ℕ)
      → Reads f a x
      → Reads (k a) b y
      → Reads (λ r. f r >>= λ p. k p.0 p.1) b (x ++ y)
  Reads-seq f k a b x y hf hk n tail = rw (append_assoc x y tail, hf n (y ++ tail)) (hk n tail)

  pub ReadsAll-seq :
      (f : FieldReader → Result Error (A × FieldReader))
      (k : A → FieldReader → Result Error (B × FieldReader)) (a : A) (b : B) (x y : List ℕ)
      → Reads f a x
      → ReadsAll (k a) b y
      → ReadsAll (λ r. f r >>= λ p. k p.0 p.1) b (x ++ y)
  ReadsAll-seq f k a b x y hf hk n = rw (hf n y) (hk n)

pub Reads-slice : (bytes : List ℕ) → Reads (λ r. read_slice r (length bytes)) bytes bytes
Reads-slice bytes n tail = read_slice-append (length bytes) n bytes tail refl

pub Writes-last :
    (f : FieldWriter → Result Error FieldWriter) (a : List ℕ) → Writes f a → Writes f (a ++ [])
Writes-last f a h = rw (append-nil a) h
