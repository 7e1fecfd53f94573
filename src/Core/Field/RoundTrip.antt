-- ===== src/Core/Field/RoundTrip.antt =====
-- A run of fields of any kinds, written by `FieldWriter` and read back by `FieldReader`.
use isobmff_rs.Common.{
  ℕ, zero, suc, ◌≡◌, ◌+◌, ◌≤◌, ◌<◌, ◌^◌, List, [], ◌∷◌, ◌++◌, length, length-append, refl, All,
}
use isobmff_rs.Common.{drop, drop-append, length-drop, arith, append_assoc, append-nil, sym}
use isobmff_rs.Common.Words.{saturating_add}
use isobmff_rs.Common.Result.{Result, ok, err, ◌>>=◌}
use isobmff_rs.Core.Error.{Error, error, trailing_buffer, truncated_buffer}
use isobmff_rs.Core.Field.{FieldReader, FieldWriter, reader, writer}
use isobmff_rs.Core.Field.{finish, claimed}
use isobmff_rs.Core.Field.Reading.{write_slice_fits, write_slice_short}
use native.Mathlib.Decide.{dec_lt}
use isobmff_rs.Core.Field.Kinds.{
  Field, IsField, wire, write_field, read_field, write_field_lem, read_wire,
}

-- The fields one after the other.
unfoldable pub write_fields : FieldWriter → List Field → Result Error FieldWriter
write_fields w [] = ok w
write_fields w (f ∷ fs) = write_field w f >>= λ w'. write_fields w' fs

unfoldable pub read_fields : List Field → FieldReader → Result Error (List Field × FieldReader)
read_fields [] r = ok ([], r)
read_fields (f ∷ fs) r = read_field f r >>= λ p. read_fields fs p.1 >>= λ q. ok (p.0 ∷ q.0, q.1)

abbrev pub wires : List Field → List ℕ
wires [] = []
wires (f ∷ fs) = wire f ++ wires fs

-- Fields in range that the rest of the buffer holds are written one after the other.
write_fields_fit :
    (fs : List Field) (w : FieldWriter)
    → All IsField fs
    → length (wires fs) ≤ length w.rest
    → write_fields w fs
      ≡ ok (record w { written = w.written ++ wires fs; rest = drop (length (wires fs)) w.rest })
unfolding write_fields
write_fields_fit [] w h l = rw (append-nil w.written) refl
write_fields_fit (f ∷ fs) w (hf, h) l =
    let bound = length-append (wire f) (wires fs) in
    let w' : FieldWriter = record w {
      written = w.written ++ wire f;
      rest = drop (length (wire f)) w.rest;
    } in
    rw
      (
        write_field_lem w f hf,
        write_slice_fits w (wire f) (omega (arith, bound)),
        write_fields_fit fs w' h (omega (arith, bound, length-drop (length (wire f)) w.rest)),
        append_assoc w.written (wire f) (wires fs),
        drop-append (wire f) (wires fs) w.rest,
      )
      refl

-- Reading the kinds of the fields off their bytes gives the fields, and leaves what follows them.
pub read_fields-wires :
    (fs : List Field) (payload_len : ℕ) (tail : List ℕ)
    → All IsField fs
    → read_fields fs (record { rest = wires fs ++ tail; payload_len = payload_len })
      ≡ ok (fs, record { rest = tail; payload_len = payload_len })
unfolding read_fields
read_fields-wires [] payload_len tail h = refl
read_fields-wires (f ∷ fs) payload_len tail (hf, h) =
    rw
      (
        append_assoc (wire f) (wires fs) tail,
        read_wire payload_len (wires fs ++ tail) f hf,
        read_fields-wires fs payload_len tail h,
      )
      refl

drop_all {ℓ} : {A : Type ℓ} (n : ℕ) (xs : List A) → length xs ≡ n → drop n xs ≡ []
drop_all zero [] h = refl
drop_all zero (x ∷ xs) h = absurd (omega arith)
drop_all (suc n) [] h = refl
drop_all (suc n) (x ∷ xs) h = drop_all n xs (omega arith)

-- Fields in range, written into a buffer that is exactly as long as they are, fill it: the writing
-- finishes, the buffer is their bytes, and reading the same kinds of fields off a payload that
-- begins with those bytes gives the fields and leaves what follows them.
pub read_fields-write_fields :
    (fs : List Field) (buffer tail : List ℕ)
    → All IsField fs
    → length buffer ≡ length (wires fs)
    → (w : FieldWriter) × (write_fields (writer buffer) fs ≡ ok w)
      × (finish w ≡ ok tt)
      × (length w.written ≡ length buffer)
      × (read_fields fs (reader (w.written ++ tail))
          ≡ ok (fs, record { rest = tail; payload_len = length (w.written ++ tail) }))
unfolding finish
read_fields-write_fields fs buffer tail h l =
    let w : FieldWriter = record {
      written = wires fs;
      rest = drop (length (wires fs)) buffer;
      buffer_len = length buffer;
    } in
    (
      w,
      write_fields_fit fs (writer buffer) h (omega arith),
      rw (drop_all (length (wires fs)) buffer l) refl,
      sym l,
      read_fields-wires fs (length (wires fs ++ tail)) tail h,
    )

-- Fields in range that leave bytes of the buffer unclaimed are written, and the writing does not
-- finish: it names how many bytes the fields claimed and how long the buffer is.
pub finish_trailing :
    (fs : List Field) (buffer : List ℕ)
    → All IsField fs
    → length (wires fs) < length buffer
    → (w : FieldWriter) × (write_fields (writer buffer) fs ≡ ok w)
      × (finish w ≡ err (error (trailing_buffer (length (wires fs)) (length buffer))))
unfolding finish
finish_trailing fs buffer h l = (
  record { written = wires fs; rest = drop (length (wires fs)) buffer; buffer_len = length buffer },
  write_fields_fit fs (writer buffer) h (omega arith),
  ground (arith, length-drop (length (wires fs)) buffer),
)

-- The writer counts its buffer.
abbrev IsWriter : FieldWriter → Type 0
IsWriter w = w.buffer_len ≡ length w.written + length w.rest

write_fields_short :
    (fs : List Field) (w : FieldWriter)
    → All IsField fs
    → IsWriter w
    → length w.rest < length (wires fs)
    → length w.written + length (wires fs) < 2 ^ 64
    → (n : ℕ) × (write_fields w fs ≡ err (error (truncated_buffer n w.buffer_len)))
      × (w.buffer_len < n)
      × (n ≤ length w.written + length (wires fs))
unfolding write_fields
write_fields_short [] w h wf l lt = absurd (omega arith)
write_fields_short (f ∷ fs) w (hf, h) wf l lt =
    let bound = length-append (wire f) (wires fs) in
    let w' : FieldWriter = record w {
      written = w.written ++ wire f;
      rest = drop (length (wire f)) w.rest;
    } in
    elim (dec_lt (length w.rest) (length (wire f))) [
      | yes short ↦ (
        saturating_add (claimed w) (length (wire f)),
        rw (write_field_lem w f hf, write_slice_short w (wire f) short) refl,
        omega (arith, bound),
        omega (arith, bound),
      )
      | no fits ↦
          let lw = length-append w.written (wire f) in
          let ld = length-drop (length (wire f)) w.rest in
          let (n, e, lo, hi) =
            write_fields_short fs w' h (omega (arith, lw, ld)) (omega (arith, bound, lw, ld))
              (omega (arith, bound, lw)) in
          (
            n,
            rw (write_field_lem w f hf, write_slice_fits w (wire f) (omega arith)) e,
            lo,
            omega (arith, bound, lw, hi),
          )
    ]

-- Fields in range that are longer than the buffer fail, and the failure names a length past the
-- buffer and no longer than the fields, and the length of the buffer.
pub write_fields_truncated :
    (fs : List Field) (buffer : List ℕ)
    → All IsField fs
    → length buffer < length (wires fs)
    → length (wires fs) < 2 ^ 64
    → (n : ℕ) × (write_fields (writer buffer) fs ≡ err (error (truncated_buffer n (length buffer))))
      × (length buffer < n)
      × (n ≤ length (wires fs))
write_fields_truncated fs buffer h l lt =
    let (n, e, lo, hi) = write_fields_short fs (writer buffer) h (omega arith) l (omega arith) in
    (n, e, lo, omega (arith, hi))
