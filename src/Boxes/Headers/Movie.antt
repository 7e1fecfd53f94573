-- ===== src/Boxes/Headers/Movie.antt =====
-- The headers of a media and of a movie, written and read back.
use mathlib.Core.Path.{subst}
use isobmff_rs.Boxes.Table.{read_times}
use isobmff_rs.Core.Field.{read_i32}
use isobmff_rs.Core.Codec.Actions.{Writes-seq}
use isobmff_rs.Common.{
  length-append, ℕ, zero, suc, ◌≡◌, ◌+◌, ◌%◌, ◌<◌, ◌≤◌, ◌^◌, ◌==◌, if◌then◌else◌, false, List, [],
  ◌∷◌, ◌++◌, length, refl, ◌∙◌, arith, All, replicate,
}
use isobmff_rs.Common.Int.{ℤ, InRange, to_bits}
use isobmff_rs.Common.Words.{saturating_add}
use isobmff_rs.Common.Bytes.{to_be_bytes, length-to_be_bytes}
use isobmff_rs.Common.Result.{◌>>=◌}
use isobmff_rs.Core.FullBox.{to_bytes}
use isobmff_rs.Core.FullBox.RoundTrip.{length-to_bytes}
use isobmff_rs.Core.Field.{FieldWidth}
use isobmff_rs.Core.Field.Kinds.{Field, IsField}
use isobmff_rs.Core.Field.RoundTrip.{wires}
use isobmff_rs.Core.Codec.Actions.{Writes, Reads, Reads-slice}
use isobmff_rs.Core.Codec.Fields.{
  length-wires, Writes-all, Reads-u16, Reads-u32, Reads-i16, Reads-i32, Reads-unsigned, width_len,
  Writes-i32, wires_before, length-wires_before, Writes-before, write_all,
}
use isobmff_rs.Core.Codec.RoundTrip.{IsCodec}
use isobmff_rs.Boxes.FullBox.{write_header}
use isobmff_rs.Boxes.FullBox.RoundTrip.{
  header_of, header_of-IsFullBoxHeader, Reads-header, IsVersion, width_at, version_width_lem,
}
use isobmff_rs.Boxes.Table.RoundTrip.{
  IsEntry, entry_bytes, Writes-entries, Reads-times, length-entry_bytes, All_map,
}
use isobmff_rs.Boxes.Headers.{
  i32_entry, read_matrix, write_matrix, MediaHeaderBox, mdhd_codec, MovieHeaderBox, mvhd_codec,
}

abbrev pub mdhd_fields : MediaHeaderBox → List Field
mdhd_fields x =
    Field.bytes (to_bytes (header_of x.version))
    ∷ Field.unsigned (width_at x.version) x.creation_time
    ∷ Field.unsigned (width_at x.version) x.modification_time
    ∷ Field.u32 x.timescale
    ∷ Field.unsigned (width_at x.version) x.duration
    ∷ Field.u16 x.language
    ∷ Field.bytes (replicate 2 0)
    ∷ []

-- Fields in range, of a version that is read, and a language of 15 bits.
pub record IsMediaHeader (x : MediaHeaderBox) : Type 0 where
  pub versioned : IsVersion x.version
  pub fields : All IsField (mdhd_fields x)
  pub packed : x.language < 2 ^ 15

-- The length of the times of a header, and of as many bytes after them.
pub times_len_lem :
    (version narrow wide after : ℕ) (len : ℕ → ℕ)
    → IsVersion version
    → len 4 ≡ narrow
    → len 8 ≡ wide
    → narrow ≤ 100
    → wide ≤ 100
    → after ≤ 100
    → saturating_add (if version == 1 then wide else narrow) after
      ≡ len (width_len (width_at version)) + after
times_len_lem zero narrow wide after len v en ew bn bw ba = rw en (omega arith)
times_len_lem (suc zero) narrow wide after len v en ew bn bw ba = rw ew (omega arith)
times_len_lem (suc (suc version)) narrow wide after len v en ew bn bw ba = absurd (omega arith)

pub mdhd-IsCodec : (x : MediaHeaderBox) → IsMediaHeader x → IsCodec mdhd_codec x
unfolding write_header
mdhd-IsCodec x v =
    let width : FieldWidth = width_at x.version in
    let h = v.fields in
    let e : x.language % 2 ^ 15 ≡ x.language = omega (arith, v.packed) in
    record {
      payload = wires (mdhd_fields x);
      counted =
          times_len_lem x.version 16 28 8 (λ n. n + (n + (4 + n))) v.versioned refl refl
            (omega arith) (omega arith) (omega arith)
          ∙ rw (length-wires (mdhd_fields x), length-to_bytes (header_of x.version)) (omega arith);
      writes = rw (version_width_lem x.version v.versioned) (Writes-all (mdhd_fields x) h);
      reads = λ n.
          rw
            (
              Reads-header (header_of x.version)
                  (header_of-IsFullBoxHeader x.version (omega (arith, v.versioned))) n _,
              version_width_lem x.version v.versioned,
              Reads-unsigned width x.creation_time h.1.0 n _,
              Reads-unsigned width x.modification_time h.1.1.0 n _,
              Reads-u32 x.timescale h.1.1.1.0 n _,
              Reads-unsigned width x.duration h.1.1.1.1.0 n _,
              Reads-u16 x.language h.1.1.1.1.1.0 n _,
              Reads-slice (replicate 2 0) n _,
              e,
            )
            refl;
    }

-- Nine integers of 32 bits.
pub record IsMatrix (matrix : List ℤ) : Type 0 where
  pub nine : length matrix ≡ 9
  pub ranged : All (InRange (2 ^ 31)) matrix

abbrev pub i32_bytes : ℤ → List ℕ
i32_bytes n = to_be_bytes 4 (to_bits (2 ^ 31) n)

i32-IsEntry : (n : ℤ) → InRange (2 ^ 31) n → IsEntry i32_entry i32_bytes n
i32-IsEntry n h = record {
  sized = length-to_be_bytes 4 _;
  writes = Writes-i32 n h;
  reads = Reads-i32 n h;
}

abbrev pub matrix_bytes : List ℤ → List ℕ
matrix_bytes matrix = entry_bytes i32_bytes matrix

matrix_entries : (matrix : List ℤ) → IsMatrix matrix → All (IsEntry i32_entry i32_bytes) matrix
matrix_entries matrix m =
    All_map (InRange (2 ^ 31)) (IsEntry i32_entry i32_bytes) i32-IsEntry matrix m.ranged

pub length-matrix_bytes : (matrix : List ℤ) → IsMatrix matrix → length (matrix_bytes matrix) ≡ 36
length-matrix_bytes matrix m =
    omega (arith, length-entry_bytes i32_entry i32_bytes matrix (matrix_entries matrix m), m.nine)

pub Reads-matrix :
    (matrix : List ℤ) → IsMatrix matrix → Reads read_matrix matrix (matrix_bytes matrix)
Reads-matrix matrix m =
    subst (λ (k : ℕ). Reads (λ r. read_times k read_i32 r) matrix (matrix_bytes matrix)) m.nine
      (Reads-times i32_entry i32_bytes matrix (matrix_entries matrix m))

pub Writes-matrix :
    (matrix : List ℤ) → IsMatrix matrix → Writes (write_matrix matrix) (matrix_bytes matrix)
Writes-matrix matrix m = Writes-entries i32_entry i32_bytes matrix (matrix_entries matrix m)

-- The fields before the matrix and after it.
abbrev pub mvhd_front : MovieHeaderBox → List Field
mvhd_front x =
    Field.bytes (to_bytes (header_of x.version))
    ∷ Field.unsigned (width_at x.version) x.creation_time
    ∷ Field.unsigned (width_at x.version) x.modification_time
    ∷ Field.u32 x.timescale
    ∷ Field.unsigned (width_at x.version) x.duration
    ∷ Field.i32 x.rate
    ∷ Field.i16 x.volume
    ∷ Field.bytes (replicate 10 0)
    ∷ []

abbrev pub mvhd_back : MovieHeaderBox → List Field
mvhd_back x = Field.bytes (replicate 24 0) ∷ Field.u32 x.next_track_id ∷ []

pub record IsMovieHeader (x : MovieHeaderBox) : Type 0 where
  pub versioned : IsVersion x.version
  pub front : All IsField (mvhd_front x)
  pub back : All IsField (mvhd_back x)
  pub placed : IsMatrix x.matrix
  pub next : 0 < x.next_track_id

pub above_zero : (n : ℕ) → 0 < n → (n == 0) ≡ false
above_zero n h = ground arith

pub mvhd-IsCodec : (x : MovieHeaderBox) → IsMovieHeader x → IsCodec mvhd_codec x
unfolding write_header
mvhd-IsCodec x v =
    let width : FieldWidth = width_at x.version in
    let h = v.front in
    let inner : List ℕ = matrix_bytes x.matrix ++ wires (mvhd_back x) in
    record {
      payload = wires_before (mvhd_front x) inner;
      counted =
          times_len_lem x.version 16 28 84 (λ n. n + (n + (4 + n))) v.versioned refl refl
            (omega arith) (omega arith) (omega arith)
          ∙ rw
              (
                length-wires_before (mvhd_front x) inner,
                length-append (matrix_bytes x.matrix) (wires (mvhd_back x)),
                length-matrix_bytes x.matrix v.placed,
                length-wires (mvhd_back x),
                length-to_bytes (header_of x.version),
              )
              (omega arith);
      writes =
          rw (version_width_lem x.version v.versioned, above_zero x.next_track_id v.next)
            (Writes-before (mvhd_front x)
              (λ w. write_matrix x.matrix w >>= λ w'. write_all w' (mvhd_back x)) inner h
              (Writes-seq (write_matrix x.matrix) (λ w. write_all w (mvhd_back x)) _ _
                (Writes-matrix x.matrix v.placed) (Writes-all (mvhd_back x) v.back)));
      reads = λ n.
          rw
            (
              Reads-header (header_of x.version)
                  (header_of-IsFullBoxHeader x.version (omega (arith, v.versioned))) n _,
              version_width_lem x.version v.versioned,
              Reads-unsigned width x.creation_time h.1.0 n _,
              Reads-unsigned width x.modification_time h.1.1.0 n _,
              Reads-u32 x.timescale h.1.1.1.0 n _,
              Reads-unsigned width x.duration h.1.1.1.1.0 n _,
              Reads-i32 x.rate h.1.1.1.1.1.0 n _,
              Reads-i16 x.volume h.1.1.1.1.1.1.0 n _,
              Reads-slice (replicate 10 0) n _,
              Reads-matrix x.matrix v.placed n _,
              Reads-slice (replicate 24 0) n _,
              Reads-u32 x.next_track_id v.back.1.0 n _,
            )
            refl;
    }
