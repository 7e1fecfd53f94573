-- ===== src/Boxes/Headers/Track.antt =====
-- The header of a track, written and read back.
use isobmff_rs.Common.{
  ℕ, ◌≡◌, ◌+◌, ◌%◌, ◌/◌, ◌<◌, Bool, true, false, List, [], ◌∷◌, ◌++◌, length, refl, ap, ◌∙◌, arith,
  All, replicate, length-append,
}
use isobmff_rs.Common.Bytes.{to_be_bytes, to_be_onto}
use isobmff_rs.Common.Result.{◌>>=◌}
use isobmff_rs.Core.FullBox.{FullBoxHeader, to_bytes}
use isobmff_rs.Core.Field.{FieldWidth}
use isobmff_rs.Core.Field.Kinds.{Field, IsField}
use isobmff_rs.Core.Field.RoundTrip.{wires}
use isobmff_rs.Core.Codec.Actions.{at, Reads, Reads-slice, Writes-seq}
use isobmff_rs.Core.Codec.Fields.{
  length-wires, Writes-all, Reads-u32, Reads-i16, Reads-unsigned, wires_before, length-wires_before,
  Writes-before, write_all,
}
use isobmff_rs.Core.Codec.RoundTrip.{IsCodec}
use isobmff_rs.Boxes.FullBox.{read_header}
use isobmff_rs.Boxes.FullBox.RoundTrip.{Reads-header, IsVersion, width_at, version_width_lem}
use isobmff_rs.Boxes.Samples.{has_flag}
use isobmff_rs.Boxes.Headers.{write_matrix, track_flags, TrackHeaderBox, tkhd_codec}
use isobmff_rs.Boxes.Headers.Movie.{
  times_len_lem, IsMatrix, matrix_bytes, length-matrix_bytes, Reads-matrix, Writes-matrix,
  above_zero,
}

abbrev flags_of : TrackHeaderBox → ℕ
flags_of x =
    track_flags x.track_enabled x.track_in_movie x.track_in_preview x.track_size_is_aspect_ratio

abbrev header_at : ℕ → ℕ → FullBoxHeader
header_at version flags = record { version = version; flags = record { bits = flags } }

abbrev head_bytes : ℕ → ℕ → List ℕ
head_bytes version flags = version ∷ 0 ∷ 0 ∷ flags ∷ []

-- Each condition is read back from the flags, which fit the last byte.
record Flags (a b c d : Bool) : Type 0 where
  small : track_flags a b c d < 256
  enabled : has_flag (track_flags a b c d) 1 ≡ a
  in_movie : has_flag (track_flags a b c d) 2 ≡ b
  in_preview : has_flag (track_flags a b c d) 4 ≡ c
  aspect : has_flag (track_flags a b c d) 8 ≡ d

all-Flags : (a b c d : Bool) → Flags a b c d
all-Flags true true true true = record {
  small = omega arith;
  enabled = refl;
  in_movie = refl;
  in_preview = refl;
  aspect = refl;
}
all-Flags true true true false = record {
  small = omega arith;
  enabled = refl;
  in_movie = refl;
  in_preview = refl;
  aspect = refl;
}
all-Flags true true false true = record {
  small = omega arith;
  enabled = refl;
  in_movie = refl;
  in_preview = refl;
  aspect = refl;
}
all-Flags true true false false = record {
  small = omega arith;
  enabled = refl;
  in_movie = refl;
  in_preview = refl;
  aspect = refl;
}
all-Flags true false true true = record {
  small = omega arith;
  enabled = refl;
  in_movie = refl;
  in_preview = refl;
  aspect = refl;
}
all-Flags true false true false = record {
  small = omega arith;
  enabled = refl;
  in_movie = refl;
  in_preview = refl;
  aspect = refl;
}
all-Flags true false false true = record {
  small = omega arith;
  enabled = refl;
  in_movie = refl;
  in_preview = refl;
  aspect = refl;
}
all-Flags true false false false = record {
  small = omega arith;
  enabled = refl;
  in_movie = refl;
  in_preview = refl;
  aspect = refl;
}
all-Flags false true true true = record {
  small = omega arith;
  enabled = refl;
  in_movie = refl;
  in_preview = refl;
  aspect = refl;
}
all-Flags false true true false = record {
  small = omega arith;
  enabled = refl;
  in_movie = refl;
  in_preview = refl;
  aspect = refl;
}
all-Flags false true false true = record {
  small = omega arith;
  enabled = refl;
  in_movie = refl;
  in_preview = refl;
  aspect = refl;
}
all-Flags false true false false = record {
  small = omega arith;
  enabled = refl;
  in_movie = refl;
  in_preview = refl;
  aspect = refl;
}
all-Flags false false true true = record {
  small = omega arith;
  enabled = refl;
  in_movie = refl;
  in_preview = refl;
  aspect = refl;
}
all-Flags false false true false = record {
  small = omega arith;
  enabled = refl;
  in_movie = refl;
  in_preview = refl;
  aspect = refl;
}
all-Flags false false false true = record {
  small = omega arith;
  enabled = refl;
  in_movie = refl;
  in_preview = refl;
  aspect = refl;
}
all-Flags false false false false = record {
  small = omega arith;
  enabled = refl;
  in_movie = refl;
  in_preview = refl;
  aspect = refl;
}

head_bytes_lem :
    (version flags : ℕ)
    → flags < 256
    → head_bytes version flags ≡ to_bytes (header_at version flags)
unfolding to_bytes to_be_bytes to_be_onto
head_bytes_lem version flags h =
    let e0 : flags % 256 ≡ flags = omega arith in
    let e1 : flags / 256 ≡ 0 = omega arith in rw (e1, e0) refl

Reads-head :
    (version flags : ℕ)
    → IsVersion version
    → flags < 256
    → Reads read_header (header_at version flags) (head_bytes version flags)
Reads-head version flags v h n tail =
    ap (λ (l : List ℕ). read_header (at n (l ++ tail))) (head_bytes_lem version flags h)
    ∙ Reads-header (header_at version flags)
        (record { versioned = omega arith; flagged = omega arith }) n tail

-- The fields before the matrix and after it.
abbrev pub tkhd_front : TrackHeaderBox → List Field
tkhd_front x =
    Field.bytes (head_bytes x.version (flags_of x))
    ∷ Field.unsigned (width_at x.version) x.creation_time
    ∷ Field.unsigned (width_at x.version) x.modification_time
    ∷ Field.u32 x.track_id
    ∷ Field.bytes (replicate 4 0)
    ∷ Field.unsigned (width_at x.version) x.duration
    ∷ Field.bytes (replicate 8 0)
    ∷ Field.i16 x.layer
    ∷ Field.i16 x.alternate_group
    ∷ Field.i16 x.volume
    ∷ Field.bytes (replicate 2 0)
    ∷ []

abbrev pub tkhd_back : TrackHeaderBox → List Field
tkhd_back x = Field.u32 x.width ∷ Field.u32 x.height ∷ []

pub record IsTrackHeader (x : TrackHeaderBox) : Type 0 where
  pub versioned : IsVersion x.version
  pub front : All IsField (tkhd_front x)
  pub back : All IsField (tkhd_back x)
  pub placed : IsMatrix x.matrix
  pub identified : 0 < x.track_id

module _ (x : TrackHeaderBox) (v : IsTrackHeader x) where
  abbrev inner : List ℕ
  inner = matrix_bytes x.matrix ++ wires (tkhd_back x)

  tkhd_len_lem : tkhd_codec.payload_len x ≡ length (wires_before (tkhd_front x) inner)
  tkhd_len_lem =
      times_len_lem x.version 20 32 64 (λ n. n + (n + (4 + (4 + n)))) v.versioned refl refl
        (omega arith) (omega arith) (omega arith)
      ∙ rw
          (
            length-wires_before (tkhd_front x) inner,
            length-append (matrix_bytes x.matrix) (wires (tkhd_back x)),
            length-matrix_bytes x.matrix v.placed,
            length-wires (tkhd_back x),
          )
          (omega arith)

  pub tkhd-IsCodec : IsCodec tkhd_codec x
  tkhd-IsCodec =
      let width : FieldWidth = width_at x.version in
      let h = v.front in
      let f =
        all-Flags x.track_enabled x.track_in_movie x.track_in_preview
          x.track_size_is_aspect_ratio in
      let small : flags_of x % 256 ≡ flags_of x = omega (arith, f.small) in
      record {
        payload = wires_before (tkhd_front x) inner;
        counted = tkhd_len_lem;
        writes =
            rw (version_width_lem x.version v.versioned, above_zero x.track_id v.identified)
              (Writes-before (tkhd_front x)
                (λ w. write_matrix x.matrix w >>= λ w'. write_all w' (tkhd_back x)) inner h
                (Writes-seq (write_matrix x.matrix) (λ w. write_all w (tkhd_back x)) _ _
                  (Writes-matrix x.matrix v.placed) (Writes-all (tkhd_back x) v.back)));
        reads = λ n.
            rw
              (
                Reads-head x.version (flags_of x) v.versioned f.small n _,
                version_width_lem x.version v.versioned,
                Reads-unsigned width x.creation_time h.1.0 n _,
                Reads-unsigned width x.modification_time h.1.1.0 n _,
                Reads-u32 x.track_id h.1.1.1.0 n _,
                Reads-slice (replicate 4 0) n _,
                Reads-unsigned width x.duration h.1.1.1.1.1.0 n _,
                Reads-slice (replicate 8 0) n _,
                Reads-i16 x.layer h.1.1.1.1.1.1.1.0 n _,
                Reads-i16 x.alternate_group h.1.1.1.1.1.1.1.1.0 n _,
                Reads-i16 x.volume h.1.1.1.1.1.1.1.1.1.0 n _,
                Reads-slice (replicate 2 0) n _,
                Reads-matrix x.matrix v.placed n _,
                Reads-u32 x.width v.back.0 n _,
                Reads-u32 x.height v.back.1.0 n _,
                small,
                f.enabled,
                f.in_movie,
                f.in_preview,
                f.aspect,
              )
              refl;
      }
