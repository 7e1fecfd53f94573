-- ===== src/Boxes/Table/RoundTrip.antt =====
-- Tables of entries, written and read back.
use isobmff_rs.Common.{
  ◌≤◌, ℕ, ◌≡◌, ◌+◌, ◌-◌, ◌*◌, ◌^◌, ◌<◌, List, [], ◌∷◌, ◌++◌, length, refl, sym, ap, ◌∙◌, arith, All,
  map, append-nil, append_assoc, length-append, take-append_length, drop-append_length, le→leb,
  le→ltb,
}
use native.Mathlib.Nat.{mul-le-mul_left, mul-div_cancel, mul-mod_left}
use isobmff_rs.Common.Words.{saturating_mul, u64_max, IsU32}
use isobmff_rs.Common.Bytes.{to_be_bytes}
use isobmff_rs.Common.Result.{ok}
use isobmff_rs.Core.Field.{FieldWidth, require, read_slice, read_u32}
use isobmff_rs.Core.Field.Reading.{read_slice-append}
use isobmff_rs.Core.Codec.Actions.{
  Writes, Reads, ReadsAll, at, Writes-seq, Writes-none, Reads-seq, Reads-ReadsAll,
}
use isobmff_rs.Core.Codec.Fields.{Writes-unsigned, Reads-u32}
use isobmff_rs.Boxes.Table.{
  TableEntry, read_times, read_entries, pieces, chunks_exact, remainder_len, read_whole_entries,
  read_fixed_entries, read_counted, read_to_end, write_entries, write_entry_count, write_counted,
  entries_len,
}

-- An entry of the length of its type, written as the bytes and read from them.
pub record IsEntry {A : Type 0} (e : TableEntry A) (wire : A → List ℕ) (entry : A) : Type 0 where
  pub sized : length (wire entry) ≡ e.encoded_len
  pub writes : Writes (e.write entry) (wire entry)
  pub reads : Reads e.read entry (wire entry)

module _ {A : Type 0} where
  abbrev pub entry_bytes : (A → List ℕ) → List A → List ℕ
  entry_bytes wire [] = []
  entry_bytes wire (x ∷ xs) = wire x ++ entry_bytes wire xs

read_slice_all :
    (n : ℕ) (bytes : List ℕ) → read_slice (at n bytes) (length bytes - 0) ≡ ok (bytes, at n [])
read_slice_all n bytes =
    let el : length bytes - 0 ≡ length bytes = omega arith in
    rw el (
      ap (λ b. read_slice (at n b) (length bytes)) (sym (append-nil bytes))
      ∙ read_slice-append (length bytes) n bytes [] refl)

module _ {A : Type 0} (e : TableEntry A) (wire : A → List ℕ) where
  pub length-entry_bytes :
      (xs : List A)
      → All (IsEntry e wire) xs
      → length (entry_bytes wire xs) ≡ length xs * e.encoded_len
  length-entry_bytes [] h = omega arith
  length-entry_bytes (x ∷ xs) (hx, h) =
      grind (arith, length-append (wire x) (entry_bytes wire xs), length-entry_bytes xs h, hx.sized)

  pub Writes-entries :
      (xs : List A)
      → All (IsEntry e wire) xs
      → Writes (λ w. write_entries e w xs) (entry_bytes wire xs)
  unfolding write_entries
  Writes-entries [] h = Writes-none
  Writes-entries (x ∷ xs) (hx, h) =
      Writes-seq (e.write x) (λ w. write_entries e w xs) (wire x) (entry_bytes wire xs) hx.writes
        (Writes-entries xs h)

  pieces_lem :
      (xs : List A)
      → All (IsEntry e wire) xs
      → pieces (length xs) e.encoded_len (entry_bytes wire xs) ≡ map wire xs
  pieces_lem [] h = refl
  pieces_lem (x ∷ xs) (hx, h) =
      rw
        (
          ← hx.sized,
          take-append_length (wire x) (entry_bytes wire xs),
          drop-append_length (wire x) (entry_bytes wire xs),
          hx.sized,
          pieces_lem xs h,
        )
        refl

  whole_entries_lem :
      (xs : List A) → All (IsEntry e wire) xs → read_whole_entries (map wire xs) e.read ≡ ok xs
  unfolding read_whole_entries
  whole_entries_lem [] h = refl
  whole_entries_lem (x ∷ xs) (hx, h) =
      rw (Reads-ReadsAll e.read x (wire x) hx.reads (length (wire x)), whole_entries_lem xs h) refl

  pub Reads-times :
      (xs : List A)
      → All (IsEntry e wire) xs
      → Reads (λ r. read_times (length xs) e.read r) xs (entry_bytes wire xs)
  unfolding read_times
  Reads-times [] h n tail = refl
  Reads-times (x ∷ xs) (hx, h) n tail =
      rw
        (
          append_assoc (wire x) (entry_bytes wire xs) tail,
          hx.reads n (entry_bytes wire xs ++ tail),
          Reads-times xs h n tail,
        )
        refl

  -- A table of entries that its count and its length have room for.
  pub record IsTable (xs : List A) : Type 0 where
    pub entries : All (IsEntry e wire) xs
    pub above : 0 < e.encoded_len
    pub narrow : e.encoded_len < 2 ^ 64
    pub counted : IsU32 (length xs)
    pub fits : length xs * e.encoded_len < 2 ^ 64

  module _ (xs : List A) (t : IsTable xs) where
    chunks_lem : chunks_exact e.encoded_len (entry_bytes wire xs) ≡ map wire xs
    chunks_lem =
        rw (length-entry_bytes xs t.entries, mul-div_cancel (length xs) t.above)
          (pieces_lem xs t.entries)

    remainder_lem : remainder_len e.encoded_len (entry_bytes wire xs) ≡ 0
    remainder_lem = rw (length-entry_bytes xs t.entries) (mul-mod_left (length xs) e.encoded_len)

    pub entries_len_lem : entries_len e xs ≡ length (entry_bytes wire xs)
    entries_len_lem =
        rw (le→ltb u64_max (length xs) (omega (arith, t.counted)), length-entry_bytes xs t.entries)
          (omega (arith, t.fits))

    pub fixed_lem :
        Reads (λ r. read_fixed_entries r (length xs) e.encoded_len e.read) xs (entry_bytes wire xs)
    unfolding read_fixed_entries require
    fixed_lem n tail =
        let el : saturating_mul (length xs) e.encoded_len ≡ length (entry_bytes wire xs) =
          rw (length-entry_bytes xs t.entries) (omega (arith, t.fits)) in
        rw
          (
            el,
            length-append (entry_bytes wire xs) tail,
            le→leb (length (entry_bytes wire xs)) (length (entry_bytes wire xs) + length tail)
                (omega arith),
            le→ltb u64_max (length (entry_bytes wire xs))
                (omega (arith, t.fits, length-entry_bytes xs t.entries)),
            read_slice-append (length (entry_bytes wire xs)) n (entry_bytes wire xs) tail refl,
            le→ltb u64_max e.encoded_len (omega (arith, t.narrow)),
            chunks_lem,
            whole_entries_lem xs t.entries,
          )
          refl

    pub Reads-entries :
        Reads (λ r. read_entries r (length xs) e.encoded_len e.read) xs (entry_bytes wire xs)
    unfolding read_entries require
    Reads-entries n tail =
        let el : saturating_mul (length xs) e.encoded_len ≡ length (entry_bytes wire xs) =
          rw (length-entry_bytes xs t.entries) (omega (arith, t.fits)) in
        rw
          (
            el,
            length-append (entry_bytes wire xs) tail,
            le→leb (length (entry_bytes wire xs)) (length (entry_bytes wire xs) + length tail)
                (omega arith),
            Reads-times xs t.entries n tail,
          )
          refl

    -- The count and the entries.
    abbrev pub counted_bytes : List ℕ
    counted_bytes = to_be_bytes 4 (length xs) ++ entry_bytes wire xs

    pub Reads-counted : Reads (read_counted e) xs counted_bytes
    unfolding read_counted
    Reads-counted =
        Reads-seq read_u32 (λ count r. read_fixed_entries r count e.encoded_len e.read) (length xs)
          xs _ _ (Reads-u32 (length xs) t.counted) fixed_lem

    pub Writes-counted : Writes (λ w. write_counted e w xs) counted_bytes
    unfolding write_counted write_entry_count
    Writes-counted =
        Writes-seq (λ w. write_entry_count w (length xs)) (λ w. write_entries e w xs) _ _
          (rw (le→ltb u64_max (length xs) (omega (arith, t.counted)))
            (Writes-unsigned FieldWidth.compact (length xs) t.counted))
          (Writes-entries xs t.entries)

    pub ReadsAll-to_end : ReadsAll (read_to_end e) xs (entry_bytes wire xs)
    unfolding read_to_end
    ReadsAll-to_end n =
        rw
          (
            le→ltb u64_max e.encoded_len (omega (arith, t.narrow)),
            remainder_lem,
            chunks_lem,
            whole_entries_lem xs t.entries,
            read_slice_all n (entry_bytes wire xs),
          )
          refl

module _ {A : Type 0} (P Q : A → Type 0) (f : (a : A) → P a → Q a) where
  pub All_map : (xs : List A) → All P xs → All Q xs
  All_map [] h = tt
  All_map (x ∷ xs) (hx, h) = (f x hx, All_map xs h)

-- A table whose entries are in range, and are fewer than 2 ^ 32.
pub IsTable-ranged :
    {A : Type 0} (e : TableEntry A) (wire : A → List ℕ) (P : A → Type 0)
    (f : (a : A) → P a → IsEntry e wire a) (xs : List A)
    → All P xs
    → IsU32 (length xs)
    → 0 < e.encoded_len
    → e.encoded_len ≤ 20
    → IsTable e wire xs × (length xs * e.encoded_len + 64 < 2 ^ 64)
IsTable-ranged e wire P f xs h counted above small =
    let bound : length xs * e.encoded_len ≤ length xs * 20 = mul-le-mul_left (length xs) small in
    (
      record {
        entries = All_map P (IsEntry e wire) f xs h;
        above = above;
        narrow = omega arith;
        counted = counted;
        fits = omega arith;
      },
      omega arith,
    )
