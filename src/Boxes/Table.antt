-- ===== src/Boxes/Table.antt =====
-- crates/isobmff-boxes/src/table.rs: tables of entries, counted or up to the end of a payload.
pub mod RoundTrip
pub mod Truncation
use isobmff_rs.Common.{
  ℕ, zero, suc, ◌+◌, ◌-◌, ◌*◌, ◌/◌, ◌%◌, Bool, List, [], ◌∷◌, ◌++◌, length, take, drop, is_empty,
  if◌then◌else◌,
}
use isobmff_rs.Common.Words.{
  saturating_mul, saturating_add, saturating_sub, u64_max, u64_try_from, usize_try_from,
}
use isobmff_rs.Common.Result.{Result, ok, err, ◌>>=◌, ◌>>◌, unwrap_or}
use isobmff_rs.Core.Error.{Error}
use isobmff_rs.Core.FourCc.{FourCc}
use isobmff_rs.Core.Field.{
  FieldReader, FieldWriter, FieldWidth, reader, require, read_slice, write_slice, read_u16,
  read_u32, read_u64, write_u16, write_u32, write_u64, write_unsigned,
}

-- The trait `TableEntry` of a type: `ENCODED_LEN`, `read` and `write`.
pub record TableEntry (A : Type 0) : Type 0 where
  pub encoded_len : ℕ
  pub read : FieldReader → Result Error (A × FieldReader)
  pub write : A → FieldWriter → Result Error FieldWriter

abbrev pub four_cc_entry : TableEntry FourCc
four_cc_entry = record {
  encoded_len = 4;
  read = λ r. read_slice r 4 >>= λ p. ok (record { bytes = p.0 }, p.1);
  write = λ code w. write_slice w code.bytes;
}

abbrev pub u16_entry : TableEntry ℕ
u16_entry = record { encoded_len = 2; read = read_u16; write = λ n w. write_u16 w n }

abbrev pub u32_entry : TableEntry ℕ
u32_entry = record { encoded_len = 4; read = read_u32; write = λ n w. write_u32 w n }

abbrev pub u64_entry : TableEntry ℕ
u64_entry = record { encoded_len = 8; read = read_u64; write = λ n w. write_u64 w n }

-- The first pieces of so many bytes each.
abbrev pub pieces : ℕ → ℕ → List ℕ → List (List ℕ)
pieces zero n bytes = []
pieces (suc k) n bytes = take n bytes ∷ pieces k n (drop n bytes)

-- `slice.chunks_exact(n)` and its `remainder`, for a number above 0
abbrev pub chunks_exact : ℕ → List ℕ → List (List ℕ)
chunks_exact n bytes = pieces (length bytes / n) n bytes

abbrev pub remainder_len : ℕ → List ℕ → ℕ
remainder_len n bytes = length bytes % n

-- `table_len`
abbrev pub table_len : ℕ → ℕ → ℕ
table_len entry_count entry_len =
    saturating_mul (unwrap_or (u64_try_from entry_count) u64_max) entry_len

-- `write_entry_count`
unfoldable pub write_entry_count : FieldWriter → ℕ → Result Error FieldWriter
write_entry_count w entry_count =
    write_unsigned w FieldWidth.compact (unwrap_or (u64_try_from entry_count) u64_max)

module _ {A : Type 0} where
  -- `read_whole_entries`
  unfoldable pub read_whole_entries :
      List (List ℕ) → (FieldReader → Result Error (A × FieldReader)) → Result Error (List A)
  read_whole_entries [] read = ok []
  read_whole_entries (bytes ∷ entry_bytes) read = do
    (entry, _) ← read (reader bytes)
    entries ← read_whole_entries entry_bytes read
    ok (entry ∷ entries)

  -- `read_fixed_entries`
  unfoldable pub read_fixed_entries :
      FieldReader
      → ℕ
      → ℕ
      → (FieldReader → Result Error (A × FieldReader))
      → Result Error (List A × FieldReader)
  read_fixed_entries r entry_count entry_len read = do
    let table_len = saturating_mul entry_count entry_len
    tt ← require r table_len
    (table, r) ← read_slice r (unwrap_or (usize_try_from table_len) u64_max)
    entries ←
        read_whole_entries (chunks_exact (unwrap_or (usize_try_from entry_len) u64_max) table) read
    ok (entries, r)

  -- So many entries off the reader.
  unfoldable pub read_times :
      ℕ
      → (FieldReader → Result Error (A × FieldReader))
      → FieldReader
      → Result Error (List A × FieldReader)
  read_times zero read r = ok ([], r)
  read_times (suc n) read r = do
    (entry, r) ← read r
    (entries, r) ← read_times n read r
    ok (entry ∷ entries, r)

  -- `read_entries`
  unfoldable pub read_entries :
      FieldReader
      → ℕ
      → ℕ
      → (FieldReader → Result Error (A × FieldReader))
      → Result Error (List A × FieldReader)
  read_entries r entry_count minimum_len read = do
    tt ← require r (saturating_mul entry_count minimum_len)
    read_times entry_count read r

module _ {A : Type 0} (e : TableEntry A) where
  -- `entries_len` and `counted_len`
  abbrev pub entries_len : List A → ℕ
  entries_len entries = table_len (length entries) e.encoded_len

  abbrev pub counted_len : List A → ℕ
  counted_len entries = saturating_add (entries_len entries) 4

  -- `read_counted`
  unfoldable pub read_counted : FieldReader → Result Error (List A × FieldReader)
  read_counted r = do
    (entry_count, r) ← read_u32 r
    read_fixed_entries r entry_count e.encoded_len e.read

  -- `read_to_end`
  unfoldable pub read_to_end : FieldReader → Result Error (List A × FieldReader)
  read_to_end r = do
    let rest = r.rest
    let n = unwrap_or (usize_try_from e.encoded_len) u64_max
    (_, r) ← read_slice r (saturating_sub (length rest) (remainder_len n rest))
    entries ← read_whole_entries (chunks_exact n rest) e.read
    (if is_empty r.rest
        then ok (entries, r)
        else (do (entry, r) ← e.read r; ok (entries ++ entry ∷ [], r)))

  -- `write_entries`
  unfoldable pub write_entries : FieldWriter → List A → Result Error FieldWriter
  write_entries w [] = ok w
  write_entries w (entry ∷ entries) = e.write entry w >>= λ w'. write_entries w' entries

  -- `write_counted`
  unfoldable pub write_counted : FieldWriter → List A → Result Error FieldWriter
  write_counted w entries = do w ← write_entry_count w (length entries); write_entries w entries
