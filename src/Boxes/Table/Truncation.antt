-- ===== src/Boxes/Table/Truncation.antt =====
-- A count of entries that the payload does not hold.
use isobmff_rs.Common.{
  ℕ, ◌≡◌, ◌+◌, ◌-◌, ◌*◌, ◌<◌, ◌^◌, List, ◌++◌, length, refl, arith, lt→leb, length-append,
}
use isobmff_rs.Common.Bytes.{to_be_bytes, length-to_be_bytes}
use isobmff_rs.Common.Words.{IsU32, saturating_add, saturating_mul}
use isobmff_rs.Common.Result.{err}
use isobmff_rs.Core.Error.{error, truncated_payload}
use isobmff_rs.Core.Field.{reader, require}
use isobmff_rs.Core.Codec.Fields.{Reads-u32}
use isobmff_rs.Boxes.Table.{TableEntry, read_counted, read_fixed_entries}

-- A count of 32 bits, with fewer bytes after it than its entries take, is refused whatever the
-- entries are: the failure names the length that the count asks for, and that of the payload.
pub read_counted_truncated :
    {A : Type 0} (e : TableEntry A) (count : ℕ) (rest : List ℕ)
    → IsU32 count
    → length rest < count * e.encoded_len
    → count * e.encoded_len + 4 < 2 ^ 64
    → read_counted e (reader (to_be_bytes 4 count ++ rest))
      ≡ err (error (truncated_payload (4 + count * e.encoded_len) (4 + length rest)))
unfolding read_counted read_fixed_entries require
read_counted_truncated e count rest counted short fits =
    let n : ℕ = length (to_be_bytes 4 count ++ rest) in
    let en : n ≡ 4 + length rest =
      omega (arith, length-append (to_be_bytes 4 count) rest, length-to_be_bytes 4 count) in
    let em : saturating_mul count e.encoded_len ≡ count * e.encoded_len = omega (arith, fits) in
    let es : saturating_add (4 + length rest - length rest) (count * e.encoded_len)
        ≡ 4 + count * e.encoded_len =
      omega (arith, fits) in
    rw
      (
        Reads-u32 count counted n rest,
        em,
        lt→leb (count * e.encoded_len) (length rest) short,
        en,
        es,
      )
      refl
