-- ===== src/Framing/Reserved/Spaces.antt =====
-- The spaces that are reserved and filled, read back as boxes.
use isobmff_rs.Common.{
  ℕ, zero, suc, ◌≡◌, ◌+◌, ◌-◌, ◌≤◌, ◌<◌, none, some, List, [], ◌++◌, length, drop, replicate, refl,
  arith, sym, ap, ◌∙◌, length-append, append-nil, length-replicate, split_at_checked_short,
}
use isobmff_rs.Common.Words.{checked_sub, u32_max, u64_max, isize_max, zeroed}
use isobmff_rs.Common.Result.{ok, err}
use isobmff_rs.Core.BoxSize.{BoxSize}
use isobmff_rs.Core.Error.{error, truncated_box}
use isobmff_rs.Core.BoxHeader.{
  BoxHeader, IsHeader, IsWritable, encoded_len, payload_len, with_payload_len, field_bytes,
}
use isobmff_rs.Core.BoxHeader.Fields.{uuid_of, length-field_bytes}
use isobmff_rs.Core.BoxHeader.RoundTrip.{encode_lem, decode-field_bytes}
use isobmff_rs.Core.RawBox.{RawBox, IsFramed, split_first, raw_bytes}
use isobmff_rs.Core.RawBox.Framing.{split_first-raw_bytes}
use isobmff_rs.Common.Words.{usize_try_from}
use isobmff_rs.Framing.Reserved.{reserve, free_type}

-- The header of a `free` box of the total, and of one with a `largesize`.
abbrev pub free_header : ℕ → BoxHeader
free_header total = record { box_type = free_type; size = BoxSize.compact (record { get = total }) }

abbrev pub large_free_header : ℕ → BoxHeader
large_free_header total = record {
  box_type = free_type;
  size = BoxSize.extended (record { get = total });
}

pub free_header-IsHeader : (total : ℕ) → 8 ≤ total → total ≤ u32_max → IsHeader (free_header total)
free_header-IsHeader total lo hi = record {
  typed = ((refl, omega arith), refl);
  sized = omega arith;
  covered = omega arith;
}

large_free_header-IsHeader :
    (total : ℕ) → 16 ≤ total → total ≤ u64_max → IsHeader (large_free_header total)
large_free_header-IsHeader total lo hi = record {
  typed = ((refl, omega arith), refl);
  sized = omega arith;
  covered = omega arith;
}

pub drop-replicate : (n m a : ℕ) → drop n (replicate m a) ≡ replicate (m - n) a
drop-replicate zero m a = let e : m - 0 ≡ m = omega arith in rw e refl
drop-replicate (suc n) zero a = let e : 0 - suc n ≡ 0 = omega arith in rw e refl
drop-replicate (suc n) (suc m) a =
    let e : suc m - suc n ≡ m - n = omega arith in rw e (drop-replicate n m a)

with_payload_len-short :
    (total : ℕ)
    → 8 ≤ total
    → total ≤ u32_max
    → with_payload_len free_type (total - 8) ≡ some (free_header total)
unfolding with_payload_len
with_payload_len-short total lo hi =
    let e : total - 8 + 8 ≡ total = omega arith in ground (arith, e)

with_payload_len-long :
    (total : ℕ)
    → u32_max < total
    → total + 8 ≤ u64_max
    → with_payload_len free_type (total - 8) ≡ some (large_free_header (total + 8))
unfolding with_payload_len
with_payload_len-long total lo hi =
    let e : total - 8 + 16 ≡ total + 8 = omega arith in ground (arith, e)

-- What `reserve` makes of the header that it chooses.
reserve_lem :
    (total : ℕ) (h : BoxHeader)
    → 8 ≤ total
    → total ≤ isize_max
    → IsHeader h
    → IsWritable h
    → encoded_len h ≤ total
    → with_payload_len free_type (total - 8) ≡ some h
    → reserve total
      ≡ some (ok (field_bytes h (uuid_of h.box_type) ++ replicate (total - encoded_len h) 0))
unfolding reserve
reserve_lem total h lo hi valid writable fits e =
    let es : checked_sub total 8 ≡ some (total - 8) = ground arith in
    let eu : usize_try_from total ≡ some total = ground arith in
    let room : encoded_len h ≤ length (replicate total 0) =
      omega (arith, length-replicate {A = ℕ} total 0) in
    let ez : zeroed total ≡ some (replicate total 0) = ground arith in
    let ee = encode_lem h (replicate total 0) valid writable room in
    rw (es, e, eu, ez, ee, drop-replicate (encoded_len h) total 0) refl

-- Space is reserved as a `free` box that spans it: for a total of 8 bytes to the most of 32 bits,
-- `reserve` gives that many bytes, which frame as one `free` box of the total, its payload zeros, and
-- nothing after it.
pub reserve-split_first :
    (total : ℕ)
    → 8 ≤ total
    → total ≤ u32_max
    → (bytes : List ℕ) × (reserve total ≡ some (ok bytes))
      × (length bytes ≡ total)
      × (split_first bytes
          ≡ ok (record { header = free_header total; payload = replicate (total - 8) 0 }, []))
unfolding payload_len
reserve-split_first total lo hi =
    let h : BoxHeader = free_header total in
    let valid : IsHeader h = free_header-IsHeader total lo hi in
    let framed : RawBox = record { header = h; payload = replicate (total - 8) 0 } in
    let spans : payload_len h ≡ some (total - 8) = ground arith in
    let f : IsFramed framed [] = record {
      headed = valid;
      spans = rw spans (length-replicate {A = ℕ} (total - 8) 0);
    } in
    (
      raw_bytes framed,
      reserve_lem total h lo (omega arith) valid (none, refl) lo
          (with_payload_len-short total lo hi),
      omega (
        arith,
        length-append (field_bytes h none) (replicate (total - 8) 0),
        length-field_bytes h valid,
        length-replicate {A = ℕ} (total - 8) 0,
      ),
      ap split_first (sym (append-nil (raw_bytes framed))) ∙ split_first-raw_bytes framed [] f,
    )

-- Past 32 bits the space is not what is reserved: for a total past the most of 32 bits that an
-- allocation can hold, `reserve` gives that many bytes, but they do not frame as a box, since the
-- header in front of them declares 8 bytes more.
pub reserve-truncated_box :
    (total : ℕ)
    → u32_max < total
    → total ≤ isize_max
    → (bytes : List ℕ) × (reserve total ≡ some (ok bytes))
      × (length bytes ≡ total)
      × (split_first bytes ≡ err (error (truncated_box (total + 8) total)))
unfolding split_first payload_len
reserve-truncated_box total lo hi =
    let h : BoxHeader = large_free_header (total + 8) in
    let valid : IsHeader h = large_free_header-IsHeader (total + 8) (omega arith) (omega arith) in
    let zeros : List ℕ = replicate (total - 16) 0 in
    let lz : length zeros ≡ total - 16 = length-replicate {A = ℕ} (total - 16) 0 in
    let lb : length (field_bytes h none ++ zeros) ≡ total =
      omega (arith, length-append (field_bytes h none) zeros, length-field_bytes h valid) in
    (
      field_bytes h none ++ zeros,
      reserve_lem total h (omega arith) hi valid (none, refl) (omega arith)
          (with_payload_len-long total lo (omega arith)),
      lb,
      rw (decode-field_bytes h zeros valid, lb)
          (ground (arith, split_at_checked_short (total + 8 - 16) zeros (omega arith))),
    )
