-- ===== src/Framing/Reserved/Placeholder.antt =====
-- The header that takes the place of a placeholder once the length of the media data is known.
use isobmff_rs.Common.{
  ℕ, ◌≡◌, ◌⊎◌, inl, inr, ◌+◌, ◌-◌, ◌≤◌, ◌<◌, none, some, List, [], ◌++◌, length, replicate, refl,
  arith, sym, ap, ◌∙◌, length-append, append-nil, length-replicate,
}
use isobmff_rs.Common.Words.{checked_add, u32_max, u64_max}
use isobmff_rs.Common.Result.{ok, and_then}
use native.Mathlib.Decide.{dec_lt}
use isobmff_rs.Core.BoxSize.{BoxSize, extended_size}
use isobmff_rs.Core.BoxHeader
use isobmff_rs.Core.BoxHeader.{
  BoxHeader, IsHeader, IsWritable, encoded_len, payload_len, with_payload_len, field_bytes, decode,
}
use isobmff_rs.Core.BoxHeader.Fields.{uuid_of, length-field_bytes}
use isobmff_rs.Core.BoxHeader.RoundTrip.{encode_lem, decode-field_bytes}
use isobmff_rs.Core.RawBox.{RawBox, IsFramed, split_first, raw_bytes}
use isobmff_rs.Core.RawBox.Framing.{split_first-raw_bytes}
use isobmff_rs.Framing.Reserved.{
  media_data_header, placeholder_bytes, buffer_of, if_compact, media_data_type, free_type,
}
use isobmff_rs.Framing.Reserved.Spaces.{free_header, free_header-IsHeader, drop-replicate}

-- A buffer as long as the header holds its fields.
buffer_of_lem :
    (h : BoxHeader) (m : ℕ)
    → IsHeader h
    → IsWritable h
    → encoded_len h ≡ m
    → buffer_of h (replicate m 0) ≡ some (field_bytes h (uuid_of h.box_type))
buffer_of_lem h m valid writable em =
    let ee =
      encode_lem h (replicate m 0) valid writable (omega (arith, length-replicate {A = ℕ} m 0)) in
    let ed = drop-replicate (encoded_len h) m 0 in
    let ez : m - encoded_len h ≡ 0 = omega arith in rw (ee, ed, ez, append-nil) refl

abbrev compact_mdat : ℕ → BoxHeader
compact_mdat n = record {
  box_type = media_data_type;
  size = BoxSize.compact (record { get = n + 8 });
}

abbrev large_mdat : ℕ → BoxHeader
large_mdat n = record {
  box_type = media_data_type;
  size = BoxSize.extended (record { get = n + 16 });
}

compact_mdat-IsHeader : (n : ℕ) → n + 8 ≤ u32_max → IsHeader (compact_mdat n)
compact_mdat-IsHeader n hi = record {
  typed = ((refl, omega arith), refl);
  sized = omega arith;
  covered = omega arith;
}

large_mdat-IsHeader : (n : ℕ) → n + 16 ≤ u64_max → IsHeader (large_mdat n)
large_mdat-IsHeader n hi = record {
  typed = ((refl, omega arith), refl);
  sized = omega arith;
  covered = omega arith;
}

chosen_compact :
    (n : ℕ)
    → n + 8 ≤ u32_max
    → and_then (with_payload_len media_data_type n) if_compact ≡ some (compact_mdat n)
unfolding with_payload_len
chosen_compact n hi = ground arith

chosen_none :
    (n : ℕ)
    → u32_max < n + 8
    → n + 16 ≤ u64_max
    → and_then (with_payload_len media_data_type n) if_compact ≡ none
unfolding with_payload_len
chosen_none n lo hi = ground arith

empty_free : with_payload_len free_type 0 ≡ some (free_header 8)
unfolding with_payload_len
empty_free = refl

placeholder_compact :
    (n : ℕ)
    → n + 8 ≤ u32_max
    → placeholder_bytes n (some (compact_mdat n))
      ≡ some (field_bytes (free_header 8) none ++ field_bytes (compact_mdat n) none)
unfolding placeholder_bytes
placeholder_compact n hi =
    let ef =
      buffer_of_lem (free_header 8) 8 (free_header-IsHeader 8 (omega arith) (omega arith))
        (none, refl) refl in
    let em = buffer_of_lem (compact_mdat n) 8 (compact_mdat-IsHeader n hi) (none, refl) refl in
    rw (empty_free, ef, em) refl

large_total : (n : ℕ) → n + 16 ≤ u64_max → checked_add n 16 ≡ some (n + 16)
large_total n hi = ground arith

large_size : (n : ℕ) → extended_size (n + 16) ≡ some (record { get = n + 16 })
unfolding extended_size
large_size n = ground arith

large_new :
    (n : ℕ)
    → BoxHeader.new media_data_type (BoxSize.extended (record { get = n + 16 }))
      ≡ some (large_mdat n)
unfolding BoxHeader.new
large_new n = ground arith

placeholder_large :
    (n : ℕ) → n + 16 ≤ u64_max → placeholder_bytes n none ≡ some (field_bytes (large_mdat n) none)
unfolding placeholder_bytes
placeholder_large n hi =
    let em = buffer_of_lem (large_mdat n) 16 (large_mdat-IsHeader n hi) (none, refl) refl in
    rw (large_total n hi, large_size n, large_new n, em) refl

-- What the bytes of a placeholder are for a payload: the header of an `mdat` that spans the payload,
-- alone or behind an empty `free` box.
abbrev pub Placed : ℕ → List ℕ → Type 0
Placed n bytes =
    (front back : List ℕ) × (h : BoxHeader) × (bytes ≡ front ++ back)
    × (decode back ≡ ok (h, []))
    × (h.box_type ≡ media_data_type)
    × (payload_len h ≡ some n)
    × ((front ≡ [])
        ⊎ (split_first front ≡ ok (record { header = free_header 8; payload = [] }, [])))

decode_fields :
    (h : BoxHeader) → IsHeader h → decode (field_bytes h (uuid_of h.box_type)) ≡ ok (h, [])
decode_fields h valid =
    ap decode (sym (append-nil (field_bytes h (uuid_of h.box_type))))
    ∙ decode-field_bytes h [] valid

empty_free_box :
    split_first (field_bytes (free_header 8) none)
    ≡ ok (record { header = free_header 8; payload = [] }, [])
unfolding payload_len
empty_free_box =
    let framed : RawBox = record { header = free_header 8; payload = [] } in
    let f : IsFramed framed [] = record {
      headed = free_header-IsHeader 8 (omega arith) (omega arith);
      spans = refl;
    } in
    ap split_first
      (sym (append-nil (raw_bytes framed) ∙ append-nil (field_bytes (free_header 8) none)))
    ∙ split_first-raw_bytes framed [] f

compact-payload_len : (n : ℕ) → payload_len (compact_mdat n) ≡ some n
unfolding payload_len
compact-payload_len n = ground arith

large-payload_len : (n : ℕ) → payload_len (large_mdat n) ≡ some n
unfolding payload_len
large-payload_len n = ground arith

-- A placeholder becomes the header of the media data: for a payload that 16 bytes of header leave
-- within 64 bits, `media_data_header` gives 16 bytes for the offset, which are the header of an
-- `mdat` that spans the payload, alone or behind an empty `free` box.
pub media_data_header-Placed :
    (offset n : ℕ)
    → n + 16 ≤ u64_max
    → (bytes : List ℕ) × (media_data_header offset n
        ≡ some (record { offset = offset; bytes = bytes }))
      × (length bytes ≡ 16)
      × Placed n bytes
unfolding media_data_header
media_data_header-Placed offset n hi = elim (dec_lt u32_max (n + 8)) [
  | no small ↦
      let valid = compact_mdat-IsHeader n (omega arith) in
      let free = field_bytes (free_header 8) none in
      let lf =
        length-field_bytes (free_header 8) (free_header-IsHeader 8 (omega arith) (omega arith)) in
      let lm = length-field_bytes (compact_mdat n) valid in
      (
        free ++ field_bytes (compact_mdat n) none,
        rw (chosen_compact n (omega arith), placeholder_compact n (omega arith)) refl,
        length-append free (field_bytes (compact_mdat n) none) ∙ rw (lf, lm) refl,
        (
          free,
          field_bytes (compact_mdat n) none,
          compact_mdat n,
          refl,
          decode_fields (compact_mdat n) valid,
          refl,
          compact-payload_len n,
          inr empty_free_box,
        ),
      )
  | yes large ↦
      let valid = large_mdat-IsHeader n hi in
      (
        field_bytes (large_mdat n) none,
        rw (chosen_none n large hi, placeholder_large n hi) refl,
        length-field_bytes (large_mdat n) valid,
        (
          [],
          field_bytes (large_mdat n) none,
          large_mdat n,
          refl,
          decode_fields (large_mdat n) valid,
          refl,
          large-payload_len n,
          inl refl,
        ),
      )
]
