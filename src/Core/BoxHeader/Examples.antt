-- ===== src/Core/BoxHeader/Examples.antt =====
-- Concrete headers, decoded and encoded, and the theorems about headers at concrete inputs.
use isobmff_rs.Common.{
  ℕ, ◌≡◌, ◌↔◌, ◌≤◌, ◌<◌, ◌+◌, refl, none, some, List, [], ◌∷◌, ◌++◌, arith, length, drop, replicate,
}
use isobmff_rs.Common.Bytes.{from_be_bytes}
use isobmff_rs.Common.Words.{u64_max}
use isobmff_rs.Common.Result.{ok, err}
use isobmff_rs.Core.BoxSize.{BoxSize}
use isobmff_rs.Core.Error.{
  error, truncated_header, size_below_header, truncated_buffer, invalid_value,
}
use isobmff_rs.Core.BoxType.{BoxType, maps_a_compact_type}
use isobmff_rs.Core.BoxHeader.{
  BoxHeader, IsHeader, decode, encode, encoded_len, with_payload_len, payload_len,
}
use isobmff_rs.Core.BoxHeader.Truncation.{Settled, decode_extended}
use isobmff_rs.Core.BoxHeader.RoundTrip.{decode-encode, encode-decode}
use isobmff_rs.Core.BoxHeader.Payload.{
  with_payload_len-eq-some, with_payload_len-eq-none, with_payload_len_shortest,
}
use isobmff_rs.Core.Fixtures.{
  free, mdat, free_header, free_header-IsHeader, free_header-IsWritable, free_bytes,
  free_bytes-IsByte, large_mdat,
}

decode_free : decode free_bytes ≡ ok (free_header, 1 ∷ 2 ∷ [])
unfolding decode from_be_bytes
decode_free = refl

-- The source's test of an input shorter than the first two fields.
decode_three_bytes : decode (0 ∷ 0 ∷ 0 ∷ []) ≡ err (error (truncated_header 8 3))
unfolding decode
decode_three_bytes = refl

decode_large : decode large_mdat ≡ err (error (truncated_header 16 8))
unfolding decode from_be_bytes
decode_large = refl

decode_below :
    decode (0 ∷ 0 ∷ 0 ∷ 7 ∷ b'f' ∷ b'r' ∷ b'e' ∷ b'e' ∷ []) ≡ err (error (size_below_header 8 7))
unfolding decode from_be_bytes
decode_below = refl

-- The UUID that `free` maps to is reserved, and a header that holds it is not written.
abbrev reserved : BoxHeader
reserved = record {
  box_type = BoxType.extended (record {
    uuid = record {
      bytes =
          b'f' ∷ b'r' ∷ b'e' ∷ b'e' ∷ 0 ∷ 0x11 ∷ 0 ∷ 0x10 ∷ 0x80 ∷ 0 ∷ 0 ∷ 0xAA ∷ 0 ∷ 0x38 ∷ 0x9B
          ∷ 0x71 ∷ [];
    };
  });
  size = BoxSize.compact (record { get = 24 });
}

encode-reserved : encode reserved (replicate 32 0) ≡ err (error (invalid_value "extended_type"))
unfolding encode from_be_bytes maps_a_compact_type
encode-reserved = refl

encode_short : encode free_header (0 ∷ 0 ∷ []) ≡ err (error (truncated_buffer 8 2))
unfolding encode
encode_short = refl

decode-encode_example :
    (bytes : List ℕ) × (encode free_header (replicate 10 0) ≡ ok (bytes, drop 8 (replicate 10 0)))
    × (length bytes ≡ 8)
    × (decode (bytes ++ 7 ∷ []) ≡ ok (free_header, 7 ∷ []))
decode-encode_example =
    decode-encode free_header (replicate 10 0) (7 ∷ []) free_header-IsHeader free_header-IsWritable
      (omega arith)

encode-decode_example :
    (bytes : List ℕ) × (encode free_header (replicate 10 0) ≡ ok (bytes, drop 8 (replicate 10 0)))
    × (free_bytes ≡ bytes ++ 1 ∷ 2 ∷ [])
encode-decode_example =
    encode-decode free_bytes (1 ∷ 2 ∷ []) (replicate 10 0) free_header free_bytes-IsByte decode_free
      free_header-IsWritable (omega arith)

decode_extended_example :
    (8 ≡ length large_mdat)
    × (length large_mdat < 16)
    × (16 ≤ 32)
    × Settled 16 (decode (large_mdat ++ replicate 8 0))
decode_extended_example =
    decode_extended large_mdat (replicate 8 0) 16 8 (omega arith) decode_large (omega arith)

free_of_two : with_payload_len free 2 ≡ some free_header
unfolding with_payload_len
free_of_two = refl

with_payload_len-eq-some_example :
    IsHeader free_header × (free_header.box_type ≡ free) × (payload_len free_header ≡ some 2)
with_payload_len-eq-some_example =
    with_payload_len-eq-some free 2 free_header free_header-IsHeader.typed free_of_two

with_payload_len-eq-none_example : (with_payload_len mdat u64_max ≡ none) ↔ (u64_max < u64_max + 16)
with_payload_len-eq-none_example = with_payload_len-eq-none mdat u64_max

with_payload_len_shortest_example : encoded_len free_header ≤ encoded_len free_header
with_payload_len_shortest_example =
    with_payload_len_shortest 2 free_header free_header free_of_two free_header-IsHeader
      with_payload_len-eq-some_example.2
