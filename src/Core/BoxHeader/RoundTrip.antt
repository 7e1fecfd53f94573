-- ===== src/Core/BoxHeader/RoundTrip.antt =====
-- Writing a header and reading it back, in both directions.
use isobmff_rs.Common.{ℕ, ◌≡◌, ◌≤◌, ◌<◌, ◌^◌, List, ◌++◌}
use isobmff_rs.Common.{length, take, drop, arith, refl, All}
use isobmff_rs.Common.{length-take, le→leb, ◌∙◌}
use isobmff_rs.Common.Bytes.{IsByte, to_be_bytes, length-to_be_bytes}
use isobmff_rs.Common.Bytes.{from_be_bytes-to_be_bytes}
use isobmff_rs.Common.Result.{ok}
use isobmff_rs.Core.BoxType.{four_cc}
use isobmff_rs.Core.BoxSize.{BoxSize, IsBoxSize}
use isobmff_rs.Core.BoxHeader.{
  BoxHeader, IsHeader, IsWritable, encoded_len, decode, encode, field_bytes,
}
use isobmff_rs.Core.BoxHeader.{size_fields, large_size_bytes, uuid_bytes}
use isobmff_rs.Core.BoxHeader.Fields.{
  decode-append, decode_rest_lem, length-field_bytes, overwrite_full, uuid_of, writable_type-eq-ok,
  length-four_cc, field_bytes-append,
}
use isobmff_rs.Core.BoxHeader.Decoding.{decode-eq-ok}

pub size_field-lt : (size : BoxSize) → IsBoxSize size → (size_fields size).0 < 256 ^ 4
size_field-lt (BoxSize.compact s) h = omega arith
size_field-lt (BoxSize.extended s) h = omega arith
size_field-lt BoxSize.to_end_of_file h = omega arith

-- The fields, one after the other, decode as the header that they are of.
decode_parts :
    (h : BoxHeader) (rest : List ℕ)
    → IsHeader h
    → decode (
        to_be_bytes 4 (size_fields h.size).0
        ++ ((four_cc h.box_type).bytes
            ++ (large_size_bytes (size_fields h.size).1
                ++ (uuid_bytes (uuid_of h.box_type) ++ rest))))
      ≡ ok (h, rest)
decode_parts h rest valid =
    decode-append (to_be_bytes 4 (size_fields h.size).0) (four_cc h.box_type).bytes _
      (length-to_be_bytes 4 _) (length-four_cc h.box_type valid.typed)
    ∙ rw (from_be_bytes-to_be_bytes 4 (size_fields h.size).0 (size_field-lt h.size valid.sized))
        (decode_rest_lem h _ rest valid)

-- The fields decode as the header that they are of, whatever follows them.
pub decode-field_bytes :
    (h : BoxHeader) (rest : List ℕ)
    → IsHeader h
    → decode (field_bytes h (uuid_of h.box_type) ++ rest) ≡ ok (h, rest)
decode-field_bytes h rest valid = rw (field_bytes-append h rest) (decode_parts h rest valid)

-- What `encode` writes, where the buffer holds the header: the fields, and the rest of the buffer.
pub encode_lem :
    (h : BoxHeader) (buffer : List ℕ)
    → IsHeader h
    → IsWritable h
    → encoded_len h ≤ length buffer
    → encode h buffer ≡ ok (field_bytes h (uuid_of h.box_type), drop (encoded_len h) buffer)
unfolding encode
encode_lem h buffer valid (u, w) fits =
    let eu : u ≡ uuid_of h.box_type = writable_type-eq-ok h.box_type u w in
    rw
      (
        w,
        le→leb (encoded_len h) (length buffer) fits,
        eu,
        overwrite_full (take (encoded_len h) buffer) (field_bytes h (uuid_of h.box_type))
            (omega (arith, length-take (encoded_len h) buffer, length-field_bytes h valid)),
      )
      refl

-- A header that may be written, written into a buffer that holds it, takes the front of the buffer,
-- as many bytes as `encoded_len` says, and leaves the rest of the buffer; and those bytes, whatever
-- follows them, decode as the header with what follows.
pub decode-encode :
    (h : BoxHeader) (buffer tail : List ℕ)
    → IsHeader h
    → IsWritable h
    → encoded_len h ≤ length buffer
    → (bytes : List ℕ) × (encode h buffer ≡ ok (bytes, drop (encoded_len h) buffer))
      × (length bytes ≡ encoded_len h)
      × (decode (bytes ++ tail) ≡ ok (h, tail))
decode-encode h buffer tail valid w fits = (
  field_bytes h (uuid_of h.box_type),
  encode_lem h buffer valid w fits,
  length-field_bytes h valid,
  decode-field_bytes h tail valid,
)

-- Where `decode` reads a header whose `extended_type` is not a reserved one, `encode` writes that
-- header back, into any buffer that holds it, as the bytes that it was read from.
pub encode-decode :
    (input rest buffer : List ℕ) (h : BoxHeader)
    → All IsByte input
    → decode input ≡ ok (h, rest)
    → IsWritable h
    → encoded_len h ≤ length buffer
    → (bytes : List ℕ) × (encode h buffer ≡ ok (bytes, drop (encoded_len h) buffer))
      × (input ≡ bytes ++ rest)
encode-decode input rest buffer h bytes e w fits =
    let (valid, i, _) = decode-eq-ok input h rest bytes e in
    (field_bytes h (uuid_of h.box_type), encode_lem h buffer valid w fits, i)
