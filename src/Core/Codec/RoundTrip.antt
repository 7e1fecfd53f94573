-- ===== src/Core/Codec/RoundTrip.antt =====
-- A box encoded whole and decoded again.
use isobmff_rs.Common.{
  false, ℕ, ◌≡◌, ◌+◌, ◌≤◌, ◌<◌, ◌^◌, Bool, true, false, Option, some, List, [], ◌∷◌, ◌++◌, length,
  take, drop, refl, arith, inl, inr, sym, ◌∙◌, append-nil, length-drop, length-take, le→ltb, le→leb,
  ==_iff, Option-cases, is_empty,
}
use isobmff_rs.Common.Words.{u64_max}
use isobmff_rs.Common.Result.{ok}
use isobmff_rs.Core.FourCc.{Uuid}
use isobmff_rs.Core.Error.{error, box_type_mismatch}
use isobmff_rs.Common.Result.{err}
use isobmff_rs.Core.BoxType.{box_type_eq}
use isobmff_rs.Core.BoxType.{BoxType, IsBoxType, box_type_eq_refl}
use isobmff_rs.Core.BoxHeader.{
  BoxHeader, IsHeader, IsWritable, writable_type, with_payload_len, payload_len, encoded_len,
  header_length, has_extended_type,
}
use isobmff_rs.Core.BoxHeader.RoundTrip.{encode_lem}
use isobmff_rs.Core.BoxHeader.Payload.{with_payload_len-eq-some, with_payload_len-eq-none}
use isobmff_rs.Core.RawBox.{RawBox, IsFramed, raw_bytes}
use isobmff_rs.Core.RawBox.Framing.{split_first-raw_bytes, length-raw_bytes, encoded_len_bounds}
use isobmff_rs.Core.Field.{FieldWriter, finish}
use isobmff_rs.Core.Codec.{BoxCodec, encode_payload, encoded_len_of, encode, decode_payload, decode}
use isobmff_rs.Core.Codec.Actions.{Writes, ReadsAll}

-- A value whose fields are written as the payload, which reads as the value.
pub record IsCodec {A : Type 0} (c : BoxCodec A) (value : A) : Type 0 where
  pub payload : List ℕ
  pub counted : c.payload_len value ≡ length payload
  pub writes : Writes (c.encode_fields value) payload
  pub reads : ReadsAll c.decode_fields value payload

-- A type that a header may be written with.
pub record IsWritableType (t : BoxType) : Type 0 where
  pub typed : IsBoxType t
  pub uuid : Option Uuid
  pub writable : writable_type t ≡ ok uuid

length-zero : (l : List ℕ) → length l ≡ 0 → is_empty l ≡ true
length-zero [] h = refl
length-zero (x ∷ xs) h = absurd (omega arith)

drop_all : (n : ℕ) (l : List ℕ) → length l ≤ n → is_empty (drop n l) ≡ true
drop_all n l h = length-zero (drop n l) (omega (arith, length-drop n l))

empty_nil : (l : List ℕ) → is_empty l ≡ true → l ≡ []
empty_nil [] h = refl
empty_nil (x ∷ xs) h = ground arith

header_length-le : (large extended : Bool) → header_length large extended ≤ 32
header_length-le false false = omega arith
header_length-le false true = omega arith
header_length-le true false = omega arith
header_length-le true true = omega arith

module _ {A : Type 0} (c : BoxCodec A) (value : A) (i : IsCodec c value) where
  -- A buffer as long as the payload is left as the payload.
  pub encode_payload_lem :
      (buffer : List ℕ)
      → length buffer ≡ length i.payload
      → length i.payload < 2 ^ 64
      → encode_payload c value buffer ≡ ok i.payload
  unfolding encode_payload finish
  encode_payload_lem buffer e fits =
      let el : drop (length i.payload) buffer ≡ [] =
        empty_nil _ (drop_all (length i.payload) buffer (omega arith)) in
      let w : FieldWriter = record { written = []; rest = buffer; buffer_len = length i.payload } in
      rw
        (
          i.counted,
          e,
          le→ltb u64_max (length i.payload) (omega arith),
          (==_iff (length i.payload) (length i.payload)).1 refl,
          i.writes w (omega arith),
          el,
          append-nil i.payload,
        )
        refl

  pub decode_payload_lem : decode_payload c i.payload ≡ ok value
  unfolding decode_payload
  decode_payload_lem = rw (i.reads (length i.payload)) refl

  -- The box of the value.
  abbrev pub framed : BoxHeader → RawBox
  framed header = record { header = header; payload = i.payload }

  module _ (t : IsWritableType c.box_type) (fits : length i.payload + 32 < 2 ^ 64) where
    pub header_of :
        (h : BoxHeader) × (with_payload_len c.box_type (c.payload_len value) ≡ some h)
        × IsHeader h
        × (h.box_type ≡ c.box_type)
        × (payload_len h ≡ some (length i.payload))
    header_of = rw i.counted (elim (Option-cases (with_payload_len c.box_type (length i.payload))) [
      | inl e ↦ absurd (
          omega (
            arith,
            (with_payload_len-eq-none c.box_type (length i.payload)).0 e,
            header_length-le true (has_extended_type c.box_type),
          ))
      | inr (h, e) ↦
          let (valid, typed, spans) =
            with_payload_len-eq-some c.box_type (length i.payload) h t.typed e in
          (h, e, valid, typed, spans)
    ])

    -- The header that the value is written with.
    pub chosen_span : payload_len header_of.0 ≡ some (length i.payload)
    chosen_span = header_of.4

    abbrev pub chosen : BoxHeader
    chosen = header_of.0

    pub chosen_lem : with_payload_len c.box_type (c.payload_len value) ≡ some chosen
    chosen_lem = header_of.1

    pub chosen-IsHeader : IsHeader chosen
    chosen-IsHeader = header_of.2

    pub chosen_type : chosen.box_type ≡ c.box_type
    chosen_type = header_of.3

    pub chosen-IsWritable : IsWritable chosen
    chosen-IsWritable = (t.uuid, rw chosen_type t.writable)

    pub encoded_len_of_lem : encoded_len_of c value ≡ encoded_len chosen + length i.payload
    unfolding encoded_len_of
    encoded_len_of_lem =
        rw (encoded_len_of, chosen_lem, i.counted) (omega (arith, encoded_len_bounds chosen))

    framed-IsFramed : (tail : List ℕ) → IsFramed (framed chosen) tail
    framed-IsFramed tail =
        let spans : payload_len chosen ≡ some (length i.payload) = header_of.4 in
        record { headed = chosen-IsHeader; spans = rw spans refl }

    pub decode_raw :
        (tail : List ℕ) → decode c (raw_bytes (framed chosen) ++ tail) ≡ ok (value, tail)
    unfolding decode
    decode_raw tail =
        rw
          (
            split_first-raw_bytes (framed chosen) tail (framed-IsFramed tail),
            chosen_type,
            box_type_eq_refl c.box_type,
            decode_payload_lem,
          )
          refl

    pub length-raw : length (raw_bytes (framed chosen)) ≡ encoded_len_of c value
    length-raw = length-raw_bytes (framed chosen) chosen-IsHeader ∙ sym encoded_len_of_lem

    encode_raw :
        (buffer : List ℕ)
        → encoded_len_of c value ≤ length buffer
        → encode c value buffer
          ≡ ok (raw_bytes (framed chosen), drop (encoded_len_of c value) buffer)
    unfolding encode
    encode_raw buffer holds =
        let needed : ℕ = encoded_len_of c value in
        let en : needed ≡ encoded_len chosen + length i.payload = encoded_len_of_lem in
        let whole : List ℕ = take needed buffer in
        let lw : length whole ≡ needed = omega (arith, length-take needed buffer) in
        rw
          (
            chosen_lem,
            le→ltb u64_max needed (omega (arith, encoded_len_bounds chosen)),
            le→leb needed (length buffer) holds,
            encode_lem chosen whole chosen-IsHeader chosen-IsWritable (omega arith),
            encode_payload_lem (drop (encoded_len chosen) whole)
                (omega (arith, length-drop (encoded_len chosen) whole)) (omega arith),
          )
          refl

    -- A value whose fields are written as a payload, which reads as the value, encoded into a
    -- buffer that holds the box, takes the front of the buffer, as many bytes as `encoded_len_of`
    -- says, and leaves the rest of the buffer; and those bytes, whatever follows them, decode as the
    -- value with what follows.
    pub decode-encode_value :
        (buffer tail : List ℕ)
        → encoded_len_of c value ≤ length buffer
        → (bytes : List ℕ) × (encode c value buffer
            ≡ ok (bytes, drop (encoded_len_of c value) buffer))
          × (length bytes ≡ encoded_len_of c value)
          × (decode c (bytes ++ tail) ≡ ok (value, tail))
    decode-encode_value buffer tail holds =
        (raw_bytes (framed chosen), encode_raw buffer holds, length-raw, decode_raw tail)

    -- The box of a value is refused by the decoder of any other type, which names both types.
    pub decode-encode_mismatch :
        {B : Type 0} (other : BoxCodec B) (buffer tail : List ℕ)
        → box_type_eq c.box_type other.box_type ≡ false
        → encoded_len_of c value ≤ length buffer
        → (bytes : List ℕ) × (encode c value buffer
            ≡ ok (bytes, drop (encoded_len_of c value) buffer))
          × (decode other (bytes ++ tail)
              ≡ err (error (box_type_mismatch other.box_type c.box_type)))
    unfolding decode
    decode-encode_mismatch other buffer tail differ holds = (
      raw_bytes (framed chosen),
      encode_raw buffer holds,
      rw (split_first-raw_bytes (framed chosen) tail (framed-IsFramed tail), chosen_type, differ)
          refl,
    )
