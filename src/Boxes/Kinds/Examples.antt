-- ===== src/Boxes/Kinds/Examples.antt =====
-- Concrete boxes, and the theorems about boxes of any type at concrete values.
use isobmff_rs.Common.{
  ℕ, some, ◌≡◌, ◌+◌, ◌*◌, ◌<◌, ◌^◌, true, List, [], ◌∷◌, ◌++◌, length, drop, refl, arith, replicate,
  none,
}
use isobmff_rs.Common.Bytes.{to_be_bytes}
use isobmff_rs.Common.Int.{pos, negsuc}
use isobmff_rs.Common.Words.{saturating_add}
use isobmff_rs.Common.Result.{ok, err}
use isobmff_rs.Core.Error.{error, box_type_mismatch, truncated_payload}
use isobmff_rs.Core.BoxHeader.{with_payload_len}
use isobmff_rs.Core.Field.{reader}
use isobmff_rs.Core.Codec.{encode, decode, encoded_len_of}
use isobmff_rs.Core.Codec.RoundTrip.{IsWritableType, IsCodec, decode-encode_mismatch}
use isobmff_rs.Boxes.Counted.{compact}
use isobmff_rs.Boxes.Table.{u32_entry, read_counted}
use isobmff_rs.Boxes.Table.Truncation.{read_counted_truncated}
use isobmff_rs.Boxes.Samples.{EditListBox}
use isobmff_rs.Boxes.Timing.{MovieFragmentHeaderBox, mfhd_codec, mehd_codec}
use isobmff_rs.Boxes.Timing.RoundTrip.{mfhd-IsCodec}
use isobmff_rs.Boxes.Kinds.{elst, codec}
use isobmff_rs.Boxes.Kinds.RoundTrip.{kind-decode-encode}
use isobmff_rs.Framing.BoxWriter
use isobmff_rs.Framing.BoxWriter.{BoxWriter, State}
use isobmff_rs.Framing.BoxWriter.Values.{write_box}
use isobmff_rs.Boxes.Kinds.Written.{kind-write_box-decode}

-- An empty edit, and an edit of the media from its start on.
abbrev edits : EditListBox
edits = record {
  version = 0;
  repeat_edits = true;
  entries =
      record {
        edit_duration = 5;
        media_time = negsuc 0;
        media_rate_integer = pos 1;
        media_rate_fraction = pos 0;
      }
      ∷ record {
        edit_duration = 90;
        media_time = pos 12;
        media_rate_integer = pos 1;
        media_rate_fraction = pos 0;
      }
      ∷ [];
}

kind-decode-encode_example :
    (bytes : List ℕ) × (encode (codec elst) edits (replicate 50 0)
      ≡ ok (bytes, drop (encoded_len_of (codec elst) edits) (replicate 50 0)))
    × (length bytes ≡ encoded_len_of (codec elst) edits)
    × (decode (codec elst) (bytes ++ 9 ∷ []) ≡ ok (edits, 9 ∷ []))
unfolding encoded_len_of with_payload_len
kind-decode-encode_example =
    kind-decode-encode elst edits (replicate 50 0) (9 ∷ []) (omega arith) (omega arith)

abbrev fragment : MovieFragmentHeaderBox
fragment = record { sequence_number = 7 }

fragment-IsCodec : IsCodec mfhd_codec fragment
fragment-IsCodec = mfhd-IsCodec fragment (omega arith)

fragment-fits : length fragment-IsCodec.payload + 32 < 2 ^ 64
fragment-fits = omega (arith, fragment-IsCodec.counted)

mfhd-IsWritableType : IsWritableType (compact b'm' b'f' b'h' b'd')
mfhd-IsWritableType = record { typed = ((refl, omega arith), refl); uuid = none; writable = refl }

decode-encode_mismatch_example :
    (bytes : List ℕ) × (encode mfhd_codec fragment (replicate 16 0)
      ≡ ok (bytes, drop (encoded_len_of mfhd_codec fragment) (replicate 16 0)))
    × (decode mehd_codec (bytes ++ [])
        ≡ err (error (box_type_mismatch mehd_codec.box_type mfhd_codec.box_type)))
unfolding encoded_len_of with_payload_len
decode-encode_mismatch_example =
    decode-encode_mismatch mfhd_codec fragment fragment-IsCodec mfhd-IsWritableType fragment-fits
      mehd_codec (replicate 16 0) [] refl (omega arith)

read_counted_truncated_example :
    read_counted u32_entry (reader (to_be_bytes 4 2 ++ 0 ∷ 0 ∷ 0 ∷ 1 ∷ 0 ∷ []))
    ≡ err (error (truncated_payload (4 + 2 * 4) (4 + 5)))
read_counted_truncated_example =
    read_counted_truncated u32_entry 2 (0 ∷ 0 ∷ 0 ∷ 1 ∷ 0 ∷ []) (omega arith) (omega arith)
      (omega arith)

kind-write_box-decode_example :
    (w : BoxWriter) × (bytes : List ℕ) × (write_box (codec elst) BoxWriter.new edits
      ≡ some (w, ok (record { offset = 0; bytes = bytes })))
    × (decode (codec elst) (bytes ++ []) ≡ ok (edits, []))
    × (length bytes ≡ encoded_len_of (codec elst) edits)
    × (w.next_offset ≡ saturating_add 0 (length bytes))
    × (w.state ≡ State.open_state)
unfolding BoxWriter.new
kind-write_box-decode_example =
    kind-write_box-decode elst edits BoxWriter.new [] (omega arith) (omega arith) refl refl
