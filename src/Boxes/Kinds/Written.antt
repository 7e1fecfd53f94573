-- ===== src/Boxes/Kinds/Written.antt =====
-- A box of any type of the model, put in a file.
use isobmff_rs.Common.{ℕ, ◌≡◌, ◌≤◌, some, List, ◌++◌, length, arith}
use isobmff_rs.Common.Words.{saturating_add, isize_max}
use isobmff_rs.Common.Result.{ok}
use isobmff_rs.Core.Codec.{decode, encoded_len_of}
use isobmff_rs.Framing.BoxWriter.{BoxWriter, State}
use isobmff_rs.Framing.BoxWriter.Steps.{IsWriter}
use isobmff_rs.Framing.BoxWriter.Values.{write_box}
use isobmff_rs.Framing.BoxWriter.Values.Written.{write_box-decode}
use isobmff_rs.Boxes.Kinds.{BoxKind, Value, codec, IsValue}
use isobmff_rs.Boxes.Kinds.RoundTrip.{value-IsCodec}
use isobmff_rs.Boxes.Kinds.Writable.{box_type-IsWritableType}

-- `write_box` puts a value of any kind of box in the file: where the fields of the value are in range,
-- its payload is no longer than an allocation can be, and the writer stands between boxes, the call
-- returns, and succeeds. Its output begins where the writer stood; the writer moves on by as many
-- bytes as the output has, which is the encoded length of the value, and stands between boxes again;
-- and the output, whatever follows it, decodes as the value with what follows.
pub kind-write_box-decode :
    (k : BoxKind) (v : Value k) (w : BoxWriter) (tail : List ℕ)
    → IsValue k v
    → (codec k).payload_len v ≤ isize_max
    → IsWriter w
    → w.state ≡ State.open_state
    → (w' : BoxWriter) × (bytes : List ℕ) × (write_box (codec k) w v
        ≡ some (w', ok (record { offset = w.next_offset; bytes = bytes })))
      × (decode (codec k) (bytes ++ tail) ≡ ok (v, tail))
      × (length bytes ≡ encoded_len_of (codec k) v)
      × (w'.next_offset ≡ saturating_add w.next_offset (length bytes))
      × (w'.state ≡ State.open_state)
kind-write_box-decode k v w tail h small valid os =
    let i = value-IsCodec k v h in
    write_box-decode (codec k) v i (box_type-IsWritableType k) w tail (omega (arith, i.counted))
      valid os
