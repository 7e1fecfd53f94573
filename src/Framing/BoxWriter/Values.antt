-- ===== src/Framing/BoxWriter/Values.antt =====
-- crates/isobmff/src/framing/box_writer.rs, `write_box`: boxes of the types that encode themselves.
pub mod Written
use isobmff_rs.Common.{Option, some, ℕ, List, ◌++◌, replicate}
use isobmff_rs.Common.Words.{u64_max, usize_try_from, zeroed}
use isobmff_rs.Common.Result.{and_then, Result, ok, err, ok_or, map_err, ◌>>=◌}
use isobmff_rs.Core.Error.{Error, error, truncated_buffer}
use isobmff_rs.Core.BoxHeader.{BoxHeader, with_payload_len}
use isobmff_rs.Core.Codec.{BoxCodec, encode_payload}
use isobmff_rs.Framing.Range.{Output}
use isobmff_rs.Framing.BoxEvent.{BoxEvent}
use isobmff_rs.Framing.WriteError.{WriteError}
use isobmff_rs.Framing.BoxWriter.{BoxWriter, Call, on_ok, handle_event}

-- The three events of a box, and the bytes that they give.
write_events : BoxWriter → BoxHeader → List ℕ → Call (List ℕ)
write_events w header payload = on_ok (handle_event w (BoxEvent.header header)) (λ w first.
    on_ok (handle_event w (BoxEvent.payload payload)) (λ w second.
      on_ok (handle_event w BoxEvent.end) (λ w third. (w, ok (first ++ (second ++ third))))))

-- What `write_box` does with the payload and the header, once it has both.
put_box : BoxWriter → Result WriteError (List ℕ × BoxHeader) → Call Output
unfolding write_events
put_box w (err e) = (w, err e)
put_box w (ok (payload, header)) =
    on_ok (write_events w header payload)
      (λ moved bytes. (moved, ok (record { offset = w.next_offset; bytes = bytes })))

module _ {A : Type 0} (c : BoxCodec A) where
  abbrev pub too_long : A → WriteError
  too_long value = WriteError.box (error (truncated_buffer (c.payload_len value) u64_max))

  -- The payload of a value, in a buffer of its length, and the header.
  encode_value : A → List ℕ → Result WriteError (List ℕ × BoxHeader)
  encode_value value buffer = do
    payload ← map_err (λ e. WriteError.box e) (encode_payload c value buffer)
    header ← ok_or (with_payload_len c.box_type (c.payload_len value)) (too_long value)
    ok (payload, header)

  write_allocated : BoxWriter → A → Result WriteError ℕ → Option (Call Output)
  unfolding encode_value put_box
  write_allocated w value (err e) = some (w, err e)
  write_allocated w value (ok buffer_len) =
      and_then (zeroed buffer_len) (λ buffer. some (put_box w (encode_value value buffer)))

  -- `BoxWriter::write_box`, and `none` where it panics
  unfoldable pub write_box : BoxWriter → A → Option (Call Output)
  unfolding write_allocated
  write_box w value =
      write_allocated w value (ok_or (usize_try_from (c.payload_len value)) (too_long value))
