-- ===== src/Framing/BoxWriter/Values/Written.antt =====
-- What `write_box` writes: a box that decodes as the value.
use isobmff_rs.Common.{
  ℕ, ◌≡◌, ◌+◌, ◌<◌, ◌≤◌, ◌^◌, some, List, [], ◌++◌, length, refl, arith, sym, ◌∙◌, replicate,
  length-replicate, append-nil,
}
use isobmff_rs.Common.Words.{saturating_add, isize_max, zeroed, usize_try_from}
use isobmff_rs.Common.Result.{ok}
use isobmff_rs.Core.BoxHeader.{
  BoxHeader, IsHeader, IsWritable, payload_len, encoded_len, field_bytes,
}
use isobmff_rs.Core.BoxHeader.Fields.{uuid_of}
use isobmff_rs.Core.RawBox.{raw_bytes}
use isobmff_rs.Core.Codec.{BoxCodec, decode, encoded_len_of}
use isobmff_rs.Core.Codec.RoundTrip.{
  IsCodec, IsWritableType, encode_payload_lem, chosen, chosen_lem, chosen-IsHeader,
  chosen-IsWritable, chosen_span, encoded_len_of_lem, decode_raw, length-raw, framed,
}
use isobmff_rs.Framing.Range.{to_u64, to_u64-min}
use isobmff_rs.Framing.BoxEvent.{BoxEvent}
use isobmff_rs.Framing.BoxWriter.{BoxWriter, State, after_end}
use isobmff_rs.Framing.BoxWriter.Steps.{
  begins, carries, ends, IsWriter, handle_event-Step, handle_event-eq-ok,
}
use isobmff_rs.Framing.BoxWriter.Values.{
  write_events, encode_value, write_box, write_allocated, put_box,
}

-- A header that spans a payload of a length is not of a box that runs to the end of the file.
sized_end : (h : BoxHeader) (n : ℕ) → payload_len h ≡ some n → after_end h.size ≡ State.open_state
unfolding payload_len
sized_end h n e = ground arith

-- The three events of a box that is as long as its header says.
write_events_lem :
    (w : BoxWriter) (h : BoxHeader) (payload : List ℕ)
    → IsWriter w
    → w.state ≡ State.open_state
    → IsHeader h
    → IsWritable h
    → payload_len h ≡ some (length payload)
    → length payload < 2 ^ 64
    → (w' : BoxWriter) × (write_events w h payload
        ≡ (w', ok (field_bytes h (uuid_of h.box_type) ++ payload)))
      × (w'.state ≡ State.open_state)
      × (w'.next_offset ≡ saturating_add w.next_offset (encoded_len h + length payload))
unfolding write_events
write_events_lem w h payload valid os headed writable span fits =
    let front : List ℕ = field_bytes h (uuid_of h.box_type) in
    let n : ℕ = length payload in
    let (w1, e1, n1, s1) =
      handle_event-Step w (BoxEvent.header h) w.next_offset (State.writing h w.next_offset 0) front
        valid headed (begins h os refl writable refl refl refl) in
    let (_, v1) = handle_event-eq-ok w w1 (BoxEvent.header h) front valid headed e1 in
    let en : saturating_add 0 (to_u64 n) ≡ n = ground (arith, to_u64-min n) in
    let (w2, e2, n2, s2) =
      handle_event-Step w1 (BoxEvent.payload payload) w1.next_offset
        (State.writing h w.next_offset n) payload v1 tt
        (carries h w.next_offset 0 s1 refl (rw (span, en) (omega arith)) refl (rw en refl)) in
    let (_, v2) = handle_event-eq-ok w1 w2 (BoxEvent.payload payload) payload v1 tt e2 in
    let (w3, e3, n3, s3) =
      handle_event-Step w2 BoxEvent.end
        (saturating_add (saturating_add w.next_offset (encoded_len h)) n) State.open_state [] v2 tt
        (ends h w.next_offset n s2 refl (rw span refl) refl (sym (sized_end h n span)) refl) in
    (w3, rw (e1, e2, e3, append-nil payload) refl, s3, n3 ∙ omega arith)

module _ {A : Type 0} (c : BoxCodec A) (value : A) (i : IsCodec c value)
    (t : IsWritableType c.box_type) where
  encode_value_lem :
      (fits : length i.payload + 32 < 2 ^ 64) (buffer : List ℕ)
      → length buffer ≡ length i.payload
      → encode_value c value buffer ≡ ok (i.payload, chosen c value i t fits)
  unfolding encode_value
  encode_value_lem fits buffer l =
      rw
        (
          chosen_lem c value i t fits,
          encode_payload_lem c value i buffer (omega (arith, i.counted)) (omega arith),
        )
        refl

  -- For a value whose payload is read back as the value, is no longer than an allocation can be, and
  -- whose type headers are written with: on a writer that stands between boxes, `write_box` returns,
  -- and succeeds. Its output begins where the writer stood; the writer moves on by as many bytes as
  -- the output has, which is the encoded length of the value, and stands between boxes again; and
  -- the output, whatever follows it, decodes as the value with what follows.
  pub write_box-decode :
      (w : BoxWriter) (tail : List ℕ)
      → length i.payload ≤ isize_max
      → IsWriter w
      → w.state ≡ State.open_state
      → (w' : BoxWriter) × (bytes : List ℕ) × (write_box c w value
          ≡ some (w', ok (record { offset = w.next_offset; bytes = bytes })))
        × (decode c (bytes ++ tail) ≡ ok (value, tail))
        × (length bytes ≡ encoded_len_of c value)
        × (w'.next_offset ≡ saturating_add w.next_offset (length bytes))
        × (w'.state ≡ State.open_state)
  unfolding write_box write_allocated put_box
  write_box-decode w tail small valid os =
      let fits : length i.payload + 32 < 2 ^ 64 = omega arith in
      let n : ℕ = c.payload_len value in
      let h : BoxHeader = chosen c value i t fits in
      let (w', e, s, moved) =
        write_events_lem w h i.payload valid os (chosen-IsHeader c value i t fits)
          (chosen-IsWritable c value i t fits) (chosen_span c value i t fits) (omega arith) in
      let eu : usize_try_from n ≡ some n = ground (arith, i.counted) in
      let ez : zeroed n ≡ some (replicate n 0) = ground (arith, i.counted) in
      let l : length (replicate n 0) ≡ length i.payload =
        omega (arith, i.counted, length-replicate {A = ℕ} n 0) in
      let ee : encode_value c value (replicate n 0) ≡ ok (i.payload, h) =
        encode_value_lem fits (replicate n 0) l in
      (
        w',
        raw_bytes (framed c value i h),
        rw (eu, ez, ee, e) refl,
        decode_raw c value i t fits tail,
        length-raw c value i t fits,
        rw (length-raw c value i t fits, encoded_len_of_lem c value i t fits) moved,
        s,
      )
