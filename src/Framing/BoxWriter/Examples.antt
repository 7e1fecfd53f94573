-- ===== src/Framing/BoxWriter/Examples.antt =====
-- Runs of a writer on concrete events.
use isobmff_rs.Common.{◌≡◌, refl, none, List, [], ◌∷◌, ◌++◌, map, ℕ, min, length}
use isobmff_rs.Common.Words.{u64_max}
use isobmff_rs.Common.Result.{ok, err}
use isobmff_rs.Common.Bytes.{to_be_bytes}
use isobmff_rs.Core.Fixtures.{
  free_header, mdat_header, free_header-IsHeader, mdat_header-IsHeader, free_header-IsWritable,
  free_bytes,
}
use isobmff_rs.Core.BoxHeader.{payload_len, encode}
use isobmff_rs.Core.RawBox.{RawBox, boxes}
use isobmff_rs.Core.RawBox.Iteration.{bytes_of, AreFramed}
use isobmff_rs.Framing.BoxEvent.{BoxEvent, BoxEventKind}
use isobmff_rs.Framing.WriteError.{WriteError}
use isobmff_rs.Framing.BoxWriter
use isobmff_rs.Framing.BoxWriter.{
  BoxWriter, State, handle_event, handle, handle_payload, handle_end, header_written, finish,
  finish_state,
}
use isobmff_rs.Framing.BoxWriter.Steps.{IsWriter}
use isobmff_rs.Framing.BoxWriter.Cuts.{Cut, box_of, events_of, run-events_of}
use isobmff_rs.Framing.BoxWriter.Refusals.{handle_event-eq-err}
use isobmff_rs.Framing.BoxWriter.Runs.{AreEvents, run, headers, payloads, headers_of, payloads_of}
use isobmff_rs.Framing.BoxWriter.Files.{run-boxes}
use isobmff_rs.Framing.BoxWriter.Offsets.{reached, run-reached}

abbrev events : List BoxEvent
events =
    BoxEvent.header free_header
    ∷ BoxEvent.payload (1 ∷ [])
    ∷ BoxEvent.payload (2 ∷ [])
    ∷ BoxEvent.end
    ∷ BoxEvent.header mdat_header
    ∷ BoxEvent.payload (9 ∷ [])
    ∷ BoxEvent.end
    ∷ []

abbrev written : List ℕ
written = free_bytes ++ (0 ∷ 0 ∷ 0 ∷ 0 ∷ b'm' ∷ b'd' ∷ b'a' ∷ b't' ∷ 9 ∷ [])

abbrev last_header : List ℕ
last_header = 0 ∷ 0 ∷ 0 ∷ 0 ∷ b'm' ∷ b'd' ∷ b'a' ∷ b't' ∷ []

abbrev at_the_end : BoxWriter
at_the_end = (run BoxWriter.new events).0

run_of_events : run BoxWriter.new events ≡ (at_the_end, ok written)
unfolding BoxWriter.new handle_event handle header_written handle_payload handle_end encode
    payload_len to_be_bytes
run_of_events = refl

-- A second header before the end of the box, and a payload that runs past what the header declares.
refused_header :
    (handle_event
      (run BoxWriter.new (BoxEvent.header free_header ∷ [])).0
      (BoxEvent.header free_header)).1
    ≡ err (WriteError.unexpected_event BoxEventKind.end_kind BoxEventKind.header_kind)
unfolding BoxWriter.new handle_event handle header_written encode payload_len to_be_bytes
refused_header = refl

finish_of_events : finish at_the_end ≡ (record at_the_end { state = State.finished }, ok tt)
unfolding finish finish_state BoxWriter.new handle_event handle header_written handle_payload
    handle_end encode payload_len to_be_bytes
finish_of_events = refl

events-AreEvents : AreEvents events
events-AreEvents = (free_header-IsHeader, (tt, (tt, (tt, (mdat_header-IsHeader, (tt, (tt, tt)))))))

new-IsWriter : IsWriter BoxWriter.new
unfolding BoxWriter.new
new-IsWriter = refl

run-boxes_example :
    (bs : List RawBox) × AreFramed bs
    × (written ≡ bytes_of bs)
    × (boxes written ≡ map ok bs)
    × (headers events ≡ headers_of bs)
    × (payloads events ≡ payloads_of bs)
run-boxes_example =
    run-boxes events at_the_end (record at_the_end { state = State.finished }) written
      events-AreEvents run_of_events finish_of_events

run-reached_example : reached at_the_end.next_offset at_the_end.state ≡ min (length written) u64_max
run-reached_example = run-reached events at_the_end written events-AreEvents run_of_events

abbrev cuts : List Cut
cuts =
    record { header = free_header; pieces = (1 ∷ []) ∷ [] ∷ (2 ∷ []) ∷ [] }
    ∷ record { header = mdat_header; pieces = (9 ∷ []) ∷ [] }
    ∷ []

cuts-AreFramed : AreFramed (map box_of cuts)
unfolding payload_len
cuts-AreFramed = (
  record { headed = free_header-IsHeader; spans = refl },
  (record { headed = mdat_header-IsHeader; spans = refl }, tt),
)

run-events_of_example :
    (w : BoxWriter) × (run BoxWriter.new (events_of cuts) ≡ (w, ok (bytes_of (map box_of cuts))))
    × (finish w ≡ (record w { state = State.finished }, ok tt))
run-events_of_example =
    run-events_of cuts cuts-AreFramed (free_header-IsWritable, ((none, refl), tt))

refused_call : handle_event BoxWriter.new BoxEvent.end ≡ (
  BoxWriter.new,
  err (WriteError.unexpected_event BoxEventKind.header_kind BoxEventKind.end_kind),
)
unfolding BoxWriter.new handle_event handle
refused_call = refl

handle_event-eq-err_example : BoxWriter.new ≡ BoxWriter.new
handle_event-eq-err_example =
    handle_event-eq-err BoxWriter.new BoxWriter.new BoxEvent.end
      (WriteError.unexpected_event BoxEventKind.header_kind BoxEventKind.end_kind) refused_call
