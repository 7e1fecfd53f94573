-- ===== src/Framing/BoxWriter/Refusals.antt =====
-- The calls of `handle_event` that fail.
use isobmff_rs.Common.{ℕ, ◌≡◌, List, arith}
use isobmff_rs.Common.Result.{Result, ok, err}
use isobmff_rs.Core.Error.{Error}
use isobmff_rs.Core.BoxHeader.{BoxHeader, encode}
use isobmff_rs.Framing.BoxEvent.{BoxEvent}
use isobmff_rs.Framing.WriteError.{WriteError}
use isobmff_rs.Framing.BoxWriter.{
  BoxWriter, State, handle_event, handle, header_written, handle_payload, handle_end,
}

header_written-eq-err :
    (w w' : BoxWriter) (h : BoxHeader) (x : WriteError) (r : Result Error (List ℕ × List ℕ))
    → header_written w h r ≡ (w', err x)
    → w' ≡ w
unfolding header_written
header_written-eq-err w w' h x (ok p) c = absurd (cc)
header_written-eq-err w w' h x (err e) c = cc

handle-eq-err :
    (w w' : BoxWriter) (s : State) (e : BoxEvent) (x : WriteError)
    → handle w s e ≡ (w', err x)
    → w' ≡ w
unfolding handle handle_payload handle_end
handle-eq-err w w' State.open_state (BoxEvent.header h) x c =
    header_written-eq-err w w' h x (encode h w.header_bytes) c
handle-eq-err w w' (State.writing h offset k) (BoxEvent.payload bytes) x c = ground arith
handle-eq-err w w' (State.writing h offset k) BoxEvent.end x c = ground arith
handle-eq-err w w' (State.writing h offset k) (BoxEvent.header h') x c = cc
handle-eq-err w w' State.open_state (BoxEvent.payload bytes) x c = cc
handle-eq-err w w' State.open_state BoxEvent.end x c = cc
handle-eq-err w w' State.past_end_of_file (BoxEvent.header h) x c = cc
handle-eq-err w w' State.past_end_of_file (BoxEvent.payload bytes) x c = cc
handle-eq-err w w' State.past_end_of_file BoxEvent.end x c = cc
handle-eq-err w w' State.finished e x c = cc

-- A call that fails leaves the writer as it was.
pub handle_event-eq-err :
    (w w' : BoxWriter) (e : BoxEvent) (x : WriteError) → handle_event w e ≡ (w', err x) → w' ≡ w
unfolding handle_event
handle_event-eq-err w w' e x c = handle-eq-err w w' w.state e x c
