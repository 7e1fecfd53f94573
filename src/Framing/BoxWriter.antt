-- ===== src/Framing/BoxWriter.antt =====
-- crates/isobmff/src/framing/box_writer.rs: boxes written one after the other, event by event.
pub mod Steps
pub mod Refusals
pub mod Runs
pub mod Files
pub mod Cuts
pub mod Offsets
pub mod Values
mod Examples
use isobmff_rs.Common.{
  ℕ, Option, none, some, List, [], ◌++◌, length, take, ltb, ◌==◌, replicate, if◌then◌else◌,
}
use isobmff_rs.Common.Words.{saturating_add, saturating_sub}
use isobmff_rs.Common.Result.{Result, ok, err}
use isobmff_rs.Core.BoxSize.{BoxSize, total_bytes}
use isobmff_rs.Core.Error.{Error}
use isobmff_rs.Core.BoxHeader
use isobmff_rs.Core.BoxHeader.{BoxHeader, encoded_len, payload_len, with_payload_len}
use isobmff_rs.Framing.Range.{ByteRange, to_u64}
use isobmff_rs.Framing.BoxEvent.{BoxEvent, BoxEventKind, event_kind}
use isobmff_rs.Framing.WriteError.{WriteError}

abbrev pub longest_header : ℕ
longest_header = 32

pub data State : Type 0 where
  open_state : State
  writing : BoxHeader → ℕ → ℕ → State
  past_end_of_file : State
  finished : State

pub record BoxWriter : Type 0 where
  pub next_offset : ℕ
  pub state : State
  pub header_bytes : List ℕ

-- A call on a writer: the writer as the call leaves it, and what it returns.
abbrev pub Call : Type 0 → Type 0
Call A = BoxWriter × Result WriteError A

-- `BoxWriter::new`
unfoldable pub new : BoxWriter
new = record {
  next_offset = 0;
  state = State.open_state;
  header_bytes = replicate longest_header 0;
}

-- What a header event does to a writer that stands between boxes, by what `encode` answers.
header_written : BoxWriter → BoxHeader → Result Error (List ℕ × List ℕ) → Call (List ℕ)
header_written w header (err e) = (w, err (WriteError.box e))
header_written w header (ok (front, unused)) = (
  record w { state = State.writing header w.next_offset 0; header_bytes = front ++ unused },
  ok (take (saturating_sub longest_header (length unused)) (front ++ unused)),
)

-- The declared length that a payload so long runs past, and that it is not.
abbrev pub overrun : BoxHeader → ℕ → Option ℕ
overrun header written = elim (payload_len header) [
  | none ↦ none
  | some declared ↦ if ltb declared written then some declared else none
]

abbrev pub mismatch : BoxHeader → ℕ → Option ℕ
mismatch header written = elim (payload_len header) [
  | none ↦ none
  | some declared ↦ if declared == written then none else some declared
]

-- `header.size() == BoxSize::ToEndOfFile`
abbrev pub after_end : BoxSize → State
after_end (BoxSize.compact _) = State.open_state
after_end (BoxSize.extended _) = State.open_state
after_end BoxSize.to_end_of_file = State.past_end_of_file

handle_payload : BoxWriter → BoxHeader → ℕ → ℕ → List ℕ → Call (List ℕ)
handle_payload w header offset written bytes =
    let written = saturating_add written (to_u64 (length bytes)) in
    elim (overrun header written) [
      | some declared ↦
          (w, err (WriteError.payload_length_mismatch header.box_type declared written))
      | none ↦ (record w { state = State.writing header offset written }, ok bytes)
    ]

handle_end : BoxWriter → BoxHeader → ℕ → ℕ → Call (List ℕ)
handle_end w header offset written = elim (mismatch header written) [
  | some declared ↦ (w, err (WriteError.payload_length_mismatch header.box_type declared written))
  | none ↦ (
    record w {
      next_offset = saturating_add (saturating_add offset (encoded_len header)) written;
      state = after_end header.size;
    },
    ok [],
  )
]

-- The match of `handle_event`, on the state and the event.
handle : BoxWriter → State → BoxEvent → Call (List ℕ)
unfolding header_written handle_payload handle_end BoxHeader.encode
handle w State.finished event = (w, err WriteError.already_finished)
handle w State.past_end_of_file (BoxEvent.header header) =
    (w, err (WriteError.past_end_of_file header.box_type))
handle w State.open_state (BoxEvent.header header) =
    header_written w header (BoxHeader.encode header w.header_bytes)
handle w (State.writing header offset written) (BoxEvent.payload bytes) =
    handle_payload w header offset written bytes
handle w (State.writing header offset written) BoxEvent.end = handle_end w header offset written
handle w (State.writing header offset written) (BoxEvent.header _) =
    (w, err (WriteError.unexpected_event BoxEventKind.end_kind BoxEventKind.header_kind))
handle w State.open_state event =
    (w, err (WriteError.unexpected_event BoxEventKind.header_kind (event_kind event)))
handle w State.past_end_of_file event =
    (w, err (WriteError.unexpected_event BoxEventKind.header_kind (event_kind event)))

-- `BoxWriter::handle_event`: the bytes to put at the end of the file
unfoldable pub handle_event : BoxWriter → BoxEvent → Call (List ℕ)
unfolding handle
handle_event w event = handle w w.state event

-- `BoxWriter::open_box`
unfoldable pub open_box : BoxWriter → Option ByteRange
open_box w = elim (w.state) [
  | State.writing header offset _ ↦
      some (record { offset = offset; length = total_bytes header.size })
  | _ ↦ none
]

finish_state : BoxWriter → State → Call (Unit {0})
finish_state w State.finished = (w, err WriteError.already_finished)
finish_state w (State.writing header offset written) = elim (payload_len header) [
  | some declared ↦ (w, err (WriteError.unfinished_box header.box_type declared written))
  | none ↦ (record w { state = State.finished }, ok tt)
]
finish_state w State.open_state = (record w { state = State.finished }, ok tt)
finish_state w State.past_end_of_file = (record w { state = State.finished }, ok tt)

-- `BoxWriter::finish`
unfoldable pub finish : BoxWriter → Call (Unit {0})
unfolding finish_state
finish w = finish_state w w.state

-- `?` on a call: what follows goes on with the writer that the call left.
abbrev pub on_ok : {A B : Type 0} → Call A → (BoxWriter → A → Call B) → Call B
on_ok (w, err e) k = (w, err e)
on_ok (w, ok a) k = k w a
