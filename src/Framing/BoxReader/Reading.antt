-- ===== src/Framing/BoxReader/Reading.antt =====
-- crates/isobmff/src/framing/box_reader.rs: what a reader makes of input.
use isobmff_rs.Common.{
  ℕ, zero, suc, Bool, true, false, Option, none, some, List, [], ◌++◌, length, take, drop, ltb, leb,
  ◌==◌, ◌&&◌, is_empty, if◌then◌else◌,
}
use isobmff_rs.Common.Words.{saturating_add, saturating_sub, checked_sub, u64_max}
use isobmff_rs.Common.Result.{Result, ok, err, and_then, unwrap_or}
use isobmff_rs.Core.BoxSize.{total_bytes}
use isobmff_rs.Core.Error.{Error, ErrorKind}
use isobmff_rs.Core.BoxHeader
use isobmff_rs.Core.BoxHeader.{BoxHeader, encoded_len, payload_len}
use isobmff_rs.Framing.Range.{ByteRange, to_u64}
use isobmff_rs.Common.Words.{usize_try_from}
use isobmff_rs.Framing.BoxEvent.{BoxEvent}
use isobmff_rs.Framing.ReadError.{ReadError}
use isobmff_rs.Framing.BoxReader.{
  BoxReader, Progress, Answer, Call, shortest_header, remaining, gathered_payload_bytes, at_most,
  head_wanted, wanted_input, check_answered, leave_gathered, fail, get_from,
}

-- How many bytes `take` splits off an input.
abbrev pub take_length : List ℕ → Option ℕ → ℕ
take_length input limit = at_most (and_then limit usize_try_from) (length input)

-- `BoxReader::take`: the bytes, the rest of the input, and the reader past them
unfoldable pub take_input : BoxReader → List ℕ → Option ℕ → Option (List ℕ × List ℕ × BoxReader)
take_input r input limit =
    let n = take_length input limit in
    let taken = take n input in
    if is_empty taken
    then none
    else some (
      taken,
      drop n input,
      record r { position = saturating_add r.position (to_u64 (length taken)) },
    )

-- The end of the input, with the header short of the `needed` bytes.
abbrev pub header_short : BoxReader → ℕ → BoxReader × Option BoxEvent
header_short r needed =
    let waiting = record r { progress = Progress.header needed } in
    let read = to_u64 (length r.gathered) in
    if r.at_end_of_file && ltb 0 read
    then fail waiting (ReadError.unfinished_header needed read)
    else (waiting, none)

-- What the answer of `decode` to the bytes gathered makes of the header; `again` is the loop's next
-- turn, with the length that the header needs.
abbrev pub decoded :
    BoxReader
    → (ℕ → BoxReader × Option BoxEvent)
    → Result Error (BoxHeader × List ℕ)
    → BoxReader × Option BoxEvent
decoded r again (ok (h, _)) = (
  record r {
    progress = Progress.opened h (saturating_sub r.position (to_u64 (length r.gathered)));
  },
  some (BoxEvent.header h),
)
decoded r again (err e) = elim (e.kind) [
  | ErrorKind.truncated_header needed_bytes _ ↦ again needed_bytes
  | _ ↦ fail r (ReadError.box e)
]

-- `BoxReader::read_header`, its loop on fuel
unfoldable pub read_header : ℕ → BoxReader → List ℕ → ℕ → BoxReader × Option BoxEvent
read_header zero r input needed = (r, none)
read_header (suc fuel) r input needed =
    elim (take_input r input (some (saturating_sub needed (to_u64 (length r.gathered))))) [
      | none ↦ header_short r needed
      | some (bytes, rest, moved) ↦
          let r = record moved { gathered = r.gathered ++ bytes } in
          let again : ℕ → BoxReader × Option BoxEvent = read_header fuel r rest in
          if ltb (to_u64 (length r.gathered)) needed
          then again needed
          else decoded r again (BoxHeader.decode r.gathered)
    ]

-- What the payload is when its end is reached, or the input is at an end.
abbrev pub is_gathered : Answer → Option Bool
is_gathered (Answer.gather _) = some true
is_gathered (Answer.gather_head _) = some false
is_gathered Answer.stream = none
is_gathered Answer.skip = none

abbrev pub ended : BoxReader → BoxHeader → ℕ → Answer → BoxReader
ended r h offset a = elim (is_gathered a) [
  | some whole ↦ record r { progress = Progress.gathered h offset whole }
  | none ↦ record r { gathered = []; progress = Progress.header shortest_header }
]

-- `remaining == Some(0) || remaining.is_none() && self.at_end_of_file`
abbrev pub at_end : Option ℕ → Bool → Bool
at_end (some n) at_end_of_file = n == 0
at_end none at_end_of_file = at_end_of_file

-- What `read_payload` does once it has taken what it takes of the input.
abbrev pub close : BoxReader → BoxHeader → ℕ → Option ℕ → Answer → BoxReader × Option BoxEvent
close r h offset end a =
    let left = remaining r end in
    let needed_bytes = unwrap_or (total_bytes h.size) u64_max in
    if at_end left r.at_end_of_file
    then (ended r h offset a, some BoxEvent.end)
    else if r.at_end_of_file
    then fail r (
        ReadError.unfinished_box h.box_type needed_bytes
          (saturating_sub needed_bytes (unwrap_or left 0)))
    else (r, none)

-- The reader with what it takes of the input gathered, where it takes any of it.
abbrev pub gather_input : BoxReader → List ℕ → ℕ → BoxReader
gather_input r input wanted = elim (take_input r input (some wanted)) [
  | none ↦ r
  | some (bytes, _, moved) ↦ record moved { gathered = r.gathered ++ bytes }
]

-- The reader at the end of the payload, where there is one and the head is gathered.
abbrev pub pass_head : BoxReader → BoxHeader → Option ℕ → ℕ → BoxReader
pass_head r h none head_bytes = r
pass_head r h (some end) head_bytes =
    if leb head_bytes (gathered_payload_bytes r h) then record r { position = end } else r

abbrev pub gather_wanted : BoxReader → BoxHeader → Option ℕ → ℕ → ℕ
gather_wanted r h end limit_bytes =
    at_most (remaining r end)
      (saturating_add (saturating_sub limit_bytes (gathered_payload_bytes r h)) 1)

-- `BoxReader::read_payload`
unfoldable pub read_payload :
    BoxReader → List ℕ → BoxHeader → ℕ → Option ℕ → Answer → BoxReader × Option BoxEvent
read_payload r input h offset end Answer.skip = close r h offset end Answer.skip
read_payload r input h offset end Answer.stream = elim (take_input r input (remaining r end)) [
  | some (bytes, _, moved) ↦ (moved, some (BoxEvent.payload bytes))
  | none ↦ close r h offset end Answer.stream
]
read_payload r input h offset end (Answer.gather_head head_bytes) =
    let r = gather_input r input (head_wanted r h end head_bytes) in
    close (pass_head r h end head_bytes) h offset end (Answer.gather_head head_bytes)
read_payload r input h offset end (Answer.gather limit_bytes) =
    let gathered_bytes = gathered_payload_bytes r h in
    elim (take_input r input (some (gather_wanted r h end limit_bytes))) [
      | none ↦ close r h offset end (Answer.gather limit_bytes)
      | some (bytes, _, moved) ↦
          let reached_bytes = saturating_add gathered_bytes (to_u64 (length bytes)) in
          if ltb limit_bytes reached_bytes
          then fail moved (ReadError.payload_limit_exceeded h.box_type reached_bytes limit_bytes)
          else close (record moved { gathered = r.gathered ++ bytes }) h offset end
              (Answer.gather limit_bytes)
    ]

-- The failure that the reader has come to, and the event otherwise.
abbrev pub settled : BoxReader → Option BoxEvent → Progress → Call (Option BoxEvent)
settled r event (Progress.failed failure) = (r, err failure)
settled r event _ = (r, ok event)

-- Each turn of the loop of `read_header` takes a byte at least, so one more than the input is fuel
-- enough.
abbrev pub read_progress : BoxReader → List ℕ → Progress → BoxReader × Option BoxEvent
read_progress r input (Progress.header needed) = read_header (suc (length input)) r input needed
read_progress r input (Progress.payload h offset end a) = read_payload r input h offset end a
read_progress r input _ = (r, none)

-- `BoxReader::read`
unfoldable pub read : BoxReader → List ℕ → Call (Option BoxEvent)
read r input = let (r, event) = read_progress r input r.progress in settled r event r.progress

-- `input.get(passed_over..)` where it is not empty
abbrev pub input_from : List ℕ → ℕ → Option (List ℕ)
input_from input passed_over =
    and_then (usize_try_from passed_over)
      (λ n. and_then (get_from input n) (λ rest. if is_empty rest then none else some rest))

-- What `handle_input` does with the input from the position on.
abbrev pub read_from : BoxReader → ℕ → Option (List ℕ) → Call (Option BoxEvent)
read_from r position none = (leave_gathered r, ok none)
read_from r position (some rest) = read (record (leave_gathered r) { position = position }) rest

-- What `handle_input` does where input is wanted, by how much of the input is passed over.
abbrev pub offered : BoxReader → ℕ → List ℕ → ByteRange → Option ℕ → Call (Option BoxEvent)
offered r offset input wanted none = (r, err (ReadError.unwanted_input offset wanted))
offered r offset input wanted (some passed_over) =
    read_from r (saturating_add offset passed_over) (input_from input passed_over)

abbrev pub handle_wanted : BoxReader → ℕ → List ℕ → Option ByteRange → Call (Option BoxEvent)
handle_wanted r offset input none = (r, ok none)
handle_wanted r offset input (some wanted) =
    offered r offset input wanted (checked_sub wanted.offset offset)

abbrev pub handle_answered :
    BoxReader → ℕ → List ℕ → Result ReadError (Unit {0}) → Call (Option BoxEvent)
handle_answered r offset input (err e) = (r, err e)
handle_answered r offset input (ok _) = handle_wanted r offset input (wanted_input r)

-- `BoxReader::handle_input`
unfoldable pub handle_input : BoxReader → ℕ → List ℕ → Call (Option BoxEvent)
handle_input r offset input = handle_answered r offset input (check_answered r.progress)

abbrev pub finish_answered : BoxReader → Result ReadError (Unit {0}) → Call (Option BoxEvent)
finish_answered r (err e) = (r, err e)
finish_answered r (ok _) = read (record (leave_gathered r) { at_end_of_file = true }) []

-- `BoxReader::finish`
unfoldable pub finish : BoxReader → Call (Option BoxEvent)
finish r = finish_answered r (check_answered r.progress)
