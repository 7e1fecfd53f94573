-- ===== src/Framing/BoxReader/Answers.antt =====
-- crates/isobmff/src/framing/box_reader.rs: the answers to an open box, and what was gathered.
use isobmff_rs.Common.{
  ℕ, Bool, true, false, Option, none, some, List, length, ltb, ◌==◌, if◌then◌else◌,
}
use isobmff_rs.Common.Words.{saturating_add}
use isobmff_rs.Common.Result.{Result, ok, err, and_then, or_else, unwrap_or, to_option, ◌>>=◌}
use isobmff_rs.Core.BoxSize.{total_bytes}
use isobmff_rs.Core.BoxHeader.{BoxHeader, encoded_len, payload_len}
use isobmff_rs.Core.RawBox.{RawBox, split_first}
use isobmff_rs.Framing.Range.{ByteRange, to_u64}
use isobmff_rs.Common.Words.{usize_try_from}
use isobmff_rs.Framing.ReadError.{ReadError}
use isobmff_rs.Framing.BoxReader.{BoxReader, Progress, Answer, Call, at_most, open_header, get_from}

-- Whether the payload is passed over as soon as the box is answered.
abbrev pub passes_over : Answer → Bool
passes_over Answer.skip = true
passes_over (Answer.gather_head head_bytes) = head_bytes == 0
passes_over Answer.stream = false
passes_over (Answer.gather _) = false

-- `BoxReader::answer`
abbrev pub answer : BoxReader → BoxHeader → ℕ → Answer → BoxReader
answer r h offset a =
    let end = and_then (total_bytes h.size) (λ total. some (saturating_add offset total)) in
    let position = if passes_over a then unwrap_or end r.position else r.position in
    record r { position = position; progress = Progress.payload h offset end a }

-- What an answer does to a reader whose box is open: the reader as it leaves it, or a failure that
-- leaves the reader as it was.
abbrev pub Decide : Type 0
Decide = BoxHeader × ℕ → Result ReadError BoxReader

abbrev pub answered : BoxReader → Result ReadError BoxReader → Call (Unit {0})
answered r (ok moved) = (moved, ok tt)
answered r (err e) = (r, err e)

abbrev decide : BoxReader → Decide → Call (Unit {0})
decide r k = answered r (open_header r.progress >>= k)

-- The declared length of the payload, where it is past the limit.
abbrev pub past_limit : BoxHeader → ℕ → Option ℕ
past_limit h limit_bytes = elim (payload_len h) [
  | none ↦ none
  | some declared ↦ if ltb limit_bytes declared then some declared else none
]

-- What `gather` makes of an open box.
unfoldable pub gather_answer : BoxReader → ℕ → Decide
gather_answer r limit_bytes (h, offset) = elim (past_limit h limit_bytes) [
  | some declared ↦ err (ReadError.payload_limit_exceeded h.box_type declared limit_bytes)
  | none ↦ ok (answer r h offset (Answer.gather limit_bytes))
]

-- `BoxReader::gather`
unfoldable pub gather : BoxReader → ℕ → Call (Unit {0})
gather r limit_bytes = decide r (gather_answer r limit_bytes)

-- `BoxReader::gather_head`
unfoldable pub gather_head : BoxReader → ℕ → Call (Unit {0})
gather_head r length_bytes = decide r (λ (h, offset).
    ok (answer r h offset (Answer.gather_head (at_most (payload_len h) length_bytes))))

-- `BoxReader::stream` and `BoxReader::skip`
unfoldable pub stream : BoxReader → Call (Unit {0})
stream r = decide r (λ (h, offset). ok (answer r h offset Answer.stream))

unfoldable pub skip : BoxReader → Call (Unit {0})
skip r = decide r (λ (h, offset). ok (answer r h offset Answer.skip))

open_progress : Progress → Option ByteRange
open_progress (Progress.opened h offset) =
    some (record { offset = offset; length = total_bytes h.size })
open_progress (Progress.payload h offset _ _) =
    some (record { offset = offset; length = total_bytes h.size })
open_progress _ = none

-- `BoxReader::open_box`
unfoldable pub open_box : BoxReader → Option ByteRange
unfolding open_progress
open_box r = open_progress r.progress

gathered_progress : BoxReader → Progress → Option RawBox
gathered_progress r (Progress.gathered _ _ true) =
    and_then (to_option (split_first r.gathered)) (λ p. some p.0)
gathered_progress r _ = none

-- `BoxReader::gathered_box`
unfoldable pub gathered_box : BoxReader → Option RawBox
unfolding gathered_progress
gathered_box r = gathered_progress r r.progress

head_progress : BoxReader → Progress → Option (BoxHeader × List ℕ)
head_progress r (Progress.gathered h _ false) =
    and_then (and_then (usize_try_from (encoded_len h)) (get_from r.gathered))
      (λ head. some (h, head))
head_progress r _ = none

-- `BoxReader::gathered_head`
unfoldable pub gathered_head : BoxReader → Option (BoxHeader × List ℕ)
unfolding head_progress
gathered_head r = head_progress r r.progress

range_progress : BoxReader → Progress → Option ByteRange
range_progress r (Progress.gathered h offset whole) =
    let gathered = if whole then some (to_u64 (length r.gathered)) else none in
    some (record { offset = offset; length = or_else (total_bytes h.size) gathered })
range_progress r _ = none

-- `BoxReader::gathered_box_range`
unfoldable pub gathered_box_range : BoxReader → Option ByteRange
unfolding range_progress
gathered_box_range r = range_progress r r.progress
