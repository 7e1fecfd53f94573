-- ===== src/Framing/BoxReader.antt =====
-- crates/isobmff/src/framing/box_reader.rs: boxes read from a file, piece by piece.
pub mod Reading
pub mod Answers
pub mod Taking
pub mod Headers
pub mod Pieces
pub mod Gathering
pub mod Boxes
pub mod Failures
mod Examples
use isobmff_rs.Common.{
  ℕ, zero, suc, ◌-◌, Bool, true, false, Option, none, some, List, [], ◌∷◌, ◌++◌, length, take, drop,
  ltb, leb, ◌==◌, not, ◌&&◌, ◌||◌, is_empty, min, if◌then◌else◌,
}
use isobmff_rs.Common.Words.{saturating_add, saturating_sub, checked_sub, u64_max}
use isobmff_rs.Common.Result.{
  Result, ok, err, ok_or, and_then, or_else, unwrap_or, to_option, ◌>>=◌,
}
use isobmff_rs.Core.BoxSize.{total_bytes}
use isobmff_rs.Core.Error.{Error, ErrorKind}
use isobmff_rs.Core.BoxHeader
use isobmff_rs.Core.BoxHeader.{BoxHeader, encoded_len, payload_len}
use isobmff_rs.Core.RawBox.{RawBox, split_first}
use isobmff_rs.Framing.Range.{ByteRange, to_u64}
use isobmff_rs.Common.Words.{usize_try_from}
use isobmff_rs.Framing.BoxEvent.{BoxEvent}
use isobmff_rs.Framing.ReadError.{ReadError}

abbrev pub shortest_header : ℕ
shortest_header = 8

-- How a box is read, as the reader was told: `limit_bytes` and `head_bytes` are what the two carry.
pub data Answer : Type 0 where
  gather : ℕ → Answer
  gather_head : ℕ → Answer
  stream : Answer
  skip : Answer

-- `Header { needed }`, `Opened { header, offset }`, `Payload { header, offset, end, answer }`,
-- `Gathered { header, offset, whole }` and `Failed`.
pub data Progress : Type 0 where
  header : ℕ → Progress
  opened : BoxHeader → ℕ → Progress
  payload : BoxHeader → ℕ → Option ℕ → Answer → Progress
  gathered : BoxHeader → ℕ → Bool → Progress
  failed : ReadError → Progress

pub record BoxReader : Type 0 where
  pub position : ℕ
  pub progress : Progress
  pub gathered : List ℕ
  pub at_end_of_file : Bool

-- A call on a reader: the reader as the call leaves it, and what it returns.
abbrev pub Call : Type 0 → Type 0
Call A = BoxReader × Result ReadError A

-- `BoxReader::starting_at` and `BoxReader::new`
abbrev pub starting_at : ℕ → BoxReader
starting_at position = record {
  position = position;
  progress = Progress.header shortest_header;
  gathered = [];
  at_end_of_file = false;
}

abbrev pub new : BoxReader
new = starting_at 0

abbrev pub remaining : BoxReader → Option ℕ → Option ℕ
remaining r end = and_then end (λ end. some (saturating_sub end r.position))

abbrev pub gathered_payload_bytes : BoxReader → BoxHeader → ℕ
gathered_payload_bytes r h = saturating_sub (to_u64 (length r.gathered)) (encoded_len h)

-- The lesser of a bound, where there is one, and a length.
abbrev pub at_most : Option ℕ → ℕ → ℕ
at_most none n = n
at_most (some bound) n = min bound n

abbrev pub head_wanted : BoxReader → BoxHeader → Option ℕ → ℕ → ℕ
head_wanted r h end head_bytes =
    at_most (remaining r end) (saturating_sub head_bytes (gathered_payload_bytes r h))

-- `filter(|&length| length > 0)`
abbrev pub positive : Option ℕ → Option ℕ
positive none = none
positive (some n) = if n == 0 then none else some n

abbrev wanted_at : BoxReader → Option ℕ → Option ByteRange
wanted_at r length = some (record { offset = r.position; length = length })

abbrev wanted_progress : BoxReader → Progress → Option ByteRange
wanted_progress r (Progress.header _) = wanted_at r none
wanted_progress r (Progress.gathered _ _ _) = wanted_at r none
wanted_progress r (Progress.opened h _) = wanted_at r (payload_len h)
wanted_progress r (Progress.failed _) = none
wanted_progress r (Progress.payload h _ none Answer.skip) = none
wanted_progress r (Progress.payload h _ (some end) Answer.skip) =
    wanted_at r (positive (remaining r (some end)))
wanted_progress r (Progress.payload h _ none (Answer.gather_head head_bytes)) =
    let wanted = head_wanted r h none head_bytes in
    if wanted == 0 then none else wanted_at r (positive (some wanted))
wanted_progress r (Progress.payload h _ (some end) (Answer.gather_head head_bytes)) =
    wanted_at r (positive (some (head_wanted r h (some end) head_bytes)))
wanted_progress r (Progress.payload h _ end Answer.stream) =
    wanted_at r (positive (remaining r end))
wanted_progress r (Progress.payload h _ end (Answer.gather _)) =
    wanted_at r (positive (remaining r end))

-- `BoxReader::wanted_input`
unfoldable pub wanted_input : BoxReader → Option ByteRange
unfolding payload_len
wanted_input r = if r.at_end_of_file then none else wanted_progress r r.progress

-- `BoxReader::check_answered` and `BoxReader::open_header`
abbrev pub check_answered : Progress → Result ReadError (Unit {0})
check_answered (Progress.failed failure) = err failure
check_answered (Progress.opened h _) = err (ReadError.undecided_box h.box_type)
check_answered (Progress.header _) = ok tt
check_answered (Progress.payload _ _ _ _) = ok tt
check_answered (Progress.gathered _ _ _) = ok tt

abbrev pub open_header : Progress → Result ReadError (BoxHeader × ℕ)
open_header (Progress.opened h offset) = ok (h, offset)
open_header (Progress.failed failure) = err failure
open_header (Progress.header _) = err ReadError.no_open_box
open_header (Progress.payload _ _ _ _) = err ReadError.no_open_box
open_header (Progress.gathered _ _ _) = err ReadError.no_open_box

-- `BoxReader::leave_gathered`
abbrev pub leave : BoxReader → Progress → BoxReader
leave r (Progress.gathered _ _ _) = record r {
  gathered = [];
  progress = Progress.header shortest_header;
}
leave r _ = r

abbrev pub leave_gathered : BoxReader → BoxReader
leave_gathered r = leave r r.progress

-- `BoxReader::fail`
abbrev pub fail : BoxReader → ReadError → BoxReader × Option BoxEvent
fail r failure = (record r { progress = Progress.failed failure }, none)

-- `slice.get(n..)`
abbrev pub get_from {ℓ} : {A : Type ℓ} → List A → ℕ → Option (List A)
get_from xs n = if leb n (length xs) then some (drop n xs) else none
