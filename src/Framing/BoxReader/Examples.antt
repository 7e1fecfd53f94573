-- ===== src/Framing/BoxReader/Examples.antt =====
-- A reader on concrete pieces of input.
use isobmff_rs.Common.{
  ◌≡◌, ◌⊎◌, map, some, ◌+◌, refl, none, some, true, false, List, [], ◌∷◌, ◌++◌, arith, ℕ,
}
use isobmff_rs.Common.Result.{ok, err}
use isobmff_rs.Common.Bytes.{to_be_bytes, from_be_bytes}
use isobmff_rs.Core.Fixtures.{free_header, free_header-IsHeader}
use isobmff_rs.Core.BoxHeader.{field_bytes, payload_len, decode, encoded_len}
use isobmff_rs.Core.BoxHeader.Fields.{uuid_of}
use isobmff_rs.Core.RawBox.{RawBox, IsFramed}
use isobmff_rs.Framing.BoxEvent.{BoxEvent}
use isobmff_rs.Framing.ReadError.{ReadError}
use isobmff_rs.Framing.BoxReader.{BoxReader, Progress, starting_at, wanted_input}
use isobmff_rs.Framing.BoxReader.Reading.{handle_input, finish, read, read_header, take_input}
use isobmff_rs.Framing.BoxReader.Answers.{gather, gathered_box, gathered_box_range}
use isobmff_rs.Framing.BoxReader.Pieces.{feed, feed-header}
use isobmff_rs.Framing.BoxReader.Boxes.{gathered_box-feed}
use isobmff_rs.Framing.BoxReader.Failures.{Request, request, requests, requests-eq-failed}

-- The header of a `free` box in three pieces, the last with the first byte of the payload.
abbrev header_pieces : List (List ℕ)
header_pieces = (0 ∷ 0 ∷ 0 ∷ []) ∷ (10 ∷ b'f' ∷ []) ∷ [] ∷ (b'r' ∷ b'e' ∷ b'e' ∷ 1 ∷ []) ∷ []

abbrev payload_pieces : List (List ℕ)
payload_pieces = (1 ∷ []) ∷ (2 ∷ 7 ∷ []) ∷ []

abbrev free_box : RawBox
free_box = record { header = free_header; payload = 1 ∷ 2 ∷ [] }

free_box-IsFramed : IsFramed free_box []
unfolding payload_len
free_box-IsFramed = record { headed = free_header-IsHeader; spans = refl }

feed_pieces : (feed (starting_at 5) header_pieces).1 ≡ ok (some (BoxEvent.header free_header))
unfolding handle_input wanted_input read read_header take_input decode from_be_bytes
feed_pieces = refl

header_bytes :
    (0 ∷ 0 ∷ 0 ∷ 10 ∷ b'f' ∷ b'r' ∷ b'e' ∷ b'e' ∷ 1 ∷ []) ≡ field_bytes free_header none ++ (1 ∷ [])
unfolding to_be_bytes
header_bytes = refl

feed-header_example : feed (starting_at 5) header_pieces ≡ (
  record {
    position = 5 + encoded_len free_header;
    progress = Progress.opened free_header 5;
    gathered = field_bytes free_header (uuid_of free_header.box_type);
    at_end_of_file = false;
  },
  ok (some (BoxEvent.header free_header)),
)
feed-header_example =
    feed-header free_header 5 (1 ∷ []) header_pieces free_header-IsHeader (omega arith) header_bytes

gathered_box-feed_example :
    (opened answered done : BoxReader) × (feed (starting_at 5) header_pieces
      ≡ (opened, ok (some (BoxEvent.header free_header))))
    × (gather opened 2 ≡ (answered, ok tt))
    × (feed answered payload_pieces ≡ (done, ok (some BoxEvent.end)))
    × (done.position ≡ 5 + 10)
    × (gathered_box done ≡ some free_box)
    × (gathered_box_range done ≡ some (record { offset = 5; length = some 10 }))
gathered_box-feed_example =
    gathered_box-feed free_box 5 2 10 (1 ∷ []) (7 ∷ []) header_pieces payload_pieces
      free_box-IsFramed refl (omega arith) (omega arith) header_bytes refl (omega arith)

abbrev failed_reader : BoxReader
failed_reader = record (starting_at 0) {
  progress = Progress.failed (ReadError.unfinished_header 8 3);
}

abbrev three_bytes : BoxReader
three_bytes = (handle_input (starting_at 0) 0 (0 ∷ 0 ∷ 0 ∷ [])).0

-- Three bytes of a header, and then the end of the file.
finish_in_header : finish three_bytes ≡ (
  record three_bytes {
    progress = Progress.failed (ReadError.unfinished_header 8 3);
    at_end_of_file = true;
  },
  err (ReadError.unfinished_header 8 3),
)
unfolding handle_input finish wanted_input read read_header take_input decode from_be_bytes
finish_in_header = refl

failed_request : request three_bytes Request.end_of_input ≡ (
  record three_bytes {
    progress = Progress.failed (ReadError.unfinished_header 8 3);
    at_end_of_file = true;
  },
  some (ReadError.unfinished_header 8 3),
)
failed_request = rw finish_in_header refl

abbrev stuck : BoxReader
stuck = record three_bytes {
  progress = Progress.failed (ReadError.unfinished_header 8 3);
  at_end_of_file = true;
}

abbrev later : List Request
later = Request.input 3 (1 ∷ []) ∷ Request.skipping ∷ Request.gathering 5 ∷ []

requests-eq-failed_example :
    (stuck ≡ three_bytes)
    ⊎ (requests stuck later ≡ (stuck, map (λ _. some (ReadError.unfinished_header 8 3)) later))
requests-eq-failed_example =
    requests-eq-failed three_bytes stuck Request.end_of_input (ReadError.unfinished_header 8 3)
      later failed_request
