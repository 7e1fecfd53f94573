-- ===== src/Core/RawBox/Examples.antt =====
-- Concrete boxes, split off and iterated over, and the theorems about them at concrete inputs.
use isobmff_rs.Common.{ℕ, ◌≡◌, refl, List, [], ◌∷◌, ◌++◌, arith, map}
use isobmff_rs.Common.Bytes.{from_be_bytes}
use isobmff_rs.Common.Result.{ok, err}
use isobmff_rs.Core.Error.{error, truncated_header, truncated_box}
use isobmff_rs.Core.BoxHeader.{decode, payload_len}
use isobmff_rs.Core.RawBox.{RawBox, IsFramed, split_first, boxes, raw_bytes}
use isobmff_rs.Core.RawBox.Framing.{split_first-eq-ok, split_first-raw_bytes}
use isobmff_rs.Core.RawBox.Iteration.{
  Yields, AreFramed, bytes_of, boxes-Yields, boxes-bytes_of, boxes_complete,
}
use isobmff_rs.Core.Fixtures.{
  free_header, free_header-IsHeader, mdat_header, mdat_header-IsHeader, free_bytes,
  free_bytes-IsByte,
}

abbrev free_box : RawBox
free_box = record { header = free_header; payload = 1 ∷ 2 ∷ [] }

abbrev mdat_box : RawBox
mdat_box = record { header = mdat_header; payload = 5 ∷ [] }

split_free : split_first (free_bytes ++ 9 ∷ []) ≡ ok (free_box, 9 ∷ [])
unfolding split_first decode from_be_bytes
split_free = refl

split_cut :
    split_first (0 ∷ 0 ∷ 0 ∷ 10 ∷ b'f' ∷ b'r' ∷ b'e' ∷ b'e' ∷ 1 ∷ [])
    ≡ err (error (truncated_box 10 9))
unfolding split_first decode from_be_bytes
split_cut = refl

-- A box, and then bytes that frame no box.
boxes_cut : boxes (free_bytes ++ 9 ∷ []) ≡ ok free_box ∷ err (error (truncated_header 8 1)) ∷ []
unfolding boxes split_first decode from_be_bytes
boxes_cut = refl

free_box-IsFramed : (rest : List ℕ) → IsFramed free_box rest
unfolding payload_len
free_box-IsFramed rest = record { headed = free_header-IsHeader; spans = refl }

mdat_box-IsFramed : IsFramed mdat_box []
unfolding payload_len
mdat_box-IsFramed = record { headed = mdat_header-IsHeader; spans = refl }

split_first-eq-ok_example :
    IsFramed free_box (9 ∷ []) × (free_bytes ++ 9 ∷ [] ≡ raw_bytes free_box ++ 9 ∷ [])
split_first-eq-ok_example =
    split_first-eq-ok (free_bytes ++ 9 ∷ []) free_box (9 ∷ []) (omega arith) split_free

split_first-raw_bytes_example : split_first (raw_bytes free_box ++ 9 ∷ []) ≡ ok (free_box, 9 ∷ [])
split_first-raw_bytes_example = split_first-raw_bytes free_box (9 ∷ []) (free_box-IsFramed (9 ∷ []))

boxes-Yields_example : Yields free_bytes (boxes free_bytes)
boxes-Yields_example = boxes-Yields free_bytes free_bytes-IsByte

boxes-bytes_of_example :
    boxes (bytes_of (free_box ∷ mdat_box ∷ [])) ≡ map ok (free_box ∷ mdat_box ∷ [])
boxes-bytes_of_example =
    boxes-bytes_of (free_box ∷ mdat_box ∷ []) (free_box-IsFramed _, (mdat_box-IsFramed, tt))

boxes_free : boxes free_bytes ≡ map ok (free_box ∷ [])
unfolding boxes split_first decode from_be_bytes
boxes_free = refl

boxes_complete_example : AreFramed (free_box ∷ []) × (free_bytes ≡ bytes_of (free_box ∷ []))
boxes_complete_example = boxes_complete free_bytes (free_box ∷ []) free_bytes-IsByte boxes_free
