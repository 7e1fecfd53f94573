-- ===== src/Framing/Reserved/Examples.antt =====
-- Reserved space and placeholders of concrete lengths.
use isobmff_rs.Common.{ℕ, ◌≡◌, ◌+◌, ◌-◌, refl, none, some, List, [], ◌∷◌, length, replicate, arith}
use isobmff_rs.Common.Result.{ok, err, and_then}
use isobmff_rs.Framing.WriteError.{WriteError}
use isobmff_rs.Common.Bytes.{to_be_bytes}
use isobmff_rs.Core.Error.{error, truncated_box}
use isobmff_rs.Core.BoxHeader.{with_payload_len, encode, payload_len}
use isobmff_rs.Core.RawBox.{split_first}
use isobmff_rs.Framing.BoxWriter
use isobmff_rs.Framing.BoxWriter.{BoxWriter, handle_event}
use isobmff_rs.Framing.Reserved.{reserve, fill, media_data_header, write_reserved}
use isobmff_rs.Framing.Reserved.Spaces.{free_header, reserve-split_first, reserve-truncated_box}
use isobmff_rs.Framing.Reserved.Placeholder.{Placed, media_data_header-Placed}

abbrev zeros_box : List ℕ
zeros_box = 0 ∷ 0 ∷ 0 ∷ 12 ∷ b'f' ∷ b'r' ∷ b'e' ∷ b'e' ∷ 0 ∷ 0 ∷ 0 ∷ 0 ∷ []

reserve_twelve : reserve 12 ≡ some (ok zeros_box)
unfolding reserve with_payload_len encode to_be_bytes
reserve_twelve = refl

-- More bytes than an allocation holds, and fewer than a header takes.
reserve_panics : reserve 9223372036854775808 ≡ none
unfolding reserve with_payload_len
reserve_panics = refl

reserve_seven : reserve 7 ≡ some (err (WriteError.reserved_space_mismatch (some 7) 0))
unfolding reserve
reserve_seven = refl

write_twelve :
    and_then (write_reserved BoxWriter.new 12) (λ call. some call.0.next_offset) ≡ some 12
unfolding write_reserved reserve with_payload_len encode to_be_bytes BoxWriter.new handle_event
    payload_len
write_twelve = refl

-- Four bytes of twelve are filled, and a `free` header goes over the eight behind them.
fill_four :
    fill (record { offset = 100; length = some 12 }) (1 ∷ 2 ∷ 3 ∷ 4 ∷ [])
    ≡ ok (
        record { offset = 100; bytes = 1 ∷ 2 ∷ 3 ∷ 4 ∷ [] }
        ∷ record { offset = 104; bytes = 0 ∷ 0 ∷ 0 ∷ 8 ∷ b'f' ∷ b'r' ∷ b'e' ∷ b'e' ∷ [] }
        ∷ [])
unfolding fill with_payload_len encode to_be_bytes
fill_four = refl

reserve-split_first_example :
    (bytes : List ℕ) × (reserve 12 ≡ some (ok bytes))
    × (length bytes ≡ 12)
    × (split_first bytes
        ≡ ok (record { header = free_header 12; payload = replicate (12 - 8) 0 }, []))
reserve-split_first_example = reserve-split_first 12 (omega arith) (omega arith)

reserve-truncated_box_example :
    (bytes : List ℕ) × (reserve 4294967296 ≡ some (ok bytes))
    × (length bytes ≡ 4294967296)
    × (split_first bytes ≡ err (error (truncated_box (4294967296 + 8) 4294967296)))
reserve-truncated_box_example = reserve-truncated_box 4294967296 (omega arith) (omega arith)

media_data_header-Placed_example :
    (bytes : List ℕ) × (media_data_header 32 4 ≡ some (record { offset = 32; bytes = bytes }))
    × (length bytes ≡ 16)
    × Placed 4 bytes
media_data_header-Placed_example = media_data_header-Placed 32 4 (omega arith)
