-- ===== src/Core/RawBox.antt =====
-- crates/isobmff-core/src/framing/raw_box.rs: a box as the bytes it was framed as, and the boxes laid
-- end to end in an input.
pub mod Framing
pub mod Iteration
mod Examples
use isobmff_rs.Common.{
  ℕ, zero, suc, ◌≡◌, Option, none, some, List, [], ◌∷◌, ◌++◌, length, split_at_checked,
}
use isobmff_rs.Common.Result.{Result, ok, err, ◌>>=◌, and_then}
use isobmff_rs.Core.BoxSize.{total_bytes}
use isobmff_rs.Core.Error.{Error, error, truncated_box}
use isobmff_rs.Core.BoxHeader
use isobmff_rs.Core.BoxHeader.{BoxHeader, IsHeader, payload_len, field_bytes}
use isobmff_rs.Core.BoxHeader.Fields.{uuid_of}

pub record RawBox : Type 0 where
  pub header : BoxHeader
  pub payload : List ℕ

-- The payload and the rest, where the header declares a total; `input` is the length of the input.
split_payload : BoxHeader → List ℕ → ℕ → Option ℕ → Result Error (RawBox × List ℕ)
split_payload header after_header input none =
    ok (record { header = header; payload = after_header }, [])
split_payload header after_header input (some total) =
    elim (and_then (payload_len header) (λ n. split_at_checked n after_header)) [
      | none ↦ err (error (truncated_box total input))
      | some (payload, rest) ↦ ok (record { header = header; payload = payload }, rest)
    ]

-- `RawBox::split_first`
unfoldable pub split_first : List ℕ → Result Error (RawBox × List ℕ)
unfolding split_payload payload_len
split_first input = do
  (header, after_header) ← BoxHeader.decode input
  split_payload header after_header (length input) (total_bytes header.size)

-- `Boxes::next`: what remains, and the item
unfoldable pub next : List ℕ → List ℕ × Option (Result Error RawBox)
next [] = ([], none)
next (b ∷ remaining) = elim (split_first (b ∷ remaining)) [
  | ok (framed, rest) ↦ (rest, some (ok framed))
  | err e ↦ ([], some (err e))
]

-- The items of `Boxes`, as far as the fuel goes.
unfoldable pub collect : ℕ → List ℕ → List (Result Error RawBox)
collect zero remaining = []
collect (suc fuel) remaining =
    let (rest, item) = next remaining in
    elim item [ none ↦ [] | some result ↦ result ∷ collect fuel rest ]

-- Each step takes a byte at least, so the length of the input is fuel enough.
unfoldable pub boxes : List ℕ → List (Result Error RawBox)
unfolding collect next
boxes input = collect (length input) input

-- The bytes that the box was framed from.
abbrev pub raw_bytes : RawBox → List ℕ
raw_bytes framed = field_bytes framed.header (uuid_of framed.header.box_type) ++ framed.payload

-- The payload is as long as the header says, or runs to the end of the input.
abbrev pub Spans : Option ℕ → List ℕ → List ℕ → Type 0
Spans none payload rest = rest ≡ []
Spans (some n) payload rest = length payload ≡ n

-- A box that is framed as its header says, in front of `rest`.
pub record IsFramed (framed : RawBox) (rest : List ℕ) : Type 0 where
  pub headed : IsHeader framed.header
  pub spans : Spans (payload_len framed.header) framed.payload rest
