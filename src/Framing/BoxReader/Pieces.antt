-- ===== src/Framing/BoxReader/Pieces.antt =====
-- A header offered to the reader piece by piece.
use isobmff_rs.Common.{
  ℕ, suc, ◌≡◌, ◌+◌, ◌-◌, ◌≤◌, ◌<◌, false, Option, none, some, List, [], ◌∷◌, ◌++◌, length, refl,
  arith, sym, ap, ◌∙◌, length-append, append_assoc,
}
use isobmff_rs.Common.Words.{saturating_add, u64_max}
use isobmff_rs.Common.Result.{ok, err}
use native.Mathlib.Decide.{dec_lt}
use isobmff_rs.Core.BoxHeader.{BoxHeader, IsHeader, field_bytes, encoded_len}
use isobmff_rs.Core.BoxHeader.Fields.{uuid_of, length-field_bytes}
use isobmff_rs.Core.BoxHeader.Prefix.{needed_for}
use isobmff_rs.Core.RawBox.Framing.{encoded_len_bounds}
use isobmff_rs.Framing.BoxEvent.{BoxEvent}
use isobmff_rs.Framing.BoxReader.{BoxReader, Progress, Call, starting_at, wanted_input}
use isobmff_rs.Framing.BoxReader.Reading.{read, handle_input, settled}
use isobmff_rs.Framing.BoxReader.Headers.{opened_at, waiting_at, read_whole, read_part}

-- A reader between boxes, or inside a header of which some bytes are gathered.
abbrev pub waiting : ℕ → List ℕ → ℕ → BoxReader
waiting position gathered needed = record {
  position = position;
  progress = Progress.header needed;
  gathered = gathered;
  at_end_of_file = false;
}

-- Where no event came, the next piece is offered.
abbrev pub and_next :
    Call (Option BoxEvent) → (BoxReader → Call (Option BoxEvent)) → Call (Option BoxEvent)
and_next (r, ok none) k = k r
and_next (r, ok (some event)) k = (r, ok (some event))
and_next (r, err e) k = (r, err e)

-- The pieces offered one after the other, each where the reader stands, up to the first event.
abbrev pub feed : BoxReader → List (List ℕ) → Call (Option BoxEvent)
feed r [] = (r, ok none)
feed r (piece ∷ pieces) = and_next (handle_input r r.position piece) (λ r. feed r pieces)

abbrev pub concat : List (List ℕ) → List ℕ
concat [] = []
concat (piece ∷ pieces) = piece ++ concat pieces

-- A piece that is not empty is read from where the reader stands.
handle_input-waiting :
    (position needed x : ℕ) (gathered xs : List ℕ)
    → position ≤ u64_max
    → handle_input (waiting position gathered needed) position (x ∷ xs)
      ≡ read (waiting position gathered needed) (x ∷ xs)
unfolding handle_input wanted_input
handle_input-waiting position needed x gathered xs bound =
    let ep : saturating_add position 0 ≡ position = omega arith in ground (arith, ep)

handle_input-empty :
    (position needed : ℕ) (gathered : List ℕ)
    → handle_input (waiting position gathered needed) position []
      ≡ (waiting position gathered needed, ok none)
unfolding handle_input wanted_input
handle_input-empty position needed gathered = ground arith

module _ (h : BoxHeader) (valid : IsHeader h) (rest : List ℕ) where
  abbrev fields : List ℕ
  fields = field_bytes h (uuid_of h.box_type)

  abbrev waiting_for : ℕ → List ℕ → BoxReader
  waiting_for position gathered = waiting position gathered (needed_for h (length gathered))

  handle_whole :
      (position x : ℕ) (gathered xs more : List ℕ)
      → position ≤ u64_max
      → length gathered < encoded_len h
      → encoded_len h ≤ length gathered + length (x ∷ xs)
      → fields ++ rest ≡ gathered ++ ((x ∷ xs) ++ more)
      → handle_input (waiting_for position gathered) position (x ∷ xs)
        ≡ (opened_at h valid rest (waiting_for position gathered), ok (some (BoxEvent.header h)))
  unfolding read
  handle_whole position x gathered xs more bound short whole e =
      let go =
        read_whole h valid rest (suc (length (x ∷ xs))) (waiting_for position gathered) (x ∷ xs)
          more (omega arith) short whole e in
      handle_input-waiting position _ x gathered xs bound
      ∙ ap (λ p. settled p.0 p.1 p.0.progress) go

  handle_part :
      (position x : ℕ) (gathered xs more : List ℕ)
      → position ≤ u64_max
      → length gathered + length (x ∷ xs) < encoded_len h
      → fields ++ rest ≡ gathered ++ ((x ∷ xs) ++ more)
      → handle_input (waiting_for position gathered) position (x ∷ xs)
        ≡ (waiting_at h valid rest (waiting_for position gathered) (x ∷ xs), ok none)
  unfolding read
  handle_part position x gathered xs more bound part e =
      let go =
        read_part h valid rest (suc (length (x ∷ xs))) (waiting_for position gathered) (x ∷ xs) more
          (omega arith) refl bound part e in
      handle_input-waiting position _ x gathered xs bound
      ∙ ap (λ p. settled p.0 p.1 p.0.progress) go

  -- A piece that ends inside the header moves the reader on towards the same place.
  opened-part :
      (position : ℕ) (gathered piece : List ℕ)
      → length gathered + length piece < encoded_len h
      → opened_at h valid rest
          (waiting_for (saturating_add position (length piece)) (gathered ++ piece))
        ≡ opened_at h valid rest (waiting_for position gathered)
  opened-part position gathered piece part =
      let ep : saturating_add (saturating_add position (length piece))
            (encoded_len h - (length gathered + length piece))
          ≡ saturating_add position (encoded_len h - length gathered) =
        omega arith in
      rw (length-append, ep) refl

  waiting-part :
      (position : ℕ) (gathered piece : List ℕ)
      → waiting_at h valid rest (waiting_for position gathered) piece
        ≡ waiting_for (saturating_add position (length piece)) (gathered ++ piece)
  waiting-part position gathered piece = rw (length-append gathered piece) refl

  feed-waiting :
      (pieces : List (List ℕ)) (position : ℕ) (gathered : List ℕ)
      → position ≤ u64_max
      → length gathered < encoded_len h
      → encoded_len h ≤ length gathered + length (concat pieces)
      → fields ++ rest ≡ gathered ++ concat pieces
      → feed (waiting_for position gathered) pieces
        ≡ (opened_at h valid rest (waiting_for position gathered), ok (some (BoxEvent.header h)))
  feed-waiting [] position gathered bound short whole e = absurd (omega arith)
  feed-waiting ([] ∷ pieces) position gathered bound short whole e =
      rw (handle_input-empty position (needed_for h (length gathered)) gathered)
        (feed-waiting pieces position gathered bound short whole e)
  feed-waiting ((x ∷ xs) ∷ pieces) position gathered bound short whole e =
      elim (dec_lt (length gathered + length (x ∷ xs)) (encoded_len h)) [
        | no done ↦
            rw (handle_whole position x gathered xs (concat pieces) bound short (omega arith) e)
              refl
        | yes part ↦
            let lg = length-append gathered (x ∷ xs) in
            let go =
              feed-waiting pieces (saturating_add position (length (x ∷ xs))) (gathered ++ (x ∷ xs))
                (omega arith) (omega (arith, lg))
                (omega (arith, lg, length-append (x ∷ xs) (concat pieces)))
                (e ∙ sym (append_assoc gathered (x ∷ xs) (concat pieces))) in
            rw
              (
                handle_part position x gathered xs (concat pieces) bound part e,
                waiting-part position gathered (x ∷ xs),
              )
              (go
                ∙ ap (λ r. (r, ok (some (BoxEvent.header h))))
                    (opened-part position gathered (x ∷ xs) part))
      ]

-- A header is read the same wherever the input is cut: pieces that are, one after the other, the bytes
-- of a header that the constructors give and any bytes behind it, offered to a reader that starts at
-- an offset from which the header stays within 64 bits, each where the reader then stands, give the
-- event of that header; the reader then stands behind the header, with the header open, at the offset
-- where it starts, and the bytes of the header gathered.
pub feed-header :
    (h : BoxHeader) (start : ℕ) (rest : List ℕ) (pieces : List (List ℕ))
    → IsHeader h
    → start + encoded_len h ≤ u64_max
    → concat pieces ≡ field_bytes h (uuid_of h.box_type) ++ rest
    → feed (starting_at start) pieces ≡ (
      record {
        position = start + encoded_len h;
        progress = Progress.opened h start;
        gathered = field_bytes h (uuid_of h.box_type);
        at_end_of_file = false;
      },
      ok (some (BoxEvent.header h)),
    )
feed-header h start rest pieces valid bound e =
    let (lo, le) = encoded_len_bounds h in
    let lf = length-append (field_bytes h (uuid_of h.box_type)) rest in
    let ep : saturating_add start (encoded_len h - 0) ≡ start + encoded_len h = omega arith in
    let es : start + encoded_len h - encoded_len h ≡ start = omega arith in
    feed-waiting h valid rest pieces start [] (omega arith) (omega arith)
      (omega (arith, ap length e, lf, length-field_bytes h valid)) (sym e)
    ∙ rw (ep, es) refl
