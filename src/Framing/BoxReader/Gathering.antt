-- ===== src/Framing/BoxReader/Gathering.antt =====
-- A payload gathered from input that is cut anywhere.
use isobmff_rs.Common.{
  ℕ, ◌≡◌, ◌+◌, ◌-◌, ◌≤◌, ◌<◌, true, false, Option, none, some, List, [], ◌∷◌, ◌++◌, length, refl,
  arith, sym, ap, ◌∙◌, length-append, append_assoc, append-nil, take, min, ltb, ◌==◌, le→ltb,
  append-prefix, take-append_length, take_all, length-take,
}
use isobmff_rs.Common.Words.{saturating_add, u64_max}
use isobmff_rs.Common.Result.{ok}
use native.Mathlib.Decide.{dec_lt}
use isobmff_rs.Core.BoxHeader.{BoxHeader, encoded_len}
use isobmff_rs.Framing.Range.{to_u64}
use isobmff_rs.Framing.BoxEvent.{BoxEvent}
use isobmff_rs.Framing.BoxReader.{BoxReader, Progress, Answer, wanted_input}
use isobmff_rs.Framing.BoxReader.Reading.{
  read, read_payload, handle_input, settled, gather_wanted, close,
}
use isobmff_rs.Framing.BoxReader.Taking.{take_input_lem, to_u64-small, take_input_zero}
use isobmff_rs.Framing.BoxReader.Pieces.{feed, concat}

module _ (h : BoxHeader) (offset end limit : ℕ) where
  -- A reader that gathers the payload, at so many bytes of the box.
  abbrev pub gathering : List ℕ → BoxReader
  gathering gathered = record {
    position = offset + length gathered;
    progress = Progress.payload h offset (some end) (Answer.gather limit);
    gathered = gathered;
    at_end_of_file = false;
  }

  -- The reader with the whole box gathered.
  abbrev pub whole_box : List ℕ → BoxReader
  whole_box gathered = record {
    position = end;
    progress = Progress.gathered h offset true;
    gathered = gathered;
    at_end_of_file = false;
  }

  -- The box ends within 64 bits, and the payload is no longer than the limit.
  abbrev pub Fits : Type 0
  Fits = (end ≤ u64_max) × (offset + encoded_len h ≤ end) × (end - (offset + encoded_len h) ≤ limit)

  handle_input-gathering :
      (x : ℕ) (xs g : List ℕ)
      → Fits
      → offset + length g ≤ end
      → handle_input (gathering g) (offset + length g) (x ∷ xs) ≡ read (gathering g) (x ∷ xs)
  unfolding handle_input wanted_input
  handle_input-gathering x xs g fits le =
      let ep : saturating_add (offset + length g) 0 ≡ offset + length g = omega arith in
      ground (arith, ep)

  handle_input-empty :
      (g : List ℕ) → handle_input (gathering g) (offset + length g) [] ≡ (gathering g, ok none)
  unfolding handle_input wanted_input
  handle_input-empty g = ground arith

  wanted_lem :
      (g : List ℕ)
      → Fits
      → encoded_len h ≤ length g
      → offset + length g ≤ end
      → gather_wanted (gathering g) h (some end) limit ≡ end - (offset + length g)
  wanted_lem g fits ge le =
      let el : to_u64 (length g) ≡ length g = to_u64-small (length g) (omega arith) in
      rw el (omega arith)

  -- Input of which `n` bytes are of the payload.
  take_payload :
      (g input : List ℕ) (n : ℕ)
      → Fits
      → encoded_len h ≤ length g
      → offset + length g + n ≤ end
      → 0 < n
      → n ≡ min (end - (offset + length g)) (length input)
      → read_payload (gathering g) input h offset (some end) (Answer.gather limit)
        ≡ close (gathering (g ++ take n input)) h offset (some end) (Answer.gather limit)
  unfolding read_payload
  take_payload g input n fits ge le some_byte en =
      let ew = wanted_lem g fits ge (omega arith) in
      let el : to_u64 (length g) ≡ length g = to_u64-small (length g) (omega arith) in
      let lt : length (take n input) ≡ n = omega (arith, length-take n input) in
      let eu : to_u64 n ≡ n = to_u64-small n (omega arith) in
      let et =
        take_input_lem (gathering g) input (end - (offset + length g)) n some_byte en
          (omega arith) in
      let ep : saturating_add (offset + length g) n ≡ offset + (length g + n) = omega arith in
      let within : ltb limit (saturating_add (length g - encoded_len h) n) ≡ false =
        le→ltb limit _ (omega arith) in
      rw (read_payload, ew, et, lt, eu, el, within, length-append, lt, ep) refl

  -- Input at the end of the payload.
  take_nothing :
      (g input : List ℕ)
      → Fits
      → encoded_len h ≤ length g
      → offset + length g ≡ end
      → read_payload (gathering g) input h offset (some end) (Answer.gather limit)
        ≡ close (gathering g) h offset (some end) (Answer.gather limit)
  unfolding read_payload
  take_nothing g input fits ge at_end =
      let ew : gather_wanted (gathering g) h (some end) limit ≡ 0 =
        wanted_lem g fits ge (omega arith) ∙ omega arith in
      rw (read_payload, ew, take_input_zero) refl

  close_end :
      (g : List ℕ)
      → offset + length g ≡ end
      → close (gathering g) h offset (some end) (Answer.gather limit)
        ≡ (whole_box g, some BoxEvent.end)
  close_end g e = let er : end - (offset + length g) ≡ 0 = omega arith in rw (er, e) refl

  close_inside :
      (g : List ℕ)
      → offset + length g < end
      → close (gathering g) h offset (some end) (Answer.gather limit) ≡ (gathering g, none)
  close_inside g e = let er : (end - (offset + length g) == 0) ≡ false = ground arith in rw er refl

  -- What an answer of `close` makes of the whole call.
  read-gathering :
      (g input : List ℕ) (r : BoxReader) (event : Option BoxEvent)
      → read_payload (gathering g) input h offset (some end) (Answer.gather limit) ≡ (r, event)
      → read (gathering g) input ≡ settled r event r.progress
  unfolding read
  read-gathering g input r event e = ap (λ p. settled p.0 p.1 p.0.progress) e

  -- A piece with the rest of the payload, which may be of no bytes.
  handle_last :
      (x : ℕ) (xs g q rest : List ℕ)
      → Fits
      → encoded_len h ≤ length g
      → offset + length g + length q ≡ end
      → q ++ rest ≡ (x ∷ xs)
      → handle_input (gathering g) (offset + length g) (x ∷ xs)
        ≡ (whole_box (g ++ q), ok (some BoxEvent.end))
  handle_last x xs g [] rest fits ge done e =
      handle_input-gathering x xs g fits (omega arith)
      ∙ (read-gathering g (x ∷ xs) (whole_box g) (some BoxEvent.end)
            (take_nothing g (x ∷ xs) fits ge (omega arith) ∙ close_end g (omega arith))
          ∙ rw append-nil refl)
  handle_last x xs g (y ∷ ys) rest fits ge done e =
      let q : List ℕ = y ∷ ys in
      let n : ℕ = length q in
      let lq = length-append q rest in
      let et : take n (x ∷ xs) ≡ q = ap (λ l. take n l) (sym e) ∙ take-append_length q rest in
      handle_input-gathering x xs g fits (omega arith)
      ∙ read-gathering g (x ∷ xs) (whole_box (g ++ q)) (some BoxEvent.end) (
          take_payload g (x ∷ xs) n fits ge (omega arith) (omega arith) (omega (arith, ap length e))
          ∙ rw et (close_end (g ++ q) (omega (arith, length-append g q))))

  -- A piece that ends inside the payload.
  handle_inside :
      (x : ℕ) (xs g : List ℕ)
      → Fits
      → encoded_len h ≤ length g
      → offset + length g + length (x ∷ xs) < end
      → handle_input (gathering g) (offset + length g) (x ∷ xs)
        ≡ (gathering (g ++ (x ∷ xs)), ok none)
  handle_inside x xs g fits ge inside =
      let n : ℕ = length (x ∷ xs) in
      let et : take n (x ∷ xs) ≡ x ∷ xs = take_all (x ∷ xs) in
      handle_input-gathering x xs g fits (omega arith)
      ∙ read-gathering g (x ∷ xs) (gathering (g ++ (x ∷ xs))) none (
          take_payload g (x ∷ xs) n fits ge (omega arith) (omega arith) (omega arith)
          ∙ rw et (close_inside (g ++ (x ∷ xs)) (omega (arith, length-append g (x ∷ xs)))))

  pub feed-gathering :
      (pieces : List (List ℕ)) (g q rest : List ℕ)
      → Fits
      → encoded_len h ≤ length g
      → offset + length g + length q ≡ end
      → 0 < length (concat pieces)
      → q ++ rest ≡ concat pieces
      → feed (gathering g) pieces ≡ (whole_box (g ++ q), ok (some BoxEvent.end))
  feed-gathering [] g q rest fits ge total some_byte e = absurd (omega arith)
  feed-gathering ([] ∷ pieces) g q rest fits ge total some_byte e =
      rw (handle_input-empty g) (feed-gathering pieces g q rest fits ge total some_byte e)
  feed-gathering ((x ∷ xs) ∷ pieces) g q rest fits ge total some_byte e =
      elim (dec_lt (length (x ∷ xs)) (length q)) [
        | yes inside ↦
            let (q', eq, er) =
              append-prefix (x ∷ xs) q (concat pieces) rest (sym e) (omega arith) in
            let lq = ap length eq ∙ length-append (x ∷ xs) q' in
            let lp = ap length er ∙ length-append q' rest in
            let go =
              feed-gathering pieces (g ++ (x ∷ xs)) q' rest fits
                (omega (arith, length-append g (x ∷ xs))) (omega (arith, length-append g (x ∷ xs)))
                (omega arith) (sym er) in
            rw (handle_inside x xs g fits ge (omega arith), eq)
              (go ∙ rw (append_assoc g (x ∷ xs) q') refl)
        | no last ↦
            let (r', ep, er) = append-prefix q (x ∷ xs) rest (concat pieces) e (omega arith) in
            rw (handle_last x xs g q r' fits ge total (sym ep)) refl
      ]
