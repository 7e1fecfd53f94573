-- ===== src/Framing/BoxReader/Boxes.antt =====
-- A whole box read and gathered, against the box that was written.
use isobmff_rs.Common.{
  ℕ, ◌≡◌, ◌+◌, ◌-◌, ◌≤◌, ◌<◌, false, none, some, List, [], ◌++◌, length, refl, arith, sym, ap, ◌∙◌,
  append-nil,
}
use isobmff_rs.Common.Words.{saturating_add, u64_max}
use isobmff_rs.Common.Result.{ok}
use mathlib.Core.Path.{subst}
use isobmff_rs.Core.BoxSize.{total_bytes}
use isobmff_rs.Core.BoxHeader.{BoxHeader, IsHeader, field_bytes, encoded_len, payload_len, Covered}
use isobmff_rs.Core.BoxHeader.Fields.{uuid_of, length-field_bytes}
use isobmff_rs.Core.RawBox.{RawBox, IsFramed, Spans, raw_bytes, split_first}
use isobmff_rs.Core.RawBox.Framing.{split_first-raw_bytes, payload_len_total}
use isobmff_rs.Framing.BoxEvent.{BoxEvent}
use isobmff_rs.Framing.BoxReader.{BoxReader, Progress, Answer, starting_at}
use isobmff_rs.Framing.BoxReader.Answers.{
  gather, gathered_box, gathered_box_range, past_limit, gather_answer, answered,
}
use isobmff_rs.Framing.BoxReader.Pieces.{feed, concat, feed-header}
use isobmff_rs.Framing.BoxReader.Gathering.{gathering, whole_box, Fits, feed-gathering}

-- The reader with the header open, its bytes gathered, of a box at an offset.
abbrev pub opened_reader : BoxHeader → ℕ → BoxReader
opened_reader h start = record {
  position = start + encoded_len h;
  progress = Progress.opened h start;
  gathered = field_bytes h (uuid_of h.box_type);
  at_end_of_file = false;
}

gather_within :
    (h : BoxHeader) (start limit total : ℕ)
    → payload_len h ≡ some (total - encoded_len h)
    → total_bytes h.size ≡ some total
    → start + total ≤ u64_max
    → total - encoded_len h ≤ limit
    → gather_answer (opened_reader h start) limit (h, start)
      ≡ ok (record (opened_reader h start) {
        progress = Progress.payload h start (some (start + total)) (Answer.gather limit);
      })
unfolding gather_answer
gather_within h start limit total el et bound within =
    let ep : past_limit h limit ≡ none = rw (past_limit, el) (ground arith) in
    let es : saturating_add start total ≡ start + total = omega arith in
    rw (gather_answer, ep, et, es) refl

-- The answer that gathers is taken where the declared payload is within the limit.
gather-opened :
    (h : BoxHeader) (start limit total : ℕ)
    → IsHeader h
    → total_bytes h.size ≡ some total
    → start + total ≤ u64_max
    → total - encoded_len h ≤ limit
    → gather (opened_reader h start) limit
      ≡ (gathering h start (start + total) limit (field_bytes h (uuid_of h.box_type)), ok tt)
unfolding gather
gather-opened h start limit total valid et bound within =
    let el : payload_len h ≡ some (total - encoded_len h) =
      payload_len_total h (some total) et (subst (λ t. Covered h t) et valid.covered) in
    ap (answered (opened_reader h start)) (gather_within h start limit total el et bound within)
    ∙ rw (length-field_bytes h valid) refl

-- A box that is framed as its header says, with a declared total that stays within 64 bits of the
-- offset, is read back as it is, wherever the input is cut: pieces that begin with the bytes of its
-- header, offered to a reader that starts at the offset, give the event of the header; an answer to
-- gather with a limit that the payload is within is taken; and pieces that are, one after the other,
-- the payload and any bytes behind it, not of no bytes at all, give the end of the box, where the
-- reader stands behind the box, and the box that it gathered is the box, at the offset and of the
-- total.
pub gathered_box-feed :
    (framed : RawBox) (start limit total : ℕ) (rest behind : List ℕ) (first second : List (List ℕ))
    → IsFramed framed []
    → total_bytes framed.header.size ≡ some total
    → start + total ≤ u64_max
    → length framed.payload ≤ limit
    → concat first ≡ field_bytes framed.header (uuid_of framed.header.box_type) ++ rest
    → concat second ≡ framed.payload ++ behind
    → 0 < length (concat second)
    → (opened answered done : BoxReader) × (feed (starting_at start) first
        ≡ (opened, ok (some (BoxEvent.header framed.header))))
      × (gather opened limit ≡ (answered, ok tt))
      × (feed answered second ≡ (done, ok (some BoxEvent.end)))
      × (done.position ≡ start + total)
      × (gathered_box done ≡ some framed)
      × (gathered_box_range done ≡ some (record { offset = start; length = some total }))
unfolding gathered_box gathered_box_range
gathered_box-feed framed start limit total rest behind first second f et bound within ef es
      some_byte =
    let h : BoxHeader = framed.header in
    let fields : List ℕ = field_bytes h (uuid_of h.box_type) in
    let covered : encoded_len h ≤ total = subst (λ t. Covered h t) et f.headed.covered in
    let lf : length fields ≡ encoded_len h = length-field_bytes h f.headed in
    let el : payload_len h ≡ some (total - encoded_len h) =
      payload_len_total h (some total) et covered in
    let lp : length framed.payload ≡ total - encoded_len h =
      subst (λ l. Spans l framed.payload []) el f.spans in
    let whole : split_first (raw_bytes framed) ≡ ok (framed, []) =
      ap split_first (sym (append-nil (raw_bytes framed))) ∙ split_first-raw_bytes framed [] f in
    let fits : Fits h start (start + total) limit = (bound, omega arith, omega arith) in
    (
      opened_reader h start,
      gathering h start (start + total) limit fields,
      whole_box h start (start + total) limit (fields ++ framed.payload),
      feed-header h start rest first f.headed (omega arith) ef,
      gather-opened h start limit total f.headed et bound (omega arith),
      feed-gathering h start (start + total) limit second fields framed.payload behind fits
          (omega arith) (omega arith) some_byte (sym es),
      refl,
      rw whole refl,
      rw et refl,
    )
