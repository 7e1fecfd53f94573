-- ===== src/Framing/BoxReader/Headers.antt =====
-- Headers read from input that is cut anywhere.
use isobmff_rs.Common.{
  ℕ, zero, suc, ◌≡◌, ◌+◌, ◌-◌, ◌≤◌, ◌<◌, false, none, some, List, [], ◌∷◌, ◌++◌, length, take, drop,
  min, ltb, if◌then◌else◌, refl, arith, sym, ap, ◌∙◌, append-prefix_full, length-append,
  length-take, length-drop, take-append-drop, append_assoc, append-nil, lt→ltb, le→ltb,
}
use isobmff_rs.Common.Words.{saturating_add, saturating_sub, u64_max}
use isobmff_rs.Common.Result.{ok}
use native.Mathlib.Decide.{dec_lt}
use isobmff_rs.Core.BoxHeader.{BoxHeader, IsHeader, decode, field_bytes, encoded_len}
use isobmff_rs.Core.BoxHeader.Fields.{uuid_of, length-field_bytes}
use isobmff_rs.Core.BoxHeader.RoundTrip.{decode-field_bytes}
use isobmff_rs.Core.BoxHeader.Prefix.{needed_for, decode-prefix}
use isobmff_rs.Core.RawBox.Framing.{encoded_len_bounds}
use isobmff_rs.Framing.Range.{to_u64}
use isobmff_rs.Framing.BoxEvent.{BoxEvent}
use isobmff_rs.Framing.BoxReader.{BoxReader, Progress}
use isobmff_rs.Framing.BoxReader.Reading.{read_header, decoded, header_short}
use isobmff_rs.Framing.BoxReader.Taking.{to_u64-small, take_input_lem, take_input_empty}

module _ (h : BoxHeader) (valid : IsHeader h) (rest : List ℕ) where
  -- The bytes that a header is read from.
  abbrev fields : List ℕ
  fields = field_bytes h (uuid_of h.box_type)

  -- The reader past `n` bytes more of the header.
  abbrev pub past : BoxReader → List ℕ → ℕ → BoxReader
  past r input n = record r {
    position = saturating_add r.position n;
    gathered = r.gathered ++ take n input;
  }

  -- One turn of the loop, on input that is not empty.
  turn :
      (fuel n : ℕ) (r : BoxReader) (input more : List ℕ) (needed : ℕ)
      → 0 < n
      → n ≡ min (needed - length r.gathered) (length input)
      → needed ≤ 32
      → length r.gathered + n ≤ 32
      → read_header (suc fuel) r input needed ≡ (
          if ltb (length r.gathered + n) needed
          then read_header fuel (past r input n) (drop n input) needed
          else decoded
              (past r input n)
              (read_header fuel (past r input n) (drop n input))
              (decode (r.gathered ++ take n input)))
  unfolding read_header
  turn fuel n r input more needed some_byte en small little =
      let es : to_u64 (length r.gathered) ≡ length r.gathered = to_u64-small _ (omega arith) in
      let lt : length (take n input) ≡ n = omega (arith, length-take n input) in
      let lg : length (r.gathered ++ take n input) ≡ length r.gathered + n =
        rw (length-append, lt) refl in
      let eg : to_u64 (length r.gathered + n) ≡ length r.gathered + n =
        to_u64-small _ (omega arith) in
      let et = take_input_lem r input (needed - length r.gathered) n some_byte en (omega arith) in
      rw (read_header, es, et, lg, eg) refl

  -- The front of the header is gathered, and the input goes on with it.
  abbrev pub GoesOn : BoxReader → List ℕ → List ℕ → Type 0
  GoesOn r input more = fields ++ rest ≡ r.gathered ++ (input ++ more)

  past-append :
      (r : BoxReader) (input more : List ℕ) (n : ℕ)
      → GoesOn r input more
      → fields ++ rest ≡ (r.gathered ++ take n input) ++ (drop n input ++ more)
  past-append r input more n e =
      e
      ∙ rw
          (
            append_assoc,
            ← append_assoc (take n input) (drop n input) more,
            take-append-drop n input,
          )
          refl

  -- A turn that ends inside the header.
  turn_inside :
      (fuel n : ℕ) (r : BoxReader) (input more : List ℕ)
      → 0 < n
      → n ≡ min (needed_for h (length r.gathered) - length r.gathered) (length input)
      → length r.gathered + n < encoded_len h
      → GoesOn r input more
      → read_header (suc fuel) r input (needed_for h (length r.gathered))
        ≡ read_header fuel (past r input n) (drop n input) (needed_for h (length r.gathered + n))
  turn_inside fuel n r input more some_byte en inside e =
      let needed : ℕ = needed_for h (length r.gathered) in
      let le : encoded_len h ≤ 32 = (encoded_len_bounds h).1 in
      let t = turn fuel n r input more needed some_byte en (ground arith) (omega arith) in
      let lg : length (r.gathered ++ take n input) ≡ length r.gathered + n =
        omega (arith, length-append r.gathered (take n input), length-take n input) in
      let d =
        decode-prefix h (r.gathered ++ take n input) rest (drop n input ++ more) valid
          (past-append r input more n e) (omega arith) in
      elim (dec_lt (length r.gathered + n) needed) [
        | yes short ↦
            let same : needed ≡ needed_for h (length r.gathered + n) = ground arith in
            t
            ∙ rw (lt→ltb (length r.gathered + n) needed short)
                (ap (λ m. read_header fuel (past r input n) (drop n input) m) same)
        | no long ↦ t ∙ rw (le→ltb (length r.gathered + n) needed (omega arith), d, lg) refl
      ]

  -- A turn that completes the header.
  turn_whole :
      (fuel n : ℕ) (r : BoxReader) (input more : List ℕ)
      → 0 < n
      → n ≡ min (needed_for h (length r.gathered) - length r.gathered) (length input)
      → length r.gathered + n ≡ encoded_len h
      → GoesOn r input more
      → (r.gathered ++ take n input ≡ fields)
        × (read_header (suc fuel) r input (needed_for h (length r.gathered)) ≡ (
          record r {
            position = saturating_add r.position n;
            gathered = fields;
            progress =
                Progress.opened h (saturating_sub (saturating_add r.position n) (encoded_len h));
          },
          some (BoxEvent.header h),
        ))
  turn_whole fuel n r input more some_byte en whole e =
      let needed : ℕ = needed_for h (length r.gathered) in
      let (lo, le) = encoded_len_bounds h in
      let t = turn fuel n r input more needed some_byte en (ground arith) (omega arith) in
      let lg : length (r.gathered ++ take n input) ≡ length r.gathered + n =
        omega (arith, length-append r.gathered (take n input), length-take n input) in
      let eg : r.gathered ++ take n input ≡ fields =
        append-prefix_full fields (r.gathered ++ take n input) rest (drop n input ++ more)
          (past-append r input more n e) (omega (arith, length-field_bytes h valid)) in
      let d : decode fields ≡ ok (h, []) =
        rw (sym (append-nil fields)) (decode-field_bytes h [] valid) in
      let el : to_u64 (length fields) ≡ encoded_len h =
        rw (length-field_bytes h valid) (to_u64-small _ (omega arith)) in
      let past_two : needed ≤ length r.gathered + n = ground arith in
      (eg, t ∙ rw (le→ltb (length r.gathered + n) needed past_two, eg, d, el) refl)

  length-past :
      (r : BoxReader) (input : List ℕ) (n : ℕ)
      → n ≤ length input
      → length (r.gathered ++ take n input) ≡ length r.gathered + n
  length-past r input n h =
      omega (arith, length-append r.gathered (take n input), length-take n input)

  -- The reader with the header open.
  abbrev pub opened_at : BoxReader → BoxReader
  opened_at r =
      let position = saturating_add r.position (encoded_len h - length r.gathered) in
      record r {
        position = position;
        gathered = fields;
        progress = Progress.opened h (saturating_sub position (encoded_len h));
      }

  -- The reader with all of the input gathered, and the header not whole yet.
  abbrev pub waiting_at : BoxReader → List ℕ → BoxReader
  waiting_at r input = record r {
    position = saturating_add r.position (length input);
    gathered = r.gathered ++ input;
    progress = Progress.header (needed_for h (length r.gathered + length input));
  }

  pub opened-past :
      (r : BoxReader) (input : List ℕ) (n : ℕ)
      → n ≤ length input
      → length r.gathered + n ≤ encoded_len h
      → opened_at (past r input n) ≡ opened_at r
  opened-past r input n le short =
      let ep : saturating_add (saturating_add r.position n)
            (encoded_len h - (length r.gathered + n))
          ≡ saturating_add r.position (encoded_len h - length r.gathered) =
        omega arith in
      rw (length-past r input n le, ep) refl

  pub read_whole :
      (fuel : ℕ) (r : BoxReader) (input more : List ℕ)
      → length input < fuel
      → length r.gathered < encoded_len h
      → encoded_len h ≤ length r.gathered + length input
      → GoesOn r input more
      → read_header fuel r input (needed_for h (length r.gathered))
        ≡ (opened_at r, some (BoxEvent.header h))
  read_whole zero r input more enough short whole e = absurd (omega arith)
  read_whole (suc fuel) r input more enough short whole e =
      let n : ℕ = min (needed_for h (length r.gathered) - length r.gathered) (length input) in
      let (lo, le) = encoded_len_bounds h in
      let some_byte : 0 < n = ground arith in
      let bound : length r.gathered + n ≤ encoded_len h = ground arith in
      let lg = length-past r input n (omega arith) in
      elim (dec_lt (length r.gathered + n) (encoded_len h)) [
        | yes inside ↦
            let go =
              read_whole fuel (past r input n) (drop n input) more
                (omega (arith, length-drop n input)) (omega (arith, lg))
                (omega (arith, lg, length-drop n input)) (past-append r input more n e) in
            turn_inside fuel n r input more some_byte refl inside e
            ∙ (rw (sym lg) go
                ∙ ap (λ u. (u, some (BoxEvent.header h)))
                    (opened-past r input n (omega arith) bound))
        | no done ↦
            let all : encoded_len h - length r.gathered ≡ n = omega arith in
            (turn_whole fuel n r input more some_byte refl (omega arith) e).1 ∙ rw all refl
      ]

  header_short_lem :
      (r : BoxReader) (needed : ℕ)
      → r.at_end_of_file ≡ false
      → header_short r needed ≡ (record r { progress = Progress.header needed }, none)
  header_short_lem r needed e = rw e refl

  read_nothing :
      (fuel : ℕ) (r : BoxReader) (needed : ℕ)
      → r.at_end_of_file ≡ false
      → r.position ≤ u64_max
      → read_header (suc fuel) r [] needed ≡ (
        record r {
          position = saturating_add r.position 0;
          gathered = r.gathered ++ [];
          progress = Progress.header needed;
        },
        none,
      )
  unfolding read_header
  read_nothing fuel r needed at_end bound =
      let ep : saturating_add r.position 0 ≡ r.position = omega arith in
      rw (read_header, take_input_empty, ep, append-nil) (header_short_lem r needed at_end)

  waiting-past :
      (r : BoxReader) (input : List ℕ) (n : ℕ)
      → n ≤ length input
      → waiting_at (past r input n) (drop n input) ≡ waiting_at r input
  waiting-past r input n le =
      let ep : saturating_add (saturating_add r.position n) (length input - n)
          ≡ saturating_add r.position (length input) =
        omega arith in
      let el : length r.gathered + n + (length input - n) ≡ length r.gathered + length input =
        omega arith in
      rw
        (
          length-past r input n le,
          length-drop n input,
          ep,
          el,
          append_assoc,
          take-append-drop n input,
        )
        refl

  pub read_part :
      (fuel : ℕ) (r : BoxReader) (input more : List ℕ)
      → length input < fuel
      → r.at_end_of_file ≡ false
      → r.position ≤ u64_max
      → length r.gathered + length input < encoded_len h
      → GoesOn r input more
      → read_header fuel r input (needed_for h (length r.gathered)) ≡ (waiting_at r input, none)
  read_part zero r input more enough at_end bound part e = absurd (omega arith)
  read_part (suc fuel) r [] more enough at_end bound part e =
      let el : length r.gathered + 0 ≡ length r.gathered = omega arith in
      read_nothing fuel r (needed_for h (length r.gathered)) at_end bound ∙ rw el refl
  read_part (suc fuel) r (x ∷ xs) more enough at_end bound part e =
      let n : ℕ = min (needed_for h (length r.gathered) - length r.gathered) (length (x ∷ xs)) in
      let (lo, le) = encoded_len_bounds h in
      let some_byte : 0 < n = ground arith in
      let lg = length-past r (x ∷ xs) n (omega arith) in
      let go =
        read_part fuel (past r (x ∷ xs) n) (drop n (x ∷ xs)) more
          (omega (arith, length-drop n (x ∷ xs))) at_end (omega arith)
          (omega (arith, lg, length-drop n (x ∷ xs))) (past-append r (x ∷ xs) more n e) in
      turn_inside fuel n r (x ∷ xs) more some_byte refl (omega arith) e
      ∙ (rw (sym lg) go ∙ ap (λ u. (u, none)) (waiting-past r (x ∷ xs) n (omega arith)))
