-- ===== src/Framing/BoxWriter/Cuts.antt =====
-- Whole files given to a writer as events, with the payloads cut anywhere.
use isobmff_rs.Common.{
  ℕ, ◌≡◌, ◌+◌, ◌<◌, Option, none, some, List, [], ◌∷◌, ◌++◌, map, length, refl, arith, inl, inr,
  append_assoc, length-append, Option-cases, ap, All,
}
use isobmff_rs.Common.Words.{saturating_add, u64_max}
use isobmff_rs.Common.Result.{ok}
use isobmff_rs.Core.BoxSize.{BoxSize}
use isobmff_rs.Core.BoxHeader.{BoxHeader, IsWritable, payload_len, encoded_len, field_bytes}
use isobmff_rs.Core.BoxHeader.Fields.{uuid_of}
use isobmff_rs.Core.RawBox.{RawBox, IsFramed, Spans, raw_bytes}
use isobmff_rs.Core.RawBox.Iteration.{bytes_of, AreFramed, raw_bytes_grow}
use isobmff_rs.Framing.Range.{to_u64}
use isobmff_rs.Framing.BoxEvent.{BoxEvent}
use isobmff_rs.Framing.BoxReader.Pieces.{concat}
use isobmff_rs.Framing.BoxWriter
use isobmff_rs.Framing.BoxWriter.{BoxWriter, State, handle_event, finish, finish_state, after_end}
use isobmff_rs.Framing.BoxWriter.Steps.{
  IsEvent, IsWriter, Step, begins, carries, ends, Within, Exactly, handle_event-eq-ok,
  handle_event-Step,
}
use isobmff_rs.Framing.BoxWriter.Runs.{run}
use isobmff_rs.Framing.BoxWriter.Files.{payload_len-lt}

-- A box whose payload is given in pieces.
pub record Cut : Type 0 where
  pub header : BoxHeader
  pub pieces : List (List ℕ)

abbrev pub box_of : Cut → RawBox
box_of c = record { header = c.header; payload = concat c.pieces }

abbrev pub payload_events : List (List ℕ) → List BoxEvent → List BoxEvent
payload_events [] es = es
payload_events (piece ∷ pieces) es = BoxEvent.payload piece ∷ payload_events pieces es

-- The events of the boxes, one box after the other.
abbrev pub events_of : List Cut → List BoxEvent
events_of [] = []
events_of (c ∷ cs) =
    BoxEvent.header c.header ∷ payload_events c.pieces (BoxEvent.end ∷ events_of cs)

-- The writer that a step leads to.
taken :
    (w : BoxWriter) (e : BoxEvent) (n' : ℕ) (s' : State) (out : List ℕ)
    → IsWriter w
    → IsEvent e
    → Step w.next_offset w.state e n' s' out
    → (v : BoxWriter) × (handle_event w e ≡ (v, ok out)) × (v.state ≡ s') × IsWriter v
taken w e n' s' out iw ie step =
    let (v, c, n, s) = handle_event-Step w e n' s' out iw ie step in
    (v, c, s, (handle_event-eq-ok w v e out iw ie c).1)

-- The bytes to come complete a declared payload, of which so many are written.
abbrev Completes : Option ℕ → ℕ → ℕ → Type 0
Completes none k n = Unit
Completes (some declared) k n = (k + n ≡ declared) × (declared < u64_max)

Completes-Within :
    (o : Option ℕ) (k : ℕ) (piece rest : List ℕ)
    → Completes o k (length (piece ++ rest))
    → Within o (saturating_add k (to_u64 (length piece)))
      × Completes o (saturating_add k (to_u64 (length piece))) (length rest)
Completes-Within none k piece rest h = (tt, tt)
Completes-Within (some d) k piece rest h =
    let l = length-append piece rest in (ground (arith, l), (ground (arith, l), h.1))

Completes-Exactly : (o : Option ℕ) (k : ℕ) → Completes o k 0 → Exactly o k
Completes-Exactly none k h = tt
Completes-Exactly (some d) k h = omega arith

-- The pieces of a payload, given to a writer inside the box: the writer that they lead to, with the
-- payload complete, and what follows them goes on from there.
run_pieces :
    (h : BoxHeader) (offset k : ℕ) (pieces : List (List ℕ)) (w : BoxWriter)
    → IsWriter w
    → w.state ≡ State.writing h offset k
    → Completes (payload_len h) k (length (concat pieces))
    → (v : BoxWriter) × (n : ℕ) × IsWriter v
      × (v.state ≡ State.writing h offset n)
      × Exactly (payload_len h) n
      × ((es : List BoxEvent) (w' : BoxWriter) (out : List ℕ)
          → run v es ≡ (w', ok out)
          → run w (payload_events pieces es) ≡ (w', ok (concat pieces ++ out)))
run_pieces h offset k [] w iw ws c =
    (w, k, iw, ws, Completes-Exactly (payload_len h) k c, λ es w' out r. r)
run_pieces h offset k (piece ∷ pieces) w iw ws c =
    let (within, c') = Completes-Within (payload_len h) k piece (concat pieces) c in
    let k' : ℕ = saturating_add k (to_u64 (length piece)) in
    let (u, e, us, iu) =
      taken w (BoxEvent.payload piece) w.next_offset (State.writing h offset k') piece iw tt
        (carries h offset k ws refl within refl refl) in
    let (v, n, iv, vs, x, go) = run_pieces h offset k' pieces u iu us c' in
    (
      v,
      n,
      iv,
      vs,
      x,
      λ es w' out r. rw (e, go es w' out r, append_assoc piece (concat pieces) out) refl,
    )

Spans-Completes :
    (o : Option ℕ) (payload rest : List ℕ)
    → ((d : ℕ) → o ≡ some d → d < u64_max)
    → Spans o payload rest
    → Completes o 0 (length payload)
Spans-Completes none payload rest lt s = tt
Spans-Completes (some d) payload rest lt s = (omega (arith, s), lt d refl)

-- One box, given to a writer that stands between boxes, and what follows it.
run_box :
    (c : Cut) (rest : List ℕ) (w : BoxWriter)
    → IsWriter w
    → w.state ≡ State.open_state
    → IsFramed (box_of c) rest
    → IsWritable c.header
    → (v : BoxWriter) × IsWriter v
      × (v.state ≡ after_end c.header.size)
      × ((es : List BoxEvent) (w' : BoxWriter) (out : List ℕ)
          → run v es ≡ (w', ok out)
          → run w (BoxEvent.header c.header ∷ payload_events c.pieces (BoxEvent.end ∷ es))
            ≡ (w', ok (raw_bytes (box_of c) ++ out)))
run_box c rest w iw ws framed writable =
    let h : BoxHeader = c.header in
    let front : List ℕ = field_bytes h (uuid_of h.box_type) in
    let whole =
      Spans-Completes (payload_len h) (concat c.pieces) rest
        (λ d e. payload_len-lt h d framed.headed e) framed.spans in
    let (u, eu, us, iu) =
      taken w (BoxEvent.header h) w.next_offset (State.writing h w.next_offset 0) front iw
        framed.headed (begins h ws refl writable refl refl refl) in
    let (v, n, iv, vs, x, go) = run_pieces h w.next_offset 0 c.pieces u iu us whole in
    let (z, ez, zs, iz) =
      taken v BoxEvent.end (saturating_add (saturating_add w.next_offset (encoded_len h)) n)
        (after_end h.size) [] iv tt (ends h w.next_offset n vs refl x refl refl refl) in
    (
      z,
      iz,
      zs,
      λ es w' out r.
          rw
            (
              eu,
              go (BoxEvent.end ∷ es) w' out (rw (ez, r) refl),
              append_assoc front (concat c.pieces) out,
            )
            refl,
    )

-- A writer behind a box can finish.
finish_after :
    (size : BoxSize) (w : BoxWriter)
    → w.state ≡ after_end size
    → finish w ≡ (record w { state = State.finished }, ok tt)
unfolding finish finish_state
finish_after (BoxSize.compact s) w e = rw e refl
finish_after (BoxSize.extended s) w e = rw e refl
finish_after BoxSize.to_end_of_file w e = rw e refl

after_sized : (h : BoxHeader) (n : ℕ) → payload_len h ≡ some n → after_end h.size ≡ State.open_state
unfolding payload_len
after_sized h n e = ground arith

-- The events of the boxes, from a writer, give their bytes, and the writer that they lead to can finish.
abbrev Writes : BoxWriter → List Cut → Type 0
Writes w cs =
    (w' : BoxWriter) × (run w (events_of cs) ≡ (w', ok (bytes_of (map box_of cs))))
    × (finish w' ≡ (record w' { state = State.finished }, ok tt))

-- Behind a box that runs to the end of the file there is no other box.
Writes-last :
    (size : BoxSize) (cs : List Cut) (w : BoxWriter)
    → w.state ≡ after_end size
    → AreFramed (map box_of cs)
    → bytes_of (map box_of cs) ≡ []
    → Writes w cs
Writes-last size [] w ws framed e = (w, refl, finish_after size w ws)
Writes-last size (c ∷ cs) w ws (f, fs) e =
    absurd
      (omega (arith, ap length e, raw_bytes_grow (box_of c) (bytes_of (map box_of cs)) f.headed))

run_cuts :
    (cs : List Cut) (w : BoxWriter)
    → IsWriter w
    → w.state ≡ State.open_state
    → AreFramed (map box_of cs)
    → All (λ c. IsWritable c.header) cs
    → Writes w cs
unfolding finish finish_state
run_cuts [] w iw ws framed writable = (w, refl, rw ws refl)
run_cuts (c ∷ cs) w iw ws (f, fs) (wr, wrs) =
    let (v, iv, vs, go) = run_box c (bytes_of (map box_of cs)) w iw ws f wr in
    let rest : Writes v cs = elim (Option-cases (payload_len c.header)) [
      | inr (d, e) ↦ run_cuts cs v iv (rw (after_sized c.header d e) at vs) fs wrs
      | inl e ↦ Writes-last c.header.size cs v vs fs (rw e at f.spans)
    ] in
    let (w', r, done) = rest in (w', go (events_of cs) w' (bytes_of (map box_of cs)) r, done)

-- Every file of boxes can be written, its payloads cut anywhere: for boxes laid end to end, each framed
-- as its header says, which is one that can be written, a new writer takes the events of the boxes,
-- each payload in the pieces that it is given in; the bytes that it gives are those of the boxes,
-- and it then finishes.
pub run-events_of :
    (cs : List Cut)
    → AreFramed (map box_of cs)
    → All (λ c. IsWritable c.header) cs
    → (w' : BoxWriter) × (run BoxWriter.new (events_of cs) ≡ (w', ok (bytes_of (map box_of cs))))
      × (finish w' ≡ (record w' { state = State.finished }, ok tt))
unfolding BoxWriter.new
run-events_of cs framed writable = run_cuts cs BoxWriter.new refl refl framed writable
