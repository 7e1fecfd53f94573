-- ===== src/Framing/BoxWriter/Offsets.antt =====
-- The offsets that a writer keeps, against the number of bytes that it gave.
use isobmff_rs.Common.{ℕ, ◌≡◌, ◌≤◌, List, [], ◌∷◌, length, arith, refl, ◌∙◌, length-append, min}
use isobmff_rs.Common.Words.{saturating_add, u64_max}
use isobmff_rs.Common.Result.{ok}
use mathlib.Core.Path.{subst}
use isobmff_rs.Core.BoxSize.{BoxSize}
use isobmff_rs.Core.BoxHeader.{encoded_len}
use isobmff_rs.Core.BoxHeader.Fields.{length-field_bytes}
use isobmff_rs.Framing.Range.{to_u64-min}
use isobmff_rs.Framing.BoxEvent.{BoxEvent}
use isobmff_rs.Framing.BoxWriter
use isobmff_rs.Framing.BoxWriter.{BoxWriter, State, after_end}
use isobmff_rs.Framing.BoxWriter.Steps.{
  IsEvent, IsWriter, Step, begins, carries, ends, handle_event-eq-ok, call-injective,
}
use isobmff_rs.Framing.BoxWriter.Runs.{run, run-eq-ok, AreEvents}

-- Where the next byte goes: behind the header and the payload so far of the box that is open.
abbrev pub reached : ℕ → State → ℕ
reached n (State.writing h offset k) = saturating_add (saturating_add offset (encoded_len h)) k
reached n State.open_state = n
reached n State.past_end_of_file = n
reached n State.finished = n

reached-after_end : (n : ℕ) (size : BoxSize) → reached n (after_end size) ≡ n
reached-after_end n (BoxSize.compact s) = refl
reached-after_end n (BoxSize.extended s) = refl
reached-after_end n BoxSize.to_end_of_file = refl

Step-reached :
    (n n' : ℕ) (s s' : State) (e : BoxEvent) (out : List ℕ)
    → IsEvent e
    → Step n s e n' s' out
    → reached n' s' ≡ saturating_add (reached n s) (length out)
Step-reached n n' s s' e out ve (begins h es ee writable en es' eo) =
    rw (es, es', eo) (omega (arith, length-field_bytes h (subst IsEvent ee ve)))
Step-reached n n' s s' e out ve (carries h offset k es ee within en es') =
    rw (es, es') (omega (arith, to_u64-min (length out)))
Step-reached n n' s s' e out ve (ends h offset k es ee exactly en es' eo) =
    rw (es, es', eo) (reached-after_end n' h.size ∙ (en ∙ omega arith))

reached-run :
    (es : List BoxEvent) (w w' : BoxWriter) (out : List ℕ)
    → IsWriter w
    → AreEvents es
    → reached w.next_offset w.state ≤ u64_max
    → run w es ≡ (w', ok out)
    → reached w'.next_offset w'.state ≡ saturating_add (reached w.next_offset w.state) (length out)
reached-run [] w w' out iw ve le r =
    let (ew, eo) = call-injective w w' [] out r in rw (← ew, ← eo) (omega arith)
reached-run (e ∷ es) w w' out iw (ve, ves) le r =
    let (u, front, back, eh, er, eo) = run-eq-ok w w' e es out r in
    let (step, iu) = handle_event-eq-ok w u e front iw ve eh in
    let eu = Step-reached w.next_offset u.next_offset w.state u.state e front ve step in
    let rest = reached-run es u w' back iu ves (omega (arith, eu)) er in
    rw eo (omega (arith, eu, rest, length-append front back))

-- The offsets count the bytes: once a new writer has taken events, whose headers are ones that the
-- constructors give, the offset of the next box, or of the next byte of the box that is open, is the
-- number of bytes that the writer gave, or the largest of 64 bits where there are more.
pub run-reached :
    (es : List BoxEvent) (w' : BoxWriter) (out : List ℕ)
    → AreEvents es
    → run BoxWriter.new es ≡ (w', ok out)
    → reached w'.next_offset w'.state ≡ min (length out) u64_max
unfolding BoxWriter.new
run-reached es w' out ve r =
    omega (arith, reached-run es BoxWriter.new w' out refl ve (omega arith) r)
