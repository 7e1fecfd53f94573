-- ===== src/Framing/BoxWriter/Files.antt =====
-- The boxes that the bytes of a whole file are.
use isobmff_rs.Common.{
  ℕ, ◌≡◌, ◌+◌, ◌<◌, Option, none, some, List, [], ◌∷◌, ◌++◌, map, length, refl, arith, inl, inr,
  sym, ap, append_assoc, length-append, Option-cases,
}
use isobmff_rs.Common.Words.{saturating_add, u64_max}
use isobmff_rs.Common.Result.{ok}
use mathlib.Core.Path.{subst}
use isobmff_rs.Core.BoxSize.{BoxSize, total_bytes, IsBoxSize}
use isobmff_rs.Core.BoxHeader.{BoxHeader, IsHeader, payload_len, field_bytes, Covered}
use isobmff_rs.Core.BoxHeader.Fields.{uuid_of}
use isobmff_rs.Core.RawBox.{RawBox, Spans, boxes}
use isobmff_rs.Core.RawBox.Framing.{payload_len_total, encoded_len_bounds}
use isobmff_rs.Core.RawBox.Iteration.{bytes_of, AreFramed, boxes-bytes_of}
use isobmff_rs.Framing.Range.{to_u64}
use isobmff_rs.Framing.BoxEvent.{BoxEvent}
use isobmff_rs.Framing.BoxWriter
use isobmff_rs.Framing.BoxWriter.{
  BoxWriter, State, Call, on_ok, handle_event, finish, finish_state, after_end,
}
use isobmff_rs.Framing.BoxWriter.Steps.{
  call-injective, IsEvent, IsWriter, Step, begins, carries, ends, Within, Exactly,
  handle_event-eq-ok,
}
use isobmff_rs.Framing.BoxWriter.Runs.{
  run, AreEvents, headers, payloads, payloads_of, headers_of, run-eq-ok,
}

-- The payload bytes that are still to come complete the payload.
abbrev Fills : Option ℕ → ℕ → List ℕ → List RawBox → Type 0
Fills none k rest bs = bs ≡ []
Fills (some declared) k rest bs = k + length rest ≡ declared

-- What the rest of a file is, from a state: whole boxes, behind the rest of the box that is open.
abbrev Rest : State → List BoxEvent → List ℕ → Type 0
Rest State.open_state es out =
    (bs : List RawBox) × AreFramed bs
    × (out ≡ bytes_of bs)
    × (headers es ≡ headers_of bs)
    × (payloads es ≡ payloads_of bs)
Rest (State.writing h offset k) es out =
    (rest : List ℕ) × (bs : List RawBox) × AreFramed bs
    × (out ≡ rest ++ bytes_of bs)
    × (headers es ≡ headers_of bs)
    × (payloads es ≡ rest ++ payloads_of bs)
    × Fills (payload_len h) k rest bs
Rest State.past_end_of_file es out = (out ≡ []) × (headers es ≡ []) × (payloads es ≡ [])
Rest State.finished es out = Unit

-- The header of a box that is open is one that the constructors give.
abbrev Valid : State → Type 0
Valid (State.writing h offset k) = IsHeader h
Valid _ = Unit

Fills-Spans :
    (o : Option ℕ) (rest : List ℕ) (bs : List RawBox)
    → Fills o 0 rest bs
    → Spans o rest (bytes_of bs)
Fills-Spans none rest bs f = rw f refl
Fills-Spans (some d) rest bs f = omega (arith, f)

Exactly-Fills :
    (o : Option ℕ) (k : ℕ) (bs : List RawBox) → Exactly o k → (o ≡ none → bs ≡ []) → Fills o k [] bs
Exactly-Fills none k bs x e = e refl
Exactly-Fills (some d) k bs x e = omega (arith, x)

-- A declared payload is shorter than the largest number of 64 bits.
size-payload_len :
    (h : BoxHeader) (size : BoxSize) (d : ℕ)
    → IsBoxSize size
    → Covered h (total_bytes size)
    → h.size ≡ size
    → payload_len h ≡ some d
    → d < u64_max
size-payload_len h (BoxSize.compact s) d valid c es e =
    ground (arith, payload_len_total h (some s.get) (ap total_bytes es) c, (encoded_len_bounds h).0)
size-payload_len h (BoxSize.extended s) d valid c es e =
    ground (arith, payload_len_total h (some s.get) (ap total_bytes es) c, (encoded_len_bounds h).0)
size-payload_len h BoxSize.to_end_of_file d valid c es e =
    ground (arith, payload_len_total h none (ap total_bytes es) c)

pub payload_len-lt : (h : BoxHeader) (d : ℕ) → IsHeader h → payload_len h ≡ some d → d < u64_max
payload_len-lt h d valid e = size-payload_len h h.size d valid.sized valid.covered refl e

Fills-carries :
    (o : Option ℕ) (k : ℕ) (bytes rest : List ℕ) (bs : List RawBox)
    → ((d : ℕ) → o ≡ some d → d < u64_max)
    → Within o (saturating_add k (to_u64 (length bytes)))
    → Fills o (saturating_add k (to_u64 (length bytes))) rest bs
    → Fills o k (bytes ++ rest) bs
Fills-carries none k bytes rest bs lt w f = f
Fills-carries (some d) k bytes rest bs lt w f =
    let bound = lt d refl in ground (arith, length-append bytes rest)

declares :
    {A : Type 0} (h : BoxHeader) (total : ℕ)
    → IsHeader h
    → total_bytes h.size ≡ some total
    → payload_len h ≡ none
    → A
declares h total valid e n =
    absurd (
      ground (arith, payload_len_total h (some total) e (subst (λ t. Covered h t) e valid.covered)))

-- The end of a box, in front of the rest of the file.
Rest-end :
    (h : BoxHeader) (offset k : ℕ) (size : BoxSize) (es : List BoxEvent) (back : List ℕ)
    → IsHeader h
    → h.size ≡ size
    → Exactly (payload_len h) k
    → Rest (after_end size) es back
    → Rest (State.writing h offset k) (BoxEvent.end ∷ es) back
Rest-end h offset k (BoxSize.compact s) es back valid e x (bs, af, eo, eh, ep) = (
  [],
  bs,
  af,
  eo,
  eh,
  ep,
  Exactly-Fills (payload_len h) k bs x (λ n. declares h s.get valid (ap total_bytes e) n),
)
Rest-end h offset k (BoxSize.extended s) es back valid e x (bs, af, eo, eh, ep) = (
  [],
  bs,
  af,
  eo,
  eh,
  ep,
  Exactly-Fills (payload_len h) k bs x (λ n. declares h s.get valid (ap total_bytes e) n),
)
Rest-end h offset k BoxSize.to_end_of_file es back valid e x (eo, eh, ep) =
    ([], [], tt, eo, eh, ep, Exactly-Fills (payload_len h) k [] x (λ _. refl))

Rest-begin :
    (h : BoxHeader) (n : ℕ) (es : List BoxEvent) (back : List ℕ)
    → IsHeader h
    → Rest (State.writing h n 0) es back
    → Rest State.open_state (BoxEvent.header h ∷ es) (field_bytes h (uuid_of h.box_type) ++ back)
Rest-begin h n es back valid (rest, bs, af, eo, eh, ep, f) = (
  record { header = h; payload = rest } ∷ bs,
  (record { headed = valid; spans = Fills-Spans (payload_len h) rest bs f }, af),
  rw eo (sym (append_assoc (field_bytes h (uuid_of h.box_type)) rest (bytes_of bs))),
  ap (λ t. h ∷ t) eh,
  ep,
)

Rest-carry :
    (h : BoxHeader) (offset k : ℕ) (bytes : List ℕ) (es : List BoxEvent) (back : List ℕ)
    → IsHeader h
    → Within (payload_len h) (saturating_add k (to_u64 (length bytes)))
    → Rest (State.writing h offset (saturating_add k (to_u64 (length bytes)))) es back
    → Rest (State.writing h offset k) (BoxEvent.payload bytes ∷ es) (bytes ++ back)
Rest-carry h offset k bytes es back valid within (rest, bs, af, eo, eh, ep, f) = (
  bytes ++ rest,
  bs,
  af,
  rw eo (sym (append_assoc bytes rest (bytes_of bs))),
  eh,
  rw ep (sym (append_assoc bytes rest (payloads_of bs))),
  Fills-carries (payload_len h) k bytes rest bs (λ d e. payload_len-lt h d valid e) within f,
)

-- A step, in front of the rest that it leads to.
Rest-Step :
    (n n' : ℕ) (s s' : State) (e : BoxEvent) (es : List BoxEvent) (front back : List ℕ)
    → Valid s
    → IsEvent e
    → Step n s e n' s' front
    → Rest s' es back
    → Rest s (e ∷ es) (front ++ back)
Rest-Step n n' s s' e es front back vs ve (begins h es0 ee writable en es' eo) r =
    rw (es0, ee, eo) (Rest-begin h n es back (subst IsEvent ee ve) (rw es' at r))
Rest-Step n n' s s' e es front back vs ve (carries h offset k es0 ee within en es') r =
    rw (es0, ee) (Rest-carry h offset k front es back (subst Valid es0 vs) within (rw es' at r))
Rest-Step n n' s s' e es front back vs ve (ends h offset k es0 ee exactly en es' eo) r =
    rw (es0, ee, eo)
      (Rest-end h offset k h.size es back (subst Valid es0 vs) refl exactly (rw es' at r))

Valid-after_end : (size : BoxSize) → Valid (after_end size)
Valid-after_end (BoxSize.compact s) = tt
Valid-after_end (BoxSize.extended s) = tt
Valid-after_end BoxSize.to_end_of_file = tt

Valid-Step :
    (n n' : ℕ) (s s' : State) (e : BoxEvent) (front : List ℕ)
    → Valid s
    → IsEvent e
    → Step n s e n' s' front
    → Valid s'
Valid-Step n n' s s' e front vs ve (begins h es0 ee writable en es' eo) =
    rw es' (subst IsEvent ee ve)
Valid-Step n n' s s' e front vs ve (carries h offset k es0 ee within en es') =
    rw es' (subst Valid es0 vs)
Valid-Step n n' s s' e front vs ve (ends h offset k es0 ee exactly en es' eo) =
    rw es' (Valid-after_end h.size)

finish-Rest :
    (w w' : BoxWriter) (s : State) → Valid s → finish_state w s ≡ (w', ok tt) → Rest s [] []
unfolding finish_state
finish-Rest w w' State.open_state v e = ([], tt, refl, refl, refl)
finish-Rest w w' (State.writing h offset k) v e = elim (Option-cases (payload_len h)) [
  | inl en ↦ ([], [], tt, refl, refl, refl, rw en refl)
  | inr (d, ed) ↦ absurd (ground (arith, ed))
]
finish-Rest w w' State.past_end_of_file v e = (refl, refl, refl)
finish-Rest w w' State.finished v e = tt

-- A run that gives bytes, followed by a `finish` that succeeds.
run-Rest :
    (es : List BoxEvent) (w w' w'' : BoxWriter) (out : List ℕ)
    → IsWriter w
    → Valid w.state
    → AreEvents es
    → run w es ≡ (w', ok out)
    → finish w' ≡ (w'', ok tt)
    → Rest w.state es out
unfolding finish
run-Rest [] w w' w'' out iw v ve r f =
    let (ew, eo) = call-injective w w' [] out r in
    rw (← eo) (finish-Rest w w'' w.state v (rw (← ew) at f))
run-Rest (e ∷ es) w w' w'' out iw v (ve, ves) r f =
    let (u, front, back, eh, er, eo) = run-eq-ok w w' e es out r in
    let (step, iu) = handle_event-eq-ok w u e front iw ve eh in
    let vu = Valid-Step w.next_offset u.next_offset w.state u.state e front v ve step in
    rw eo (
      Rest-Step w.next_offset u.next_offset w.state u.state e es front back v ve step
        (run-Rest es u w' w'' back iu vu ves er f))

-- The bytes of a whole file are boxes: where a new writer takes the events, whose headers are ones
-- that the constructors give, and then finishes, the bytes that it gave are those of boxes laid end
-- to end, each framed as its header says, which iterating over the bytes yields with no failure; the
-- boxes have the headers that the events carry, in order, and their payloads are the bytes that the
-- events carry.
pub run-boxes :
    (es : List BoxEvent) (w' w'' : BoxWriter) (out : List ℕ)
    → AreEvents es
    → run BoxWriter.new es ≡ (w', ok out)
    → finish w' ≡ (w'', ok tt)
    → (bs : List RawBox) × AreFramed bs
      × (out ≡ bytes_of bs)
      × (boxes out ≡ map ok bs)
      × (headers es ≡ headers_of bs)
      × (payloads es ≡ payloads_of bs)
unfolding BoxWriter.new
run-boxes es w' w'' out ve r f =
    let (bs, af, eo, eh, ep) = run-Rest es BoxWriter.new w' w'' out refl tt ve r f in
    (bs, af, eo, rw eo (boxes-bytes_of bs af), eh, ep)
