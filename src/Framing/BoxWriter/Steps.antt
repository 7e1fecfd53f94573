-- ===== src/Framing/BoxWriter/Steps.antt =====
-- The calls of `handle_event` that give bytes, case by case, for the proofs about runs of events.
use isobmff_rs.Common.{
  ℕ, ◌≡◌, ◌↔◌, ◌-◌, ◌≤◌, Option, none, some, List, [], ◌++◌, length, drop, refl, arith, inl, inr,
  sym, ◌∙◌,
}
use isobmff_rs.Common.{Option-cases, length-drop, length-append, take-append_length}
use isobmff_rs.Common.Words.{saturating_add}
use isobmff_rs.Common.Result.{ok, Result-cases}
use mathlib.Core.Path.{subst}
use isobmff_rs.Core.BoxHeader
use isobmff_rs.Core.BoxHeader.{
  BoxHeader, IsHeader, IsWritable, encoded_len, payload_len, field_bytes, encode,
}
use isobmff_rs.Core.BoxHeader.Fields.{uuid_of, length-field_bytes}
use isobmff_rs.Core.BoxHeader.RoundTrip.{encode_lem}
use isobmff_rs.Core.RawBox.Framing.{encoded_len_bounds}
use isobmff_rs.Framing.Range.{to_u64}
use isobmff_rs.Framing.BoxEvent.{BoxEvent}
use isobmff_rs.Framing.BoxWriter.{
  BoxWriter, State, Call, handle_event, handle, header_written, handle_payload, handle_end,
  after_end, overrun, mismatch, longest_header,
}

-- The header of a header event is one that the constructors give.
abbrev pub IsEvent : BoxEvent → Type 0
IsEvent (BoxEvent.header h) = IsHeader h
IsEvent (BoxEvent.payload _) = Unit
IsEvent BoxEvent.end = Unit

-- The buffer for headers is as long as the array of the source.
abbrev pub IsWriter : BoxWriter → Type 0
IsWriter w = length w.header_bytes ≡ longest_header

-- The length is no more than a declared one, or is a declared one.
abbrev pub Within : Option ℕ → ℕ → Type 0
Within none n = Unit
Within (some declared) n = n ≤ declared

abbrev pub Exactly : Option ℕ → ℕ → Type 0
Exactly none n = Unit
Exactly (some declared) n = n ≡ declared

-- The three cases in which a call gives bytes: from the offset and the state, through the event, to
-- the offset and the state.
pub data Step (n : ℕ) (s : State) (e : BoxEvent) (n' : ℕ) (s' : State) (out : List ℕ) : Type 0 where
  begins :
      (h : BoxHeader)
      → s ≡ State.open_state
      → e ≡ BoxEvent.header h
      → IsWritable h
      → n' ≡ n
      → s' ≡ State.writing h n 0
      → out ≡ field_bytes h (uuid_of h.box_type)
      → Step n s e n' s' out
  carries :
      (h : BoxHeader) (offset k : ℕ)
      → s ≡ State.writing h offset k
      → e ≡ BoxEvent.payload out
      → Within (payload_len h) (saturating_add k (to_u64 (length out)))
      → n' ≡ n
      → s' ≡ State.writing h offset (saturating_add k (to_u64 (length out)))
      → Step n s e n' s' out
  ends :
      (h : BoxHeader) (offset k : ℕ)
      → s ≡ State.writing h offset k
      → e ≡ BoxEvent.end
      → Exactly (payload_len h) k
      → n' ≡ saturating_add (saturating_add offset (encoded_len h)) k
      → s' ≡ after_end h.size
      → out ≡ []
      → Step n s e n' s' out

-- A call has one outcome.
pub call-injective :
    {A : Type 0} (u w : BoxWriter) (a b : A)
    → ◌≡◌ {A = Call A} (u, ok a) (w, ok b)
    → (u ≡ w) × (a ≡ b)
call-injective u w a b e = (cc, cc)

encode-eq-ok :
    (h : BoxHeader) (buffer front unused : List ℕ)
    → encode h buffer ≡ ok (front, unused)
    → IsWritable h
unfolding encode
encode-eq-ok h buffer front unused e = elim (Result-cases (BoxHeader.writable_type h.box_type)) [
  | inl (u, w) ↦ (u, w)
  | inr (x, w) ↦ absurd (ground (arith, w))
]

-- The header event of a writable header, between boxes.
header_written_lem :
    (w : BoxWriter) (h : BoxHeader)
    → IsWriter w
    → IsHeader h
    → IsWritable h
    → header_written w h (encode h w.header_bytes) ≡ (
      record w {
        state = State.writing h w.next_offset 0;
        header_bytes = field_bytes h (uuid_of h.box_type) ++ drop (encoded_len h) w.header_bytes;
      },
      ok (field_bytes h (uuid_of h.box_type)),
    )
unfolding header_written
header_written_lem w h iw valid writable =
    let fields : List ℕ = field_bytes h (uuid_of h.box_type) in
    let unused : List ℕ = drop (encoded_len h) w.header_bytes in
    let room : encoded_len h ≤ length w.header_bytes = omega (arith, (encoded_len_bounds h).1) in
    let shown : longest_header - length unused ≡ length fields =
      omega (arith, length-drop (encoded_len h) w.header_bytes, length-field_bytes h valid) in
    rw (encode_lem h w.header_bytes valid writable room, shown, take-append_length fields unused)
      refl

pub overrun-Within : (h : BoxHeader) (n : ℕ) → (overrun h n ≡ none) ↔ Within (payload_len h) n
overrun-Within h n = elim (Option-cases (payload_len h)) [
  | inl e ↦ rw e (ground (arith, e))
  | inr (d, e) ↦ rw e (ground (arith, e))
]

pub mismatch-Exactly : (h : BoxHeader) (n : ℕ) → (mismatch h n ≡ none) ↔ Exactly (payload_len h) n
mismatch-Exactly h n = elim (Option-cases (payload_len h)) [
  | inl e ↦ rw e (ground (arith, e))
  | inr (d, e) ↦ rw e (ground (arith, e))
]

handle_payload_lem :
    (w : BoxWriter) (h : BoxHeader) (offset k : ℕ) (bytes : List ℕ)
    → overrun h (saturating_add k (to_u64 (length bytes))) ≡ none
    → handle_payload w h offset k bytes ≡ (
      record w { state = State.writing h offset (saturating_add k (to_u64 (length bytes))) },
      ok bytes,
    )
unfolding handle_payload
handle_payload_lem w h offset k bytes e = rw (handle_payload, e) refl

handle_end_lem :
    (w : BoxWriter) (h : BoxHeader) (offset k : ℕ)
    → mismatch h k ≡ none
    → handle_end w h offset k ≡ (
      record w {
        next_offset = saturating_add (saturating_add offset (encoded_len h)) k;
        state = after_end h.size;
      },
      ok [],
    )
unfolding handle_end
handle_end_lem w h offset k e = rw (handle_end, e) refl

header_written-eq-ok :
    (w w' : BoxWriter) (h : BoxHeader) (out : List ℕ)
    → IsWriter w
    → IsHeader h
    → header_written w h (encode h w.header_bytes) ≡ (w', ok out)
    → Step w.next_offset State.open_state (BoxEvent.header h) w'.next_offset w'.state out
      × IsWriter w'
unfolding header_written
header_written-eq-ok w w' h out iw valid e = elim (Result-cases (encode h w.header_bytes)) [
  | inr (x, ex) ↦ absurd (ground (arith, ex))
  | inl ((front, unused), ex) ↦
      let writable : IsWritable h = encode-eq-ok h w.header_bytes front unused ex in
      let (eu, eo) =
        call-injective _ w' _ out (sym (header_written_lem w h iw valid writable) ∙ e) in
      rw (← eu, ← eo)
        (
          begins h refl refl writable refl refl refl,
          omega (
            arith,
            length-append (field_bytes h (uuid_of h.box_type))
                (drop (encoded_len h) w.header_bytes),
            length-drop (encoded_len h) w.header_bytes,
            length-field_bytes h valid,
            (encoded_len_bounds h).1,
          ),
        )
]

handle_payload-eq-ok :
    (w w' : BoxWriter) (h : BoxHeader) (offset k : ℕ) (bytes out : List ℕ)
    → IsWriter w
    → handle_payload w h offset k bytes ≡ (w', ok out)
    → Step w.next_offset
        (State.writing h offset k)
        (BoxEvent.payload bytes)
        w'.next_offset
        w'.state
        out
      × IsWriter w'
unfolding handle_payload
handle_payload-eq-ok w w' h offset k bytes out iw e =
    let n : ℕ = saturating_add k (to_u64 (length bytes)) in
    elim (Option-cases (overrun h n)) [
      | inr (d, ed) ↦ absurd (ground (arith, ed))
      | inl en ↦
          let (eu, eo) =
            call-injective _ w' _ out (sym (handle_payload_lem w h offset k bytes en) ∙ e) in
          rw (← eu, ← eo) (carries h offset k refl refl ((overrun-Within h n).0 en) refl refl, iw)
    ]

handle_end-eq-ok :
    (w w' : BoxWriter) (h : BoxHeader) (offset k : ℕ) (out : List ℕ)
    → IsWriter w
    → handle_end w h offset k ≡ (w', ok out)
    → Step w.next_offset (State.writing h offset k) BoxEvent.end w'.next_offset w'.state out
      × IsWriter w'
unfolding handle_end
handle_end-eq-ok w w' h offset k out iw e = elim (Option-cases (mismatch h k)) [
  | inr (d, ed) ↦ absurd (ground (arith, ed))
  | inl en ↦
      let (eu, eo) = call-injective _ w' _ out (sym (handle_end_lem w h offset k en) ∙ e) in
      rw (← eu, ← eo) (ends h offset k refl refl ((mismatch-Exactly h k).0 en) refl refl refl, iw)
]

-- The call of `handle_event` on a state gives bytes only where it takes a step.
handle-eq-ok :
    (w w' : BoxWriter) (s : State) (e : BoxEvent) (out : List ℕ)
    → IsWriter w
    → IsEvent e
    → handle w s e ≡ (w', ok out)
    → Step w.next_offset s e w'.next_offset w'.state out × IsWriter w'
unfolding handle
handle-eq-ok w w' State.open_state (BoxEvent.header h) out iw valid c =
    header_written-eq-ok w w' h out iw valid c
handle-eq-ok w w' (State.writing h offset k) (BoxEvent.payload bytes) out iw valid c =
    handle_payload-eq-ok w w' h offset k bytes out iw c
handle-eq-ok w w' (State.writing h offset k) BoxEvent.end out iw valid c =
    handle_end-eq-ok w w' h offset k out iw c
handle-eq-ok w w' (State.writing h offset k) (BoxEvent.header h') out iw valid c = absurd (cc)
handle-eq-ok w w' State.open_state (BoxEvent.payload bytes) out iw valid c = absurd (cc)
handle-eq-ok w w' State.open_state BoxEvent.end out iw valid c = absurd (cc)
handle-eq-ok w w' State.past_end_of_file (BoxEvent.header h) out iw valid c = absurd (cc)
handle-eq-ok w w' State.past_end_of_file (BoxEvent.payload bytes) out iw valid c = absurd (cc)
handle-eq-ok w w' State.past_end_of_file BoxEvent.end out iw valid c = absurd (cc)
handle-eq-ok w w' State.finished e out iw valid c = absurd (cc)

-- A call of `handle_event` on a writer whose buffer is as long as a header can be, with an event whose
-- header is one that the constructors give, takes a step where it gives bytes: from the offset and
-- the state of the writer, through the event, giving the bytes, to the offset and the state of the
-- writer that it leaves, whose buffer is still as long.
pub handle_event-eq-ok :
    (w w' : BoxWriter) (e : BoxEvent) (out : List ℕ)
    → IsWriter w
    → IsEvent e
    → handle_event w e ≡ (w', ok out)
    → Step w.next_offset w.state e w'.next_offset w'.state out × IsWriter w'
unfolding handle_event
handle_event-eq-ok w w' e out iw valid c = handle-eq-ok w w' w.state e out iw valid c

handle-Step :
    (w : BoxWriter) (s : State) (e : BoxEvent) (n' : ℕ) (s' : State) (out : List ℕ)
    → IsWriter w
    → IsEvent e
    → Step w.next_offset s e n' s' out
    → (w' : BoxWriter) × (handle w s e ≡ (w', ok out)) × (w'.next_offset ≡ n') × (w'.state ≡ s')
unfolding handle
handle-Step w s e n' s' out iw valid (begins h es ee writable en es' eo) =
    rw (es, ee, eo, en, es')
      (_, header_written_lem w h iw (subst IsEvent ee valid) writable, refl, refl)
handle-Step w s e n' s' out iw valid (carries h offset k es ee within en es') =
    let eo = (overrun-Within h _).1 within in
    rw (es, ee, en, es') (_, handle_payload_lem w h offset k out eo, refl, refl)
handle-Step w s e n' s' out iw valid (ends h offset k es ee exactly en es' eo) =
    let em = (mismatch-Exactly h k).1 exactly in
    rw (es, ee, en, es', eo) (_, handle_end_lem w h offset k em, refl, refl)

-- A step that a writer may take, on an event whose header the constructors give, is the one that
-- `handle_event` takes: it gives the bytes of the step, and leaves the offset and the state of it.
pub handle_event-Step :
    (w : BoxWriter) (e : BoxEvent) (n' : ℕ) (s' : State) (out : List ℕ)
    → IsWriter w
    → IsEvent e
    → Step w.next_offset w.state e n' s' out
    → (w' : BoxWriter) × (handle_event w e ≡ (w', ok out)) × (w'.next_offset ≡ n') × (w'.state ≡ s')
unfolding handle_event
handle_event-Step w e n' s' out iw valid step = handle-Step w w.state e n' s' out iw valid step
