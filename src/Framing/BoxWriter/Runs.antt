-- ===== src/Framing/BoxWriter/Runs.antt =====
-- Runs of events on a writer, and what the events carry.
use isobmff_rs.Common.{ℕ, ◌≡◌, List, [], ◌∷◌, ◌++◌, refl, sym}
use isobmff_rs.Common.Result.{ok, err}
use isobmff_rs.Core.BoxHeader.{BoxHeader}
use isobmff_rs.Core.RawBox.{RawBox}
use isobmff_rs.Framing.BoxEvent.{BoxEvent}
use isobmff_rs.Framing.BoxWriter.{BoxWriter, Call, on_ok, handle_event}
use isobmff_rs.Framing.BoxWriter.Steps.{call-injective, IsEvent}

-- The events one after the other, up to the first that fails, with the bytes that they give.
abbrev pub run : BoxWriter → List BoxEvent → Call (List ℕ)
run w [] = (w, ok [])
run w (e ∷ es) =
    on_ok (handle_event w e) (λ w front. on_ok (run w es) (λ w back. (w, ok (front ++ back))))

abbrev pub AreEvents : List BoxEvent → Type 0
AreEvents [] = Unit
AreEvents (e ∷ es) = IsEvent e × AreEvents es

-- The headers that the events carry, and the payload bytes.
abbrev pub headers : List BoxEvent → List BoxHeader
headers [] = []
headers (BoxEvent.header h ∷ es) = h ∷ headers es
headers (BoxEvent.payload _ ∷ es) = headers es
headers (BoxEvent.end ∷ es) = headers es

abbrev pub payloads : List BoxEvent → List ℕ
payloads [] = []
payloads (BoxEvent.header _ ∷ es) = payloads es
payloads (BoxEvent.payload bytes ∷ es) = bytes ++ payloads es
payloads (BoxEvent.end ∷ es) = payloads es

abbrev pub payloads_of : List RawBox → List ℕ
payloads_of [] = []
payloads_of (b ∷ bs) = b.payload ++ payloads_of bs

abbrev pub headers_of : List RawBox → List BoxHeader
headers_of [] = []
headers_of (b ∷ bs) = b.header ∷ headers_of bs

on_ok-eq-ok :
    {A B : Type 0} (c : Call A) (k : BoxWriter → A → Call B) (w' : BoxWriter) (b : B)
    → on_ok c k ≡ (w', ok b)
    → (v : BoxWriter) × (a : A) × (c ≡ (v, ok a)) × (k v a ≡ (w', ok b))
on_ok-eq-ok (v, ok a) k w' b e = (v, a, refl, e)
on_ok-eq-ok (v, err x) k w' b e = absurd (cc)

-- The first event of a run that gives bytes, and the run of what follows.
pub run-eq-ok :
    (w w' : BoxWriter) (e : BoxEvent) (es : List BoxEvent) (out : List ℕ)
    → run w (e ∷ es) ≡ (w', ok out)
    → (v : BoxWriter) × (front back : List ℕ) × (handle_event w e ≡ (v, ok front))
      × (run v es ≡ (w', ok back))
      × (out ≡ front ++ back)
run-eq-ok w w' e es out c =
    let (v, front, eh, c') = on_ok-eq-ok (handle_event w e) _ w' out c in
    let (u, back, er, c'') = on_ok-eq-ok (run v es) _ w' out c' in
    let (eu, eo) = call-injective u w' (front ++ back) out c'' in
    (v, front, back, eh, rw eu at er, sym eo)
