-- ===== src/Framing/BoxReader/Failures.antt =====
-- The calls of a reader that fail.
use isobmff_rs.Common.{ℕ, ◌≡◌, ◌⊎◌, inl, inr, true, Option, none, some, List, [], ◌∷◌, map, refl}
use isobmff_rs.Common.Result.{Result, ok, err, ◌>>=◌}
use isobmff_rs.Common.Words.{checked_sub, saturating_add}
use isobmff_rs.Core.BoxHeader.{payload_len}
use isobmff_rs.Framing.Range.{ByteRange}
use isobmff_rs.Framing.BoxEvent.{BoxEvent}
use isobmff_rs.Framing.ReadError.{ReadError}
use isobmff_rs.Framing.BoxReader.{
  BoxReader, Progress, Call, Answer, open_header, at_most, check_answered, wanted_input,
  leave_gathered,
}
use isobmff_rs.Framing.BoxReader.Answers.{
  answered, answer, gather_answer, gather, gather_head, stream, skip,
}
use isobmff_rs.Framing.BoxReader.Reading.{
  read, read_progress, handle_input, handle_answered, handle_wanted, offered, read_from, finish,
  finish_answered, settled, input_from,
}

-- A failure that leaves the reader as it was, or that the reader stays with.
abbrev pub Fails : BoxReader → BoxReader → ReadError → Type 0
Fails r r' e = (r' ≡ r) ⊎ (r'.progress ≡ Progress.failed e)

settled-eq-err :
    (u r' : BoxReader) (event : Option BoxEvent) (p : Progress) (e : ReadError)
    → u.progress ≡ p
    → settled u event p ≡ (r', err e)
    → r'.progress ≡ Progress.failed e
settled-eq-err u r' event (Progress.failed f) e ep c =
    let eu : u ≡ r' = cc in let ef : f ≡ e = cc in rw (← eu, ← ef) ep
settled-eq-err u r' event (Progress.header n) e ep c = absurd (cc)
settled-eq-err u r' event (Progress.opened h o) e ep c = absurd (cc)
settled-eq-err u r' event (Progress.payload h o end a) e ep c = absurd (cc)
settled-eq-err u r' event (Progress.gathered h o w) e ep c = absurd (cc)

read-eq-err :
    (r r' : BoxReader) (input : List ℕ) (e : ReadError)
    → read r input ≡ (r', err e)
    → r'.progress ≡ Progress.failed e
unfolding read
read-eq-err r r' input e c =
    let p = read_progress r input r.progress in settled-eq-err p.0 r' p.1 p.0.progress e refl c

read_from-eq-err :
    (r r' : BoxReader) (position : ℕ) (rest : Option (List ℕ)) (e : ReadError)
    → read_from r position rest ≡ (r', err e)
    → Fails r r' e
read_from-eq-err r r' position none e c = absurd (cc)
read_from-eq-err r r' position (some rest) e c =
    inr (read-eq-err (record (leave_gathered r) { position = position }) r' rest e c)

offered-eq-err :
    (r r' : BoxReader) (offset : ℕ) (input : List ℕ) (wanted : ByteRange) (o : Option ℕ)
    (e : ReadError)
    → offered r offset input wanted o ≡ (r', err e)
    → Fails r r' e
offered-eq-err r r' offset input wanted none e c = inl (cc)
offered-eq-err r r' offset input wanted (some passed_over) e c =
    read_from-eq-err r r' (saturating_add offset passed_over) (input_from input passed_over) e c

handle_wanted-eq-err :
    (r r' : BoxReader) (offset : ℕ) (input : List ℕ) (wanted : Option ByteRange) (e : ReadError)
    → handle_wanted r offset input wanted ≡ (r', err e)
    → Fails r r' e
handle_wanted-eq-err r r' offset input none e c = absurd (cc)
handle_wanted-eq-err r r' offset input (some wanted) e c =
    offered-eq-err r r' offset input wanted (checked_sub wanted.offset offset) e c

handle_answered-eq-err :
    (r r' : BoxReader) (offset : ℕ) (input : List ℕ) (a : Result ReadError (Unit {0}))
    (e : ReadError)
    → handle_answered r offset input a ≡ (r', err e)
    → Fails r r' e
handle_answered-eq-err r r' offset input (err x) e c = inl (cc)
handle_answered-eq-err r r' offset input (ok _) e c =
    handle_wanted-eq-err r r' offset input (wanted_input r) e c

finish_answered-eq-err :
    (r r' : BoxReader) (a : Result ReadError (Unit {0})) (e : ReadError)
    → finish_answered r a ≡ (r', err e)
    → Fails r r' e
finish_answered-eq-err r r' (err x) e c = inl (cc)
finish_answered-eq-err r r' (ok _) e c =
    inr (read-eq-err (record (leave_gathered r) { at_end_of_file = true }) r' [] e c)

pub handle_input-eq-err :
    (r r' : BoxReader) (offset : ℕ) (input : List ℕ) (e : ReadError)
    → handle_input r offset input ≡ (r', err e)
    → Fails r r' e
unfolding handle_input
handle_input-eq-err r r' offset input e c =
    handle_answered-eq-err r r' offset input (check_answered r.progress) e c

pub finish-eq-err : (r r' : BoxReader) (e : ReadError) → finish r ≡ (r', err e) → Fails r r' e
unfolding finish
finish-eq-err r r' e c = finish_answered-eq-err r r' (check_answered r.progress) e c

-- A call of a method of the reader that may fail.
pub data Request : Type 0 where
  input : ℕ → List ℕ → Request
  end_of_input : Request
  gathering : ℕ → Request
  gathering_head : ℕ → Request
  streaming skipping : Request

abbrev pub failure_of : {A : Type 0} → Call A → BoxReader × Option ReadError
failure_of (r, ok _) = (r, none)
failure_of (r, err e) = (r, some e)

-- The reader as a call leaves it, and its failure if it fails.
abbrev pub request : BoxReader → Request → BoxReader × Option ReadError
request r (input offset bytes) = failure_of (handle_input r offset bytes)
request r end_of_input = failure_of (finish r)
request r (gathering limit) = failure_of (gather r limit)
request r (gathering_head head_bytes) = failure_of (gather_head r head_bytes)
request r streaming = failure_of (stream r)
request r skipping = failure_of (skip r)

-- The failures of calls made one after the other.
abbrev pub requests : BoxReader → List Request → BoxReader × List (Option ReadError)
requests r [] = (r, [])
requests r (q ∷ qs) =
    let step = request r q in let rest = requests step.0 qs in (rest.0, step.1 ∷ rest.1)

failure_of-eq-some :
    {A : Type 0} (c : Call A) (r' : BoxReader) (e : ReadError)
    → failure_of c ≡ (r', some e)
    → c ≡ (r', err e)
failure_of-eq-some (r, ok a) r' e h = absurd (cc)
failure_of-eq-some (r, err x) r' e h = cc

answered-eq-err :
    (r r' : BoxReader) (a : Result ReadError BoxReader) (e : ReadError)
    → answered r a ≡ (r', err e)
    → Fails r r' e
answered-eq-err r r' (ok moved) e h = absurd (cc)
answered-eq-err r r' (err x) e h = inl (cc)

request-eq-some :
    (r r' : BoxReader) (q : Request) (e : ReadError) → request r q ≡ (r', some e) → Fails r r' e
unfolding gather gather_head stream skip
request-eq-some r r' (input offset bytes) e h =
    handle_input-eq-err r r' offset bytes e
      (failure_of-eq-some (handle_input r offset bytes) r' e h)
request-eq-some r r' end_of_input e h = finish-eq-err r r' e (failure_of-eq-some (finish r) r' e h)
request-eq-some r r' (gathering limit) e h =
    answered-eq-err r r' (open_header r.progress >>= gather_answer r limit) e
      (failure_of-eq-some (gather r limit) r' e h)
request-eq-some r r' (gathering_head head_bytes) e h =
    answered-eq-err r r'
      (open_header r.progress >>= (λ (h, offset).
        ok (answer r h offset (Answer.gather_head (at_most (payload_len h) head_bytes)))))
      e (failure_of-eq-some (gather_head r head_bytes) r' e h)
request-eq-some r r' streaming e h =
    answered-eq-err r r'
      (open_header r.progress >>= (λ (h, offset). ok (answer r h offset Answer.stream))) e
      (failure_of-eq-some (stream r) r' e h)
request-eq-some r r' skipping e h =
    answered-eq-err r r'
      (open_header r.progress >>= (λ (h, offset). ok (answer r h offset Answer.skip))) e
      (failure_of-eq-some (skip r) r' e h)

request_failed :
    (r : BoxReader) (q : Request) (e : ReadError)
    → r.progress ≡ Progress.failed e
    → request r q ≡ (r, some e)
unfolding handle_input finish gather gather_head stream skip
request_failed r (input offset bytes) e h = rw h refl
request_failed r end_of_input e h = rw h refl
request_failed r (gathering limit) e h = rw h refl
request_failed r (gathering_head head_bytes) e h = rw h refl
request_failed r streaming e h = rw h refl
request_failed r skipping e h = rw h refl

requests_failed :
    (r : BoxReader) (qs : List Request) (e : ReadError)
    → r.progress ≡ Progress.failed e
    → requests r qs ≡ (r, map (λ _. some e) qs)
requests_failed r [] e h = refl
requests_failed r (q ∷ qs) e h = rw (request_failed r q e h, requests_failed r qs e h) refl

-- A failure either changes nothing or is final: where a call on any reader fails, be it input that is
-- offered, the end of the input or an answer to an open box, the reader is left as it was, or every
-- later call, of whatever kind and however many there are, fails with the same failure and leaves
-- the reader as it is.
pub requests-eq-failed :
    (r r' : BoxReader) (q : Request) (e : ReadError) (qs : List Request)
    → request r q ≡ (r', some e)
    → (r' ≡ r) ⊎ (requests r' qs ≡ (r', map (λ _. some e) qs))
requests-eq-failed r r' q e qs h = elim (request-eq-some r r' q e h) [
  | inl same ↦ inl same
  | inr failed ↦ inr (requests_failed r' qs e failed)
]
