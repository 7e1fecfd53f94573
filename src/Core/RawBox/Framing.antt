-- ===== src/Core/RawBox/Framing.antt =====
-- Splitting the first box off an input, against the bytes that the box stands for.
use isobmff_rs.Common.{
  ℕ, ◌≡◌, ◌+◌, ◌-◌, ◌≤◌, Option, none, some, List, [], ◌++◌, length, split_at_checked, All, refl,
  arith, inl, inr, sym, ◌∙◌,
}
use isobmff_rs.Common.{
  append_assoc, append-nil, length-append, split_at_checked-append, split_at_checked-eq-some,
  Option-cases,
}
use isobmff_rs.Common.Bytes.{IsByte}
use isobmff_rs.Common.Result.{ok, and_then, Result-cases}
use isobmff_rs.Core.BoxSize.{total_bytes}
use isobmff_rs.Core.BoxHeader
use isobmff_rs.Core.BoxHeader.{BoxHeader, IsHeader, payload_len, field_bytes, encoded_len, Covered}
use isobmff_rs.Core.BoxHeader.Fields.{uuid_of, length-field_bytes}
use isobmff_rs.Core.BoxHeader.Decoding.{decode-eq-ok}
use isobmff_rs.Core.BoxHeader.RoundTrip.{decode-field_bytes}
use mathlib.Core.Path.{subst}
use isobmff_rs.Core.RawBox.{RawBox, split_first, split_payload, raw_bytes, Spans, IsFramed}

-- A declared total covers the header, so the payload has a length exactly where there is a total.
pub payload_len_total :
    (h : BoxHeader) (total : Option ℕ)
    → total_bytes h.size ≡ total
    → Covered h total
    → payload_len h ≡ and_then total (λ n. some (n - encoded_len h))
unfolding payload_len
payload_len_total h none e c = rw e refl
payload_len_total h (some n) e c = rw e (ground arith)

split_payload-eq-ok :
    (h : BoxHeader) (after : List ℕ) (n : ℕ) (total : Option ℕ) (framed : RawBox) (rest : List ℕ)
    → IsHeader h
    → total_bytes h.size ≡ total
    → split_payload h after n total ≡ ok (framed, rest)
    → (framed.header ≡ h)
      × (after ≡ framed.payload ++ rest)
      × Spans (payload_len h) framed.payload rest
unfolding split_payload
split_payload-eq-ok h after n none framed rest valid et e =
    rw (payload_len_total h none et tt) (ground (arith, append-nil after))
split_payload-eq-ok h after n (some total) framed rest valid et e =
    let m : ℕ = total - encoded_len h in
    let el : payload_len h ≡ some m =
      payload_len_total h (some total) et (subst (λ t. Covered h t) et valid.covered) in
    elim (Option-cases (split_at_checked m after)) [
      | inl short ↦ ground (arith, el, short)
      | inr ((p, r), split) ↦ ground (arith, el, split, split_at_checked-eq-some m after p r split)
    ]

raw_append :
    (h : BoxHeader) (framed : RawBox) (after rest : List ℕ)
    → framed.header ≡ h
    → after ≡ framed.payload ++ rest
    → field_bytes h (uuid_of h.box_type) ++ after ≡ raw_bytes framed ++ rest
raw_append h framed after rest eh ea =
    rw (← eh, ea)
      (sym (
        append_assoc (field_bytes framed.header (uuid_of framed.header.box_type)) framed.payload
          rest))

-- Where `split_first` splits a box off an input of bytes, the box is framed as its header says, and
-- the input is the bytes of the box and what is left.
pub split_first-eq-ok :
    (input : List ℕ) (framed : RawBox) (rest : List ℕ)
    → All IsByte input
    → split_first input ≡ ok (framed, rest)
    → IsFramed framed rest × (input ≡ raw_bytes framed ++ rest)
unfolding split_first
split_first-eq-ok input framed rest bytes e = elim (Result-cases (BoxHeader.decode input)) [
  | inr (x, ex) ↦ ground (arith, ex)
  | inl ((h, after), ed) ↦
      let (valid, i, _) = decode-eq-ok input h after bytes ed in
      let (eh, ea, sp) =
        split_payload-eq-ok h after (length input) (total_bytes h.size) framed rest valid refl
          (ground (arith, ed)) in
      (rw eh (record { headed = valid; spans = sp }), i ∙ raw_append h framed after rest eh ea)
]

split_payload-raw :
    (framed : RawBox) (rest : List ℕ) (n : ℕ) (total : Option ℕ)
    → total_bytes framed.header.size ≡ total
    → IsFramed framed rest
    → split_payload framed.header (framed.payload ++ rest) n total ≡ ok (framed, rest)
unfolding split_payload
split_payload-raw framed rest n none e f =
    let el : payload_len framed.header ≡ none = payload_len_total framed.header none e tt in
    let er : rest ≡ [] = subst (λ l. Spans l framed.payload rest) el f.spans in
    rw (er, append-nil) refl
split_payload-raw framed rest n (some total) e f =
    let m : ℕ = total - encoded_len framed.header in
    let el : payload_len framed.header ≡ some m =
      payload_len_total framed.header (some total) e
        (subst (λ t. Covered framed.header t) e f.headed.covered) in
    let em : length framed.payload ≡ m = subst (λ l. Spans l framed.payload rest) el f.spans in
    ground (arith, el, split_at_checked-append m framed.payload rest em)

-- A box that is framed as its header says is split off the input that begins with its bytes, and
-- what is left is what follows them.
pub split_first-raw_bytes :
    (framed : RawBox) (rest : List ℕ)
    → IsFramed framed rest
    → split_first (raw_bytes framed ++ rest) ≡ ok (framed, rest)
unfolding split_first
split_first-raw_bytes framed rest f =
    let i =
      append_assoc (field_bytes framed.header (uuid_of framed.header.box_type)) framed.payload
        rest in
    rw (i, decode-field_bytes framed.header (framed.payload ++ rest) f.headed)
      (split_payload-raw framed rest _ (total_bytes framed.header.size) refl f)

-- The bytes of a box are those of its header and of its payload, eight at least.
pub length-raw_bytes :
    (framed : RawBox)
    → IsHeader framed.header
    → length (raw_bytes framed) ≡ encoded_len framed.header + length framed.payload
length-raw_bytes framed valid =
    rw length-append (omega (arith, length-field_bytes framed.header valid))

pub encoded_len_bounds : (h : BoxHeader) → (8 ≤ encoded_len h) × (encoded_len h ≤ 32)
encoded_len_bounds h = ground arith
