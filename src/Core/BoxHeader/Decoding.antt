-- ===== src/Core/BoxHeader/Decoding.antt =====
-- What a header that `decode` returned says of the input.
use isobmff_rs.Common.{ℕ, ◌≡◌, ◌≢◌, Option, none, some, List, ◌++◌}
use isobmff_rs.Common.{length, arith, refl, ◌==◌, split_at_checked, All, All-append}
use isobmff_rs.Common.{split_at_checked-eq-some, Option-cases, inl, inr, sym, ◌∙◌, Bool-cases}
use isobmff_rs.Common.Bytes.{
  IsArray, IsByte, from_be_bytes, to_be_bytes, from_be_bytes-lt, to_be_bytes-from_be_bytes,
}
use isobmff_rs.Common.Words.{IsU64, IsU32}
use isobmff_rs.Common.Result.{ok, ok_or, Result-cases}
use isobmff_rs.Core.FourCc.{FourCc, four_cc_eq, four_cc_eq→eq}
use isobmff_rs.Core.BoxType.{BoxType, compact_type, extended_marker}
use isobmff_rs.Core.BoxType.{four_cc, IsBoxType}
use isobmff_rs.Core.BoxSize.{BoxSize, total_bytes, IsBoxSize}
use isobmff_rs.Core.BoxHeader.{BoxHeader, IsHeader, decode, field_bytes, new, Covered}
use isobmff_rs.Core.BoxHeader.{size_fields, large_size_bytes, uuid_bytes, decode_rest, type_of}
use isobmff_rs.Core.BoxHeader.{
  take_large_size, take_box_type, declared_size, checked_header, header_length, is_none,
}
use isobmff_rs.Core.BoxHeader.Fields.{uuid_of, field_bytes-append}

-- An option that the code turned into an error was there, when no error was returned.
pub ok_or-eq-ok {ℓ κ} :
    {E : Type ℓ} {A : Type κ} (o : Option A) (e : E) (a : A) → ok_or o e ≡ ok a → o ≡ some a
ok_or-eq-ok none e a h = cc
ok_or-eq-ok (some b) e a h = cc

-- The `size` field and the `largesize` field go together.
abbrev Large : ℕ → Option ℕ → Type 0
Large declared none = declared ≢ 1
Large declared (some n) = (declared ≡ 1) × IsU64 n

-- A field that was split off an input of bytes.
split_field :
    (n : ℕ) (rest field rest' : List ℕ)
    → All IsByte rest
    → split_at_checked n rest ≡ some (field, rest')
    → (rest ≡ field ++ rest') × IsArray n field × All IsByte rest'
split_field n rest field rest' bytes h =
    let (e, l) = split_at_checked-eq-some n rest field rest' h in
    let (p, q) = (All-append IsByte field rest').0 (rw e at bytes) in (e, (l, p), q)

field-Large :
    (declared : ℕ) (rest field rest' : List ℕ)
    → All IsByte rest
    → declared ≡ 1
    → split_at_checked 8 rest ≡ some (field, rest')
    → (rest ≡ large_size_bytes (some (from_be_bytes field)) ++ rest')
      × Large declared (some (from_be_bytes field))
      × All IsByte rest'
field-Large declared rest field rest' bytes e h =
    let (p, a, q) = split_field 8 rest field rest' bytes h in
    (rw (to_be_bytes-from_be_bytes 8 field a) p, (e, omega (arith, from_be_bytes-lt 8 field a)), q)

take_large_size-eq-ok :
    (declared header_bytes available : ℕ) (rest : List ℕ) (large : Option ℕ) (rest' : List ℕ)
    → All IsByte rest
    → take_large_size declared header_bytes available rest ≡ ok (large, rest')
    → (rest ≡ large_size_bytes large ++ rest') × Large declared large × All IsByte rest'
unfolding take_large_size
take_large_size-eq-ok declared header_bytes available rest large rest' bytes h =
    elim (Option-cases (split_at_checked 8 rest)) [
      | inl e ↦ ground arith
      | inr ((f, r), e) ↦ ground (arith, field-Large declared rest f r bytes)
    ]

take_box_type-eq-ok :
    (code : FourCc) (header_bytes available : ℕ) (rest : List ℕ) (t : BoxType) (rest' : List ℕ)
    → IsArray 4 code.bytes
    → All IsByte rest
    → take_box_type (compact_type code) header_bytes available rest ≡ ok (t, rest')
    → (rest ≡ uuid_bytes (uuid_of t) ++ rest') × IsBoxType t × (four_cc t ≡ code) × All IsByte rest'
unfolding take_box_type compact_type
take_box_type-eq-ok code header_bytes available rest t rest' hc bytes h =
    elim (Bool-cases (four_cc_eq code extended_marker)) [
      | inr named ↦ ground (arith, named)
      | inl marked ↦ elim (Option-cases (split_at_checked 16 rest)) [
        | inl e ↦ ground (arith, marked)
        | inr ((f, r), e) ↦ ground (
          arith,
          marked,
          split_field 16 rest f r bytes e,
          four_cc_eq→eq code extended_marker marked,
        )
      ]
    ]

declared_size-eq-some :
    (declared : ℕ) (large : Option ℕ) (size : BoxSize)
    → IsU32 declared
    → Large declared large
    → declared_size declared large ≡ some size
    → IsBoxSize size × (size_fields size ≡ (declared, large))
unfolding declared_size
declared_size-eq-some declared large (BoxSize.compact s) hd hl h = ground arith
declared_size-eq-some declared large (BoxSize.extended s) hd hl h = ground arith
declared_size-eq-some declared large BoxSize.to_end_of_file hd hl h = ground arith

pub new-eq-some :
    (t : BoxType) (size : BoxSize) (h : BoxHeader)
    → new t size ≡ some h
    → (h ≡ record { box_type = t; size = size }) × Covered h (total_bytes h.size)
unfolding new
new-eq-some t (BoxSize.compact s) h e = ground arith
new-eq-some t (BoxSize.extended s) h e = ground arith
new-eq-some t BoxSize.to_end_of_file h e = ground arith

checked_header-eq-ok :
    (declared : ℕ) (large : Option ℕ) (t : BoxType) (header_bytes : ℕ) (h : BoxHeader)
    → IsU32 declared
    → Large declared large
    → IsBoxType t
    → checked_header declared large t header_bytes ≡ ok h
    → IsHeader h × (size_fields h.size ≡ (declared, large)) × (h.box_type ≡ t)
unfolding checked_header
checked_header-eq-ok declared large t header_bytes h hd hl ht e =
    elim (Option-cases (declared_size declared large)) [
      | inl none_size ↦ ground (arith, none_size)
      | inr (size, e1) ↦ elim (Option-cases (new t size)) [
        | inl none_header ↦ ground (arith, e1, none_header)
        | inr (h', e2) ↦ ground (
          arith,
          e1,
          e2,
          new-eq-some t size h' e2,
          declared_size-eq-some declared large size hd hl e1,
        )
      ]
    ]

-- What follows the first two fields, if it decodes, is the rest of a header that the constructors
-- give, with the declared size and the named type.
decode_rest-eq-ok :
    (declared : ℕ) (code : FourCc) (available : ℕ) (rest : List ℕ) (h : BoxHeader) (rest' : List ℕ)
    → IsU32 declared
    → IsArray 4 code.bytes
    → All IsByte rest
    → decode_rest declared (compact_type code) available rest ≡ ok (h, rest')
    → IsHeader h
      × (rest
          ≡ large_size_bytes (size_fields h.size).1 ++ (uuid_bytes (uuid_of h.box_type) ++ rest'))
      × ((size_fields h.size).0 ≡ declared)
      × (four_cc h.box_type ≡ code)
      × All IsByte rest'
unfolding decode_rest
decode_rest-eq-ok declared code available rest h rest' hd hc bytes e =
    let n : ℕ = header_length (declared == 1) (is_none (compact_type code)) in
    elim (Result-cases (take_large_size declared n available rest)) [
      | inr (x, ex) ↦ ground (arith, ex)
      | inl ((large, r1), e1) ↦
          elim (Result-cases (take_box_type (compact_type code) n available r1)) [
            | inr (x, ex) ↦ ground (arith, e1, ex)
            | inl ((t, r2), e2) ↦ elim (Result-cases (checked_header declared large t n)) [
              | inr (x, ex) ↦ ground (arith, e1, e2, ex)
              | inl (h', e3) ↦ ground (
                arith,
                e1,
                e2,
                e3,
                take_large_size-eq-ok declared n available rest large r1 bytes e1,
                take_box_type-eq-ok code n available r1 t r2 hc,
                checked_header-eq-ok declared large t n h' hd,
              )
            ]
          ]
    ]

-- The fields of four bytes in front of `rest`, as `decode` takes them off the input.
two_fields :
    (input : List ℕ) (h : BoxHeader) (rest : List ℕ)
    → decode input ≡ ok (h, rest)
    → (a b tail : List ℕ) × (split_at_checked 4 input ≡ some (a, b ++ tail))
      × (split_at_checked 4 (b ++ tail) ≡ some (b, tail))
      × (decode_rest (from_be_bytes a) (type_of b) (length input) tail ≡ ok (h, rest))
unfolding decode
two_fields input h rest e = elim (Option-cases (split_at_checked 4 input)) [
  | inl n ↦ ground (arith, n)
  | inr ((a, r), ea) ↦ elim (Option-cases (split_at_checked 4 r)) [
    | inl n ↦ ground (arith, ea, n)
    | inr ((b, tail), eb) ↦ (
      a,
      b,
      tail,
      ground (arith, ea, eb, split_at_checked-eq-some 4 r b tail eb),
      ground (arith, ea, eb, split_at_checked-eq-some 4 r b tail eb),
      ground (arith, ea, eb),
    )
  ]
]

-- The fields that `decode` took apart spell the header, and the input is they and the rest.
fields_of :
    (a b tail rest : List ℕ) (h : BoxHeader)
    → IsArray 4 a
    → (size_fields h.size).0 ≡ from_be_bytes a
    → four_cc h.box_type ≡ record { bytes = b }
    → tail ≡ large_size_bytes (size_fields h.size).1 ++ (uuid_bytes (uuid_of h.box_type) ++ rest)
    → a ++ (b ++ tail)
      ≡ to_be_bytes 4 (size_fields h.size).0
        ++ ((four_cc h.box_type).bytes
            ++ (large_size_bytes (size_fields h.size).1
                ++ (uuid_bytes (uuid_of h.box_type) ++ rest)))
fields_of a b tail rest h ha es et er = rw (es, et, to_be_bytes-from_be_bytes 4 a ha, er) refl

-- A header that `decode` returns is one that the constructors give, and the input is its fields
-- and the rest.
pub decode-eq-ok :
    (input : List ℕ) (h : BoxHeader) (rest : List ℕ)
    → All IsByte input
    → decode input ≡ ok (h, rest)
    → IsHeader h × (input ≡ field_bytes h (uuid_of h.box_type) ++ rest) × All IsByte rest
decode-eq-ok input h rest bytes e =
    let (a, b, tail, ea, eb, er) = two_fields input h rest e in
    let (ia, aa, ra) = split_field 4 input a (b ++ tail) bytes ea in
    let (ib, ab, rb) = split_field 4 (b ++ tail) b tail ra eb in
    let (valid, it, es, et, last) =
      decode_rest-eq-ok (from_be_bytes a) (record { bytes = b }) (length input) tail h rest
        (from_be_bytes-lt 4 a aa) ab rb er in
    (valid, ia ∙ fields_of a b tail rest h aa (es) et it ∙ sym (field_bytes-append h rest), last)
