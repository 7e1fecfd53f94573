-- ===== src/Core/FullBox/RoundTrip.antt =====
-- The header of a full box, to its four bytes and back.
use isobmff_rs.Common.{ℕ, ◌≡◌, ◌/◌, ◌%◌, ◌≤◌, List, [], ◌∷◌, refl, arith, length, drop}
use isobmff_rs.Common.Bytes.{
  IsArray, from_be_bytes, to_be_bytes, from_be_bytes-to_be_bytes, to_be_bytes-from_be_bytes,
  from_be_bytes-lt, to_be_onto, from_be_from,
}
use isobmff_rs.Core.FullBox.{FullBoxHeader, from_bytes, to_bytes, IsFullBoxHeader, flags_maximum}

-- The flags leave the first of the four bytes of their number at zero.
flags_bytes :
    (bits : ℕ) → bits ≤ flags_maximum → 0 ∷ drop 1 (to_be_bytes 4 bits) ≡ to_be_bytes 4 bits
unfolding to_be_bytes to_be_onto
flags_bytes bits h = let e : bits / 256 / 256 / 256 % 256 ≡ 0 = omega arith in rw e refl

pub length-to_bytes : (h : FullBoxHeader) → length (to_bytes h) ≡ 4
unfolding to_bytes to_be_bytes to_be_onto
length-to_bytes h = refl

-- The bytes of a header read as the header.
pub from_bytes-to_bytes : (h : FullBoxHeader) → IsFullBoxHeader h → from_bytes (to_bytes h) ≡ h
unfolding from_bytes to_bytes
from_bytes-to_bytes h valid =
    rw
      (
        flags_bytes h.flags.bits valid.flagged,
        from_be_bytes-to_be_bytes 4 h.flags.bits (omega (arith, valid.flagged)),
      )
      refl

low_bytes : (bytes : List ℕ) → IsArray 3 bytes → from_be_bytes (0 ∷ bytes) ≤ flags_maximum
unfolding from_be_bytes from_be_from
low_bytes bytes i = omega (arith, from_be_bytes-lt 3 bytes i)

-- Four bytes are the bytes of the header that is read from them, and the flags of the header are in
-- range.
pub to_bytes-from_bytes :
    (bytes : List ℕ)
    → IsArray 4 bytes
    → (to_bytes (from_bytes bytes) ≡ bytes) × IsFullBoxHeader (from_bytes bytes)
unfolding from_bytes to_bytes
to_bytes-from_bytes [] (e, h) = absurd (omega arith)
to_bytes-from_bytes (v ∷ bytes) (e, (hv, h)) =
    let i : IsArray 4 (0 ∷ bytes) = (e, (omega arith, h)) in
    (
      rw (to_be_bytes-from_be_bytes 4 (0 ∷ bytes) i) refl,
      record { versioned = hv; flagged = low_bytes bytes (omega arith, h) },
    )
