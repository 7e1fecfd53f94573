-- ===== src/Common/Bytes.antt =====
-- Big-endian bytes: `to_be_bytes` and `from_be_bytes` of an unsigned integer of any width.
use Prim.Native.Nat.{ℕ, zero, suc, ◌+◌, ◌*◌, ◌/◌, ◌%◌, ◌^◌, ◌<◌}
use mathlib.Core.Path.{◌≡◌, ◌∙◌, ap}
use mathlib.Core.List.{List, [], ◌∷◌, ◌++◌, append-nil}
use native.Mathlib.Omega.{arith}
use native.Mathlib.Nat.{pow-suc}
use isobmff_rs.Common.Lists.{length, All}

abbrev pub IsByte : ℕ → Type 0
IsByte b = b < 256

-- An array `[u8; n]`.
abbrev pub IsArray : ℕ → List ℕ → Type 0
IsArray n bytes = (length bytes ≡ n) × All IsByte bytes

-- The value that the bytes continue, the first of them the highest.
unfoldable pub from_be_from : ℕ → List ℕ → ℕ
from_be_from high [] = high
from_be_from high (b ∷ bytes) = from_be_from (high * 256 + b) bytes

-- `from_be_bytes`
unfoldable pub from_be_bytes : List ℕ → ℕ
unfolding from_be_from
from_be_bytes bytes = from_be_from 0 bytes

-- The lowest `n` bytes of the value, in front of `low`.
unfoldable pub to_be_onto : ℕ → ℕ → List ℕ → List ℕ
to_be_onto zero value low = low
to_be_onto (suc n) value low = to_be_onto n (value / 256) ((value % 256) ∷ low)

-- `to_be_bytes` of an integer of `n` bytes
unfoldable pub to_be_bytes : ℕ → ℕ → List ℕ
unfolding to_be_onto
to_be_bytes n value = to_be_onto n value []

length-to_be_onto : (n value : ℕ) (low : List ℕ) → length (to_be_onto n value low) ≡ n + length low
unfolding to_be_onto
length-to_be_onto zero value low = omega arith
length-to_be_onto (suc n) value low =
    omega (arith, length-to_be_onto n (value / 256) ((value % 256) ∷ low))

All-to_be_onto : (n value : ℕ) (low : List ℕ) → All IsByte low → All IsByte (to_be_onto n value low)
unfolding to_be_onto
All-to_be_onto zero value low h = h
All-to_be_onto (suc n) value low h =
    All-to_be_onto n (value / 256) ((value % 256) ∷ low) (omega arith, h)

pub to_be_bytes-IsArray : (n value : ℕ) → IsArray n (to_be_bytes n value)
unfolding to_be_bytes
to_be_bytes-IsArray n value =
    (omega (arith, length-to_be_onto n value []), All-to_be_onto n value [] tt)

pub length-to_be_bytes : (n value : ℕ) → length (to_be_bytes n value) ≡ n
length-to_be_bytes n value = (to_be_bytes-IsArray n value).0

below_tail : (n value : ℕ) → value < 256 ^ suc n → value / 256 < 256 ^ n
below_tail n value h = omega (arith, pow-suc 256 n)

from_be_from-to_be_onto :
    (n value : ℕ) (low : List ℕ)
    → value < 256 ^ n
    → from_be_from 0 (to_be_onto n value low) ≡ from_be_from value low
unfolding to_be_onto from_be_from
from_be_from-to_be_onto zero value low h = let e : value ≡ 0 = omega arith in rw e
from_be_from-to_be_onto (suc n) value low h =
    from_be_from-to_be_onto n (value / 256) ((value % 256) ∷ low) (below_tail n value h)
    ∙ ap (λ v. from_be_from v low) (omega arith)

-- An integer that fits `n` bytes is read back from them.
pub from_be_bytes-to_be_bytes :
    (n value : ℕ) → value < 256 ^ n → from_be_bytes (to_be_bytes n value) ≡ value
unfolding from_be_bytes to_be_bytes
from_be_bytes-to_be_bytes n value h = from_be_from-to_be_onto n value [] h

onto_step :
    (n high b : ℕ) (low : List ℕ)
    → b < 256
    → to_be_onto (suc n) (high * 256 + b) low ≡ to_be_onto n high (b ∷ low)
unfolding to_be_onto
onto_step n high b low h =
    let d : (high * 256 + b) / 256 ≡ high = omega arith in
    let r : (high * 256 + b) % 256 ≡ b = omega arith in rw (d, r)

to_be_onto-from_be_from :
    (bytes : List ℕ) (m n high : ℕ) (low : List ℕ)
    → m ≡ length bytes + n
    → All IsByte bytes
    → to_be_onto m (from_be_from high bytes) low ≡ to_be_onto n high (bytes ++ low)
unfolding from_be_from
to_be_onto-from_be_from [] m n high low e h = let e' : m ≡ n = omega arith in rw e'
to_be_onto-from_be_from (b ∷ bytes) m n high low e (hb, h) =
    to_be_onto-from_be_from bytes m (suc n) (high * 256 + b) low (omega arith) h
    ∙ onto_step n high b (bytes ++ low) hb

-- The bytes of an array are the bytes of the integer that it spells.
pub to_be_bytes-from_be_bytes :
    (n : ℕ) (bytes : List ℕ) → IsArray n bytes → to_be_bytes n (from_be_bytes bytes) ≡ bytes
unfolding from_be_bytes to_be_bytes
to_be_bytes-from_be_bytes n bytes (hl, h) =
    to_be_onto-from_be_from bytes n 0 0 [] (omega arith) h ∙ rw append-nil

from_be_from-lt :
    (bytes : List ℕ) (n m high : ℕ)
    → m ≡ length bytes + n
    → high < 256 ^ n
    → All IsByte bytes
    → from_be_from high bytes < 256 ^ m
unfolding from_be_from
from_be_from-lt [] n m high e hh h = let e' : m ≡ n = omega arith in rw e' hh
from_be_from-lt (b ∷ bytes) n m high e hh (hb, h) =
    from_be_from-lt bytes (suc n) m (high * 256 + b) (omega arith) (omega (arith, pow-suc 256 n)) h

-- An array of `n` bytes spells an integer of `n` bytes.
pub from_be_bytes-lt : (n : ℕ) (bytes : List ℕ) → IsArray n bytes → from_be_bytes bytes < 256 ^ n
unfolding from_be_bytes
from_be_bytes-lt n bytes (hl, h) = from_be_from-lt bytes 0 n 0 (omega arith) (omega arith) h
