-- ===== src/Boxes/HintStatistics/RoundTrip.antt =====
-- The boxes of one number, written and read back.
use isobmff_rs.Common.{ℕ, ◌^◌, [], ◌∷◌, refl}
use isobmff_rs.Common.Int.{ℤ, InRange}
use isobmff_rs.Common.Words.{IsU32, IsU64}
use isobmff_rs.Core.BoxType.{BoxType}
use isobmff_rs.Core.Field.Kinds.{Field}
use isobmff_rs.Core.Field.RoundTrip.{wires}
use isobmff_rs.Core.Codec.Fields.{length-wires, Writes-all, Reads-u32, Reads-u64, Reads-i32}
use isobmff_rs.Core.Codec.RoundTrip.{IsCodec}
use isobmff_rs.Boxes.HintStatistics.{u32_codec, u64_codec, i32_codec}

pub u32-IsCodec : (t : BoxType) (n : ℕ) → IsU32 n → IsCodec (u32_codec t) n
u32-IsCodec t n h = record {
  payload = wires (Field.u32 n ∷ []);
  counted = rw (length-wires (Field.u32 n ∷ [])) refl;
  writes = Writes-all (Field.u32 n ∷ []) (h, _);
  reads = λ k. rw (Reads-u32 n h k _) refl;
}

pub u64-IsCodec : (t : BoxType) (n : ℕ) → IsU64 n → IsCodec (u64_codec t) n
u64-IsCodec t n h = record {
  payload = wires (Field.u64 n ∷ []);
  counted = rw (length-wires (Field.u64 n ∷ [])) refl;
  writes = Writes-all (Field.u64 n ∷ []) (h, _);
  reads = λ k. rw (Reads-u64 n h k _) refl;
}

pub i32-IsCodec : (t : BoxType) (n : ℤ) → InRange (2 ^ 31) n → IsCodec (i32_codec t) n
i32-IsCodec t n h = record {
  payload = wires (Field.i32 n ∷ []);
  counted = rw (length-wires (Field.i32 n ∷ [])) refl;
  writes = Writes-all (Field.i32 n ∷ []) (h, _);
  reads = λ k. rw (Reads-i32 n h k _) refl;
}
