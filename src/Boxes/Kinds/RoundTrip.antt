-- ===== src/Boxes/Kinds/RoundTrip.antt =====
-- A box of any type of the model, encoded whole and decoded again.
use native.Mathlib.Nat.{mul-le-mul_left}
use isobmff_rs.Common.{ℕ, ◌≡◌, ◌+◌, ◌<◌, ◌≤◌, ◌^◌, List, ◌++◌, length, drop, arith}
use isobmff_rs.Common.Bytes.{to_be_bytes}
use isobmff_rs.Common.Words.{IsU16, IsU32, IsU64}
use isobmff_rs.Common.Result.{ok}
use isobmff_rs.Core.BoxType.{BoxType}
use isobmff_rs.Core.Field.RoundTrip.{wires}
use isobmff_rs.Core.Codec.{encode, decode, encoded_len_of}
use isobmff_rs.Core.Codec.RoundTrip.{IsCodec, decode-encode_value}
use isobmff_rs.Boxes.FullBox.RoundTrip.{width_at}
use isobmff_rs.Boxes.Table.{TableEntry, u16_entry, u32_entry, u64_entry, four_cc_entry}
use isobmff_rs.Boxes.Table.RoundTrip.{IsEntry, IsTable-ranged}
use isobmff_rs.Boxes.Counted.{
  uncounted_codec, time_to_sample_entry, sample_to_chunk_entry, counted_codec,
}
use isobmff_rs.Boxes.Counted.RoundTrip.{
  counted-IsCodec, uncounted-IsCodec, time_to_sample_fields, sample_to_chunk_fields, IsTimeToSample,
  IsSampleToChunk, time_to_sample-IsEntry, sample_to_chunk-IsEntry, u16-IsEntry, u32-IsEntry,
  u64-IsEntry,
}
use isobmff_rs.Boxes.Types.{GeneralType, general_type_codec}
use isobmff_rs.Boxes.Types.RoundTrip.{
  bytes-IsCodec, brand_bytes, brand-IsEntry, general_type-IsCodec,
}
use isobmff_rs.Boxes.Samples.{
  SampleSizes, constant, table, composition_entry, edit_entry, entry_len, CompositionOffsetBox,
  EditListBox,
}
use isobmff_rs.Boxes.Samples.RoundTrip.{
  composition_bytes, composition-IsEntry, IsComposition, ctts-IsCodec, stsz-IsCodec,
}
use isobmff_rs.Boxes.Samples.Edits.{edit_bytes, edit-IsEntry, IsEdit, elst-IsCodec}
use isobmff_rs.Boxes.Timing.RoundTrip.{
  mfhd-IsCodec, mehd-IsCodec, tfdt-IsCodec, prft-IsCodec, cslg-IsCodec,
}
use isobmff_rs.Boxes.Numbers.RoundTrip.{
  pasp-IsCodec, btrt-IsCodec, clli-IsCodec, amve-IsCodec, clap-IsCodec, mfro-IsCodec, srat-IsCodec,
}
use isobmff_rs.Boxes.HintStatistics.RoundTrip.{u32-IsCodec, u64-IsCodec, i32-IsCodec}
use isobmff_rs.Boxes.Headers.Movie.{mdhd-IsCodec, mvhd-IsCodec}
use isobmff_rs.Boxes.Headers.Track.{tkhd-IsCodec}
use isobmff_rs.Boxes.Kinds.Writable.{box_type-IsWritableType}
use isobmff_rs.Boxes.Kinds.{
  BoxKind, stts, stsc, stco, co64, stss, stdp, ctts, stsz, elst, cslg, ftyp, styp, free, skip, mdat,
  mfhd, mehd, tfdt, prft, mdhd, mvhd, tkhd, pasp, btrt, clli, amve, clap, mfro, srat, trpy, nump,
  tpyl, totl, npck, tpay, dmed, dimm, drep, tmin, tmax, pmax, dmax, Value, codec, Counted, IsBrand,
  IsBrands, IsValue,
}

-- The box of a list whose entries are in range.
module _ {A : Type 0} (t : BoxType) (e : TableEntry A) (wire : A → List ℕ) (P : A → Type 0)
    (f : (a : A) → P a → IsEntry e wire a) (xs : List A) (h : Counted P xs)
    (above : 0 < e.encoded_len) (small : e.encoded_len ≤ 20) where
  counted_table : IsCodec (counted_codec t e) xs
  counted_table =
      let (tabled, fits) = IsTable-ranged e wire P f xs h.0 h.1 above small in
      counted-IsCodec t e wire xs tabled (omega arith)

  uncounted_table : IsCodec (uncounted_codec t e) xs
  uncounted_table =
      let (tabled, fits) = IsTable-ranged e wire P f xs h.0 h.1 above small in
      uncounted-IsCodec t e wire xs tabled (omega arith)

general_codec : (t : BoxType) (x : GeneralType) → IsBrands x → IsCodec (general_type_codec t) x
general_codec t x (major, (minor, (brands, counted))) =
    let (tabled, fits) =
      IsTable-ranged four_cc_entry brand_bytes IsBrand brand-IsEntry x.compatible_brands brands
        counted (omega arith) (omega arith) in
    general_type-IsCodec t x (record { major = major; minor = minor; brands = tabled })
      (omega arith)

ctts_table : (x : CompositionOffsetBox) → IsValue ctts x → IsCodec (codec ctts) x
ctts_table x (v, (h, counted)) =
    let (tabled, fits) =
      IsTable-ranged (composition_entry x.version) (composition_bytes x.version)
        (IsComposition x.version) (composition-IsEntry x.version) x.entries h counted (omega arith)
        (omega arith) in
    ctts-IsCodec x (record { versioned = v; tabled = tabled }) (omega arith)

entry_len_bounds : (version : ℕ) → (0 < entry_len version) × (entry_len version ≤ 20)
entry_len_bounds version = ground arith

elst_table : (x : EditListBox) → IsValue elst x → IsCodec (codec elst) x
elst_table x (v, (h, counted)) =
    let (above, small) = entry_len_bounds x.version in
    let (tabled, fits) =
      IsTable-ranged (edit_entry x.version (width_at x.version)) (edit_bytes (width_at x.version))
        (IsEdit x.version) (λ edit. edit-IsEntry x.version edit v) x.entries h counted above
        small in
    elst-IsCodec x (record { versioned = v; tabled = tabled }) (omega arith)

stsz_sizes : (x : SampleSizes) → IsValue stsz x → IsCodec (codec stsz) x
stsz_sizes (constant n m) h = stsz-IsCodec (constant n m) h
stsz_sizes (table xs) (h, counted) =
    stsz-IsCodec (table xs)
      (IsTable-ranged u32_entry (to_be_bytes 4) IsU32 u32-IsEntry xs h counted (omega arith)
        (omega arith)).0

-- A value of a kind is written as its fields and read from them.
pub value-IsCodec : (k : BoxKind) (v : Value k) → IsValue k v → IsCodec (codec k) v
value-IsCodec stts v h =
    counted_table _ time_to_sample_entry (λ y. wires (time_to_sample_fields y)) IsTimeToSample
      time_to_sample-IsEntry v h (omega arith) (omega arith)
value-IsCodec stsc v h =
    counted_table _ sample_to_chunk_entry (λ y. wires (sample_to_chunk_fields y)) IsSampleToChunk
      sample_to_chunk-IsEntry v h (omega arith) (omega arith)
value-IsCodec stco v h =
    counted_table _ u32_entry (to_be_bytes 4) IsU32 u32-IsEntry v h (omega arith) (omega arith)
value-IsCodec co64 v h =
    counted_table _ u64_entry (to_be_bytes 8) IsU64 u64-IsEntry v h (omega arith) (omega arith)
value-IsCodec stss v h =
    counted_table _ u32_entry (to_be_bytes 4) IsU32 u32-IsEntry v h (omega arith) (omega arith)
value-IsCodec stdp v h =
    uncounted_table _ u16_entry (to_be_bytes 2) IsU16 u16-IsEntry v h (omega arith) (omega arith)
value-IsCodec ctts v h = ctts_table v h
value-IsCodec stsz v h = stsz_sizes v h
value-IsCodec elst v h = elst_table v h
value-IsCodec cslg v h = cslg-IsCodec v h.0 h.1
value-IsCodec ftyp v h = general_codec _ v h
value-IsCodec styp v h = general_codec _ v h
value-IsCodec free v h = bytes-IsCodec _ v (omega arith)
value-IsCodec skip v h = bytes-IsCodec _ v (omega arith)
value-IsCodec mdat v h = bytes-IsCodec _ v (omega arith)
value-IsCodec mfhd v h = mfhd-IsCodec v h
value-IsCodec mehd v h = mehd-IsCodec v h.0 h.1
value-IsCodec tfdt v h = tfdt-IsCodec v h.0 h.1
value-IsCodec prft v h = prft-IsCodec v h.0 h.1.0 h.1.1
value-IsCodec mdhd v h = mdhd-IsCodec v h
value-IsCodec mvhd v h = mvhd-IsCodec v h
value-IsCodec tkhd v h = tkhd-IsCodec v h
value-IsCodec pasp v h = pasp-IsCodec v h
value-IsCodec btrt v h = btrt-IsCodec v h
value-IsCodec clli v h = clli-IsCodec v h
value-IsCodec amve v h = amve-IsCodec v h
value-IsCodec clap v h = clap-IsCodec v h
value-IsCodec mfro v h = mfro-IsCodec v h
value-IsCodec srat v h = srat-IsCodec v h
value-IsCodec trpy v h = u64-IsCodec _ v h
value-IsCodec nump v h = u64-IsCodec _ v h
value-IsCodec tpyl v h = u64-IsCodec _ v h
value-IsCodec totl v h = u32-IsCodec _ v h
value-IsCodec npck v h = u32-IsCodec _ v h
value-IsCodec tpay v h = u32-IsCodec _ v h
value-IsCodec dmed v h = u64-IsCodec _ v h
value-IsCodec dimm v h = u64-IsCodec _ v h
value-IsCodec drep v h = u64-IsCodec _ v h
value-IsCodec tmin v h = i32-IsCodec _ v h
value-IsCodec tmax v h = i32-IsCodec _ v h
value-IsCodec pmax v h = u32-IsCodec _ v h
value-IsCodec dmax v h = u32-IsCodec _ v h

elst_bounded : (x : EditListBox) → IsValue elst x → (codec elst).payload_len x + 32 < 2 ^ 64
elst_bounded x h =
    let (above, small) = entry_len_bounds x.version in
    let bound = mul-le-mul_left (length x.entries) small in ground (arith, bound)

sizes_bounded : (x : SampleSizes) → IsValue stsz x → (codec stsz).payload_len x + 32 < 2 ^ 64
sizes_bounded (constant n m) h = omega arith
sizes_bounded (table xs) h = ground arith

-- The payload leaves room for a header in 64 bits.
value_bounded : (k : BoxKind) (v : Value k) → IsValue k v → (codec k).payload_len v + 32 < 2 ^ 64
value_bounded stts v h = ground arith
value_bounded stsc v h = ground arith
value_bounded stco v h = ground arith
value_bounded co64 v h = ground arith
value_bounded stss v h = ground arith
value_bounded stdp v h = ground arith
value_bounded ctts v h = ground arith
value_bounded stsz v h = sizes_bounded v h
value_bounded elst v h = elst_bounded v h
value_bounded cslg v h = ground arith
value_bounded ftyp v h = ground arith
value_bounded styp v h = ground arith
value_bounded free v h = ground arith
value_bounded skip v h = ground arith
value_bounded mdat v h = ground arith
value_bounded mfhd v h = omega arith
value_bounded mehd v h = ground arith
value_bounded tfdt v h = ground arith
value_bounded prft v h = ground arith
value_bounded mdhd v h = ground arith
value_bounded mvhd v h = ground arith
value_bounded tkhd v h = ground arith
value_bounded pasp v h = omega arith
value_bounded btrt v h = omega arith
value_bounded clli v h = omega arith
value_bounded amve v h = omega arith
value_bounded clap v h = omega arith
value_bounded mfro v h = omega arith
value_bounded srat v h = omega arith
value_bounded trpy v h = omega arith
value_bounded nump v h = omega arith
value_bounded tpyl v h = omega arith
value_bounded totl v h = omega arith
value_bounded npck v h = omega arith
value_bounded tpay v h = omega arith
value_bounded dmed v h = omega arith
value_bounded dimm v h = omega arith
value_bounded drep v h = omega arith
value_bounded tmin v h = omega arith
value_bounded tmax v h = omega arith
value_bounded pmax v h = omega arith
value_bounded dmax v h = omega arith

-- A value of any kind of box whose fields are in range, encoded into a buffer that holds the box,
-- takes the front of the buffer, as many bytes as `encoded_len_of` says, and leaves the rest; and
-- those bytes, whatever follows them, decode as the value with what follows.
pub kind-decode-encode :
    (k : BoxKind) (v : Value k) (buffer tail : List ℕ)
    → IsValue k v
    → encoded_len_of (codec k) v ≤ length buffer
    → (bytes : List ℕ) × (encode (codec k) v buffer
        ≡ ok (bytes, drop (encoded_len_of (codec k) v) buffer))
      × (length bytes ≡ encoded_len_of (codec k) v)
      × (decode (codec k) (bytes ++ tail) ≡ ok (v, tail))
kind-decode-encode k v buffer tail h holds =
    let i = value-IsCodec k v h in
    decode-encode_value (codec k) v i (box_type-IsWritableType k)
      (omega (arith, value_bounded k v h, i.counted)) buffer tail holds
