-- ===== src/Boxes/Kinds.antt =====
-- crates/isobmff-boxes/src: the box types of the model, each with its values and its codec.
pub mod RoundTrip
mod Writable
pub mod Written
mod Examples
use isobmff_rs.Common.{ℕ, ◌≡◌, ◌+◌, ◌<◌, ◌^◌, List, length, All}
use isobmff_rs.Common.Int.{ℤ, InRange}
use isobmff_rs.Common.Words.{IsU16, IsU32, IsU64}
use isobmff_rs.Core.FourCc.{FourCc}
use isobmff_rs.Core.FullBox.{IsFlags}
use isobmff_rs.Core.Codec.{BoxCodec}
use isobmff_rs.Core.Field.Kinds.{Field, IsField}
use isobmff_rs.Boxes.FullBox.RoundTrip.{IsVersion}
use isobmff_rs.Boxes.Counted.{
  TimeToSampleEntry, SampleToChunkEntry, stts_codec, stsc_codec, stco_codec, co64_codec, stss_codec,
  stdp_codec,
}
use isobmff_rs.Boxes.Counted.RoundTrip.{IsTimeToSample, IsSampleToChunk}
use isobmff_rs.Boxes.Types.{GeneralType, ftyp_codec, styp_codec, free_codec, skip_codec, mdat_codec}
use isobmff_rs.Boxes.Samples.{
  CompositionOffsetBox, ctts_codec, SampleSizes, constant, table, stsz_codec, EditListBox,
  elst_codec,
}
use isobmff_rs.Boxes.Samples.RoundTrip.{IsComposition}
use isobmff_rs.Boxes.Samples.Edits.{IsEdit}
use isobmff_rs.Boxes.Timing.{
  MovieFragmentHeaderBox, MovieExtendsHeaderBox, TrackFragmentBaseMediaDecodeTimeBox,
  ProducerReferenceTimeBox, CompositionToDecodeBox, mfhd_codec, mehd_codec, tfdt_codec, prft_codec,
  cslg_codec,
}
use isobmff_rs.Boxes.Timing.RoundTrip.{
  mfhd_fields, mehd_fields, tfdt_fields, prft_fields, cslg_fields,
}
use isobmff_rs.Boxes.Numbers.{
  PixelAspectRatioBox, pasp_codec, BitRateBox, btrt_codec, ContentLightLevelBox, clli_codec,
  AmbientViewingEnvironmentBox, amve_codec, CleanApertureBox, clap_codec,
  MovieFragmentRandomAccessOffsetBox, mfro_codec, SamplingRateBox, srat_codec,
}
use isobmff_rs.Boxes.Numbers.RoundTrip.{
  pasp_fields, btrt_fields, clli_fields, amve_fields, clap_fields, mfro_fields, srat_fields,
}
use isobmff_rs.Boxes.HintStatistics.{
  trpy_codec, nump_codec, tpyl_codec, totl_codec, npck_codec, tpay_codec, dmed_codec, dimm_codec,
  drep_codec, tmin_codec, tmax_codec, pmax_codec, dmax_codec,
}
use isobmff_rs.Boxes.Headers.{
  MediaHeaderBox, MovieHeaderBox, TrackHeaderBox, mdhd_codec, mvhd_codec, tkhd_codec,
}
use isobmff_rs.Boxes.Headers.Movie.{IsMediaHeader, IsMovieHeader}
use isobmff_rs.Boxes.Headers.Track.{IsTrackHeader}

pub data BoxKind : Type 0 where
  stts stsc stco co64 stss stdp ctts stsz elst cslg : BoxKind
  ftyp styp free skip mdat : BoxKind
  mfhd mehd tfdt prft mdhd mvhd tkhd : BoxKind
  pasp btrt clli amve clap mfro srat : BoxKind
  trpy nump tpyl totl npck tpay dmed dimm drep tmin tmax pmax dmax : BoxKind

abbrev pub Value : BoxKind → Type 0
Value stts = List TimeToSampleEntry
Value stsc = List SampleToChunkEntry
Value stco = List ℕ
Value co64 = List ℕ
Value stss = List ℕ
Value stdp = List ℕ
Value ctts = CompositionOffsetBox
Value stsz = SampleSizes
Value elst = EditListBox
Value cslg = CompositionToDecodeBox
Value ftyp = GeneralType
Value styp = GeneralType
Value free = List ℕ
Value skip = List ℕ
Value mdat = List ℕ
Value mfhd = MovieFragmentHeaderBox
Value mehd = MovieExtendsHeaderBox
Value tfdt = TrackFragmentBaseMediaDecodeTimeBox
Value prft = ProducerReferenceTimeBox
Value mdhd = MediaHeaderBox
Value mvhd = MovieHeaderBox
Value tkhd = TrackHeaderBox
Value pasp = PixelAspectRatioBox
Value btrt = BitRateBox
Value clli = ContentLightLevelBox
Value amve = AmbientViewingEnvironmentBox
Value clap = CleanApertureBox
Value mfro = MovieFragmentRandomAccessOffsetBox
Value srat = SamplingRateBox
Value trpy = ℕ
Value nump = ℕ
Value tpyl = ℕ
Value totl = ℕ
Value npck = ℕ
Value tpay = ℕ
Value dmed = ℕ
Value dimm = ℕ
Value drep = ℕ
Value tmin = ℤ
Value tmax = ℤ
Value pmax = ℕ
Value dmax = ℕ

abbrev pub codec : (k : BoxKind) → BoxCodec (Value k)
codec stts = stts_codec
codec stsc = stsc_codec
codec stco = stco_codec
codec co64 = co64_codec
codec stss = stss_codec
codec stdp = stdp_codec
codec ctts = ctts_codec
codec stsz = stsz_codec
codec elst = elst_codec
codec cslg = cslg_codec
codec ftyp = ftyp_codec
codec styp = styp_codec
codec free = free_codec
codec skip = skip_codec
codec mdat = mdat_codec
codec mfhd = mfhd_codec
codec mehd = mehd_codec
codec tfdt = tfdt_codec
codec prft = prft_codec
codec mdhd = mdhd_codec
codec mvhd = mvhd_codec
codec tkhd = tkhd_codec
codec pasp = pasp_codec
codec btrt = btrt_codec
codec clli = clli_codec
codec amve = amve_codec
codec clap = clap_codec
codec mfro = mfro_codec
codec srat = srat_codec
codec trpy = trpy_codec
codec nump = nump_codec
codec tpyl = tpyl_codec
codec totl = totl_codec
codec npck = npck_codec
codec tpay = tpay_codec
codec dmed = dmed_codec
codec dimm = dimm_codec
codec drep = drep_codec
codec tmin = tmin_codec
codec tmax = tmax_codec
codec pmax = pmax_codec
codec dmax = dmax_codec

-- A list that a count of 32 bits counts, of values that satisfy the predicate.
abbrev pub Counted {ℓ} : {A : Type ℓ} → (A → Type 0) → List A → Type 0
Counted P xs = All P xs × IsU32 (length xs)

abbrev pub IsBrand : FourCc → Type 0
IsBrand brand = length brand.bytes ≡ 4

abbrev pub IsBrands : GeneralType → Type 0
IsBrands x = IsBrand x.major_brand × (IsU32 x.minor_version × Counted IsBrand x.compatible_brands)

abbrev pub IsSizes : SampleSizes → Type 0
IsSizes (constant sample_size sample_count) =
    (0 < sample_size) × (IsU32 sample_size × IsU32 sample_count)
IsSizes (table entry_sizes) = Counted IsU32 entry_sizes

-- The values that the source's struct has and that its encoder does not refuse.
abbrev pub IsValue : (k : BoxKind) → Value k → Type 0
IsValue stts xs = Counted IsTimeToSample xs
IsValue stsc xs = Counted IsSampleToChunk xs
IsValue stco xs = Counted IsU32 xs
IsValue co64 xs = Counted IsU64 xs
IsValue stss xs = Counted IsU32 xs
IsValue stdp xs = Counted IsU16 xs
IsValue ctts x = IsVersion x.version × Counted (IsComposition x.version) x.entries
IsValue stsz x = IsSizes x
IsValue elst x = IsVersion x.version × Counted (IsEdit x.version) x.entries
IsValue cslg x = IsVersion x.version × All IsField (cslg_fields x)
IsValue ftyp x = IsBrands x
IsValue styp x = IsBrands x
IsValue free xs = length xs + 32 < 2 ^ 64
IsValue skip xs = length xs + 32 < 2 ^ 64
IsValue mdat xs = length xs + 32 < 2 ^ 64
IsValue mfhd x = All IsField (mfhd_fields x)
IsValue mehd x = IsVersion x.version × All IsField (mehd_fields x)
IsValue tfdt x = IsVersion x.version × All IsField (tfdt_fields x)
IsValue prft x = IsVersion x.version × (IsFlags x.flags × All IsField (prft_fields x))
IsValue mdhd x = IsMediaHeader x
IsValue mvhd x = IsMovieHeader x
IsValue tkhd x = IsTrackHeader x
IsValue pasp x = All IsField (pasp_fields x)
IsValue btrt x = All IsField (btrt_fields x)
IsValue clli x = All IsField (clli_fields x)
IsValue amve x = All IsField (amve_fields x)
IsValue clap x = All IsField (clap_fields x)
IsValue mfro x = All IsField (mfro_fields x)
IsValue srat x = All IsField (srat_fields x)
IsValue trpy x = IsU64 x
IsValue nump x = IsU64 x
IsValue tpyl x = IsU64 x
IsValue totl x = IsU32 x
IsValue npck x = IsU32 x
IsValue tpay x = IsU32 x
IsValue dmed x = IsU64 x
IsValue dimm x = IsU64 x
IsValue drep x = IsU64 x
IsValue tmin x = InRange (2 ^ 31) x
IsValue tmax x = InRange (2 ^ 31) x
IsValue pmax x = IsU32 x
IsValue dmax x = IsU32 x
