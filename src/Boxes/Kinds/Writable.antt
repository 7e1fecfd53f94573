-- ===== src/Boxes/Kinds/Writable.antt =====
-- The types of the boxes of the model, in headers that are written.
use isobmff_rs.Common.{◌≡◌, refl, arith, none}
use isobmff_rs.Common.Result.{ok}
use isobmff_rs.Core.BoxType.{BoxType, IsBoxType}
use isobmff_rs.Core.BoxHeader.{writable_type}
use isobmff_rs.Core.Codec.RoundTrip.{IsWritableType}
use isobmff_rs.Boxes.Kinds.{
  BoxKind, stts, stsc, stco, co64, stss, stdp, ctts, stsz, elst, cslg, ftyp, styp, free, skip, mdat,
  mfhd, mehd, tfdt, prft, mdhd, mvhd, tkhd, pasp, btrt, clli, amve, clap, mfro, srat, trpy, nump,
  tpyl, totl, npck, tpay, dmed, dimm, drep, tmin, tmax, pmax, dmax, codec,
}

writable_compact : (t : BoxType) → IsBoxType t → writable_type t ≡ ok none → IsWritableType t
writable_compact t typed writable = record { typed = typed; uuid = none; writable = writable }

-- The type of every kind is a compact one, which any header may be written with.
pub box_type-IsWritableType : (k : BoxKind) → IsWritableType (codec k).box_type
box_type-IsWritableType stts = writable_compact _ ((refl, omega arith), refl) refl
box_type-IsWritableType stsc = writable_compact _ ((refl, omega arith), refl) refl
box_type-IsWritableType stco = writable_compact _ ((refl, omega arith), refl) refl
box_type-IsWritableType co64 = writable_compact _ ((refl, omega arith), refl) refl
box_type-IsWritableType stss = writable_compact _ ((refl, omega arith), refl) refl
box_type-IsWritableType stdp = writable_compact _ ((refl, omega arith), refl) refl
box_type-IsWritableType ctts = writable_compact _ ((refl, omega arith), refl) refl
box_type-IsWritableType stsz = writable_compact _ ((refl, omega arith), refl) refl
box_type-IsWritableType elst = writable_compact _ ((refl, omega arith), refl) refl
box_type-IsWritableType cslg = writable_compact _ ((refl, omega arith), refl) refl
box_type-IsWritableType ftyp = writable_compact _ ((refl, omega arith), refl) refl
box_type-IsWritableType styp = writable_compact _ ((refl, omega arith), refl) refl
box_type-IsWritableType free = writable_compact _ ((refl, omega arith), refl) refl
box_type-IsWritableType skip = writable_compact _ ((refl, omega arith), refl) refl
box_type-IsWritableType mdat = writable_compact _ ((refl, omega arith), refl) refl
box_type-IsWritableType mfhd = writable_compact _ ((refl, omega arith), refl) refl
box_type-IsWritableType mehd = writable_compact _ ((refl, omega arith), refl) refl
box_type-IsWritableType tfdt = writable_compact _ ((refl, omega arith), refl) refl
box_type-IsWritableType prft = writable_compact _ ((refl, omega arith), refl) refl
box_type-IsWritableType mdhd = writable_compact _ ((refl, omega arith), refl) refl
box_type-IsWritableType mvhd = writable_compact _ ((refl, omega arith), refl) refl
box_type-IsWritableType tkhd = writable_compact _ ((refl, omega arith), refl) refl
box_type-IsWritableType pasp = writable_compact _ ((refl, omega arith), refl) refl
box_type-IsWritableType btrt = writable_compact _ ((refl, omega arith), refl) refl
box_type-IsWritableType clli = writable_compact _ ((refl, omega arith), refl) refl
box_type-IsWritableType amve = writable_compact _ ((refl, omega arith), refl) refl
box_type-IsWritableType clap = writable_compact _ ((refl, omega arith), refl) refl
box_type-IsWritableType mfro = writable_compact _ ((refl, omega arith), refl) refl
box_type-IsWritableType srat = writable_compact _ ((refl, omega arith), refl) refl
box_type-IsWritableType trpy = writable_compact _ ((refl, omega arith), refl) refl
box_type-IsWritableType nump = writable_compact _ ((refl, omega arith), refl) refl
box_type-IsWritableType tpyl = writable_compact _ ((refl, omega arith), refl) refl
box_type-IsWritableType totl = writable_compact _ ((refl, omega arith), refl) refl
box_type-IsWritableType npck = writable_compact _ ((refl, omega arith), refl) refl
box_type-IsWritableType tpay = writable_compact _ ((refl, omega arith), refl) refl
box_type-IsWritableType dmed = writable_compact _ ((refl, omega arith), refl) refl
box_type-IsWritableType dimm = writable_compact _ ((refl, omega arith), refl) refl
box_type-IsWritableType drep = writable_compact _ ((refl, omega arith), refl) refl
box_type-IsWritableType tmin = writable_compact _ ((refl, omega arith), refl) refl
box_type-IsWritableType tmax = writable_compact _ ((refl, omega arith), refl) refl
box_type-IsWritableType pmax = writable_compact _ ((refl, omega arith), refl) refl
box_type-IsWritableType dmax = writable_compact _ ((refl, omega arith), refl) refl
