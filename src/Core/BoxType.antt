-- ===== src/Core/BoxType.antt =====
-- crates/isobmff-core/src/framing/box_type.rs: the type that a box header declares.
use Prim.Native.Nat.{bit_and}
use isobmff_rs.Common.{ℕ, ◌≡◌, Bool, true, false, Option, none, some, [], ◌∷◌, ap}
use isobmff_rs.Common.{arith, ◌==◌, bytes_eq_refl, if◌then◌else◌}
use isobmff_rs.Common.Bytes.{from_be_bytes}
use isobmff_rs.Core.FourCc.{FourCc, Uuid, IsFourCc, IsUuid, four_cc_eq, uuid_eq}
use isobmff_rs.Core.FourCc.{four_cc_eq→eq, uuid_eq→eq}

-- b"uuid"
abbrev pub extended_marker : FourCc
extended_marker = record { bytes = b'u' ∷ b'u' ∷ b'i' ∷ b'd' ∷ [] }

abbrev pub reserved_mask : ℕ
reserved_mask = 0x0000_0000_FFFF_FFFF_FFFF_FFFF_FFFF_FFFF

abbrev pub reserved_suffix : ℕ
reserved_suffix = 0x0000_0000_0011_0010_8000_00AA_0038_9B71

pub record CompactType : Type 0 where
  pub four_cc : FourCc

pub record ExtendedType : Type 0 where
  pub uuid : Uuid

pub data BoxType : Type 0 where
  compact : CompactType → BoxType
  extended : ExtendedType → BoxType

-- `CompactType::new`
unfoldable pub compact_type : FourCc → Option CompactType
compact_type code =
    if four_cc_eq code extended_marker then none else some (record { four_cc = code })

unfoldable pub maps_a_compact_type : Uuid → Bool
maps_a_compact_type uuid = bit_and (from_be_bytes uuid.bytes) reserved_mask == reserved_suffix

-- `ExtendedType::new`
unfoldable pub extended_type : Uuid → Option ExtendedType
extended_type uuid = if maps_a_compact_type uuid then none else some (record { uuid = uuid })

-- `ExtendedType::as_found`
abbrev pub as_found : Uuid → ExtendedType
as_found uuid = record { uuid = uuid }

-- `BoxType::four_cc`
abbrev pub four_cc : BoxType → FourCc
four_cc (BoxType.compact c) = c.four_cc
four_cc (BoxType.extended _) = extended_marker

-- `==`
abbrev pub box_type_eq : BoxType → BoxType → Bool
box_type_eq (BoxType.compact a) (BoxType.compact b) = four_cc_eq a.four_cc b.four_cc
box_type_eq (BoxType.compact a) (BoxType.extended b) = false
box_type_eq (BoxType.extended a) (BoxType.compact b) = false
box_type_eq (BoxType.extended a) (BoxType.extended b) = uuid_eq a.uuid b.uuid

-- A value of the type: the arrays have their lengths, and a compact type is not the marker.
abbrev pub IsBoxType : BoxType → Type 0
IsBoxType (BoxType.compact c) = IsFourCc c.four_cc × (four_cc_eq c.four_cc extended_marker ≡ false)
IsBoxType (BoxType.extended e) = IsUuid e.uuid

pub box_type_eq→eq : (a b : BoxType) → box_type_eq a b ≡ true → a ≡ b
box_type_eq→eq (BoxType.compact a) (BoxType.compact b) h =
    ap (λ (t : FourCc). BoxType.compact (record { four_cc = t }))
      (four_cc_eq→eq a.four_cc b.four_cc h)
box_type_eq→eq (BoxType.compact a) (BoxType.extended b) h = ground arith
box_type_eq→eq (BoxType.extended a) (BoxType.compact b) h = ground arith
box_type_eq→eq (BoxType.extended a) (BoxType.extended b) h =
    ap (λ (t : Uuid). BoxType.extended (record { uuid = t })) (uuid_eq→eq a.uuid b.uuid h)

pub box_type_eq_refl : (a : BoxType) → box_type_eq a a ≡ true
box_type_eq_refl (BoxType.compact a) = bytes_eq_refl a.four_cc.bytes
box_type_eq_refl (BoxType.extended a) = bytes_eq_refl a.uuid.bytes
