-- ===== src/Core/FourCc.antt =====
-- crates/isobmff-core/src/data_types/fourcc.rs and uuid.rs: names of four and of sixteen bytes.
use isobmff_rs.Common.{ℕ, Bool, List, bytes_eq, ◌≡◌, true, ap}
use isobmff_rs.Common.Bytes.{IsArray}
use isobmff_rs.Common.{bytes_eq→eq}

pub record FourCc : Type 0 where
  pub bytes : List ℕ

pub record Uuid : Type 0 where
  pub bytes : List ℕ

-- The arrays have their lengths.
abbrev pub IsFourCc : FourCc → Type 0
IsFourCc code = IsArray 4 code.bytes

abbrev pub IsUuid : Uuid → Type 0
IsUuid uuid = IsArray 16 uuid.bytes

abbrev pub four_cc_eq : FourCc → FourCc → Bool
four_cc_eq a b = bytes_eq a.bytes b.bytes

abbrev pub uuid_eq : Uuid → Uuid → Bool
uuid_eq a b = bytes_eq a.bytes b.bytes

pub four_cc_eq→eq : (a b : FourCc) → four_cc_eq a b ≡ true → a ≡ b
four_cc_eq→eq a b h =
    ap (λ (t : List ℕ). let c : FourCc = record { bytes = t } in c) (bytes_eq→eq a.bytes b.bytes h)

pub uuid_eq→eq : (a b : Uuid) → uuid_eq a b ≡ true → a ≡ b
uuid_eq→eq a b h =
    ap (λ (t : List ℕ). let c : Uuid = record { bytes = t } in c) (bytes_eq→eq a.bytes b.bytes h)
