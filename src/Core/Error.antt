-- ===== src/Core/Error.antt =====
-- crates/isobmff-core/src/error.rs: why boxes are not read or written, and through which containers.
use Prim.Native.String.{String}
use isobmff_rs.Common.{ℕ, List, [], ◌∷◌, Bool, true, false, Option, none, some, replicate}
use mathlib.Core.List.{reverse, filter_map}
use isobmff_rs.Core.FourCc.{FourCc}
use isobmff_rs.Core.BoxType.{BoxType, four_cc}

-- `field` and `variants` are constants of the source.
pub data ErrorKind : Type 0 where
  truncated_header : ℕ → ℕ → ErrorKind
  size_below_header : ℕ → ℕ → ErrorKind
  truncated_box : ℕ → ℕ → ErrorKind
  box_type_mismatch : BoxType → BoxType → ErrorKind
  truncated_payload : ℕ → ℕ → ErrorKind
  missing_mandatory_box : BoxType → ErrorKind
  duplicate_box : BoxType → ErrorKind
  forbidden_child_box : BoxType → ErrorKind
  missing_variant_box : List BoxType → ErrorKind
  duplicate_variant_box : List BoxType → ErrorKind
  invalid_value : String → ErrorKind
  invalid_utf8_string : ErrorKind
  invalid_utf_string : ErrorKind
  invalid_base64_string : ErrorKind
  entry_count_mismatch : ℕ → ℕ → ErrorKind
  unsupported_box : BoxType → ErrorKind
  unsupported_version : ℕ → ErrorKind
  unsupported_flags : ℕ → ErrorKind
  unsupported_value : String → ErrorKind
  truncated_buffer : ℕ → ℕ → ErrorKind
  trailing_buffer : ℕ → ℕ → ErrorKind
  buffer_length_mismatch : ℕ → ℕ → ErrorKind
  out_of_range : ℕ → ℕ → ErrorKind

pub data Category : Type 0 where
  malformed unsupported usage : Category

abbrev pub container_depth : ℕ
container_depth = 8

pub record Error : Type 0 where
  pub kind : ErrorKind
  pub containers : List (Option FourCc)
  pub dropped_containers : Bool

-- `Error::new`
abbrev pub error : ErrorKind → Error
error k = record {
  kind = k;
  containers = replicate container_depth none;
  dropped_containers = false;
}

-- Puts the code in the first slot that is free; `none` where there is no such slot.
fill_slot : FourCc → List (Option FourCc) → Option (List (Option FourCc))
fill_slot code [] = none
fill_slot code (none ∷ slots) = some (some code ∷ slots)
fill_slot code (some c ∷ slots) = elim (fill_slot code slots) [
  | none ↦ none
  | some slots' ↦ some (some c ∷ slots')
]

unfoldable pub in_container : Error → BoxType → Error
unfolding fill_slot
in_container e container = elim (fill_slot (four_cc container) e.containers) [
  | none ↦ record e { dropped_containers = true }
  | some slots ↦ record e { containers = slots }
]

-- `Error::containers`: outermost first
unfoldable pub containers : Error → List FourCc
containers e = filter_map (λ slot. slot) (reverse e.containers)

-- `ErrorKind::category`
unfoldable pub category : ErrorKind → Category
category (unsupported_box _) = unsupported
category (unsupported_version _) = unsupported
category (unsupported_flags _) = unsupported
category (unsupported_value _) = unsupported
category (truncated_buffer _ _) = usage
category (trailing_buffer _ _) = usage
category (buffer_length_mismatch _ _) = usage
category (out_of_range _ _) = usage
category _ = malformed
