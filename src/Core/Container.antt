-- ===== src/Core/Container.antt =====
-- crates/isobmff-core/src/container.rs: the boxes in the payload of a container, taken type by type.
pub mod Children
pub mod Single
pub mod Repeated
mod Examples
use isobmff_rs.Common.{
  ℕ, zero, suc, ◌+◌, Bool, true, false, ◌&&◌, not, if◌then◌else◌, Option, none, some, List, [], ◌∷◌,
  ◌++◌, is_empty,
}
use isobmff_rs.Common.Words.{saturating_add}
use isobmff_rs.Common.Result.{
  Result, ok, err, map_err, to_option, ok_or, ◌>>=◌, unwrap_or, and_then,
}
use isobmff_rs.Core.BoxType.{BoxType, box_type_eq}
use isobmff_rs.Core.Error.{
  Error, error, in_container, missing_mandatory_box, missing_variant_box, duplicate_box,
  duplicate_variant_box,
}
use isobmff_rs.Core.RawBox.{RawBox, boxes}
use isobmff_rs.Core.Codec.{BoxCodec, decode_payload}

-- A call that takes from the children: those that it leaves, and what it returns.
abbrev pub Taking : Type 0 → Type 0
Taking A = List RawBox × Result Error A

-- `try_fold`: how many items there are, up to the first that failed
unfoldable pub count_boxes : ℕ → List (Result Error RawBox) → Result Error ℕ
count_boxes count [] = ok count
count_boxes count (err e ∷ items) = err e
count_boxes count (ok b ∷ items) = count_boxes (saturating_add count 1) items

-- `flatten`
unfoldable pub flatten : List (Result Error RawBox) → List RawBox
flatten [] = []
flatten (err e ∷ items) = flatten items
flatten (ok b ∷ items) = b ∷ flatten items

-- `ChildBoxes::decode`: the children
unfoldable pub decode_children : List ℕ → Result Error (List RawBox)
decode_children payload = do _ ← count_boxes 0 (boxes payload); ok (flatten (boxes payload))

-- `box_types.contains(&child.header().box_type())`
abbrev pub is_among : List BoxType → RawBox → Bool
is_among [] child = false
is_among (t ∷ ts) child = if box_type_eq t child.header.box_type then true else is_among ts child

-- The children of the types, each with its position, counted from the one given.
unfoldable pub claimed : List BoxType → ℕ → List RawBox → List (ℕ × RawBox)
claimed types n [] = []
claimed types n (child ∷ children) =
    let rest = claimed types (suc n) children in
    if is_among types child then (n, child) ∷ rest else rest

-- `claimed.all(…)`
abbrev pub all_of_type : BoxType → List (ℕ × RawBox) → Bool
all_of_type t [] = true
all_of_type t ((_, other) ∷ rest) = box_type_eq other.header.box_type t && all_of_type t rest

-- The match of `position_of_at_most_one_of`, on the children that are claimed.
abbrev pub at_most_one : List BoxType → List (ℕ × RawBox) → Result Error (Option ℕ)
at_most_one types [] = ok none
at_most_one types ((position, first) ∷ []) = ok (some position)
at_most_one types ((position, first) ∷ (second ∷ rest)) =
    let t = first.header.box_type in
    if all_of_type t (second ∷ rest)
    then err (error (duplicate_box t))
    else err (error (duplicate_variant_box types))

-- `position_of_at_most_one_of`
unfoldable pub position_of_at_most_one_of : List BoxType → List RawBox → Result Error (Option ℕ)
position_of_at_most_one_of types children = at_most_one types (claimed types 0 children)

-- `children.get(position)`, and `children.remove(position)` where there is such a child
abbrev pub get : List RawBox → ℕ → Option RawBox
get [] n = none
get (child ∷ children) zero = some child
get (child ∷ children) (suc n) = get children n

abbrev pub remove : List RawBox → ℕ → List RawBox
remove [] n = []
remove (child ∷ children) zero = children
remove (child ∷ children) (suc n) = child ∷ remove children n

-- What reads a child: the boxes of one type, or of the variants of `BoxVariants`.
pub record Reader (A : Type 0) : Type 0 where
  pub types : List BoxType
  pub read : RawBox → Result Error A

module _ {A : Type 0} (c : BoxCodec A) where
  -- `decode`
  abbrev pub decode_child : RawBox → Result Error A
  decode_child child = map_err (λ e. in_container e c.box_type) (decode_payload c child.payload)

  -- `child.header().box_type() == Child::BOX_TYPE`
  abbrev pub is_of_type : RawBox → Bool
  is_of_type child = box_type_eq child.header.box_type c.box_type

  -- `contains`
  unfoldable pub contains : List RawBox → Bool
  contains [] = false
  contains (child ∷ children) = if is_of_type child then true else contains children

  abbrev pub child_reader : Reader A
  child_reader = record { types = c.box_type ∷ []; read = decode_child }

-- `Variants::decode_variant`, its failure in the container of the child's type
abbrev pub variant_reader : {A : Type 0} → List BoxType → (RawBox → Result Error A) → Reader A
variant_reader variants decode_variant = record {
  types = variants;
  read = λ child. map_err (λ e. in_container e child.header.box_type) (decode_variant child);
}

module _ {A : Type 0} (reader : Reader A) where
  -- What is read of the child that is removed.
  take_read : List RawBox → ℕ → Option RawBox → Taking (Option A)
  take_read children position none = (children, ok none)
  take_read children position (some child) =
      (remove children position, reader.read child >>= λ value. ok (some value))

  -- `take_zero_or_one` and `take_zero_or_one_variant`
  unfoldable pub take_zero_or_one : List RawBox → Taking (Option A)
  unfolding take_read
  take_zero_or_one children = elim (position_of_at_most_one_of reader.types children) [
    | err e ↦ (children, err e)
    | ok none ↦ (children, ok none)
    | ok (some position) ↦ take_read children position (get children position)
  ]

  -- The child at the position, where it reads; and the children as they are, where it does not.
  take_if_read : List RawBox → ℕ → Option RawBox → Taking (Option A)
  take_if_read children position none = (children, ok none)
  take_if_read children position (some child) = elim (reader.read child) [
    | err e ↦ (children, ok none)
    | ok value ↦ (remove children position, ok (some value))
  ]

  -- `take_zero_or_one_if_decoded` and `take_zero_or_one_variant_if_decoded`
  unfoldable pub take_zero_or_one_if_decoded : List RawBox → Taking (Option A)
  unfolding take_if_read
  take_zero_or_one_if_decoded children = elim (position_of_at_most_one_of reader.types children) [
    | err e ↦ (children, err e)
    | ok none ↦ (children, ok none)
    | ok (some position) ↦ take_if_read children position (get children position)
  ]

  -- `ok_or_else` on what a call takes
  or_missing : Error → Taking (Option A) → Taking A
  or_missing missing (children, err e) = (children, err e)
  or_missing missing (children, ok none) = (children, err missing)
  or_missing missing (children, ok (some value)) = (children, ok value)

-- `take_exactly_one` and `take_exactly_one_variant`
unfoldable pub take_exactly_one : {A : Type 0} → BoxCodec A → List RawBox → Taking A
unfolding or_missing
take_exactly_one c children =
    or_missing (child_reader c) (error (missing_mandatory_box c.box_type))
      (take_zero_or_one (child_reader c) children)

unfoldable pub take_exactly_one_variant : {A : Type 0} → Reader A → List RawBox → Taking A
unfolding or_missing
take_exactly_one_variant reader children =
    or_missing reader (error (missing_variant_box reader.types)) (take_zero_or_one reader children)

module _ {A : Type 0} (c : BoxCodec A) where
  -- A turn of `retain` in `take_zero_or_more`: what is read so far, and the first failure.
  read_claimed : Option Error → List A → Result Error A → List A × Option Error
  read_claimed (some e) read result = (read, some e)
  read_claimed none read (ok value) = (read ++ value ∷ [], none)
  read_claimed none read (err e) = (read, some e)

  -- `retain`, with the two variables that it changes
  retain_other : List RawBox → List A → Option Error → List RawBox × (List A × Option Error)
  unfolding read_claimed
  retain_other [] read failure = ([], (read, failure))
  retain_other (child ∷ children) read failure =
      if is_of_type c child
      then (let step = read_claimed failure read (decode_child c child) in
          retain_other children step.0 step.1)
      else (let rest = retain_other children read failure in (child ∷ rest.0, rest.1))

  -- `failure.map_or(Ok(read), Err)`
  abbrev pub unless_failed : List A → Option Error → Result Error (List A)
  unless_failed read none = ok read
  unless_failed read (some e) = err e

  -- `take_zero_or_more`
  unfoldable pub take_zero_or_more : List RawBox → Taking (List A)
  unfolding retain_other
  take_zero_or_more children =
      let (left, (read, failure)) = retain_other children [] none in
      (left, unless_failed read failure)

  -- `take_one_or_more`
  unfoldable pub take_one_or_more : List RawBox → Taking (List A)
  take_one_or_more children =
      let (left, result) = take_zero_or_more children in
      (
        left,
        result >>= λ read.
            if is_empty read then err (error (missing_mandatory_box c.box_type)) else ok read,
      )

  -- `retain` in `take_one_or_more_if_decoded`
  retain_unread : List RawBox → List A → Option Error → List RawBox × (List A × Option Error)
  retain_unread [] read failure = ([], (read, failure))
  retain_unread (child ∷ children) read failure =
      if is_of_type c child
      then (elim (decode_child c child) [
        | ok value ↦ retain_unread children (read ++ value ∷ []) failure
        | err e ↦
            let rest = retain_unread children read (some (unwrap_or failure e)) in
            (child ∷ rest.0, rest.1)
      ])
      else (let rest = retain_unread children read failure in (child ∷ rest.0, rest.1))

  -- `take_one_or_more_if_decoded`
  unfoldable pub take_one_or_more_if_decoded : List RawBox → Taking (List A)
  unfolding retain_unread
  take_one_or_more_if_decoded children =
      let (left, (read, failure)) = retain_unread children [] none in
      (
        left,
        if is_empty read
            then err (unwrap_or failure (error (missing_mandatory_box c.box_type)))
            else ok read,
      )

  -- `take_zero_or_more_if_decoded`
  unfoldable pub take_zero_or_more_if_decoded : List RawBox → List RawBox × List A
  take_zero_or_more_if_decoded children =
      let (left, result) = take_one_or_more_if_decoded children in
      (left, unwrap_or (to_option result) [])
