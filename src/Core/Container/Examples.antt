-- ===== src/Core/Container/Examples.antt =====
-- Concrete children, and the theorems about containers at concrete inputs.
use isobmff_rs.Common.{◌≡◌, if◌then◌else◌, is_empty, List, [], ◌∷◌, refl, arith, All}
use isobmff_rs.Common.Bytes.{IsByte, to_be_bytes}
use isobmff_rs.Common.Result.{ok, err, unwrap_or}
use isobmff_rs.Core.Error.{error, missing_mandatory_box, duplicate_box}
use isobmff_rs.Core.BoxHeader.{payload_len}
use isobmff_rs.Core.Fixtures.{free_header, free_header-IsHeader}
use isobmff_rs.Core.RawBox.{RawBox}
use isobmff_rs.Core.RawBox.Iteration.{bytes_of, AreFramed}
use isobmff_rs.Core.Container.{
  decode_children, child_reader, position_of_at_most_one_of, claimed, take_zero_or_one,
  take_zero_or_more, take_one_or_more_if_decoded,
}
use isobmff_rs.Core.Container.Children.{decode_children-eq-ok, decode_children-bytes_of}
use isobmff_rs.Core.Container.Single.{Takes, take_zero_or_one-Takes}
use isobmff_rs.Core.Container.Repeated.{
  of_type, of_others, decode_all, take_zero_or_more_lem, unread, readable, first_failure,
  take_one_or_more_if_decoded_lem,
}
use isobmff_rs.Core.Codec.{decode_payload}
use isobmff_rs.Core.Field.{take_remainder}
use isobmff_rs.Boxes.Types.{free_codec}

abbrev free_box : RawBox
free_box = record { header = free_header; payload = 1 ∷ 2 ∷ [] }

abbrev children : List RawBox
children = free_box ∷ free_box ∷ []

children-AreFramed : AreFramed children
unfolding payload_len
children-AreFramed = (
  record { headed = free_header-IsHeader; spans = refl },
  (record { headed = free_header-IsHeader; spans = refl }, tt),
)

decode_children-bytes_of_example : decode_children (bytes_of children) ≡ ok children
decode_children-bytes_of_example = decode_children-bytes_of children children-AreFramed

children_bytes : All IsByte (bytes_of children)
unfolding to_be_bytes
children_bytes = omega arith

decode_children-eq-ok_example : AreFramed children × (bytes_of children ≡ bytes_of children)
decode_children-eq-ok_example =
    decode_children-eq-ok (bytes_of children) children children_bytes
      (decode_children-bytes_of children children-AreFramed)

take_zero_or_one-Takes_example :
    Takes (child_reader free_codec) children (take_zero_or_one (child_reader free_codec) children)
take_zero_or_one-Takes_example = take_zero_or_one-Takes (child_reader free_codec) children

take_zero_or_more_lem_example :
    take_zero_or_more free_codec children
    ≡ (of_others free_codec children, decode_all free_codec (of_type free_codec children))
take_zero_or_more_lem_example = take_zero_or_more_lem free_codec children

take_one_or_more_if_decoded_lem_example : take_one_or_more_if_decoded free_codec children ≡ (
  unread free_codec children,
  if is_empty (readable free_codec children)
      then err (
          unwrap_or
            (first_failure free_codec children)
            (error (missing_mandatory_box free_codec.box_type)))
      else ok (readable free_codec children),
)
take_one_or_more_if_decoded_lem_example = take_one_or_more_if_decoded_lem free_codec children

-- The two boxes are read, none is left, and neither is taken where at most one may be.
both : take_zero_or_more free_codec children ≡ ([], ok ((1 ∷ 2 ∷ []) ∷ (1 ∷ 2 ∷ []) ∷ []))
unfolding take_zero_or_more decode_payload take_remainder
both = refl

neither :
    take_zero_or_one (child_reader free_codec) children
    ≡ (children, err (error (duplicate_box free_codec.box_type)))
unfolding take_zero_or_one position_of_at_most_one_of claimed
neither = refl
