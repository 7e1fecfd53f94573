-- ===== src/Core/Container/Children.antt =====
-- Decoding the children of a container, against the boxes laid end to end in its payload.
use isobmff_rs.Common.{ℕ, ◌≡◌, List, [], ◌∷◌, refl, ap, ◌∙◌, All, map}
use isobmff_rs.Common.Bytes.{IsByte}
use isobmff_rs.Common.Result.{Result, ok, err, ◌>>=◌}
use isobmff_rs.Core.Error.{Error}
use isobmff_rs.Core.RawBox.{RawBox, boxes}
use isobmff_rs.Core.RawBox.Iteration.{bytes_of, AreFramed, boxes-bytes_of, boxes_complete}
use isobmff_rs.Core.Container.{count_boxes, flatten, decode_children}

count_boxes_sound :
    (items : List (Result Error RawBox)) (n m : ℕ)
    → count_boxes n items ≡ ok m
    → items ≡ map ok (flatten items)
unfolding count_boxes flatten
count_boxes_sound [] n m e = refl
count_boxes_sound (err x ∷ items) n m e = absurd (cc)
count_boxes_sound (ok b ∷ items) n m e = ap (λ t. ok b ∷ t) (count_boxes_sound items _ m e)

flatten-map_ok : (bs : List RawBox) → flatten (map ok bs) ≡ bs
unfolding flatten
flatten-map_ok [] = refl
flatten-map_ok (b ∷ bs) = ap (λ t. b ∷ t) (flatten-map_ok bs)

count_boxes_total : (bs : List RawBox) (n : ℕ) → (m : ℕ) × (count_boxes n (map ok bs) ≡ ok m)
unfolding count_boxes
count_boxes_total [] n = (n, refl)
count_boxes_total (b ∷ bs) n = count_boxes_total bs _

counted_children :
    (r : Result Error ℕ) (all bs : List RawBox)
    → (r >>= λ _. ok all) ≡ ok bs
    → (n : ℕ) × (r ≡ ok n) × (all ≡ bs)
counted_children (ok n) all bs e = (n, refl, cc)
counted_children (err x) all bs e = absurd (cc)

-- The children that a payload of bytes decodes as are boxes framed as their headers say, and their
-- bytes, end to end, are the payload.
pub decode_children-eq-ok :
    (payload : List ℕ) (bs : List RawBox)
    → All IsByte payload
    → decode_children payload ≡ ok bs
    → AreFramed bs × (payload ≡ bytes_of bs)
unfolding decode_children
decode_children-eq-ok payload bs bytes e =
    let (n, en, eb) =
      counted_children (count_boxes 0 (boxes payload)) (flatten (boxes payload)) bs e in
    boxes_complete payload bs bytes (count_boxes_sound (boxes payload) 0 n en ∙ ap (map ok) eb)

-- Boxes laid end to end, each framed as its header says, are the children that their bytes decode as.
pub decode_children-bytes_of :
    (bs : List RawBox) → AreFramed bs → decode_children (bytes_of bs) ≡ ok bs
unfolding decode_children
decode_children-bytes_of bs f =
    let (m, e) = count_boxes_total bs 0 in rw (boxes-bytes_of bs f, e, flatten-map_ok bs) refl
