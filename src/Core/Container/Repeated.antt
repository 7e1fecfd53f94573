-- ===== src/Core/Container/Repeated.antt =====
-- Taking the children of one type, against the children of the type and the children of the others.
use isobmff_rs.Common.{
  ◌≡◌, if◌then◌else◌, Option, none, some, List, [], ◌∷◌, ◌++◌, refl, sym, ap, ◌∙◌, inl, inr,
  Bool-cases, append_assoc, append-nil, is_empty,
}
use isobmff_rs.Common.Result.{Result, ok, err, Result-cases, or_else, unwrap_or, ◌>>=◌}
use isobmff_rs.Core.Error.{Error, error, missing_mandatory_box}
use isobmff_rs.Core.RawBox.{RawBox}
use isobmff_rs.Core.Codec.{BoxCodec}
use isobmff_rs.Core.Container.{
  decode_child, is_of_type, read_claimed, retain_other, unless_failed, take_zero_or_more,
  retain_unread, take_one_or_more_if_decoded,
}

pair_lem : {A B : Type 0} {a a' : A} {b b' : B} → a ≡ a' → b ≡ b' → ◌≡◌ {A = A × B} (a, b) (a', b')
pair_lem p q = cc

module _ {A : Type 0} (c : BoxCodec A) where
  -- The children of the type, and the others, in their order.
  abbrev pub of_type : List RawBox → List RawBox
  of_type [] = []
  of_type (child ∷ children) =
      if is_of_type c child then child ∷ of_type children else of_type children

  abbrev pub of_others : List RawBox → List RawBox
  of_others [] = []
  of_others (child ∷ children) =
      if is_of_type c child then of_others children else child ∷ of_others children

  -- Decodes the children one after the other, up to the first that fails.
  abbrev pub decode_all : List RawBox → Result Error (List A)
  decode_all [] = ok []
  decode_all (child ∷ children) = do
    value ← decode_child c child
    values ← decode_all children
    ok (value ∷ values)

  retained :
      (children : List RawBox) (read : List A) (failure : Option Error)
      → (retain_other c children read failure).0 ≡ of_others children
  unfolding retain_other
  retained [] read failure = refl
  retained (child ∷ children) read failure = elim (Bool-cases (is_of_type c child)) [
    | inl same ↦ rw same (retained children _ _)
    | inr differs ↦ rw differs (ap (λ t. child ∷ t) (retained children read failure))
  ]

  -- After a failure nothing more is read.
  read_failed :
      (children : List RawBox) (read : List A) (e : Error)
      → (retain_other c children read (some e)).1 ≡ (read, some e)
  unfolding retain_other read_claimed
  read_failed [] read e = refl
  read_failed (child ∷ children) read e = elim (Bool-cases (is_of_type c child)) [
    | inl same ↦ rw same (read_failed children read e)
    | inr differs ↦ rw differs (read_failed children read e)
  ]

  -- What a call returns, from the values and the failure that it ends with.
  abbrev outcome : List A × Option Error → Result Error (List A)
  outcome (read, failure) = unless_failed c read failure

  read_rest :
      (r : Result Error (List A)) (read : List A) (value : A)
      → (r >>= λ values. ok ((read ++ value ∷ []) ++ values))
        ≡ (r >>= λ values. ok (value ∷ values)) >>= λ values. ok (read ++ values)
  read_rest (ok values) read value = ap ok (append_assoc read (value ∷ []) values)
  read_rest (err e) read value = refl

  read_of_type :
      (children : List RawBox) (read : List A)
      → outcome (retain_other c children read none).1
        ≡ decode_all (of_type children) >>= λ values. ok (read ++ values)
  unfolding retain_other read_claimed
  read_of_type [] read = ap ok (sym (append-nil read))
  read_of_type (child ∷ children) read = elim (Bool-cases (is_of_type c child)) [
    | inr differs ↦ rw differs (read_of_type children read)
    | inl same ↦ elim (Result-cases (decode_child c child)) [
      | inl (value, e) ↦
          rw (same, e)
            (read_of_type children (read ++ value ∷ [])
              ∙ read_rest (decode_all (of_type children)) read value)
      | inr (x, e) ↦ rw (same, e) (ap outcome (read_failed children read x))
    ]
  ]

  read_none : (r : Result Error (List A)) → (r >>= λ values. ok ([] ++ values)) ≡ r
  read_none (ok values) = refl
  read_none (err e) = refl

  -- `take_zero_or_more` leaves the children of the other types, in their order, whatever it returns;
  -- and it returns the values of the children of the type, in their order, or the failure of the
  -- first of them that does not decode.
  pub take_zero_or_more_lem :
      (children : List RawBox)
      → take_zero_or_more c children ≡ (of_others children, decode_all (of_type children))
  unfolding take_zero_or_more
  take_zero_or_more_lem children =
      pair_lem (retained children [] none)
        (read_of_type children [] ∙ read_none (decode_all (of_type children)))

  -- The children that stay where only those that decode are taken, the values of those that are
  -- taken, and the failure of the first of the type that stays.
  abbrev pub unread : List RawBox → List RawBox
  unread [] = []
  unread (child ∷ children) =
      if is_of_type c child
      then (elim (decode_child c child) [
        | ok value ↦ unread children
        | err e ↦ child ∷ unread children
      ])
      else child ∷ unread children

  abbrev pub readable : List RawBox → List A
  readable [] = []
  readable (child ∷ children) =
      if is_of_type c child
      then (elim (decode_child c child) [
        | ok value ↦ value ∷ readable children
        | err e ↦ readable children
      ])
      else readable children

  abbrev pub first_failure : List RawBox → Option Error
  first_failure [] = none
  first_failure (child ∷ children) =
      if is_of_type c child
      then (elim (decode_child c child) [ ok value ↦ first_failure children | err e ↦ some e ])
      else first_failure children

  first_kept :
      (child : RawBox) (children : List RawBox) (read : List A) (failure : Option Error) (x : Error)
      → ◌≡◌ {A = List RawBox × (List A × Option Error)}
          (
            child ∷ unread children,
            (
              read ++ readable children,
              or_else (some (unwrap_or failure x)) (first_failure children),
            ),
          )
          (child ∷ unread children, (read ++ readable children, or_else failure (some x)))
  first_kept child children read none x = refl
  first_kept child children read (some e) x = refl

  unread_lem :
      (children : List RawBox) (read : List A) (failure : Option Error)
      → retain_unread c children read failure
        ≡ (unread children, (read ++ readable children, or_else failure (first_failure children)))
  unfolding retain_unread
  unread_lem [] read none = rw (append-nil read) refl
  unread_lem [] read (some e) = rw (append-nil read) refl
  unread_lem (child ∷ children) read failure = elim (Bool-cases (is_of_type c child)) [
    | inr differs ↦ rw (differs, unread_lem children read failure) refl
    | inl same ↦ elim (Result-cases (decode_child c child)) [
      | inl (value, e) ↦
          rw
            (
              same,
              e,
              unread_lem children (read ++ value ∷ []) failure,
              append_assoc read (value ∷ []) (readable children),
            )
            refl
      | inr (x, e) ↦
          rw (same, e, unread_lem children read (some (unwrap_or failure x)))
            (first_kept child children read failure x)
    ]
  ]

  -- `take_one_or_more_if_decoded` leaves the children that are not of the type or do not decode, in
  -- their order, and returns the values of the others; or, where there is no such value, the failure
  -- of the first child of the type, and without one that the box is missing.
  pub take_one_or_more_if_decoded_lem :
      (children : List RawBox)
      → take_one_or_more_if_decoded c children ≡ (
        unread children,
        if is_empty (readable children)
            then err (unwrap_or (first_failure children) (error (missing_mandatory_box c.box_type)))
            else ok (readable children),
      )
  unfolding take_one_or_more_if_decoded
  take_one_or_more_if_decoded_lem children = rw (unread_lem children [] none) refl
