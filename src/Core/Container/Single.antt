-- ===== src/Core/Container/Single.antt =====
-- Taking the one child of a type, or of the variants of a family.
use mathlib.Core.Path.{subst}
use isobmff_rs.Common.{
  ℕ, suc, ◌≡◌, ◌+◌, Bool, true, false, ◌&&◌, if◌then◌else◌, Option, none, some, List, [], ◌∷◌, ◌++◌,
  length, refl, sym, ap, ◌∙◌, arith, inl, inr, ◌⊎◌, Bool-cases, All,
}
use isobmff_rs.Common.Result.{ok, err, ◌>>=◌}
use isobmff_rs.Core.BoxType.{BoxType, box_type_eq}
use isobmff_rs.Core.Error.{error, duplicate_box, duplicate_variant_box}
use isobmff_rs.Core.RawBox.{RawBox}
use isobmff_rs.Core.Container.{
  Taking, Reader, is_among, claimed, all_of_type, position_of_at_most_one_of, get, remove,
  take_read, take_zero_or_one,
}

module _ (types : List BoxType) where
  -- No child is of one of the types.
  abbrev pub Unclaimed : List RawBox → Type 0
  Unclaimed children = All (λ child. is_among types child ≡ false) children

  -- The children are `child`, which is of one of the types, behind and before others; those behind
  -- it are of none.
  pub record First (children before : List RawBox) (child : RawBox) (after : List RawBox)
      : Type 0 where
    pub laid : children ≡ before ++ child ∷ after
    pub unclaimed : Unclaimed before
    pub claims : is_among types child ≡ true

  -- The children are of none of the types, or one of them is the first that is.
  pub find :
      (children : List RawBox) (n : ℕ)
      → (Unclaimed children × (claimed types n children ≡ []))
        ⊎ ((before : List RawBox) × (child : RawBox) × (after : List RawBox) × First children before
              child after
            × (claimed types n children
                ≡ (n + length before, child) ∷ claimed types (suc (n + length before)) after))
  unfolding claimed
  find [] n = inl (tt, refl)
  find (child ∷ children) n = elim (Bool-cases (is_among types child)) [
    | inl claims ↦
        let e : n + 0 ≡ n = omega arith in
        inr (
          [],
          child,
          children,
          record { laid = refl; unclaimed = tt; claims = claims },
          rw (claims, e) refl,
        )
    | inr other ↦ elim (find children (suc n)) [
      | inl (u, e) ↦ inl ((other, u), rw other e)
      | inr (before, first, after, f, e) ↦
          let len : suc n + length before ≡ n + suc (length before) = omega arith in
          inr (
            child ∷ before,
            first,
            after,
            record {
              laid = ap (λ t. child ∷ t) f.laid;
              unclaimed = (other, f.unclaimed);
              claims = f.claims;
            },
            rw other (e ∙ rw len refl),
          )
    ]
  ]

  -- Every child that is of one of the types is of the type.
  abbrev pub all_claimed_are : BoxType → List RawBox → Bool
  all_claimed_are t [] = true
  all_claimed_are t (child ∷ children) =
      if is_among types child
      then box_type_eq child.header.box_type t && all_claimed_are t children
      else all_claimed_are t children

  pub all_of_type-claimed :
      (t : BoxType) (children : List RawBox) (n : ℕ)
      → all_of_type t (claimed types n children) ≡ all_claimed_are t children
  unfolding claimed
  all_of_type-claimed t [] n = refl
  all_of_type-claimed t (child ∷ children) n = elim (Bool-cases (is_among types child)) [
    | inl claims ↦ rw claims (
        ap (λ b. box_type_eq child.header.box_type t && b) (all_of_type-claimed t children (suc n)))
    | inr other ↦ rw other (all_of_type-claimed t children (suc n))
  ]

get-append :
    (before : List RawBox) (child : RawBox) (after : List RawBox)
    → get (before ++ child ∷ after) (length before) ≡ some child
get-append [] child after = refl
get-append (b ∷ before) child after = get-append before child after

remove-append :
    (before : List RawBox) (child : RawBox) (after : List RawBox)
    → remove (before ++ child ∷ after) (length before) ≡ before ++ after
remove-append [] child after = refl
remove-append (b ∷ before) child after = ap (λ t. b ∷ t) (remove-append before child after)

module _ {A : Type 0} (reader : Reader A) where
  -- What taking at most one child comes to: there is none; there is one, which is removed and read;
  -- or there are several, which stay, with a failure that says whether they are of one type.
  pub data Takes (children : List RawBox) : Taking (Option A) → Type 0 where
    absent : Unclaimed reader.types children → Takes children (children, ok none)
    single :
        (before : List RawBox) (child : RawBox) (after : List RawBox)
        → First reader.types children before child after
        → Unclaimed reader.types after
        → Takes children (before ++ after, reader.read child >>= λ value. ok (some value))
    several :
        (before : List RawBox) (child : RawBox) (middle : List RawBox) (second : RawBox)
        (after : List RawBox)
        → First reader.types children before child (middle ++ second ∷ after)
        → First reader.types (middle ++ second ∷ after) middle second after
        → Takes children (
          children,
          if all_claimed_are reader.types child.header.box_type (middle ++ second ∷ after)
              then err (error (duplicate_box child.header.box_type))
              else err (error (duplicate_variant_box reader.types)),
        )

  take_absent :
      (children : List RawBox)
      → claimed reader.types 0 children ≡ []
      → take_zero_or_one reader children ≡ (children, ok none)
  unfolding take_zero_or_one position_of_at_most_one_of
  take_absent children e = rw (take_zero_or_one, e) refl

  take_single :
      (children before : List RawBox) (child : RawBox) (after : List RawBox)
      → children ≡ before ++ child ∷ after
      → claimed reader.types 0 children ≡ (0 + length before, child) ∷ []
      → take_zero_or_one reader children
        ≡ (before ++ after, reader.read child >>= λ value. ok (some value))
  unfolding take_zero_or_one position_of_at_most_one_of take_read
  take_single children before child after laid e =
      let zeroed : 0 + length before ≡ length before = omega arith in
      let got : get children (length before) ≡ some child =
        ap (λ l. get l (length before)) laid ∙ get-append before child after in
      let left : remove children (length before) ≡ before ++ after =
        ap (λ l. remove l (length before)) laid ∙ remove-append before child after in
      rw (take_zero_or_one, e, zeroed, got, left) refl

  take_several :
      (children after : List RawBox) (child : RawBox) (n m : ℕ) (second : RawBox)
      (rest : List (ℕ × RawBox))
      → claimed reader.types 0 children ≡ (n, child) ∷ claimed reader.types (suc n) after
      → claimed reader.types (suc n) after ≡ (m, second) ∷ rest
      → take_zero_or_one reader children ≡ (
        children,
        if all_claimed_are reader.types child.header.box_type after
            then err (error (duplicate_box child.header.box_type))
            else err (error (duplicate_variant_box reader.types)),
      )
  unfolding take_zero_or_one position_of_at_most_one_of
  take_several children after child n m second rest e e' =
      let t : BoxType = child.header.box_type in
      let same : all_of_type t ((m, second) ∷ rest) ≡ all_claimed_are reader.types t after =
        ap (all_of_type t) (sym e') ∙ all_of_type-claimed reader.types t after (suc n) in
      elim (Bool-cases (all_of_type t ((m, second) ∷ rest))) [
        | inl one ↦ rw (take_zero_or_one, e, e', one, ← same, one) refl
        | inr many ↦ rw (take_zero_or_one, e, e', many, ← same, many) refl
      ]

  -- `take_zero_or_one` does what `Takes` says, whatever the children are.
  pub take_zero_or_one-Takes :
      (children : List RawBox) → Takes children (take_zero_or_one reader children)
  take_zero_or_one-Takes children = elim (find reader.types children 0) [
    | inl (u, e) ↦ rw (take_absent children e) (absent u)
    | inr (before, child, after, f, e) ↦ elim (find reader.types after (suc (0 + length before))) [
      | inl (u, e') ↦
          rw
            (take_single children before child after f.laid
              (e ∙ ap (λ t. (0 + length before, child) ∷ t) e'))
            (single before child after f u)
      | inr (middle, second, rest, g, e') ↦
          let laid : children ≡ before ++ child ∷ (middle ++ second ∷ rest) =
            f.laid ∙ ap (λ t. before ++ child ∷ t) g.laid in
          rw (take_several children after child (0 + length before) _ second _ e e') (
            subst
              (λ (l : List RawBox). Takes children (
                children,
                if all_claimed_are reader.types child.header.box_type l
                    then err (error (duplicate_box child.header.box_type))
                    else err (error (duplicate_variant_box reader.types)),
              ))
              (sym g.laid)
              (several before child middle second rest
                (record { laid = laid; unclaimed = f.unclaimed; claims = f.claims })
                (record { laid = refl; unclaimed = g.unclaimed; claims = g.claims })))
    ]
  ]
