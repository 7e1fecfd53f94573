-- ===== src/Common/Lists.antt =====
-- Lists measured and cut by native numbers, and slices split the way Rust's slices are.
use Prim.Native.Nat.{ℕ, zero, suc, ◌+◌, ◌-◌, ◌≤◌, ◌<◌, min}
use mathlib.Core.Path.{◌≡◌, refl, sym, ap}
use mathlib.Core.Bool.{Bool, true, false, ◌&&◌}
use mathlib.Core.Logic.{◌↔◌}
use mathlib.Core.List.{List, [], ◌∷◌, ◌++◌}
use mathlib.Core.Option.{Option, none, some}
use native.Mathlib.Omega.{arith}
use isobmff_rs.Common.Tests.{leb, ◌==◌, if◌then◌else◌}

module _ {ℓ} {A : Type ℓ} where
  abbrev pub length : List A → ℕ
  length [] = 0
  length (x ∷ xs) = suc (length xs)

  abbrev pub take : ℕ → List A → List A
  take zero xs = []
  take (suc n) [] = []
  take (suc n) (x ∷ xs) = x ∷ take n xs

  abbrev pub drop : ℕ → List A → List A
  drop zero xs = xs
  drop (suc n) [] = []
  drop (suc n) (x ∷ xs) = drop n xs

  abbrev pub replicate : ℕ → A → List A
  replicate zero a = []
  replicate (suc n) a = a ∷ replicate n a

  abbrev pub is_empty : List A → Bool
  is_empty [] = true
  is_empty (x ∷ xs) = false

  abbrev pub All {κ} : (A → Type κ) → List A → Type κ
  All P [] = Unit {κ}
  All P (x ∷ xs) = P x × All P xs

module _ {ℓ} {A : Type ℓ} where
  pub length-append : (xs ys : List A) → length (xs ++ ys) ≡ length xs + length ys
  length-append [] ys = omega arith
  length-append (x ∷ xs) ys = omega (arith, length-append xs ys)

  pub take-append-drop : (n : ℕ) (xs : List A) → take n xs ++ drop n xs ≡ xs
  take-append-drop zero xs = refl
  take-append-drop (suc n) [] = refl
  take-append-drop (suc n) (x ∷ xs) = ap (λ t. x ∷ t) (take-append-drop n xs)

  pub length-take : (n : ℕ) (xs : List A) → length (take n xs) ≡ min n (length xs)
  length-take zero xs = omega arith
  length-take (suc n) [] = omega arith
  length-take (suc n) (x ∷ xs) = omega (arith, length-take n xs)

  pub length-drop : (n : ℕ) (xs : List A) → length (drop n xs) ≡ length xs - n
  length-drop zero xs = omega arith
  length-drop (suc n) [] = omega arith
  length-drop (suc n) (x ∷ xs) = omega (arith, length-drop n xs)

  pub length-replicate : (n : ℕ) (a : A) → length (replicate n a) ≡ n
  length-replicate zero a = refl
  length-replicate (suc n) a = ap suc (length-replicate n a)

  pub take-append_length : (xs ys : List A) → take (length xs) (xs ++ ys) ≡ xs
  take-append_length [] ys = refl
  take-append_length (x ∷ xs) ys = ap (λ t. x ∷ t) (take-append_length xs ys)

  pub take_all : (xs : List A) → take (length xs) xs ≡ xs
  take_all [] = refl
  take_all (x ∷ xs) = ap (λ t. x ∷ t) (take_all xs)

  pub drop-append_length : (xs ys : List A) → drop (length xs) (xs ++ ys) ≡ ys
  drop-append_length [] ys = refl
  drop-append_length (x ∷ xs) ys = drop-append_length xs ys

  -- Where one list begins two ways, the longer beginning goes on from the shorter.
  pub append-prefix :
      (a p t m : List A)
      → a ++ t ≡ p ++ m
      → length a ≤ length p
      → (q : List A) × (p ≡ a ++ q) × (t ≡ q ++ m)
  append-prefix [] p t m e h = (p, refl, e)
  append-prefix (x ∷ a) [] t m e h = absurd (omega arith)
  append-prefix (x ∷ a) (y ∷ p) t m e h =
      let (q, ep, et) = append-prefix a p t m (cc) (omega arith) in
      let ex : x ≡ y = cc in (q, rw (← ex) (ap (λ l. x ∷ l) ep), et)

  -- Two beginnings of one list that are as long are the same.
  pub append-prefix_full : (a p t m : List A) → a ++ t ≡ p ++ m → length a ≡ length p → p ≡ a
  append-prefix_full [] [] t m e h = refl
  append-prefix_full [] (y ∷ p) t m e h = absurd (omega arith)
  append-prefix_full (x ∷ a) [] t m e h = absurd (omega arith)
  append-prefix_full (x ∷ a) (y ∷ p) t m e h =
      let ep = append-prefix_full a p t m (cc) (omega arith) in
      let ex : y ≡ x = cc in rw (ep, ex) refl

  pub drop-nil : (n : ℕ) → drop {A = A} n [] ≡ []
  drop-nil zero = refl
  drop-nil (suc n) = refl

  pub drop-append :
      (xs ys zs : List A) → drop (length (xs ++ ys)) zs ≡ drop (length ys) (drop (length xs) zs)
  drop-append [] ys zs = refl
  drop-append (x ∷ xs) ys [] = sym (drop-nil (length ys))
  drop-append (x ∷ xs) ys (z ∷ zs) = drop-append xs ys zs

  pub All-append {κ} : (P : A → Type κ) (xs ys : List A) → All P (xs ++ ys) ↔ (All P xs × All P ys)
  All-append P [] ys = (λ h. (tt, h), λ h. h.1)
  All-append P (x ∷ xs) ys = (
    λ h. let (p, q) = (All-append P xs ys).0 h.1 in ((h.0, p), q),
    λ h. (h.0.0, (All-append P xs ys).1 (h.0.1, h.1)),
  )

-- `slice.split_at_checked(n)`, `split_first_chunk::<n>()`, `split_at_mut_checked(n)`.
module _ {ℓ} {A : Type ℓ} where
  abbrev pub split_at_checked : ℕ → List A → Option (List A × List A)
  split_at_checked n xs = if leb n (length xs) then some (take n xs, drop n xs) else none

  pub split_at_checked-append :
      (n : ℕ) (xs ys : List A) → length xs ≡ n → split_at_checked n (xs ++ ys) ≡ some (xs, ys)
  split_at_checked-append n xs ys e =
      ground (arith, length-append xs ys, take-append_length xs ys, drop-append_length xs ys)

  pub split_at_checked-eq-some :
      (n : ℕ) (xs a b : List A)
      → split_at_checked n xs ≡ some (a, b)
      → (xs ≡ a ++ b) × (length a ≡ n)
  split_at_checked-eq-some n xs a b e = ground (arith, take-append-drop n xs, length-take n xs)

  pub split_at_checked-eq-none :
      (n : ℕ) (xs : List A) → split_at_checked n xs ≡ none → length xs < n
  split_at_checked-eq-none n xs e = ground arith

  pub split_at_checked_short : (n : ℕ) (xs : List A) → length xs < n → split_at_checked n xs ≡ none
  split_at_checked_short n xs h = ground arith

-- `==` of byte slices and arrays
abbrev pub bytes_eq : List ℕ → List ℕ → Bool
bytes_eq [] [] = true
bytes_eq [] (y ∷ ys) = false
bytes_eq (x ∷ xs) [] = false
bytes_eq (x ∷ xs) (y ∷ ys) = (x == y) && bytes_eq xs ys

pub bytes_eq→eq : (xs ys : List ℕ) → bytes_eq xs ys ≡ true → xs ≡ ys
bytes_eq→eq [] [] h = refl
bytes_eq→eq [] (y ∷ ys) h = ground arith
bytes_eq→eq (x ∷ xs) [] h = ground arith
bytes_eq→eq (x ∷ xs) (y ∷ ys) h = ground (arith, bytes_eq→eq xs ys)

pub bytes_eq_refl : (xs : List ℕ) → bytes_eq xs xs ≡ true
bytes_eq_refl [] = refl
bytes_eq_refl (x ∷ xs) = ground (arith, bytes_eq_refl xs)
