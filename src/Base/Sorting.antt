-- ===== src/Base/Sorting.antt =====
-- `sort_by` on a numeric key: it sorts, and it commutes with a filter.
use Prim.Native.Nat.{ℕ, ◌≤◌}
use mathlib.Core.Path.{◌≡◌, refl}
use mathlib.Core.Logic.{inl, inr}
use mathlib.Core.Bool.{Bool}
use mathlib.Core.List.{List, [], ◌∷◌}
use native.Mathlib.Omega.{arith}
use trader_pxg.Base.Tests.{leb, Bool-cases, if◌then◌else◌}
use trader_pxg.Base.Lists.{All, keep_if, insert_by, sort_by}

module _ {A : Type 0} (key : A → ℕ) where
  abbrev pub by_key : A → A → Bool
  by_key a b = leb (key a) (key b)

  abbrev pub IsSorted : List A → Type 0
  IsSorted [] = Unit
  IsSorted (x ∷ xs) = All (λ y. key x ≤ key y) xs × IsSorted xs

  All-trans : (n m : ℕ) (xs : List A) → n ≤ m → All (λ y. m ≤ key y) xs → All (λ y. n ≤ key y) xs
  All-trans n m [] h a = tt
  All-trans n m (x ∷ xs) h (p, a) = (omega arith, All-trans n m xs h a)

  All-insert_by :
      (n : ℕ) (x : A) (xs : List A)
      → n ≤ key x
      → All (λ y. n ≤ key y) xs
      → All (λ y. n ≤ key y) (insert_by by_key x xs)
  All-insert_by n x [] h a = (h, tt)
  All-insert_by n x (y ∷ ys) h (p, a) = elim (Bool-cases (by_key x y)) [
    | inl e ↦ rw e (h, (p, a))
    | inr e ↦ rw e (p, All-insert_by n x ys h a)
  ]

  insert_by-IsSorted : (x : A) (xs : List A) → IsSorted xs → IsSorted (insert_by by_key x xs)
  insert_by-IsSorted x [] s = (tt, tt)
  insert_by-IsSorted x (y ∷ ys) (below, s) = elim (Bool-cases (by_key x y)) [
    | inl e ↦
        let le : key x ≤ key y = ground arith in
        rw e ((le, All-trans (key x) (key y) ys le below), (below, s))
    | inr e ↦
        let le : key y ≤ key x = ground arith in
        rw e (All-insert_by (key y) x ys le below, insert_by-IsSorted x ys s)
  ]

  pub sort_by-IsSorted : (xs : List A) → IsSorted (sort_by by_key xs)
  sort_by-IsSorted [] = tt
  sort_by-IsSorted (x ∷ xs) = insert_by-IsSorted x _ (sort_by-IsSorted xs)

  module _ (p : A → Bool) where
    insert_by_front :
        (x : A) (xs : List A)
        → All (λ y. key x ≤ key y) xs
        → insert_by by_key x (keep_if p xs) ≡ x ∷ keep_if p xs
    insert_by_front x [] a = refl
    insert_by_front x (y ∷ ys) (le, a) = elim (Bool-cases (p y)) [
      | inl e ↦ ground arith
      | inr e ↦ ground (arith, insert_by_front x ys a)
    ]

    keep_if-insert_by :
        (x : A) (xs : List A)
        → IsSorted xs
        → keep_if p (insert_by by_key x xs)
          ≡ (if p x then insert_by by_key x (keep_if p xs) else keep_if p xs)
    keep_if-insert_by x [] s = ground arith
    keep_if-insert_by x (y ∷ ys) (below, s) = elim (Bool-cases (by_key x y)) [
      | inl e ↦
          let le : key x ≤ key y = ground arith in
          ground (arith, insert_by_front x (y ∷ ys) (le, All-trans (key x) (key y) ys le below))
      | inr e ↦ ground (arith, keep_if-insert_by x ys s)
    ]

    -- Filtering a sorted table is sorting the filtered one.
    pub keep_if-sort_by :
        (xs : List A) → keep_if p (sort_by by_key xs) ≡ sort_by by_key (keep_if p xs)
    keep_if-sort_by [] = refl
    keep_if-sort_by (x ∷ xs) =
        ground
          (arith, keep_if-insert_by x (sort_by by_key xs) (sort_by-IsSorted xs), keep_if-sort_by xs)
