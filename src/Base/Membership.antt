-- ===== src/Base/Membership.antt =====
-- Elements of a list and their order, through sorting, appending and filtering.
use mathlib.Core.Path.{◌≡◌, refl, sym, subst}
use mathlib.Core.Logic.{◌⊎◌, inl, inr}
use mathlib.Core.Bool.{Bool, true, false}
use mathlib.Core.List.{List, [], ◌∷◌, ◌++◌, map}
use trader_pxg.Base.Tests.{Bool-cases}
use trader_pxg.Base.Lists.{keep_if, insert_by, sort_by, In, here, there, In-uncons}

-- One element of a list, and another after it.
pub data Before {A : Type 0} (x y : A) : List A → Type 0 where
  at_head : {ys : List A} → In y ys → Before x y (x ∷ ys)
  further : {z : A} {ys : List A} → Before x y ys → Before x y (z ∷ ys)

In-insert_by : {A : Type 0} (le : A → A → Bool) (y : A) (xs : List A) → In y (insert_by le y xs)
In-insert_by le y [] = here
In-insert_by le y (x ∷ xs) = elim (Bool-cases (le y x)) [
  | inl e ↦ rw e here
  | inr e ↦ rw e (there (In-insert_by le y xs))
]

In-insert_other :
    {A : Type 0} (le : A → A → Bool) (y : A) (xs : List A) {x : A}
    → In x xs
    → In x (insert_by le y xs)
In-insert_other le y [] i = elim i [ ]
In-insert_other le y (z ∷ xs) here = elim (Bool-cases (le y z)) [
  | inl e ↦ rw e (there here)
  | inr e ↦ rw e here
]
In-insert_other le y (z ∷ xs) (there i) = elim (Bool-cases (le y z)) [
  | inl e ↦ rw e (there (there i))
  | inr e ↦ rw e (there (In-insert_other le y xs i))
]

pub In-sort_by :
    {A : Type 0} (le : A → A → Bool) (xs : List A) {x : A} → In x xs → In x (sort_by le xs)
In-sort_by le [] i = elim i [ ]
In-sort_by le (x ∷ xs) here = In-insert_by le x (sort_by le xs)
In-sort_by le (x ∷ xs) (there i) = In-insert_other le x (sort_by le xs) (In-sort_by le xs i)

pub In-append_left : {A : Type 0} (xs ys : List A) {x : A} → In x xs → In x (xs ++ ys)
In-append_left [] ys i = elim i [ ]
In-append_left (x ∷ xs) ys here = here
In-append_left (x ∷ xs) ys (there i) = there (In-append_left xs ys i)

pub In-append_right : {A : Type 0} (xs ys : List A) {x : A} → In x ys → In x (xs ++ ys)
In-append_right [] ys i = i
In-append_right (x ∷ xs) ys i = there (In-append_right xs ys i)

Before-uncons :
    {A : Type 0} {x y z : A} {ys : List A} → Before x y (z ∷ ys) → (x ≡ z) × In y ys ⊎ Before x y ys
Before-uncons (at_head i) = inl (refl, i)
Before-uncons (further i) = inr i

module _ {A B : Type 0} (p : A → Bool) (g : A → B) where
  abbrev pub kept_images : List A → List B
  kept_images xs = map g (keep_if p xs)

  -- An element that was kept, behind its image.
  abbrev pub IsKept : A → B → Type 0
  IsKept x b = (p x ≡ true) × (g x ≡ b)

  kept-cons : (x : A) (xs : List A) → p x ≡ true → kept_images (x ∷ xs) ≡ g x ∷ kept_images xs
  kept-cons x xs e = rw e refl

  dropped-cons : (x : A) (xs : List A) → p x ≡ false → kept_images (x ∷ xs) ≡ kept_images xs
  dropped-cons x xs e = rw e refl

  pub In-kept_images :
      (xs : List A) {b : B} → In b (kept_images xs) → (x : A) × In x xs × IsKept x b
  In-kept_images [] i = elim i [ ]
  In-kept_images (x ∷ xs) {b = b} i = elim (Bool-cases (p x)) [
    | inl e ↦ elim (In-uncons (subst (λ l. In b l) (kept-cons x xs e) i)) [
      | inl same ↦ (x, here, (e, sym same))
      | inr j ↦ let (y, k, l) = In-kept_images xs j in (y, there k, l)
    ]
    | inr e ↦
        let (y, j, k) = In-kept_images xs (subst (λ l. In b l) (dropped-cons x xs e) i) in
        (y, there j, k)
  ]

  pub Before-kept_images :
      (xs : List A) {b c : B}
      → Before b c (kept_images xs)
      → (x y : A) × Before x y xs × IsKept x b × IsKept y c
  Before-kept_images [] i = elim i [ ]
  Before-kept_images (x ∷ xs) {b = b} {c = c} i = elim (Bool-cases (p x)) [
    | inl e ↦ elim (Before-uncons (subst (λ l. Before b c l) (kept-cons x xs e) i)) [
      | inl (same, j) ↦ let (z, k, l) = In-kept_images xs j in (x, z, at_head k, (e, sym same), l)
      | inr j ↦ let (y, z, k, l, m) = Before-kept_images xs j in (y, z, further k, l, m)
    ]
    | inr e ↦
        let (y, z, j, k, l) =
          Before-kept_images xs (subst (λ l. Before b c l) (dropped-cons x xs e) i) in
        (y, z, further j, k, l)
  ]
