-- ===== src/Paper/Reconcile/Classify.antt =====
-- What classify_divergence of trader/paper/reconcile.py lists, whatever the books hold.
use mathlib.Core.Path.{subst}
use trader_pxg.Base.{
  String, ◌≡◌, refl, ◌⊎◌, inl, inr, true, false, Option, none, some, List, [], ◌∷◌, ◌++◌, ◌==◌,
  eq_iff, arith, any, In, here, there, In-uncons, Bool-cases, Option-cases, Float, float_zero, ◌⊖◌,
  ◌≈◌, absolute,
}
use trader_pxg.Paper.Store.{explainable, unexplained}
use trader_pxg.Paper.Reconcile.{
  Divergence, get, get_or, keys, distinct, explains, diverging, collect, classify_divergence,
}

In-append : (x : String) (xs ys : List String) → In x xs ⊎ In x ys → In x (xs ++ ys)
In-append x [] ys (inl h) = elim h [ ]
In-append x [] ys (inr h) = h
In-append x (_ ∷ xs) ys (inl here) = here
In-append x (_ ∷ xs) ys (inl (there h)) = there (In-append x xs ys (inl h))
In-append x (_ ∷ xs) ys (inr h) = there (In-append x xs ys (inr h))

any-eq-true-In : (k : String) (ks : List String) → any (λ j. j == k) ks ≡ true → In k ks
any-eq-true-In k [] h = cc
any-eq-true-In k (j ∷ ks) h = elim (Bool-cases (j == k)) [
  | inl e ↦ rw ((eq_iff j k).0 e) here
  | inr e ↦ there (any-eq-true-In k ks (ground arith))
]

In-distinct : (k : String) (ks : List String) → In k ks → In k (distinct ks)
In-distinct k [] i = elim i [ ]
In-distinct k (j ∷ ks) here = elim (Bool-cases (any (λ i. i == k) ks)) [
  | inl e ↦ rw e (In-distinct k ks (any-eq-true-In k ks e))
  | inr e ↦ rw e here
]
In-distinct k (j ∷ ks) (there h) = elim (Bool-cases (any (λ i. i == j) ks)) [
  | inl e ↦ rw e (In-distinct k ks h)
  | inr e ↦ rw e (there (In-distinct k ks h))
]

module _ {A : Type 0} where
  -- A symbol that a book has.
  abbrev pub IsListed : String → List (String × A) → Type 0
  IsListed k book = In k (keys book)

  In-collect :
      (g : String → Option (Divergence A)) (ks : List String) {k : String} {d : Divergence A}
      → In k ks
      → g k ≡ some d
      → In d (collect g ks)
  unfolding collect
  In-collect g [] i h = elim i [ ]
  In-collect g (k ∷ ks) here h = rw (h, collect) here
  In-collect g (j ∷ ks) {d = d} (there i) h = elim (Option-cases (g j)) [
    | inl e ↦ rw (e, collect) (In-collect g ks i h)
    | inr (d', e) ↦ rw (e, collect) (there (In-collect g ks i h))
  ]

  collect-In :
      (g : String → Option (Divergence A)) (ks : List String) {d : Divergence A}
      → In d (collect g ks)
      → (k : String) × In k ks × (g k ≡ some d)
  unfolding collect
  collect-In g [] i = elim i [ ]
  collect-In g (k ∷ ks) {d = d} i = elim (Option-cases (g k)) [
    | inl e ↦ later (collect-In g ks (subst (λ ds. In d ds) (drops e) i))
    | inr (d', e) ↦ elim (In-uncons (subst (λ ds. In d ds) (lists e) i)) [
      | inl same ↦ (k, here, rw same e)
      | inr i' ↦ later (collect-In g ks i')
    ]
  ]
    where
      later :
          (k' : String) × In k' ks × (g k' ≡ some d)
          → (k' : String) × In k' (k ∷ ks) × (g k' ≡ some d)
      later (k', i', h) = (k', there i', h)

      drops : g k ≡ none → collect g (k ∷ ks) ≡ collect g ks
      drops e = rw (e, collect) refl

      lists : {d' : Divergence A} → g k ≡ some d' → collect g (k ∷ ks) ≡ d' ∷ collect g ks
      lists e = rw (e, collect) refl

module _ {A : Type 0} ⦃f : Float A⦄ where
  -- What an entry of the list must say of its symbol.
  abbrev pub Reports :
      List (String × A) → List (String × A) → List (String × A) → String → Divergence A → Type 0
  Reports local_positions broker_positions pending_qty k d =
      let local_qty = get_or k float_zero local_positions in
      let broker_qty = get_or k float_zero broker_positions in
      (d.local_qty ≡ local_qty)
      × (d.broker_qty ≡ broker_qty)
      × ((broker_qty ⊖ local_qty) ≈ float_zero ≡ false)
      × (explains (get k pending_qty) (absolute (broker_qty ⊖ local_qty)) ≡ true
          → d.classification ≡ explainable)
      × (explains (get k pending_qty) (absolute (broker_qty ⊖ local_qty)) ≡ false
          → d.classification ≡ unexplained)

  diverging-Reports :
      (local_positions broker_positions pending_qty : List (String × A)) (k : String)
      {d : Divergence A}
      → diverging local_positions broker_positions pending_qty k ≡ some d
      → (d.symbol ≡ k) × Reports local_positions broker_positions pending_qty k d
  unfolding diverging
  diverging-Reports local_positions broker_positions pending_qty k h =
      let delta = get_or k float_zero broker_positions ⊖ get_or k float_zero local_positions in
      elim (Bool-cases (delta ≈ float_zero)) [
        | inl e ↦ ground arith
        | inr e ↦ elim (Bool-cases (explains (get k pending_qty) (absolute delta))) [
          | inl x ↦ ground arith
          | inr x ↦ ground arith
        ]
      ]

  diverging-eq-some :
      (local_positions broker_positions pending_qty : List (String × A)) (k : String)
      → ((get_or k float_zero broker_positions ⊖ get_or k float_zero local_positions) ≈ float_zero)
        ≡ false
      → (d : Divergence A) × (diverging local_positions broker_positions pending_qty k ≡ some d)
  unfolding diverging
  diverging-eq-some local_positions broker_positions pending_qty k h =
      elim (Option-cases (diverging local_positions broker_positions pending_qty k)) [
        | inl e ↦ ground arith
        | inr found ↦ found
      ]

  -- Whatever function orders the symbols, the list has an entry for each symbol of either book on
  -- which the two differ, and only such entries. An entry carries the quantities of both books, and
  -- is explainable when a pending quantity equals the size of the difference, unexplained otherwise.
  pub classify_divergence-lists_differences :
      (sorted : List String → List String)
      (local_positions broker_positions pending_qty : List (String × A))
      → ((k : String) (ks : List String) → In k ks → In k (sorted ks))
      → ((k : String)
          → IsListed k local_positions ⊎ IsListed k broker_positions
          → ((get_or k float_zero broker_positions ⊖ get_or k float_zero local_positions)
              ≈ float_zero)
            ≡ false
          → (d : Divergence A) × In d
              (classify_divergence sorted local_positions broker_positions pending_qty)
            × (d.symbol ≡ k))
        × ((d : Divergence A)
            → In d (classify_divergence sorted local_positions broker_positions pending_qty)
            → Reports local_positions broker_positions pending_qty d.symbol d)
  unfolding classify_divergence
  classify_divergence-lists_differences sorted local_positions broker_positions pending_qty keeps =
      (
        λ k listed differs.
            let (d, h) = diverging-eq-some local_positions broker_positions pending_qty k differs in
            (
              d,
              In-collect (diverging local_positions broker_positions pending_qty) _
                  (keeps k _ (
                    In-distinct k _
                      (In-append k (keys local_positions) (keys broker_positions) listed)))
                  h,
              (diverging-Reports local_positions broker_positions pending_qty k h).0,
            ),
        λ d i.
            let (k, _, h) =
              collect-In (diverging local_positions broker_positions pending_qty) _ i in
            let (same, reports) =
              diverging-Reports local_positions broker_positions pending_qty k h in
            rw same reports,
      )
