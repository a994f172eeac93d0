-- ===== src/Tournament/Judge/Rows.antt =====
-- The rows that trader/tournament/judge.py loops over: the registry has each of them under its
-- name, and no name is among both the active strategies and the candidates.
use mathlib.Core.Path.{subst}
use trader_pxg.Base.{
  String, ◌≡◌, refl, sym, Bool, true, false, ◌||◌, some, List, [], ◌∷◌, map, any, find, keep_if,
  insert_by, sort_by, ◌==◌, eq_iff, eq_refl, Bool-cases, inl, inr, All, arith,
}
use trader_pxg.Tournament.Registry.{Entrant, is_named, is_live}
use trader_pxg.Tournament.Pipeline.Caps.{AreDistinct}
use trader_pxg.Tournament.Judge.Run.{is_candidate}
use trader_pxg.Tournament.Judge.Settled.{is_among, AreDifferent}

module _ {X : Type 0} where
  any-keep_if : (q p : X → Bool) (xs : List X) → any q xs ≡ false → any q (keep_if p xs) ≡ false
  any-keep_if q p [] h = refl
  any-keep_if q p (x ∷ xs) h = ground (arith, any-keep_if q p xs)

  any-insert_by :
      (q : X → Bool) (le : X → X → Bool) (x : X) (xs : List X)
      → any q (insert_by le x xs) ≡ (q x || any q xs)
  any-insert_by q le x [] = refl
  any-insert_by q le x (y ∷ ys) = ground (arith, any-insert_by q le x ys)

  any-sort_by : (q : X → Bool) (le : X → X → Bool) (xs : List X) → any q (sort_by le xs) ≡ any q xs
  any-sort_by q le [] = refl
  any-sort_by q le (x ∷ xs) =
      ground (arith, any-insert_by q le x (sort_by le xs), any-sort_by q le xs)

  keep_if-passes :
      (p : X → Bool) (x : X) (xs : List X) → p x ≡ true → keep_if p (x ∷ xs) ≡ x ∷ keep_if p xs
  keep_if-passes p x xs e = rw e refl

  keep_if-fails :
      (p : X → Bool) (x : X) (xs : List X) → p x ≡ false → keep_if p (x ∷ xs) ≡ keep_if p xs
  keep_if-fails p x xs e = rw e refl

module _ {X : Type 0} (P : X → Type 0) where
  All-insert_by :
      (le : X → X → Bool) (x : X) (xs : List X) → P x → All P xs → All P (insert_by le x xs)
  All-insert_by le x [] h k = (h, tt)
  All-insert_by le x (y ∷ ys) h (k, ks) = elim (Bool-cases (le x y)) [
    | inl e ↦ rw e (h, (k, ks))
    | inr e ↦ rw e (k, All-insert_by le x ys h ks)
  ]

  pub All-sort_by : (le : X → X → Bool) (xs : List X) → All P xs → All P (sort_by le xs)
  All-sort_by le [] h = tt
  All-sort_by le (x ∷ xs) (h, hs) = All-insert_by le x (sort_by le xs) h (All-sort_by le xs hs)

  pub All-kept : (p : X → Bool) (xs : List X) → All P xs → All P (keep_if p xs)
  All-kept p [] h = tt
  All-kept p (x ∷ xs) (h, hs) = elim (Bool-cases (p x)) [
    | inl e ↦ rw e (h, All-kept p xs hs)
    | inr e ↦ rw e (All-kept p xs hs)
  ]

module _ {A : Type 0} where
  insert-AreDistinct :
      (le : Entrant A → Entrant A → Bool) (x : Entrant A) (rows : List (Entrant A))
      → any (is_named x.profile_name) rows ≡ false
      → AreDistinct rows
      → AreDistinct (insert_by le x rows)
  insert-AreDistinct le x [] h d = (refl, tt)
  insert-AreDistinct le x (y ∷ ys) h (e, d) = ground (
    arith,
    insert-AreDistinct le x ys,
    any-insert_by (is_named y.profile_name) le x ys,
    eq_iff x.profile_name y.profile_name,
    eq_iff y.profile_name x.profile_name,
  )

  pub sort_by-AreDistinct :
      (le : Entrant A → Entrant A → Bool) (rows : List (Entrant A))
      → AreDistinct rows
      → AreDistinct (sort_by le rows)
  sort_by-AreDistinct le [] d = tt
  sort_by-AreDistinct le (x ∷ rows) (e, d) =
      insert-AreDistinct le x (sort_by le rows)
        (ground (arith, any-sort_by (is_named x.profile_name) le rows))
        (sort_by-AreDistinct le rows d)

  pub kept-AreDistinct :
      (p : Entrant A → Bool) (rows : List (Entrant A))
      → AreDistinct rows
      → AreDistinct (keep_if p rows)
  kept-AreDistinct p [] d = tt
  kept-AreDistinct p (x ∷ rows) (e, d) =
      ground (arith, kept-AreDistinct p rows, any-keep_if (is_named x.profile_name) p rows)

  abbrev pub entrant_names : List (Entrant A) → List String
  entrant_names rows = map (λ (row : Entrant A). row.profile_name) rows

  is_among-names :
      (name : String) (rows : List (Entrant A))
      → is_among name (entrant_names rows) ≡ any (is_named name) rows
  is_among-names name [] = refl
  is_among-names name (x ∷ rows) = ground (arith, is_among-names name rows)

  pub names-AreDifferent :
      (rows : List (Entrant A)) → AreDistinct rows → AreDifferent (entrant_names rows)
  names-AreDifferent [] d = tt
  names-AreDifferent (x ∷ rows) (e, d) =
      (ground (arith, is_among-names x.profile_name rows), names-AreDifferent rows d)

  -- No row has the name of a row that is not there.
  All-apart :
      (name : String) (rows : List (Entrant A))
      → any (is_named name) rows ≡ false
      → All (λ (row : Entrant A). name == row.profile_name ≡ false) rows
  All-apart name [] h = tt
  All-apart name (x ∷ rows) h = (
    ground (arith, eq_iff x.profile_name name, eq_iff name x.profile_name),
    All-apart name rows (ground arith),
  )

  abbrev pub IsFoundIn : List (Entrant A) → Entrant A → Type 0
  IsFoundIn rows row = find (is_named row.profile_name) rows ≡ some row

  pub All-found : (rows : List (Entrant A)) → AreDistinct rows → All (IsFoundIn rows) rows
  All-found [] d = tt
  All-found (x ∷ rows) (e, d) = (
    ground (arith, eq_refl x.profile_name),
    later rows (All-apart x.profile_name rows e) (All-found rows d),
  )
    where
      later :
          (ys : List (Entrant A))
          → All (λ (row : Entrant A). x.profile_name == row.profile_name ≡ false) ys
          → All (IsFoundIn rows) ys
          → All (IsFoundIn (x ∷ rows)) ys
      later [] apart found = tt
      later (y ∷ ys) (a, apart) (g, found) = (ground arith, later ys apart found)

  apart-cons :
      (x : Entrant A) (cs ys : List (Entrant A))
      → All (λ (row : Entrant A). x.profile_name == row.profile_name ≡ false) ys
      → All (λ (row : Entrant A). any (is_named row.profile_name) cs ≡ false) ys
      → All (λ (row : Entrant A). any (is_named row.profile_name) (x ∷ cs) ≡ false) ys
  apart-cons x cs [] apart h = tt
  apart-cons x cs (y ∷ ys) (a, apart) (h, hs) = (ground arith, apart-cons x cs ys apart hs)

  -- No row of the second list has a name of the first.
  abbrev IsApart : List (Entrant A) → List (Entrant A) → Type 0
  IsApart cs ys = All (λ (row : Entrant A). any (is_named row.profile_name) cs ≡ false) ys

  IsApart-eq :
      {cs cs' ys ys' : List (Entrant A)} → cs ≡ cs' → ys ≡ ys' → IsApart cs' ys' → IsApart cs ys
  IsApart-eq {cs' = cs'} {ys = ys} e g h =
      subst (λ l. IsApart l ys) (sym e) (subst (λ l. IsApart cs' l) (sym g) h)

  live-not_candidate : (x : Entrant A) → is_live x ≡ true → is_candidate x ≡ false
  live-not_candidate x h = ground arith

  live-IsApart :
      (rows : List (Entrant A))
      → AreDistinct rows
      → IsApart (keep_if is_candidate rows) (keep_if is_live rows)
  live-IsApart [] d = tt
  live-IsApart (x ∷ rows) (e, d) = elim (Bool-cases (is_live x)) [
    | inl live ↦
        IsApart-eq (keep_if-fails is_candidate x rows (live-not_candidate x live))
          (keep_if-passes is_live x rows live)
          (any-keep_if (is_named x.profile_name) is_candidate rows e, live-IsApart rows d)
    | inr other ↦ elim (Bool-cases (is_candidate x)) [
      | inl new ↦
          IsApart-eq (keep_if-passes is_candidate x rows new) (keep_if-fails is_live x rows other) (
            apart-cons x (keep_if is_candidate rows) (keep_if is_live rows)
              (All-kept (λ (row : Entrant A). x.profile_name == row.profile_name ≡ false) is_live
                rows (All-apart x.profile_name rows e))
              (live-IsApart rows d))
      | inr gone ↦
          IsApart-eq (keep_if-fails is_candidate x rows gone) (keep_if-fails is_live x rows other)
            (live-IsApart rows d)
    ]
  ]

  pub candidates-apart :
      (rows : List (Entrant A))
      → AreDistinct rows
      → All
          (λ name. is_among name (entrant_names (keep_if is_candidate rows)) ≡ false)
          (entrant_names (keep_if is_live rows))
  candidates-apart rows d = renamed (keep_if is_live rows) (live-IsApart rows d)
    where
      renamed :
          (ys : List (Entrant A))
          → IsApart (keep_if is_candidate rows) ys
          → All
              (λ name. is_among name (entrant_names (keep_if is_candidate rows)) ≡ false)
              (entrant_names ys)
      renamed [] h = tt
      renamed (y ∷ ys) (h, hs) =
          (ground (arith, is_among-names y.profile_name (keep_if is_candidate rows)), renamed ys hs)
