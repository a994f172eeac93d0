-- ===== src/Risk/Gate/Correlated.antt =====
-- That no two survivors of the correlation walk of trader/risk/gate.py exceed the threshold.
use mathlib.Core.Path.{subst}
use trader_pxg.Base.{
  ℕ, suc, ◌≡◌, refl, sym, ap, ◌∙◌, ◌⊎◌, inl, inr, true, false, not, ◌||◌, Option, none, some, List,
  [], ◌∷◌, ◌++◌, any-append, nat_eqb, sort_by, In, here, there, Bool-cases, arith, Float, ◌≺◌, ◌≼◌,
  Result, ok, >>=-eq-ok-parts, ok-injective,
}
use trader_pxg.Base.Membership.{
  Before, at_head, further, In-sort_by, In-append_left, In-append_right, In-kept_images,
  Before-kept_images,
}
use trader_pxg.Risk.Gate.{Accepted}
use trader_pxg.Risk.Gate.Eliminate.{
  Indexed, Rejected, CorrelatedPair, indexed_from, is_gone, add_pair, pairs_of, all_pairs, loser_of,
  eliminate, apply_correlation_check,
}

module _ {A : Type 0} ⦃f : Float A⦄ where
  append-is_gone :
      (i : ℕ) (gone : List (Indexed A)) (e : Indexed A)
      → is_gone i gone ≡ true
      → is_gone i (gone ++ e ∷ []) ≡ true
  append-is_gone i gone e h =
      any-append (λ (x : Indexed A). nat_eqb x.0 i) gone (e ∷ [])
      ∙ ap (λ b. b || is_gone i (e ∷ [])) h

  eliminate-is_gone :
      (i : ℕ) (pairs : List (CorrelatedPair A)) (gone : List (Indexed A))
      → is_gone i gone ≡ true
      → is_gone i (eliminate pairs gone) ≡ true
  unfolding eliminate
  eliminate-is_gone i [] gone h = h
  eliminate-is_gone i (p ∷ pairs) gone h =
      eliminate-is_gone i pairs _
        (elim (Bool-cases (is_gone p.first.0 gone || is_gone p.second.0 gone)) [
          | inl e ↦ rw e h
          | inr e ↦ rw e (append-is_gone i gone (loser_of p) h)
        ])

  last-is_gone : (e : Indexed A) (gone : List (Indexed A)) → is_gone e.0 (gone ++ e ∷ []) ≡ true
  last-is_gone e [] = ground arith
  last-is_gone e (x ∷ gone) = ground (arith, last-is_gone e gone)

  loser-is_gone :
      (p : CorrelatedPair A) (gone : List (Indexed A))
      → (is_gone p.first.0 (gone ++ loser_of p ∷ []) ≡ true)
        ⊎ (is_gone p.second.0 (gone ++ loser_of p ∷ []) ≡ true)
  loser-is_gone p gone =
      elim (Bool-cases (p.first.1.candidate.score ≺ p.second.1.candidate.score)) [
        | inl e ↦ rw e (inl (last-is_gone p.first gone))
        | inr e ↦ rw e (inr (last-is_gone p.second gone))
      ]

  -- After the walk at least one of each pair is gone.
  eliminate-separates :
      (pairs : List (CorrelatedPair A)) (gone : List (Indexed A)) (p : CorrelatedPair A)
      → In p pairs
      → (is_gone p.first.0 (eliminate pairs gone) ≡ true)
        ⊎ (is_gone p.second.0 (eliminate pairs gone) ≡ true)
  unfolding eliminate
  eliminate-separates [] gone p i = elim i [ ]
  eliminate-separates (q ∷ pairs) gone p (there i) = eliminate-separates pairs _ p i
  eliminate-separates (p ∷ pairs) gone _ here =
      elim (Bool-cases (is_gone p.first.0 gone || is_gone p.second.0 gone)) [
        | inl e ↦ rw e (elim (Bool-cases (is_gone p.first.0 gone)) [
          | inl a ↦ inl (eliminate-is_gone p.first.0 pairs gone a)
          | inr a ↦ inr (eliminate-is_gone p.second.0 pairs gone (ground arith))
        ])
        | inr e ↦ rw e (elim (loser-is_gone p gone) [
          | inl a ↦ inl (eliminate-is_gone p.first.0 pairs (gone ++ loser_of p ∷ []) a)
          | inr a ↦ inr (eliminate-is_gone p.second.0 pairs (gone ++ loser_of p ∷ []) a)
        ])
      ]

  In-add_pair :
      (o : Option A) (a b : Indexed A) {pairs : List (CorrelatedPair A)} {p : CorrelatedPair A}
      → In p pairs
      → In p (add_pair o a b pairs)
  In-add_pair none a b i = i
  In-add_pair (some m) a b i = there i

  In-pairs_of :
      (between : Accepted A → Accepted A → Result (Option A)) (a b : Indexed A)
      (later : List (Indexed A)) {pairs : List (CorrelatedPair A)} {m : A}
      → pairs_of between a later ≡ ok pairs
      → In b later
      → between a.1 b.1 ≡ ok (some m)
      → (p : CorrelatedPair A) × In p pairs × (p.first ≡ a) × (p.second ≡ b)
  unfolding pairs_of
  In-pairs_of between a b [] h i e = elim i [ ]
  In-pairs_of between a b (_ ∷ later) {pairs = pairs} {m = m} h here e =
      let (mag, e1, h1) = >>=-eq-ok-parts (between a.1 b.1) _ h in
      let (rest, e2, h2) = >>=-eq-ok-parts (pairs_of between a later) _ h1 in
      let listed : add_pair (some m) a b rest ≡ pairs =
        ap (λ o. add_pair o a b rest) (ok-injective (sym e ∙ e1)) ∙ ok-injective h2 in
      (
        record { magnitude = m; first = a; second = b },
        subst (λ ps. In (record { magnitude = m; first = a; second = b }) ps) listed here,
        refl,
        refl,
      )
  In-pairs_of between a b (c ∷ later) h (there i) e =
      let (mag, e1, h1) = >>=-eq-ok-parts (between a.1 c.1) _ h in
      let (rest, e2, h2) = >>=-eq-ok-parts (pairs_of between a later) _ h1 in
      let (p, j, f1, f2) = In-pairs_of between a b later e2 i e in
      (p, subst (λ ps. In p ps) (ok-injective h2) (In-add_pair mag a c j), f1, f2)

  In-all_pairs :
      (between : Accepted A → Accepted A → Result (Option A)) (a b : Indexed A)
      (xs : List (Indexed A)) {pairs : List (CorrelatedPair A)} {m : A}
      → all_pairs between xs ≡ ok pairs
      → Before a b xs
      → between a.1 b.1 ≡ ok (some m)
      → (p : CorrelatedPair A) × In p pairs × (p.first ≡ a) × (p.second ≡ b)
  unfolding all_pairs
  In-all_pairs between a b [] h i e = elim i [ ]
  In-all_pairs between a b (_ ∷ xs) h (at_head i) e =
      let (pairs, e1, h1) = >>=-eq-ok-parts (pairs_of between a xs) _ h in
      let (rest, e2, h2) = >>=-eq-ok-parts (all_pairs between xs) _ h1 in
      let (p, j, f1, f2) = In-pairs_of between a b xs e1 i e in
      (p, subst (λ ps. In p ps) (ok-injective h2) (In-append_left pairs rest j), f1, f2)
  In-all_pairs between a b (c ∷ xs) h (further i) e =
      let (pairs, e1, h1) = >>=-eq-ok-parts (pairs_of between c xs) _ h in
      let (rest, e2, h2) = >>=-eq-ok-parts (all_pairs between xs) _ h1 in
      let (p, j, f1, f2) = In-all_pairs between a b xs e2 i e in
      (p, subst (λ ps. In p ps) (ok-injective h2) (In-append_right pairs rest j), f1, f2)

  gone_kept :
      (x : Indexed A) (gone : List (Indexed A))
      → is_gone x.0 gone ≡ true
      → not (is_gone x.0 gone) ≡ true
      → true ≡ false
  gone_kept x gone g k = sym k ∙ ap not g

  -- No two of the survivors, the earlier before the later, have a correlation above the threshold.
  pub apply_correlation_check-separates :
      (between : Accepted A → Accepted A → Result (Option A)) (accepted : List (Accepted A))
      {survivors : List (Accepted A)} {rejected : List (Rejected A)}
      → apply_correlation_check between accepted ≡ ok (survivors, rejected)
      → (a b : Accepted A) (m : A) → Before a b survivors
      → between a b ≡ ok (some m)
      → true ≡ false
  unfolding apply_correlation_check
  apply_correlation_check-separates between accepted h a b m i e =
      let entries = indexed_from 0 accepted in
      let (pairs, e1, h1) = >>=-eq-ok-parts (all_pairs between entries) _ h in
      let by_magnitude = λ (p q : CorrelatedPair A). q.magnitude ≼ p.magnitude in
      let gone = eliminate (sort_by by_magnitude pairs) [] in
      let survives = λ (x : Indexed A). not (is_gone x.0 gone) in
      let (x, y, before, (kept_x, is_a), (kept_y, is_b)) =
        Before-kept_images survives (λ (x : Indexed A). x.1) entries
          (subst (λ l. Before a b l) (sym (ap (λ r. r.0) (ok-injective h1))) i) in
      let (p, j, is_x, is_y) =
        In-all_pairs between x y entries e1 before
          (ap (λ c. between c y.1) is_a ∙ ap (λ c. between a c) is_b ∙ e) in
      elim (eliminate-separates (sort_by by_magnitude pairs) [] p
        (In-sort_by by_magnitude pairs j)) [
          | inl g ↦ gone_kept x gone (ap (λ c. is_gone c.0 gone) (sym is_x) ∙ g) kept_x
          | inr g ↦ gone_kept y gone (ap (λ c. is_gone c.0 gone) (sym is_y) ∙ g) kept_y
        ]

  In-indexed_from :
      (n : ℕ) (xs : List (Accepted A)) (x : Indexed A) → In x (indexed_from n xs) → In x.1 xs
  In-indexed_from n [] x i = elim i [ ]
  In-indexed_from n (y ∷ ys) _ here = here
  In-indexed_from n (y ∷ ys) x (there i) = there (In-indexed_from (suc n) ys x i)

  -- A survivor was accepted.
  pub apply_correlation_check-In :
      (between : Accepted A → Accepted A → Result (Option A)) (accepted : List (Accepted A))
      {survivors : List (Accepted A)} {rejected : List (Rejected A)}
      → apply_correlation_check between accepted ≡ ok (survivors, rejected)
      → (a : Accepted A) → In a survivors
      → In a accepted
  unfolding apply_correlation_check
  apply_correlation_check-In between accepted h a i =
      let entries = indexed_from 0 accepted in
      let (pairs, e1, h1) = >>=-eq-ok-parts (all_pairs between entries) _ h in
      let by_magnitude = λ (p q : CorrelatedPair A). q.magnitude ≼ p.magnitude in
      let gone = eliminate (sort_by by_magnitude pairs) [] in
      let (x, j, (kept, is_a)) =
        In-kept_images (λ (x : Indexed A). not (is_gone x.0 gone)) (λ (x : Indexed A). x.1) entries
          (subst (λ l. In a l) (sym (ap (λ r. r.0) (ok-injective h1))) i) in
      subst (λ c. In c accepted) is_a (In-indexed_from 0 accepted x j)
