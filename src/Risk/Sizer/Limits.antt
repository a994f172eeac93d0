-- ===== src/Risk/Sizer/Limits.antt =====
-- The limits that trader/risk/sizer.py keeps.
use mathlib.Core.Path.{subst}
use trader_pxg.Base.{
  ℕ, zero, suc, insert_by, ◌-◌, ◌≤◌, ◌≡◌, refl, sym, ap, ◌∙◌, Bool, true, false, List, [], ◌∷◌, map,
  arith, length, take, sort_by, length-sort_by, All, Bool-cases, inl, inr, if◌then◌else◌, Float,
  IsTotalOrder, float_zero, float_one, ◌⊖◌, ◌⊗◌, ◌≼◌, ◌≈◌, divide, minimum, minimum-le_right, ok,
}
use trader_pxg.Backtest.Metrics.{sum}
use trader_pxg.Risk.Config.{RiskConfig}
use trader_pxg.Risk.Sizer.{
  Candidate, Holding, Sizing, is_memecoin, weights_of, reweight, held, raw_weights, recapped,
  final_weights, open_weight_sum, sized, size_positions,
}

length-map : {A B : Type 0} (g : A → B) (xs : List A) → length (map g xs) ≡ length xs
length-map g [] = refl
length-map g (x ∷ xs) = omega (arith, length-map g xs)

length-take_le : {A : Type 0} (n : ℕ) (xs : List A) → length (take n xs) ≤ n
length-take_le zero xs = omega arith
length-take_le (suc n) [] = omega arith
length-take_le (suc n) (x ∷ xs) = omega (arith, length-take_le n xs)

length-take_all : {A : Type 0} (n : ℕ) (xs : List A) → length (take n xs) ≤ length xs
length-take_all zero xs = omega arith
length-take_all (suc n) [] = omega arith
length-take_all (suc n) (x ∷ xs) = omega (arith, length-take_all n xs)

All-take : {A : Type 0} (P : A → Type 0) (n : ℕ) (xs : List A) → All P xs → All P (take n xs)
All-take P zero xs h = tt
All-take P (suc n) [] h = tt
All-take P (suc n) (x ∷ xs) (p, h) = (p, All-take P n xs h)

insert_by-All :
    {A : Type 0} (P : A → Type 0) (le : A → A → Bool) (x : A) (xs : List A)
    → P x
    → All P xs
    → All P (insert_by le x xs)
insert_by-All P le x [] p h = (p, tt)
insert_by-All P le x (y ∷ ys) p (q, h) = elim (Bool-cases (le x y)) [
  | inl e ↦ rw e (p, (q, h))
  | inr e ↦ rw e (q, insert_by-All P le x ys p h)
]

sort_by-All :
    {A : Type 0} (P : A → Type 0) (le : A → A → Bool) (xs : List A)
    → All P xs
    → All P (sort_by le xs)
sort_by-All P le [] h = tt
sort_by-All P le (x ∷ xs) (p, h) = insert_by-All P le x (sort_by le xs) p (sort_by-All P le xs h)

either : {B : Type 0} (P : B → Type 0) (b : Bool) {x y : B} → P x → P y → P (if b then x else y)
either P true p q = p
either P false p q = q

module _ {A : Type 0} ⦃f : Float A⦄ where
  -- A candidate whose volatility does not divide by zero.
  abbrev pub IsPriced : Candidate A → Type 0
  IsPriced c = c.volatility ≈ float_zero ≡ false

  -- What the limits say of a position: one that is not a memecoin is at most the single cap.
  abbrev pub IsCapped : RiskConfig A → Holding A → Type 0
  IsCapped config h =
      is_memecoin h.asset_class ≡ false → h.weight ≼ config.sizer_single_position_cap ≡ true

  raw_weights-eq-ok :
      (cs : List (Candidate A))
      → All IsPriced cs
      → (raw : List (Candidate A × A)) × (raw_weights cs ≡ ok raw) × (length raw ≡ length cs)
  unfolding raw_weights divide
  raw_weights-eq-ok [] h = ([], refl, refl)
  raw_weights-eq-ok (c ∷ cs) (p, h) =
      let (raw, e, n) = raw_weights-eq-ok cs h in
      ((c, f.quotient c.score c.volatility) ∷ raw, rw (p, e) refl, omega (arith, n))

  scaled-IsCapped :
      (config : RiskConfig A) (scale : A) (entries : List (Candidate A × A))
      → All (λ (e : Candidate A × A). IsCapped config (held e)) entries
      → All
          (λ (e : Candidate A × A). IsCapped config (held e))
          (map
            (λ (entry : Candidate A × A).
              (entry.0, if is_memecoin entry.0.asset_class then entry.1 ⊗ scale else entry.1))
            entries)
  scaled-IsCapped config scale [] h = tt
  scaled-IsCapped config scale (e ∷ es) (p, h) = (
    λ other.
        subst (λ w. w ≼ config.sizer_single_position_cap ≡ true)
          (sym (ap (λ b. if b then e.1 ⊗ scale else e.1) other)) (p other),
    scaled-IsCapped config scale es h,
  )

  recapped-IsCapped :
      (config : RiskConfig A) (open_weight memecoin_cap : A) (entries : List (Candidate A × A))
      → All (λ (e : Candidate A × A). IsCapped config (held e)) entries
      → All
          (λ (e : Candidate A × A). IsCapped config (held e))
          (recapped open_weight memecoin_cap entries)
  unfolding recapped
  recapped-IsCapped config open_weight memecoin_cap entries h =
      either (λ es. All (λ (e : Candidate A × A). IsCapped config (held e)) es) _
        (scaled-IsCapped config _ entries h) h

  length-recapped :
      (open_weight memecoin_cap : A) (entries : List (Candidate A × A))
      → length (recapped open_weight memecoin_cap entries) ≡ length entries
  unfolding recapped
  length-recapped open_weight memecoin_cap entries =
      either (λ (es : List (Candidate A × A)). length es ≡ length entries) _ (length-map _ entries)
        refl

  reweight-IsCapped :
      IsTotalOrder f
      → (config : RiskConfig A) (g : A → A) (entries : List (Candidate A × A))
      → All
          (λ (e : Candidate A × A). IsCapped config (held e))
          (reweight (λ w. minimum (g w) config.sizer_single_position_cap) entries)
  reweight-IsCapped o config g [] = tt
  reweight-IsCapped o config g (e ∷ es) = (
    λ _. minimum-le_right o (g e.1) config.sizer_single_position_cap,
    reweight-IsCapped o config g es,
  )

  held-All :
      (P : Holding A → Type 0) (entries : List (Candidate A × A))
      → All (λ (e : Candidate A × A). P (held e)) entries
      → All P (map held entries)
  held-All P [] h = tt
  held-All P (e ∷ es) (p, h) = (p, held-All P es h)

  weights-held :
      (entries : List (Candidate A × A))
      → map (λ (h : Holding A). h.weight) (map held entries) ≡ weights_of entries
  weights-held [] = refl
  weights-held (e ∷ es) = ap (λ ws. e.1 ∷ ws) (weights-held es)

  final_weights-IsCapped :
      IsTotalOrder f
      → (raw : List (Candidate A × A)) (open_positions : List (Holding A)) (config : RiskConfig A)
      → All
          (λ (e : Candidate A × A). IsCapped config (held e))
          (final_weights raw open_positions config)
  unfolding final_weights
  final_weights-IsCapped o raw open_positions config =
      recapped-IsCapped config _ _ _ (reweight-IsCapped o config _ raw)

  length-final_weights :
      (raw : List (Candidate A × A)) (open_positions : List (Holding A)) (config : RiskConfig A)
      → length (final_weights raw open_positions config) ≡ length raw
  unfolding final_weights
  length-final_weights raw open_positions config = length-recapped _ _ _ ∙ length-map _ raw

  sized-limits :
      IsTotalOrder f
      → (raw : List (Candidate A × A)) (open_positions : List (Holding A)) (config : RiskConfig A)
      → let s = sized raw open_positions config in
        (length s.positions ≡ length raw)
        × All (IsCapped config) s.positions
        × (s.cash_weight
            ≡ (float_one ⊖ open_weight_sum open_positions) ⊖ open_weight_sum s.positions)
  unfolding sized
  sized-limits o raw open_positions config =
      let final = final_weights raw open_positions config in
      (
        length-map held final ∙ length-final_weights raw open_positions config,
        held-All (IsCapped config) final (final_weights-IsCapped o raw open_positions config),
        ap (λ ws. (float_one ⊖ open_weight_sum open_positions) ⊖ sum ws) (sym (weights-held final)),
      )

  -- Where no volatility is zero the sizer returns: no more positions than there are free slots and
  -- candidates, each that is not a memecoin at most the cap of a single position, and as cash what
  -- the open and the new positions leave of the whole.
  pub size_positions-limits :
      IsTotalOrder f
      → (scored_candidates : List (Candidate A)) (equity : A) (open_positions : List (Holding A))
        (config : RiskConfig A)
      → All IsPriced scored_candidates
      → (s : Sizing A) × (size_positions scored_candidates equity open_positions config ≡ ok s)
        × (length s.positions ≤ config.sizer_top_n - length open_positions)
        × (length s.positions ≤ length scored_candidates)
        × All (IsCapped config) s.positions
        × (s.cash_weight
            ≡ (float_one ⊖ open_weight_sum open_positions) ⊖ open_weight_sum s.positions)
  unfolding size_positions
  size_positions-limits o scored_candidates equity open_positions config priced =
      let slots = config.sizer_top_n - length open_positions in
      let by_score = λ (a b : Candidate A). b.score ≼ a.score in
      let sorted = sort_by by_score scored_candidates in
      let (raw, e, n) =
        raw_weights-eq-ok (take slots sorted) (
          All-take IsPriced slots sorted
            (sort_by-All IsPriced by_score scored_candidates priced)) in
      let (same, capped, cash) = sized-limits o raw open_positions config in
      (
        sized raw open_positions config,
        rw e refl,
        omega (arith, same, n, length-take_le slots sorted),
        omega (
          arith,
          same,
          n,
          length-take_all slots sorted,
          length-sort_by by_score scored_candidates,
        ),
        capped,
        cash,
      )
