-- ===== src/Risk/Breakers/Values.antt =====
-- The values that trader/risk/breakers.py computes from the equity curve and the closed trades.
use mathlib.Core.List.{reverse, reverse-append, append_assoc}
use trader_pxg.Base.{
  suc, ◌≡◌, refl, sym, ◌∙◌, ap, ◌⊎◌, inl, inr, true, false, Option, none, some, List, [], ◌∷◌, ◌++◌,
  length, length-append, arith, All, In, here, there, Option-cases, Float, IsTotalOrder, float_zero,
  ◌⊖◌, ◌≺◌, ◌≼◌, maximum, maximum-ge_left, maximum-eq, divide-positive, maximum-ge_right, ok,
}
use trader_pxg.Risk.Config.{RiskConfig}
use trader_pxg.Risk.Breakers.{
  Evaluation, last_two, last_of, highest, leading_losses, daily_loss_of, drawdown_of, evaluation_of,
  evaluate_breakers,
}

module _ {ℓ} {B : Type ℓ} where
  length-reverse : (xs : List B) → length (reverse xs) ≡ length xs
  length-reverse [] = refl
  length-reverse (x ∷ xs) =
      ap length (reverse-append (x ∷ []) xs)
      ∙ length-append (reverse xs) (x ∷ [])
      ∙ omega (arith, length-reverse xs)

  All-append {κ} : (P : B → Type κ) (xs ys : List B) → All P xs → All P ys → All P (xs ++ ys)
  All-append P [] ys h k = k
  All-append P (x ∷ xs) ys (p, h) k = (p, All-append P xs ys h k)

  All-reverse {κ} : (P : B → Type κ) (xs : List B) → All P xs → All P (reverse xs)
  All-reverse P [] h = tt
  All-reverse P (x ∷ xs) (p, h) =
      rw (reverse-append (x ∷ []) xs) (All-append P (reverse xs) _ (All-reverse P xs h) (p, tt))

module _ {A : Type 0} ⦃f : Float A⦄ where
  abbrev pub IsLoss : A → Type 0
  IsLoss pnl = pnl ≺ float_zero ≡ true

  leading_losses-append :
      (losing : List A) (pnl : A) (older : List A)
      → All IsLoss losing
      → pnl ≺ float_zero ≡ false
      → leading_losses (losing ++ pnl ∷ older) ≡ length losing
  unfolding leading_losses
  leading_losses-append [] pnl older h k = rw k
  leading_losses-append (x ∷ losing) pnl older (p, h) k =
      rw p (ap suc (leading_losses-append losing pnl older h k))

  -- The count is the number of losses after the last trade that is not a loss, whatever the trades
  -- before it.
  pub leading_losses-eq-length :
      (older : List A) (pnl : A) (losing : List A)
      → All IsLoss losing
      → pnl ≺ float_zero ≡ false
      → leading_losses (reverse (older ++ pnl ∷ losing)) ≡ length losing
  leading_losses-eq-length older pnl losing h k =
      rw (reverse-append older (pnl ∷ losing), reverse-append (pnl ∷ []) losing)
        (rw append_assoc (
          leading_losses-append (reverse losing) pnl (reverse older) (All-reverse IsLoss losing h) k
          ∙ length-reverse losing))

  source :
      (e x : A) (es : List A) (w : A)
      → (maximum e x ≡ e) ⊎ (maximum e x ≡ x)
      → In w (maximum e x ∷ es)
      → In w (e ∷ x ∷ es)
  source e x es w split (there i) = there (there i)
  source e x es w (inl kept) here = rw kept here
  source e x es w (inr moved) here = rw moved (there here)

  module _ (o : IsTotalOrder f) where
    highest-bounds :
        (e : A) (es : List A)
        → (e ≼ highest e es ≡ true)
          × All (λ x. x ≼ highest e es ≡ true) es
          × In (highest e es) (e ∷ es)
    unfolding highest
    highest-bounds e [] = (o.at_most_refl e, tt, here)
    highest-bounds e (x ∷ es) =
        let (top, all, hit) = highest-bounds (maximum e x) es in
        (
          o.at_most_trans e _ _ (maximum-ge_left o e x) top,
          (o.at_most_trans x _ _ (maximum-ge_right o e x) top, all),
          source e x es _ (maximum-eq e x) hit,
        )

    prior-eq : (x y a b : A) → last_two (x ∷ y ∷ []) ≡ some (a, b) → x ≡ a
    prior-eq x y a b h = ground arith

    last_two-Positive :
        (es : List A) (a b : A)
        → All (λ x. x ≼ float_zero ≡ false) es
        → last_two es ≡ some (a, b)
        → a ≼ float_zero ≡ false
    last_two-Positive [] a b all h = cc
    last_two-Positive (x ∷ []) a b all h = cc
    last_two-Positive (x ∷ y ∷ []) a b (p, all) h = rw (sym (prior-eq x y a b h)) p
    last_two-Positive (x ∷ y ∷ z ∷ es) a b (p, all) h = last_two-Positive (y ∷ z ∷ es) a b all h

    daily_loss_of-total :
        (es : List A)
        → All (λ x. x ≼ float_zero ≡ false) es
        → (v : Option A) × (daily_loss_of es ≡ ok v)
    unfolding daily_loss_of
    daily_loss_of-total es all = elim (Option-cases (last_two es)) [
      | inl e ↦ (none, rw (e, daily_loss_of) refl)
      | inr ((a, b), e) ↦
          let q = f.quotient (b ⊖ a) a in
          (
            some q,
            rw (e, daily_loss_of, divide-positive o (b ⊖ a) a (last_two-Positive es a b all e))
                refl,
          )
    ]

    In-Positive :
        (w : A) (es : List A)
        → All (λ x. x ≼ float_zero ≡ false) es
        → In w es
        → w ≼ float_zero ≡ false
    In-Positive w [] all i = elim i [ ]
    In-Positive w (x ∷ es) (p, all) here = p
    In-Positive w (x ∷ es) (p, all) (there i) = In-Positive w es all i

    drawdown_of-eq :
        (e : A) (es : List A)
        → All (λ x. x ≼ float_zero ≡ false) (e ∷ es)
        → drawdown_of (e ∷ es) ≡ ok (some (f.quotient (last_of e es ⊖ highest e es) (highest e es)))
    unfolding drawdown_of
    drawdown_of-eq e es all =
        rw
          (divide-positive o (last_of e es ⊖ highest e es) (highest e es)
            (In-Positive _ _ all (highest-bounds e es).2))
          refl

    -- On a curve that stays above zero the evaluation does not raise: its drawdown is that of the
    -- last point from a point of the curve that no point exceeds, the breaker trips exactly when
    -- this is at or below the threshold.
    pub evaluate_breakers-high_water :
        (e : A) (es pnls : List A) (config : RiskConfig A)
        → All (λ x. x ≼ float_zero ≡ false) (e ∷ es)
        → (ev : Evaluation A) × (hwm : A) × (evaluate_breakers (e ∷ es) pnls config ≡ ok ev)
          × In hwm (e ∷ es)
          × All (λ x. x ≼ hwm ≡ true) (e ∷ es)
          × (ev.drawdown_value ≡ some (f.quotient (last_of e es ⊖ hwm) hwm))
          × (ev.drawdown_tripped
              ≡ (f.quotient (last_of e es ⊖ hwm) hwm ≼ config.breaker_drawdown_pct))
    unfolding evaluate_breakers
    evaluate_breakers-high_water e es pnls config positive =
        let (top, all, hit) = highest-bounds e es in
        let (v, daily) = daily_loss_of-total (e ∷ es) positive in
        let hwm = highest e es in
        (
          evaluation_of v (some (f.quotient (last_of e es ⊖ hwm) hwm))
              (leading_losses (reverse pnls)) config,
          hwm,
          rw (daily, drawdown_of-eq e es positive) refl,
          hit,
          (top, all),
          refl,
          refl,
        )
