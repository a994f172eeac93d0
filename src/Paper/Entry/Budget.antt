-- ===== src/Paper/Entry/Budget.antt =====
-- The nightly budget of trader/paper/entry_pipeline.py: what a run's orders cost, at the closes
-- they are sized with, taken from the budget one after the other, never overdraws it.
use mathlib.Core.List.{append_assoc}
use mathlib.Core.Path.{subst}
use trader_pxg.Base.{
  ℕ, String, ◌≡◌, refl, sym, ap, ◌∙◌, inl, inr, true, false, not, none, List, [], ◌∷◌, ◌++◌,
  Bool-cases, if◌then◌else◌, Float, ◌≼◌, float_zero, float_one, ◌⊖◌, ◌⊗◌, minimum, Result, ok, err,
  arith, IsTotalOrder, minimum-le_right,
}
use trader_pxg.Risk.Sizer.{Holding}
use trader_pxg.Paper.World.{World, Placed, Broker, Act, gets, lift, pure, ◌>>=◌}
use trader_pxg.Paper.World.Keeps.{Leads, bind-Leads, lift-Leads, if-Leads}
use trader_pxg.Paper.Guardian.{Today}
use trader_pxg.Paper.Guardian.Limits.{HasSent}
use trader_pxg.Paper.Entry.{Market, EntryCandidate, scan_candidates, last_close, round_shares_down}
use trader_pxg.Paper.Entry.Run.{not_a_trading_day, entry_ref, enter_position, listed_if}
use trader_pxg.Paper.Guardian.Kill.{paper_account_equity}
use trader_pxg.Paper.Entry.Once.{
  is_on_probation, paper_nightly_budget, shares_for, enter_all, enter_candidates,
  run_entry_pipeline_once,
}
use trader_pxg.Paper.Entry.Invariant.{heal_pass-Keeps}
use trader_pxg.Tournament.Frozen.{probation_size_multiplier}
use trader_pxg.Paper.Entry.Persist.{buy_call}
use trader_pxg.Paper.Entry.Sends.{HasSentOne, enter_position-sends}
use trader_pxg.Tournament.Live.{LiveStrategy}

-- What the budget's arithmetic needs of floats that are numbers: rounding is monotone.
pub record IsSpendable {A : Type 0} (f : Float A) : Type 0 where
  pub ordered : IsTotalOrder f
  pub floor_le :
      (d p : A)
      → f.at_most p (f.dec 0 0) ≡ false
      → f.at_most (f.multiply (f.floor_quotient d p) p) d ≡ true
  pub subtract_nonneg :
      (a b : A) → f.at_most a b ≡ true → f.at_most (f.dec 0 0) (f.subtract b a) ≡ true
  pub subtract_le : (a b : A) → f.at_most (f.dec 0 0) b ≡ true → f.at_most (f.subtract a b) a ≡ true
  pub subtract_mono :
      (a b c : A) → f.at_most a b ≡ true → f.at_most (f.subtract a c) (f.subtract b c) ≡ true
  pub multiply_nonneg :
      (a b : A)
      → f.at_most (f.dec 0 0) a ≡ true
      → f.at_most (f.dec 0 0) b ≡ true
      → f.at_most (f.dec 0 0) (f.multiply a b) ≡ true

module _ {A : Type 0} ⦃f : Float A⦄ (market : Market A) where
  abbrev pub cost_at : A → Result A → A
  cost_at qty (ok price) = qty ⊗ price
  cost_at qty (err e) = float_zero

  -- The cost of an order at the last close of its symbol.
  abbrev pub cost_of : Placed A → A
  cost_of call = cost_at call.qty (last_close (market.bars call.symbol))

  -- What the calls, the newest first, leave of a budget.
  abbrev pub left_of : A → List (Placed A) → A
  left_of budget [] = budget
  left_of budget (call ∷ calls) = left_of budget calls ⊖ cost_of call

  -- Since those calls, some more were made, whose costs the budget covers.
  abbrev pub IsCovered : A → List (Placed A) → World A → Type 0
  IsCovered budget calls w =
      (more : List (Placed A)) × (w.placed ≡ more ++ calls)
      × (float_zero ≼ left_of budget more ≡ true)

  left_of-append :
      (budget : A) (call : Placed A) (more : List (Placed A))
      → left_of budget (more ++ call ∷ []) ≡ left_of (budget ⊖ cost_of call) more
  left_of-append budget call [] = refl
  left_of-append budget call (c ∷ more) = ap (λ b. b ⊖ cost_of c) (left_of-append budget call more)

  left_of_mono :
      (laws : IsSpendable f) (a b : A) (more : List (Placed A))
      → a ≼ b ≡ true
      → left_of a more ≼ left_of b more ≡ true
  left_of_mono laws a b [] h = h
  left_of_mono laws a b (call ∷ more) h =
      laws.subtract_mono (left_of a more) (left_of b more) (cost_of call)
        (left_of_mono laws a b more h)

  -- A larger budget covers as much, and one more call costs what it costs.
  larger-IsCovered :
      (laws : IsSpendable f) (a b : A) (calls : List (Placed A)) (w : World A)
      → a ≼ b ≡ true
      → IsCovered a calls w
      → IsCovered b calls w
  larger-IsCovered laws a b calls w h (more, sent, covered) = (
    more,
    sent,
    laws.ordered.at_most_trans float_zero (left_of a more) (left_of b more) covered
        (left_of_mono laws a b more h),
  )

  further-IsCovered :
      (budget : A) (call : Placed A) (calls : List (Placed A)) (w : World A)
      → IsCovered (budget ⊖ cost_of call) (call ∷ calls) w
      → IsCovered budget calls w
  further-IsCovered budget call calls w (more, sent, covered) = (
    more ++ call ∷ [],
    sent ∙ sym (append_assoc more (call ∷ []) calls),
    ap (λ b. float_zero ≼ b) (left_of-append budget call more) ∙ covered,
  )

  -- The shares are paid for by the budget, at a price above zero.
  shares-cost :
      (laws : IsSpendable f) (cfg : LiveStrategy A) (weight price budget : A) {qty : A}
      → shares_for cfg weight price budget ≡ ok qty
      → qty ≼ float_zero ≡ false
      → (qty ⊗ price ≼ budget ≡ true) × (float_zero ≼ (qty ⊗ price) ≡ true)
  unfolding shares_for round_shares_down
  shares-cost laws cfg weight price budget {qty} sized bought =
      let o = laws.ordered in
      let wish =
        (weight ⊗ paper_account_equity)
        ⊗ (if is_on_probation cfg.state then probation_size_multiplier else float_one) in
      let spent = minimum wish budget in
      elim (Bool-cases (price ≼ float_zero)) [
        | inl e ↦ ground (arith, o.at_most_refl float_zero)
        | inr e ↦
            let same : f.floor_quotient spent price ≡ qty = ground arith in
            let within : f.floor_quotient spent price ⊗ price ≼ budget ≡ true =
              o.at_most_trans (f.floor_quotient spent price ⊗ price) spent budget
                (laws.floor_le spent price e) (minimum-le_right o wish budget) in
            (
              subst (λ q. q ⊗ price ≼ budget ≡ true) same within,
              laws.multiply_nonneg qty price (o.at_most_total qty float_zero bought)
                  (o.at_most_total price float_zero e),
            )
      ]

  -- One round: the order of the position, if any, and then the rest within what is left.
  enter_one-Leads :
      (calls : List (Placed A)) (broker : Broker A) (today : Today) (now : ℕ) (cfg : LiveStrategy A)
      (symbol : String) (price qty : A)
      → Leads
          (HasSent calls)
          (HasSentOne calls (buy_call symbol qty (entry_ref today cfg symbol)))
          (enter_position broker today now cfg symbol price qty)
  enter_one-Leads calls broker today now cfg symbol price qty w sent =
      elim (enter_position-sends broker today now cfg symbol price qty w) [
        | inl p ↦ inl (p ∙ sent)
        | inr (free, open_for, p) ↦
            inr (p ∙ ap (λ c. buy_call symbol qty (entry_ref today cfg symbol) ∷ c) sent)
      ]

  nothing-IsCovered :
      (budget : A) (calls : List (Placed A)) (w : World A)
      → float_zero ≼ budget ≡ true
      → HasSent calls w
      → IsCovered budget calls w
  nothing-IsCovered budget calls w h sent = ([], sent, h)

  -- A price that a call is made at is the close of its symbol.
  priced-cost :
      (symbol : String) (qty price : A) (ref : String)
      → last_close (market.bars symbol) ≡ ok price
      → cost_of (buy_call symbol qty ref) ≡ qty ⊗ price
  priced-cost symbol qty price ref h = rw h refl

  -- One round of the loop at its price, from what the rest of the loop does on any budget.
  round :
      (laws : IsSpendable f) (broker : Broker A) (today : Today) (now : ℕ) (cfg : LiveStrategy A)
      (symbol : String) (price qty budget : A) (calls : List (Placed A))
      → float_zero ≼ budget ≡ true
      → last_close (market.bars symbol) ≡ ok price
      → (qty ≼ float_zero ≡ false
          → (qty ⊗ price ≼ budget ≡ true) × (float_zero ≼ (qty ⊗ price) ≡ true))
      → (loop : A → Act A (List String))
      → ((b : A) (later : List (Placed A))
          → float_zero ≼ b ≡ true
          → Leads (HasSent later) (IsCovered b later) (loop b))
      → Leads (HasSent calls) (IsCovered budget calls) (
          (if qty ≼ float_zero
            then pure none
            else enter_position broker today now cfg symbol price qty)
          >>= λ submitted.
              loop (if qty ≼ float_zero then budget else budget ⊖ (qty ⊗ price)) >>= λ rest.
              pure (listed_if submitted rest))
  round laws broker today now cfg symbol price qty budget calls h priced paid loop rest =
      elim (Bool-cases (qty ≼ float_zero)) [
        | inl few ↦ rw few (
            bind-Leads (HasSent calls) (HasSent calls) (IsCovered budget calls) _ _ (λ w p. p)
              (λ w p. nothing-IsCovered budget calls w h p)
              (λ submitted.
                bind-Leads (HasSent calls) (IsCovered budget calls) (IsCovered budget calls) _ _
                  (rest budget calls h) (λ w p. p) (λ _ w p. p)))
        | inr bought ↦
            let call = buy_call symbol qty (entry_ref today cfg symbol) in
            let left = budget ⊖ (qty ⊗ price) in
            let (within, costly) = paid bought in
            let solvent = laws.subtract_nonneg (qty ⊗ price) budget within in
            let less = laws.subtract_le budget (qty ⊗ price) costly in
            let exact = priced-cost symbol qty price (entry_ref today cfg symbol) priced in
            let from_left = (λ (w : World A) (c : IsCovered left calls w).
              larger-IsCovered laws left budget calls w less c) in
            let from_call = (λ (w : World A) (c : IsCovered left (call ∷ calls) w).
              further-IsCovered budget call calls w
                (subst (λ x. IsCovered (budget ⊖ x) (call ∷ calls) w) (sym exact) c)) in
            rw bought (
              bind-Leads (HasSent calls) (HasSentOne calls call) (IsCovered budget calls) _ _
                (enter_one-Leads calls broker today now cfg symbol price qty)
                (λ w sent. elim sent [
                  | inl p ↦ nothing-IsCovered budget calls w h p
                  | inr p ↦ from_call w (nothing-IsCovered left (call ∷ calls) w solvent p)
                ])
                (λ submitted.
                  bind-Leads (HasSentOne calls call) (IsCovered budget calls)
                    (IsCovered budget calls) _ _
                    (λ w sent. elim sent [
                      | inl p ↦ from_left (loop left w).1 (rest left calls solvent w p)
                      | inr p ↦ from_call (loop left w).1 (rest left (call ∷ calls) solvent w p)
                    ])
                    (λ w p. p) (λ _ w p. p)))
      ]

  enter_all-IsCovered :
      (laws : IsSpendable f) (broker : Broker A) (today : Today) (now : ℕ)
      (configs : List (LiveStrategy A)) (by_family : List (String × List String))
      (candidates : List (EntryCandidate A)) (positions : List (Holding A)) (budget : A)
      (calls : List (Placed A))
      → float_zero ≼ budget ≡ true
      → Leads
          (HasSent calls)
          (IsCovered budget calls)
          (enter_all broker today now market configs by_family candidates budget positions)
  unfolding enter_all
  enter_all-IsCovered laws broker today now configs by_family candidates [] budget calls h =
      λ w. nothing-IsCovered budget calls w h
  enter_all-IsCovered laws broker today now configs by_family candidates (position ∷ positions)
        budget calls h =
      let nothing = λ (w : World A). nothing-IsCovered budget calls w h in
      let rest = enter_all-IsCovered laws broker today now configs by_family candidates positions in
      lift-Leads (HasSent calls) (IsCovered budget calls) _ _ nothing (λ cfg _.
        lift-Leads (HasSent calls) (IsCovered budget calls) _ _ nothing (λ price priced.
          lift-Leads (HasSent calls) (IsCovered budget calls) _ _ nothing (λ qty sized.
            round laws broker today now cfg position.symbol price qty budget calls h priced
              (shares-cost laws cfg position.weight price budget sized)
              (λ b. enter_all broker today now market configs by_family candidates b positions)
              rest)))

  enter_candidates-IsCovered :
      (laws : IsSpendable f) (broker : Broker A) (today : Today) (now : ℕ)
      (configs : List (LiveStrategy A)) (healed : List String)
      (candidates : List (EntryCandidate A)) (calls : List (Placed A))
      → ◌≼◌ {A = A} float_zero paper_nightly_budget ≡ true
      → Leads
          (HasSent calls)
          (IsCovered paper_nightly_budget calls)
          (enter_candidates broker today now market configs healed candidates)
  unfolding enter_candidates
  enter_candidates-IsCovered laws broker today now configs healed [] calls h =
      λ w. nothing-IsCovered paper_nightly_budget calls w h
  enter_candidates-IsCovered laws broker today now configs healed (c ∷ cs) calls h =
      let P = HasSent calls in
      let R = IsCovered paper_nightly_budget calls in
      let nothing = λ (w : World A). nothing-IsCovered paper_nightly_budget calls w h in
      bind-Leads P P R _ _ (λ w p. p) nothing
        (λ gated.
          bind-Leads P P R _ _ (λ w p. p) nothing
            (λ families.
              bind-Leads P P R _ _ (λ w p. p) nothing
                (λ by_family.
                  bind-Leads P P R _ _ (λ w p. p) nothing
                    (λ held.
                      bind-Leads P P R _ _ (λ w p. p) nothing
                        (λ sized.
                          bind-Leads P R R _ _
                            (enter_all-IsCovered laws broker today now configs by_family (c ∷ cs)
                              sized.positions paper_nightly_budget calls h)
                            (λ w p. p)
                            (λ _. bind-Leads R R R _ _ (λ w p. p) (λ w p. p) (λ _ w p. p)))))))

  -- Where the floats are numbers, the orders that a run sends, wherever it raises, are covered by
  -- the nightly budget: their costs at the last closes, taken from it one after the other, leave
  -- it at zero or above.
  pub run_entry_pipeline_once-IsCovered :
      IsSpendable f
      → (broker : Broker A) (configs : List (LiveStrategy A)) (today : Today) (now : ℕ)
        (w : World A)
      → ◌≼◌ {A = A} float_zero paper_nightly_budget ≡ true
      → IsCovered paper_nightly_budget w.placed
          (run_entry_pipeline_once broker market configs today now w).1
  unfolding run_entry_pipeline_once
  run_entry_pipeline_once-IsCovered laws broker configs today now w h =
      let P = HasSent w.placed in
      let R = IsCovered paper_nightly_budget w.placed in
      let nothing = λ (v : World A). nothing-IsCovered paper_nightly_budget w.placed v h in
      bind-Leads P P R _ _ (λ v p. p) nothing
        (λ orders.
          bind-Leads P P R _ _
            (heal_pass-Keeps P (λ n v p. p) (λ later row fill price v p. p)
              (λ later strategy_id symbol qty price ref exits v p. p) broker configs now orders)
            nothing
            (λ healed.
              if-Leads P R (not today.is_trading_day) (pure (not_a_trading_day healed))
                (gets (scan_candidates market configs) >>= λ scanned. lift scanned >>= λ candidates.
                  enter_candidates broker today now market configs healed candidates)
                (λ _ v p. nothing v p)
                (λ _.
                  bind-Leads P P R _ _ (λ v p. p) nothing
                    (λ scanned.
                      bind-Leads P P R _ _ (λ v p. p) nothing
                        (λ candidates.
                          enter_candidates-IsCovered laws broker today now configs healed candidates
                            w.placed h)))))
        w refl
