-- ===== src/Paper/Reconcile/Tests.antt =====
-- trader/paper/reconcile.py on the account of Fixture.antt, which the broker agrees or disagrees with.
use trader_pxg.Base.{
  String, ◌≡◌, refl, true, false, ◌⊎◌, none, List, [], ◌∷◌, In, ok, err, runtime_error, some,
  float_zero, ◌⊖◌, ◌≈◌,
}
use trader_pxg.Base.Int.{ℤ}
use trader_pxg.Base.Fixed.{fixed}
use trader_pxg.Paper.Store.{ibkr_paper, unexplained}
use trader_pxg.Paper.World.{World, Broker}
use trader_pxg.Paper.Reconcile.{
  Divergence, get_or, classify_divergence, is_entry_halted, run_reconcile_once,
  record_reconciliation, halt_state,
}
use trader_pxg.Paper.Reconcile.Classify.{IsListed, Reports, classify_divergence-lists_differences}
use trader_pxg.Paper.Reconcile.Halt.{
  Latched, Reconciled, run_reconcile_once-halts, reconciled, unchanged, Unattended-stays_halted,
}
use trader_pxg.Paper.Fixture.{dollars, account, quiet, taking}

abbrev as_given : List String → List String
as_given ks = ks

abbrev local_book : List (String × ℤ)
local_book = ("ACME", dollars 10) ∷ []

-- The broker holds 4 fewer.
abbrev broker_book : List (String × ℤ)
broker_book = ("ACME", dollars 6) ∷ []

abbrev disagreeing : Broker ℤ
disagreeing = record taking { positions = ok broker_book }

classify_divergence-lists_differences_example :
    ((k : String)
      → IsListed k local_book ⊎ IsListed k broker_book
      → ((get_or k float_zero broker_book ⊖ get_or k float_zero local_book) ≈ float_zero) ≡ false
      → (d : Divergence ℤ) × In d (classify_divergence as_given local_book broker_book [])
        × (d.symbol ≡ k))
    × ((d : Divergence ℤ)
        → In d (classify_divergence as_given local_book broker_book [])
        → Reports local_book broker_book [] d.symbol d)
classify_divergence-lists_differences_example =
    classify_divergence-lists_differences as_given local_book broker_book [] (λ k ks i. i)

run_reconcile_once-halts_example :
    let (r, after) = run_reconcile_once as_given disagreeing (some (err runtime_error)) quiet in
    Latched quiet after
    × Reconciled as_given (ok broker_book) (some (err runtime_error)) quiet r after
run_reconcile_once-halts_example =
    run_reconcile_once-halts as_given disagreeing (some (err runtime_error)) quiet

-- The quiet account after the reconciliation against the broker that disagrees.
abbrev halted : World ℤ
halted = record quiet {
  db =
      record_reconciliation (some "ACME") ibkr_paper (some (dollars 10)) (some (dollars 6))
        unexplained none account;
}

Unattended-stays_halted_example :
    is_entry_halted (run_reconcile_once as_given taking none halted).1.db ≡ true
unfolding record_reconciliation halt_state
Unattended-stays_halted_example =
    Unattended-stays_halted {w = halted} refl (reconciled as_given taking none unchanged)
