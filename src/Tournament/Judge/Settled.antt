-- ===== src/Tournament/Judge/Settled.antt =====
-- The loops of trader/tournament/judge.py over strategies of different names: none of the rounds
-- raises, and in the end each decision states what the registry says.
use mathlib.Core.Option
use mathlib.Core.Path.{subst}
use trader_pxg.Base.{
  String, ◌≡◌, refl, ap, sym, ◌∙◌, Bool, false, some, List, [], ◌∷◌, ◌++◌, map, any, ◌==◌, eq_iff,
  All, All-append, arith, ok, err, ok-injective,
}
use trader_pxg.Paper.Store.{PaperTrade}
use trader_pxg.Tournament.Registry.{Entrant, Roster}
use trader_pxg.Tournament.Pipeline.Lookup.{row_of, state_of}
use trader_pxg.Tournament.Judge.{Decision, Verdicts}
use trader_pxg.Tournament.Judge.Run.{one_decision, extended, then_loop, rounds}
use trader_pxg.Tournament.Judge.Round.{Settled}

abbrev pub is_among : String → List String → Bool
is_among name names = any (λ n. n == name) names

abbrev pub AreDifferent : List String → Type 0
AreDifferent [] = Unit
AreDifferent (n ∷ ns) = (is_among n ns ≡ false) × AreDifferent ns

any-append_false :
    (other : String) (ns ms : List String)
    → is_among other (ns ++ ms) ≡ false
    → (is_among other ns ≡ false) × (is_among other ms ≡ false)
any-append_false other [] ms h = (refl, h)
any-append_false other (n ∷ ns) ms h = ground (arith, any-append_false other ns ms)

module _ {A : Type 0} where
  -- The decision says of its strategy what the registry says.
  abbrev pub IsStated : Roster A → Decision A → Type 0
  IsStated r d = state_of d.profile_name r ≡ some d.new_state

  abbrev pub names_of : List (Decision A) → List String
  names_of ds = map (λ (d : Decision A). d.profile_name) ds

  pub record AllSettled (names : List String) (r : Roster A) (v : Verdicts A (List (Decision A)))
      : Type 0 where
    pub decisions : List (Decision A)
    pub answered : v.1 ≡ ok decisions
    pub named : names_of decisions ≡ names
    pub stated : All (IsStated v.0) decisions
    pub others : (other : String) → is_among other names ≡ false → row_of other v.0 ≡ row_of other r
    pub trades_kept : v.0.paper.trades ≡ r.paper.trades

  one-AllSettled :
      (name : String) (r : Roster A) (v : Verdicts A (Decision A))
      → Settled name r v
      → AllSettled (name ∷ []) r (one_decision v)
  one-AllSettled name r (after, answer) h = rw h.answered (record {
    decisions = h.decision ∷ [];
    answered = refl;
    named = rw h.named refl;
    stated = (rw h.named h.stated, tt);
    others = λ other e. h.others other (ground arith);
    trades_kept = h.trades_kept;
  })

  -- Decisions on other strategies leave what was stated true.
  IsStated-later :
      (ds : List (Decision A)) (names : List String) (r after : Roster A)
      → ((other : String) → is_among other names ≡ false → row_of other after ≡ row_of other r)
      → All (λ name. is_among name names ≡ false) (names_of ds)
      → All (IsStated r) ds
      → All (IsStated after) ds
  IsStated-later [] names r after others apart h = tt
  IsStated-later (d ∷ ds) names r after others (away, apart) (h, hs) = (
    ap (Option.map (λ (row : Entrant A). row.state)) (others d.profile_name away) ∙ h,
    IsStated-later ds names r after others apart hs,
  )

  names-append :
      (ds more : List (Decision A)) → names_of (ds ++ more) ≡ names_of ds ++ names_of more
  names-append [] more = refl
  names-append (d ∷ ds) more = ap (λ rest. d.profile_name ∷ rest) (names-append ds more)

  extended-AllSettled :
      (ns ms : List String) (r middle : Roster A) (w : Verdicts A (List (Decision A)))
      (ds : List (Decision A))
      → AllSettled ns r (middle, ok ds)
      → AllSettled ms middle w
      → All (λ name. is_among name ms ≡ false) ns
      → AllSettled (ns ++ ms) r (extended ds w)
  extended-AllSettled ns ms r middle (after, answer) ds h k apart =
      let same = ok-injective h.answered in
      rw k.answered (record {
        decisions = ds ++ k.decisions;
        answered = refl;
        named = names-append ds k.decisions ∙ (rw (k.named, same, h.named) refl);
        stated =
            All-append (IsStated after) ds k.decisions
              (IsStated-later ds ms middle after k.others
                (subst (All (λ name. is_among name ms ≡ false))
                  (sym h.named ∙ ap names_of (sym same)) apart)
                (subst (All (IsStated middle)) (sym same) h.stated))
              k.stated;
        others = λ other e.
            let (away, apart_too) = any-append_false other ns ms e in
            k.others other apart_too ∙ h.others other away;
        trades_kept = k.trades_kept ∙ h.trades_kept;
      })

  pub then-AllSettled :
      (ns ms : List String) (r : Roster A) (v : Verdicts A (List (Decision A)))
      (rest : Roster A → Verdicts A (List (Decision A)))
      → AllSettled ns r v
      → AllSettled ms v.0 (rest v.0)
      → All (λ name. is_among name ms ≡ false) ns
      → AllSettled (ns ++ ms) r (then_loop v rest)
  then-AllSettled ns ms r (middle, ok ds) rest h k apart =
      extended-AllSettled ns ms r middle (rest middle) ds h k apart
  then-AllSettled ns ms r (middle, err e) rest h k apart = absurd h.answered
    where
      absurd :
          {ds : List (Decision A)}
          → err e ≡ ok ds
          → AllSettled (ns ++ ms) r (then_loop (middle, err e) rest)
      absurd h = cc

  module _ {X : Type 0} (row_at : X → Entrant A) (judge : X → Roster A → Verdicts A (Decision A))
      (trades : List (PaperTrade A)) where
    abbrev pub name_at : X → String
    name_at x = (row_at x).profile_name

    -- A round settles its row, wherever the registry has it as it was.
    abbrev pub Settles : X → Type 0
    Settles x =
        (r : Roster A)
        → r.paper.trades ≡ trades
        → row_of (name_at x) r ≡ some (row_at x)
        → Settled (name_at x) r (judge x r)

    still-there :
        (name : String) (r after : Roster A) (xs : List X)
        → ((other : String)
            → is_among other (name ∷ []) ≡ false
            → row_of other after ≡ row_of other r)
        → is_among name (map name_at xs) ≡ false
        → All (λ x. row_of (name_at x) r ≡ some (row_at x)) xs
        → All (λ x. row_of (name_at x) after ≡ some (row_at x)) xs
    still-there name r after [] others apart h = tt
    still-there name r after (x ∷ xs) others apart (h, hs) = (
      others (name_at x) (ground (arith, eq_iff name (name_at x), eq_iff (name_at x) name)) ∙ h,
      still-there name r after xs others (ground arith) hs,
    )

    pub rounds-AllSettled :
        (xs : List X) (r : Roster A)
        → AreDifferent (map name_at xs)
        → r.paper.trades ≡ trades
        → All (λ x. row_of (name_at x) r ≡ some (row_at x)) xs
        → All Settles xs
        → AllSettled (map name_at xs) r (rounds judge xs r)
    rounds-AllSettled [] r different same there each = record {
      decisions = [];
      answered = refl;
      named = refl;
      stated = tt;
      others = λ other e. refl;
      trades_kept = refl;
    }
    rounds-AllSettled (x ∷ xs) r (apart, different) same (there, theres) (each, rest) =
        let first = one-AllSettled (name_at x) r (judge x r) (each r same there) in
        then-AllSettled (name_at x ∷ []) (map name_at xs) r (one_decision (judge x r))
          (rounds judge xs) first
          (rounds-AllSettled xs (one_decision (judge x r)).0 different (first.trades_kept ∙ same)
            (still-there (name_at x) r (one_decision (judge x r)).0 xs first.others apart theres)
            rest)
          (apart, tt)
