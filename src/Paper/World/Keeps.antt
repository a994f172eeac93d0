-- ===== src/Paper/World/Keeps.antt =====
-- Invariants of a run: what a statement keeps, a chain of statements keeps, a raise included.
use trader_pxg.Base.{
  ap, Error, Result-cases, inl, inr, ◌≡◌, refl, Bool, true, false, ◌∷◌, Result, ok, err,
  if◌then◌else◌,
}
use trader_pxg.Paper.Store.{Db}
use trader_pxg.Paper.World.{World, Act, Notice, pure, lift, execute, notify, ◌>>=◌, ◌>>◌}

module _ {A : Type 0} where
  -- From a world with the first property, a statement ends in one with the second, raise or not.
  abbrev pub Leads : {X : Type 0} → (World A → Type 0) → (World A → Type 0) → Act A X → Type 0
  Leads P Q m = (w : World A) → P w → Q (m w).1

  pub bind-Leads :
      {X Y : Type 0} (P Q R : World A → Type 0) (m : Act A X) (k : X → Act A Y)
      → Leads P Q m
      → ((w : World A) → Q w → R w)
      → ((x : X) → Leads Q R (k x))
      → Leads P R (m >>= k)
  unfolding ◌>>=◌
  bind-Leads P Q R m k hm weaker hk w p = elim (Result-cases (m w).0) [
    | inl (x, e) ↦ rw (e, ◌>>=◌) (hk x (m w).1 (hm w p))
    | inr (e, h) ↦ rw (h, ◌>>=◌) (weaker (m w).1 (hm w p))
  ]

  pub execute-ok :
      (g : Db A → Result (Db A)) (w : World A) {db : Db A}
      → g w.db ≡ ok db
      → execute g w ≡ (ok tt, record w { db = db })
  execute-ok g w e = rw (e, execute) refl

  pub execute-err :
      (g : Db A → Result (Db A)) (w : World A) {x : Error}
      → g w.db ≡ err x
      → execute g w ≡ (err x, w)
  execute-err g w e = rw (e, execute) refl

  pub bind-ok :
      {X Y : Type 0} (m : Act A X) (k : X → Act A Y) (w : World A) {x : X} {w' : World A}
      → m w ≡ (ok x, w')
      → (m >>= k) w ≡ k x w'
  unfolding ◌>>=◌
  bind-ok {X = X} m k w h =
      ap (λ (r : Result X × World A). elim r.0 [ ok x ↦ k x r.1 | err e ↦ (err e, r.1) ]) h

  pub bind-err :
      {X Y : Type 0} (m : Act A X) (k : X → Act A Y) (w : World A) {x : Error} {w' : World A}
      → m w ≡ (err x, w')
      → (m >>= k) w ≡ (err x, w')
  unfolding ◌>>=◌
  bind-err {X = X} m k w h =
      ap (λ (r : Result X × World A). elim r.0 [ ok x ↦ k x r.1 | err e ↦ (err e, r.1) ]) h

  -- A statement that can raise and then changes nothing, and what follows it when it does not.
  pub execute-Leads :
      {Y : Type 0} (P R : World A → Type 0) (g : Db A → Result (Db A)) (k : Unit {0} → Act A Y)
      → ((w : World A) → P w → R w)
      → ((w : World A) (db : Db A) → P w → g w.db ≡ ok db → R (k tt (record w { db = db })).1)
      → Leads P R (execute g >>= k)
  execute-Leads P R g k weaker h w p = elim (Result-cases (g w.db)) [
    | inl (db, e) ↦ rw (bind-ok (execute g) k w (execute-ok g w e)) (h w db p e)
    | inr (x, e) ↦ rw (bind-err (execute g) k w (execute-err g w e)) (weaker w p)
  ]

  -- The same where it is known not to raise.
  pub execute-Reaches :
      {Y : Type 0} (R : World A → Type 0) (g : Db A → Result (Db A)) (k : Unit {0} → Act A Y)
      (w : World A) {db : Db A}
      → g w.db ≡ ok db
      → R (k tt (record w { db = db })).1
      → R ((execute g >>= k) w).1
  execute-Reaches R g k w e h = rw (bind-ok (execute g) k w (execute-ok g w e)) h

  -- A call that returns or raises, and what follows it with its value.
  pub lift-Leads :
      {X Y : Type 0} (P R : World A → Type 0) (r : Result X) (k : X → Act A Y)
      → ((w : World A) → P w → R w)
      → ((x : X) → r ≡ ok x → Leads P R (k x))
      → Leads P R (lift r >>= k)
  unfolding ◌>>=◌
  lift-Leads P R (ok x) k weaker h = h x refl
  lift-Leads P R (err e) k weaker h = weaker

  -- What a statement returns or raises, together with the world that it leaves.
  abbrev pub Ends :
      {X : Type 0} → (World A → Type 0) → (Result X × World A → Type 0) → Act A X → Type 0
  Ends P R m = (w : World A) → P w → R (m w)

  pub bind-Ends :
      {X Y : Type 0} (P Q : World A → Type 0) (R : Result Y × World A → Type 0) (m : Act A X)
      (k : X → Act A Y)
      → Leads P Q m
      → ((w : World A) (e : Error) → Q w → R (err e, w))
      → ((x : X) → Ends Q R (k x))
      → Ends P R (m >>= k)
  unfolding ◌>>=◌
  bind-Ends P Q R m k hm raised hk w p = elim (Result-cases (m w).0) [
    | inl (x, e) ↦ rw (bind-ok m k w (ap (λ r. (r, (m w).1)) e)) (hk x (m w).1 (hm w p))
    | inr (x, e) ↦ rw (bind-err m k w (ap (λ r. (r, (m w).1)) e)) (raised (m w).1 x (hm w p))
  ]

  pub execute-Ends :
      {Y : Type 0} (R : Result Y × World A → Type 0) (g : Db A → Result (Db A))
      (k : Unit {0} → Act A Y) (w : World A) {db : Db A}
      → g w.db ≡ ok db
      → R (k tt (record w { db = db }))
      → R ((execute g >>= k) w)
  execute-Ends R g k w e h = rw (bind-ok (execute g) k w (execute-ok g w e)) h

  pub if-Ends :
      {X : Type 0} (P : World A → Type 0) (R : Result X × World A → Type 0) (b : Bool)
      (m n : Act A X)
      → Ends P R m
      → Ends P R n
      → Ends P R (if b then m else n)
  if-Ends P R true m n hm hn = hm
  if-Ends P R false m n hm hn = hn

  pub notify-pure :
      {Y : Type 0} (n : Notice A) (y : Y) (w : World A)
      → (notify n >> pure y) w ≡ (ok y, record w { notices = n ∷ w.notices })
  unfolding ◌>>=◌
  notify-pure n y w = refl

  pub if-Leads :
      {X : Type 0} (P Q : World A → Type 0) (b : Bool) (m n : Act A X)
      → (b ≡ true → Leads P Q m)
      → (b ≡ false → Leads P Q n)
      → Leads P Q (if b then m else n)
  if-Leads P Q true m n hm hn = hm refl
  if-Leads P Q false m n hm hn = hn refl

module _ {A : Type 0} (P : World A → Type 0) where
  abbrev pub Keeps : {X : Type 0} → Act A X → Type 0
  Keeps m = (w : World A) → P w → P (m w).1

  pub bind-Keeps :
      {X Y : Type 0} (m : Act A X) (k : X → Act A Y)
      → Keeps m
      → ((x : X) → Keeps (k x))
      → Keeps (m >>= k)
  bind-Keeps m k hm hk = bind-Leads P P P m k hm (λ w p. p) hk

  pub execute-Keeps :
      (g : Db A → Result (Db A))
      → ((w : World A) (db : Db A) → P w → g w.db ≡ ok db → P (record w { db = db }))
      → Keeps (execute g)
  execute-Keeps g h w p = elim (Result-cases (g w.db)) [
    | inl (db, e) ↦ rw (e, execute) (h w db p e)
    | inr (x, e) ↦ rw (e, execute) p
  ]

  pub if-Keeps :
      {X : Type 0} (b : Bool) (m n : Act A X) → Keeps m → Keeps n → Keeps (if b then m else n)
  if-Keeps true m n hm hn = hm
  if-Keeps false m n hm hn = hn
