-- ===== src/Cycle/Invariant.antt =====
-- A trading cycle keeps the books, whatever the strategies do and wherever a round raises.
use automated_stock_trading.Common.{
  ℕ, ◌<◌, ◌≡◌, refl, none, some, Option, List, [], ◌∷◌, arith, Bool-cases, Option-cases, inl, inr,
  ◌==◌, ◌⊎◌,
}
use automated_stock_trading.Ledger.{Action, Signal, Account, Order, Db, World, Clock, Decimals}
use automated_stock_trading.Broker.{Result, ok, raised}
use automated_stock_trading.Broker.Invariant.{IsBook}
use automated_stock_trading.Orders.{place_order}
use automated_stock_trading.Orders.Invariant.{place_order-IsBook}
use automated_stock_trading.Cycle.{
  Strategy, Generator, load_bars, last_signal, determine_quantity, lifted, act_with, act_on,
  act_on_last, run_one, collect, run_instruments, active_strategies, run_strategies,
  run_trading_cycle,
}

List-cases {ℓ} : {A : Type ℓ} (l : List A) → (l ≡ []) ⊎ ((x : A) × (xs : List A) × (l ≡ x ∷ xs))
List-cases [] = inl refl
List-cases (x ∷ xs) = inr (x, xs, refl)

-- A property of the world that every order keeps is kept by a round.
module _ (P : World → Type 0) (d : Decimals) (t : Clock) (g : Strategy)
    (keep : (i : ℕ) (a : Action) (q : ℕ) (w : World)
      → 0 < q
      → P w
      → P (place_order d t i a q (some g.id) w).1) where
  lifted_keeps : (r : Result Order × World) → P r.1 → P (lifted r).1
  lifted_keeps (ok o, w) h = h
  lifted_keeps (raised e, w) h = h

  act_with_keeps :
      (i : ℕ) (a : Action) (r : Result ℕ) (w : World) → P w → P (act_with d t g i a r w).1
  unfolding act_with
  act_with_keeps i a (raised e) w h = h
  act_with_keeps i a (ok q) w h = elim (Bool-cases (q == 0)) [
    | inl e ↦ rw e h
    | inr e ↦
        rw e (lifted_keeps (place_order d t i a q (some g.id) w) (keep i a q w (ground arith) h))
  ]

  act_on_keeps : (i : ℕ) (a : Action) (w : World) → P w → P (act_on d t g i a w).1
  unfolding act_on
  act_on_keeps i Action.hold w h = h
  act_on_keeps i Action.buy w h =
      act_with_keeps i Action.buy (determine_quantity g i Action.buy w.account w.db) w h
  act_on_keeps i Action.sell w h =
      act_with_keeps i Action.sell (determine_quantity g i Action.sell w.account w.db) w h

  act_on_last_keeps : (i : ℕ) (s : Option Signal) (w : World) → P w → P (act_on_last d t g i s w).1
  unfolding act_on_last
  act_on_last_keeps i none w h = h
  act_on_last_keeps i (some s) w h = act_on_keeps i s.action w h

  pub run_one_keeps :
      (generate : Generator) (i : ℕ) (w : World) → P w → P (run_one d t g generate i w).1
  unfolding run_one
  run_one_keeps generate i w h = elim (List-cases (load_bars i w.db.bars)) [
    | inl e ↦ rw (e, run_one) h
    | inr (b, bs, e) ↦
        rw (e, run_one)
          (elim (Option-cases (generate (b ∷ bs))) [
            | inl n ↦ rw n h
            | inr (ss, n) ↦ rw n (act_on_last_keeps i (last_signal ss) w h)
          ])
  ]

module _ (P : Db → Type 0) (d : Decimals)
    (keep : (t : Clock) (g : Option ℕ) (i : ℕ) (a : Action) (q : ℕ) (w : World)
      → 0 < q
      → P w.db
      → P (place_order d t i a q g w).1.db) where
  run_instruments_keeps :
      (t : ℕ → Clock) (g : Strategy) (generate : Generator) (is ids : List ℕ) (w : World)
      → P w.db
      → P (run_instruments d t g generate is ids w).1.db
  unfolding run_instruments
  run_instruments_keeps t g generate [] ids w h = h
  run_instruments_keeps t g generate (i ∷ is) ids w h =
      let (r, w') = run_one d (t i) g generate i w in
      run_instruments_keeps t g generate is (collect r ids) w'
        (run_one_keeps (λ v. P v.db) d (t i) g (keep (t i) (some g.id)) generate i w h)

  pub run_strategies_keeps :
      (t : ℕ → ℕ → Clock) (build : Strategy → Option Generator) (gs : List (Strategy × Account))
      (ids : List ℕ) (db : Db)
      → P db
      → P (run_strategies d t build gs ids db).1
  unfolding run_strategies
  run_strategies_keeps t build [] ids db h = h
  run_strategies_keeps t build ((g, a) ∷ gs) ids db h = elim (Option-cases (build g)) [
    | inl e ↦ rw (e, run_strategies) (run_strategies_keeps t build gs ids db h)
    | inr (generate, e) ↦
        let w : World = record { account = a; db = db } in
        let (ids', w') = run_instruments d (t g.id) g generate g.instruments ids w in
        rw (e, run_strategies)
          (run_strategies_keeps t build gs ids' w'.db
            (run_instruments_keeps (t g.id) g generate g.instruments ids w h))
  ]

-- A whole cycle keeps the books, whatever the strategies signal and wherever one of them raises.
pub run_trading_cycle-IsBook :
    (d : Decimals) (t : ℕ → ℕ → Clock) (build : Strategy → Option Generator) (gs : List Strategy)
    (db : Db)
    → IsBook db
    → IsBook (run_trading_cycle d t build gs db).1
unfolding run_trading_cycle
run_trading_cycle-IsBook d t build gs db h =
    run_strategies_keeps IsBook d (λ u g i a q w pos b. place_order-IsBook d u i a q g w pos b) t
      build (active_strategies gs db) [] db h
