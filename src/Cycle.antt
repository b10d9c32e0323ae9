-- ===== src/Cycle.antt =====
-- The trading cycle: execution/tasks.py, with the `Strategy` rows of strategies/models.py. What a
-- registered class makes of its parameters is a parameter here, as BaseStrategy is the one interface
-- that the cycle knows: building may raise, and so may generating signals (`none`).
pub mod Sales
pub mod Invariant
mod Tests
use automated_stock_trading.Common.{
  ℕ, Bool, true, false, Option, none, some, List, [], ◌∷◌, ◌++◌, ltb, ◌==◌, if◌then◌else◌,
}
use automated_stock_trading.Ledger.{
  Action, Signal, PriceBar, Account, Order, Db, World, Clock, Decimals, find_position,
}
use automated_stock_trading.Broker.{Result, ok, raised, strategy_failed, quantity_malformed}
use automated_stock_trading.Orders.{place_order}

-- `DEFAULT_ORDER_QUANTITY`
abbrev pub default_order_quantity : ℕ
default_order_quantity = 100

-- `params.get("order_quantity")`, by what `int` makes of it.
pub data Param : Type 0 where
  missing negative malformed : Param
  whole : ℕ → Param

-- `strategies.models.Strategy`
pub record Strategy : Type 0 where
  pub id : ℕ
  pub is_active : Bool
  pub account : Option ℕ
  pub instruments : List ℕ
  pub order_quantity : Param

-- An object of a strategy class: `generate_signals`.
abbrev pub Generator : Type 0
Generator = List PriceBar → Option (List Signal)

-- A bar put in its place in the order of time.
insert_bar : PriceBar → List PriceBar → List PriceBar
insert_bar b [] = b ∷ []
insert_bar b (c ∷ cs) = if ltb c.timestamp b.timestamp then c ∷ insert_bar b cs else b ∷ c ∷ cs

-- `_load_bars`: the bars of an instrument, oldest first.
unfoldable pub load_bars : ℕ → List PriceBar → List PriceBar
unfolding insert_bar
load_bars i [] = []
load_bars i (b ∷ bs) =
    let rest = load_bars i bs in if b.instrument == i then insert_bar b rest else rest

-- `signals[-1]`, if there is one.
unfoldable pub last_signal : List Signal → Option Signal
last_signal [] = none
last_signal (s ∷ []) = some s
last_signal (s ∷ t ∷ ss) = last_signal (t ∷ ss)

-- `_determine_quantity`; a negative quantity is given as 0, since only `<= 0` is asked of it.
unfoldable pub determine_quantity : Strategy → ℕ → Action → Account → Db → Result ℕ
determine_quantity g i Action.sell a db = elim (find_position a.id i db.positions) [
  | none ↦ ok 0
  | some p ↦ ok p.quantity
]
determine_quantity g i _ a db = elim g.order_quantity [
  | missing ↦ ok default_order_quantity
  | negative ↦ ok 0
  | malformed ↦ raised quantity_malformed
  | whole n ↦ ok n
]

abbrev pub lifted : Result Order × World → Result (Option Order) × World
lifted (ok o, w) = (ok (some o), w)
lifted (raised e, w) = (raised e, w)

-- `_run_one` once the quantity is known, or has raised.
unfoldable pub act_with :
    Decimals → Clock → Strategy → ℕ → Action → Result ℕ → World → Result (Option Order) × World
act_with d t g i a (raised e) w = (raised e, w)
act_with d t g i a (ok q) w =
    if q == 0 then (ok none, w) else lifted (place_order d t i a q (some g.id) w)

-- `_run_one` from the action of the last signal on.
unfoldable pub act_on :
    Decimals → Clock → Strategy → ℕ → Action → World → Result (Option Order) × World
unfolding act_with determine_quantity
act_on d t g i Action.hold w = (ok none, w)
act_on d t g i a w = act_with d t g i a (determine_quantity g i a w.account w.db) w

-- The last signal, or nothing to do.
unfoldable pub act_on_last :
    Decimals → Clock → Strategy → ℕ → Option Signal → World → Result (Option Order) × World
unfolding act_on
act_on_last d t g i none w = (ok none, w)
act_on_last d t g i (some s) w = act_on d t g i s.action w

-- `_run_one`
unfoldable pub run_one :
    Decimals → Clock → Strategy → Generator → ℕ → World → Result (Option Order) × World
unfolding load_bars last_signal act_on_last
run_one d t g generate i w = elim (load_bars i w.db.bars) [
  | [] ↦ (ok none, w)
  | b ∷ bs ↦ elim (generate (b ∷ bs)) [
    | none ↦ (raised strategy_failed, w)
    | some signals ↦ act_on_last d t g i (last_signal signals) w
  ]
]

-- The `except` and the test of the inner loop: the numbers of the orders placed, and the world.
abbrev pub collect : Result (Option Order) → List ℕ → List ℕ
collect (ok (some o)) ids = ids ++ (o.id ∷ [])
collect _ ids = ids

-- The inner loop, over the instruments of one strategy. The object of its account in memory is the
-- same throughout. Each round has a clock of its own.
unfoldable pub run_instruments :
    Decimals → (ℕ → Clock) → Strategy → Generator → List ℕ → List ℕ → World → List ℕ × World
unfolding run_one
run_instruments d t g generate [] ids w = (ids, w)
run_instruments d t g generate (i ∷ is) ids w =
    let (r, w') = run_one d (t i) g generate i w in
    run_instruments d t g generate is (collect r ids) w'

-- The query of the outer loop: the active strategies with an account, each with an account object
-- of its own, read before any order is placed.
unfoldable pub active_strategies : List Strategy → Db → List (Strategy × Account)
active_strategies [] db = []
active_strategies (g ∷ gs) db =
    let rest = active_strategies gs db in
    if g.is_active
    then (elim g.account [
      | none ↦ rest
      | some a ↦ elim (db.accounts a) [ none ↦ rest | some row ↦ (g, record row { id = a }) ∷ rest ]
    ])
    else rest

-- The outer loop.
unfoldable pub run_strategies :
    Decimals
    → (ℕ → ℕ → Clock)
    → (Strategy → Option Generator)
    → List (Strategy × Account)
    → List ℕ
    → Db
    → List ℕ × Db
unfolding run_instruments
run_strategies d t build [] ids db = (ids, db)
run_strategies d t build ((g, a) ∷ gs) ids db = elim (build g) [
  | none ↦ run_strategies d t build gs ids db
  | some generate ↦
      let (ids', w) =
        run_instruments d (t g.id) g generate g.instruments ids (record { account = a; db = db }) in
      run_strategies d t build gs ids' w.db
]

-- `run_trading_cycle`
unfoldable pub run_trading_cycle :
    Decimals → (ℕ → ℕ → Clock) → (Strategy → Option Generator) → List Strategy → Db → List ℕ × Db
unfolding active_strategies run_strategies
run_trading_cycle d t build strategies db =
    run_strategies d t build (active_strategies strategies db) [] db
