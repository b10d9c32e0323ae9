-- ===== src/Orders/Outcome.antt =====
-- How placing an order may end, from the risk evaluation to the broker.
use automated_stock_trading.Common.{
  ℕ, ◌≡◌, ◌⊎◌, ◌∙◌, refl, sym, ap, some, Option, false, List, ◌∷◌, Bool-cases, Option-cases, inl,
  inr, first,
}
use mathlib.Core.Option.{some-injective}
use automated_stock_trading.Ledger.{
  Action, Side, filled, pending, rejected, blank, Order, PriceBar, Alert, Db, World, Clock,
  Decimals, Account, Broker, paper, unregistered, last_bar, create_order, save_order, equity,
}
use automated_stock_trading.Ledger.Positions.{IsUnique}
use automated_stock_trading.Risk.{evaluate, get_opening_equity, is_snapshot, risk_profile}
use automated_stock_trading.Risk.Limits.{SameTrading, evaluate-SameTrading, Checked, evaluate_iff}
use automated_stock_trading.Broker.{Result, ok, raised, hold_order, reject, submit_via}
use automated_stock_trading.Broker.Fills.{Traded}
use automated_stock_trading.Broker.Frame.{OthersSame}
use automated_stock_trading.Broker.Outcome.{SameBooks, Ended, submit_order-Ended}
use automated_stock_trading.Orders.{
  is_duplicate, new_order, vet_and_submit, place_side, notify, notified, place_order,
}

-- A filled order: at the latest close, after every risk check on the equity seen before it, with its
-- exchange and its one trade as the only movement of cash, positions and trades.
abbrev pub Executed : Decimals → Clock → ℕ → Side → ℕ → World → Order → Db → Type 0
Executed d t i s q w o y =
    (b : PriceBar) × (last_bar i w.db.bars ≡ some b)
    × (is_duplicate t.now w.account.id i s w.db ≡ false)
    × Checked d t w.account i q b.close s w.db
    × (o.filled_price ≡ some b.close)
    × (o.filled_quantity ≡ q)
    × Traded s d w.account.id i q b.close w.db y
    × OthersSame w.account.id i w.db y
    × (y.trades
        ≡ record { order = w.db.next_order; quantity = q; price = b.close; executed_at = t.now }
          ∷ w.db.trades)

abbrev pub Placed : Decimals → Clock → ℕ → Side → ℕ → World → Result Order × World → Type 0
Placed d t i s q w (raised e, w') = SameBooks w.db w'.db
Placed d t i s q w (ok o, w') =
    ((o.status ≡ rejected) × SameBooks w.db w'.db)
    ⊎ ((o.status ≡ filled) × Executed d t i s q w o w'.db)

-- The same by the action asked for; a HOLD raises and changes nothing at all.
abbrev pub Outcome : Action → Decimals → Clock → ℕ → ℕ → World → Result Order × World → Type 0
Outcome Action.hold d t i q w (r, w') = (r ≡ raised hold_order) × (w' ≡ w)
Outcome Action.buy d t i q w r = Placed d t i Side.buy q w r
Outcome Action.sell d t i q w r = Placed d t i Side.sell q w r

Traded-from :
    (s : Side) (d : Decimals) (a i q price : ℕ) (x x' y : Db)
    → x'.accounts ≡ x.accounts
    → x'.positions ≡ x.positions
    → Traded s d a i q price x' y
    → Traded s d a i q price x y
Traded-from Side.buy d a i q price x x' y k l h = rw (← k, ← l) h
Traded-from Side.sell d a i q price x x' y k l h = rw (← k, ← l) h

pub opening-create_order :
    (d : Decimals) (a : Account) (day : ℕ) (o : Order) (db : Db)
    → (get_opening_equity d a day (create_order o db)).0 ≡ (get_opening_equity d a day db).0
unfolding get_opening_equity create_order equity
opening-create_order d a day o db =
    elim (Option-cases (first (is_snapshot a.id day) db.snapshots)) [
      | inl e ↦ rw (e, get_opening_equity)
      | inr (s, e) ↦ rw (e, get_opening_equity)
    ]

Checked-create_order :
    (d : Decimals) (t : Clock) (a : Account) (i q price : ℕ) (s : Side) (o : Order) (db : Db)
    → Checked d t a i q price s (create_order o db)
    → Checked d t a i q price s db
unfolding create_order equity risk_profile
Checked-create_order d t a i q price Side.sell o db c =
    rw (← opening-create_order d a t.today o db) c
Checked-create_order d t a i q price Side.buy o db c =
    rw (← opening-create_order d a t.today o db) c

module _ (d : Decimals) (t : Clock) (i : ℕ) (s : Side) (q : ℕ) (g : Option ℕ) (w : World)
    (fresh : is_duplicate t.now w.account.id i s w.db ≡ false) (b : PriceBar)
    (bar : last_bar i w.db.bars ≡ some b) where
  abbrev opened : Order
  opened = new_order t w.db w.account.id i g s q pending blank

  of_Ended :
      (x : Db) (r : Result Order × World)
      → Checked d t w.account i q b.close s w.db
      → SameTrading (create_order opened w.db) x
      → Ended d t opened (record { account = w.account; db = x }) r
      → Placed d t i s q w r
  unfolding create_order new_order
  of_Ended x (raised e, w') c same h = record {
    accounts = h.accounts ∙ same.accounts;
    positions = h.positions ∙ same.positions;
    trades = h.trades ∙ same.trades;
  }
  of_Ended x (ok o', w') c same (inl (r, h)) = inl (
    r,
    record {
      accounts = h.accounts ∙ same.accounts;
      positions = h.positions ∙ same.positions;
      trades = h.trades ∙ same.trades;
    },
  )
  of_Ended x (ok o', w') c same (inr (b', e, f, price, amount, (moved, others), trades)) =
      let known : b' ≡ b = some-injective _ _ (sym e ∙ ap (last_bar i) same.bars ∙ bar) in
      inr (
        f,
        (
          b',
          ap (last_bar i) (sym same.bars) ∙ e,
          fresh,
          rw known c,
          price,
          amount,
          Traded-from s d w.account.id i q b'.close w.db x w'.db same.accounts same.positions moved,
          rw (← same.accounts, ← same.positions) others,
          rw (← same.trades) trades,
        ),
      )

  submitted_via :
      (br : Broker) (x : Db)
      → IsUnique w.db.positions
      → Checked d t w.account i q b.close s w.db
      → SameTrading (create_order opened w.db) x
      → Placed d t i s q w (submit_via br d t opened (record { account = w.account; db = x }))
  unfolding submit_via create_order
  submitted_via paper x u c same =
      of_Ended x _ c same (
        submit_order-Ended d t opened (record { account = w.account; db = x })
          (rw same.positions u))
  submitted_via unregistered x u c same = record {
    accounts = same.accounts;
    positions = same.positions;
    trades = same.trades;
  }

  vetted :
      IsUnique w.db.positions
      → Placed d t i s q w
          (vet_and_submit d t opened b.close (record w { db = create_order opened w.db }))
  unfolding vet_and_submit new_order create_order reject save_order
  vetted u =
      let w1 = record w { db = create_order opened w.db } in
      let (approved, why, x) = evaluate d t w.account i s q b.close g w1.db in
      let same : SameTrading w1.db x = evaluate-SameTrading d t w.account i s q b.close g w1.db in
      elim (Bool-cases approved) [
        | inl e ↦ rw e (
            submitted_via w.account.broker x u
              (Checked-create_order d t w.account i q b.close s opened w.db
                ((evaluate_iff d t w.account i s q b.close g w1.db).0 e))
              same)
        | inr e ↦ rw e (
            inl (
              refl,
              record { accounts = same.accounts; positions = same.positions; trades = same.trades },
            ))
      ]

-- Placing an order that is not a HOLD ends in one of the ways of `Placed`.
place_side-Placed :
    (d : Decimals) (t : Clock) (i : ℕ) (s : Side) (q : ℕ) (g : Option ℕ) (w : World)
    → IsUnique w.db.positions
    → Placed d t i s q w (place_side d t i s q g w)
unfolding place_side create_order new_order reject save_order
place_side-Placed d t i s q g w u = elim (Bool-cases (is_duplicate t.now w.account.id i s w.db)) [
  | inl e ↦
      rw (e, place_side) (inl (refl, record { accounts = refl; positions = refl; trades = refl }))
  | inr e ↦
      rw (e, place_side)
        (elim (Option-cases (last_bar i w.db.bars)) [
          | inl n ↦ rw n (inl (refl, record { accounts = refl; positions = refl; trades = refl }))
          | inr (b, n) ↦ rw n (vetted d t i s q g w e b n u)
        ])
]

Traded-alerts :
    (s : Side) (d : Decimals) (a i q price : ℕ) (x y : Db) (sent : List Alert)
    → Traded s d a i q price x y
    → Traded s d a i q price x (record y { alerts = sent })
Traded-alerts Side.buy d a i q price x y sent h = h
Traded-alerts Side.sell d a i q price x y sent h = h

notified-Placed :
    (d : Decimals) (t : Clock) (i : ℕ) (s : Side) (q : ℕ) (w : World) (r : Result Order × World)
    → Placed d t i s q w r
    → Placed d t i s q w (notified r)
unfolding notified notify
notified-Placed d t i s q w (raised e, w') h = h
notified-Placed d t i s q w (ok o, w') (inl h) =
    inl (h.0, record { accounts = h.1.accounts; positions = h.1.positions; trades = h.1.trades })
notified-Placed d t i s q w (ok o, w')
      (inr (f, (b, bar, fresh, c, price, amount, moved, others, trades))) =
    inr (
      f,
      (
        b,
        bar,
        fresh,
        c,
        price,
        amount,
        Traded-alerts s d w.account.id i q b.close w.db w'.db _ moved,
        others,
        trades,
      ),
    )

-- With one row for each position, placing an order either raises or rejects it, and then cash,
-- positions and trades are unchanged, or fills it, and then it was no duplicate, passed every risk
-- check at the latest close, and its exchange and one trade are all that moved.
pub place_order-Placed :
    (d : Decimals) (t : Clock) (i : ℕ) (a : Action) (q : ℕ) (g : Option ℕ) (w : World)
    → IsUnique w.db.positions
    → Outcome a d t i q w (place_order d t i a q g w)
unfolding place_order
place_order-Placed d t i Action.hold q g w u = (refl, refl)
place_order-Placed d t i Action.buy q g w u =
    notified-Placed d t i Side.buy q w (place_side d t i Side.buy q g w)
      (place_side-Placed d t i Side.buy q g w u)
place_order-Placed d t i Action.sell q g w u =
    notified-Placed d t i Side.sell q w (place_side d t i Side.sell q g w)
      (place_side-Placed d t i Side.sell q g w u)
