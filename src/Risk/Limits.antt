-- ===== src/Risk/Limits.antt =====
-- What a passed evaluation guarantees, and what an evaluation writes.
use automated_stock_trading.Common.{
  ℕ, ◌+◌, ◌*◌, ◌≤◌, ◌<◌, ◌≡◌, ◌↔◌, ◌⊎◌, Option, true, ◌∷◌, arith, Option-cases, inl, inr, first,
}
use automated_stock_trading.Ledger.{Side, Account, Db, Decimals, Clock, find_position, equity}
use automated_stock_trading.Risk.{
  risk_profile, is_snapshot, get_opening_equity, check_max_daily_loss, existing_value, run_checks,
  evaluate,
}

-- An evaluation writes snapshots and decisions, and no other table.
pub record SameTrading (x y : Db) : Type 0 where
  pub accounts : y.accounts ≡ x.accounts
  pub profiles : y.profiles ≡ x.profiles
  pub bars : y.bars ≡ x.bars
  pub positions : y.positions ≡ x.positions
  pub orders : y.orders ≡ x.orders
  pub next_order : y.next_order ≡ x.next_order
  pub trades : y.trades ≡ x.trades
  pub alerts : y.alerts ≡ x.alerts

get_opening_equity-SameTrading :
    (d : Decimals) (a : Account) (day : ℕ) (db : Db)
    → SameTrading db (get_opening_equity d a day db).1
unfolding get_opening_equity
get_opening_equity-SameTrading d a day db = ground arith

equity-get_opening_equity :
    (d : Decimals) (a : Account) (day : ℕ) (db : Db)
    → equity a (get_opening_equity d a day db).1 ≡ equity a db
unfolding get_opening_equity equity
equity-get_opening_equity d a day db =
    elim (Option-cases (first (is_snapshot a.id day) db.snapshots)) [
      | inl e ↦ rw (e, get_opening_equity)
      | inr (s, e) ↦ rw (e, get_opening_equity)
    ]

-- `run_checks` gives back the database that `get_opening_equity` left.
run_checks-db :
    (d : Decimals) (t : Clock) (a : Account) (i : ℕ) (s : Side) (q price : ℕ) (db : Db)
    → (run_checks d t a i s q price db).2 ≡ (get_opening_equity d a t.today db).1
unfolding run_checks check_max_daily_loss
run_checks-db d t a i s q price db = ground arith

pub evaluate-SameTrading :
    (d : Decimals) (t : Clock) (a : Account) (i : ℕ) (s : Side) (q price : ℕ) (g : Option ℕ)
    (db : Db)
    → SameTrading db (evaluate d t a i s q price g db).2
unfolding evaluate
evaluate-SameTrading d t a i s q price g db =
    ground
      (arith, run_checks-db d t a i s q price db, get_opening_equity-SameTrading d a t.today db)

-- The daily loss is under its limit, or there was no equity to lose.
abbrev pub LossWithin : (opening now pct : ℕ) → Type 0
LossWithin opening now pct = (opening ≡ 0) ⊎ (opening * 10000 < now * 10000 + pct * opening)

-- What an evaluation that approved has checked.
abbrev pub Checked : Decimals → Clock → Account → ℕ → (quantity price : ℕ) → Side → Db → Type 0
Checked d t a i q price Side.sell db =
    LossWithin (get_opening_equity d a t.today db).0 (equity a db) (risk_profile a db).0
Checked d t a i q price Side.buy db =
    LossWithin (get_opening_equity d a t.today db).0 (equity a db) (risk_profile a db).0
    × (0 < equity a db)
    × ((existing_value (find_position a.id i db.positions) price + q * price) * 10000
        ≤ equity a db * (risk_profile a db).1)

-- An evaluation approves an order exactly when it has checked all this.
pub evaluate_iff :
    (d : Decimals) (t : Clock) (a : Account) (i : ℕ) (s : Side) (q price : ℕ) (g : Option ℕ)
    (db : Db)
    → ((evaluate d t a i s q price g db).0 ≡ true) ↔ Checked d t a i q price s db
unfolding evaluate
evaluate_iff d t a i Side.sell q price g db = (
  λ h. ground (arith, equity-get_opening_equity d a t.today db),
  λ h. ground (arith, equity-get_opening_equity d a t.today db),
)
evaluate_iff d t a i Side.buy q price g db = (
  λ h. ground (
    arith,
    equity-get_opening_equity d a t.today db,
    get_opening_equity-SameTrading d a t.today db,
  ),
  λ h. ground (
    arith,
    equity-get_opening_equity d a t.today db,
    get_opening_equity-SameTrading d a t.today db,
  ),
)

-- Each evaluation adds exactly one row to the audit trail, with its verdict.
pub evaluate_logs :
    (d : Decimals) (t : Clock) (a : Account) (i : ℕ) (s : Side) (q price : ℕ) (g : Option ℕ)
    (db : Db)
    → let (ok, why, db') = evaluate d t a i s q price g db in
      db'.decisions
      ≡ record {
        account = a.id;
        instrument = i;
        strategy = g;
        action = s;
        quantity = q;
        approved = ok;
        reason = why;
      }
        ∷ db.decisions
unfolding evaluate get_opening_equity
evaluate_logs d t a i s q price g db = ground (arith, run_checks-db d t a i s q price db)
