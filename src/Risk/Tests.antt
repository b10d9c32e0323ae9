-- ===== src/Risk/Tests.antt =====
-- Evaluations on the sample rows.
use automated_stock_trading.Common.{◌≡◌, ◌↔◌, refl, none, some, [], ◌∷◌, true, false}
use automated_stock_trading.Ledger.{Side, Db, equity, find_position, holdings_value}
use automated_stock_trading.Ledger.Samples.{rounding, noon, saver, empty_db}
use automated_stock_trading.Risk.{evaluate}
use automated_stock_trading.Risk.Limits.{Checked, evaluate_iff, evaluate_logs}

evaluate_iff_example :
    ((evaluate rounding noon saver 3 Side.buy 10 520_000 none empty_db).0 ≡ true)
    ↔ Checked rounding noon saver 3 10 520_000 Side.buy empty_db
evaluate_iff_example = evaluate_iff rounding noon saver 3 Side.buy 10 520_000 none empty_db

evaluate_logs_example :
    let (ok, why, db') = evaluate rounding noon saver 3 Side.buy 10 520_000 (some 4) empty_db in
    db'.decisions
    ≡ record {
      account = 1;
      instrument = 3;
      strategy = some 4;
      action = Side.buy;
      quantity = 10;
      approved = ok;
      reason = why;
    }
      ∷ []
evaluate_logs_example = evaluate_logs rounding noon saver 3 Side.buy 10 520_000 (some 4) empty_db

-- The day opened at 50,000 rupees.
abbrev opened_lower : Db
opened_lower = record empty_db {
  snapshots = record { account = 1; date = 20; opening_equity = 500_000_000 } ∷ [];
}

-- The row holds 60,000 rupees, the object 100,000, and 7,800 are offered for: the checks read the object.
stale_object :
    ((evaluate rounding noon saver 3 Side.buy 150 520_000 none opened_lower).0 ≡ true)
    × ((evaluate rounding noon
          (record saver { cash_balance = 600_000_000 })
          3
          Side.buy
          150
          520_000
          none
          opened_lower).0
        ≡ false)
unfolding evaluate equity holdings_value find_position
stale_object = (refl, refl)
